-- ===== src/Orders/Sequences.antt =====
-- Each operation as the sequence of its transactions, so that what every transaction keeps, the
-- operation keeps, also where it stops halfway with an error.
use social_media_manager.Prelude.{
  ℕ, String, ◌≡◌, Bool, true, false, List, ◌||◌, Option-cases, Bool-cases, inl, inr,
}
use social_media_manager.Prelude.Result.{Result, ok, err}
use social_media_manager.Inventory.Ledger.{deduct, Sheets, Net}
use social_media_manager.Inventory.Request.{Item}
use social_media_manager.Inventory.Update.{Outcome}
use social_media_manager.Reservation.{
  Failure, uncertain, failed, Attempt, order_operation_applied, restore_order_inventory,
  deduct_order_inventory,
}
use social_media_manager.Orders.Table.{
  InventoryStatus, reservation_pending, reserved, legacy_unknown, reservation_failed,
  release_pending, released, Order, Store, is_paid, find_order,
}
use social_media_manager.Orders.Reserve.{
  Draft, Call, Claimed, OrderError, claim_order, after_deduction, reserve_claimed,
  reserve_after_claim, place_order,
}
use social_media_manager.Orders.Release.{
  Plan, restore_now, ask_ledger, nothing_held, plan_release, is_nothing_held, mark_release,
  after_restore, put_back, after_lookup, give_back, finish_release, release_inventory_reservation,
}
use social_media_manager.Orders.Delete.{finish_delete, delete_order, restored_count}
use social_media_manager.Orders.Rows.{id-find}
use social_media_manager.Orders.Interleaving.{
  claim, confirm, fail, mark, finish, delete, mutate, Reach, here, next,
}

-- What the spreadsheet, the mark and the last transaction keep, a release keeps.
module _ {A : Type 0} (P : Store → Type 0) (id : String)
    (continue : Store → Result Failure A × Store)
    (mutated : (sheets : Sheets) (s : Store) → P s → P (record s { sheets = sheets }))
    (marked : (s : Store) → P s → P (mark_release id s))
    (continued : (s : Store) → P s → P (continue s).1) where
  after_restore-keeps :
      (s : Store) (o : Result Failure (Unit {0}) × Sheets) → P s → P (after_restore s continue o).1
  unfolding after_restore
  after_restore-keeps s (ok u, sheets) h =
      continued (record s { sheets = sheets }) (mutated sheets s h)
  after_restore-keeps s (err e, sheets) h = mutated sheets s h

  put_back-keeps :
      (attempt : Attempt) (items : List Item) (s : Store)
      → P s
      → P (put_back attempt id items s continue).1
  unfolding put_back
  put_back-keeps attempt items s h =
      after_restore-keeps s (restore_order_inventory attempt id items s.sheets) h

  after_lookup-keeps :
      (attempt : Attempt) (items : List Item) (s : Store) (o : Outcome Bool)
      → P s
      → P (after_lookup attempt id items s continue o).1
  unfolding after_lookup
  after_lookup-keeps attempt items s (err e, sheets) h = mutated sheets s h
  after_lookup-keeps attempt items s (ok true, sheets) h =
      put_back-keeps attempt items (mark_release id (record s { sheets = sheets }))
        (marked (record s { sheets = sheets }) (mutated sheets s h))
  after_lookup-keeps attempt items s (ok false, sheets) h =
      continued (record s { sheets = sheets }) (mutated sheets s h)

  pub give_back-keeps :
      (plan : Plan) (net : Net) (attempt : Attempt) (row : Order) (s : Store)
      → row.id ≡ id
      → P s
      → P (give_back plan net attempt row s continue).1
  unfolding give_back
  give_back-keeps restore_now net attempt row s same h =
      rw same (put_back-keeps attempt row.terms.items (mark_release id s) (marked s h))
  give_back-keeps ask_ledger net attempt row s same h = rw same (
      after_lookup-keeps attempt row.terms.items s
        (order_operation_applied net id row.terms.items deduct s.sheets) h)
  give_back-keeps nothing_held net attempt row s same h = continued s h

pub release-Reach :
    (net : Net) (attempt : Attempt) (id : String) (s t : Store)
    → Reach s t
    → Reach s (release_inventory_reservation net attempt id t).1
unfolding release_inventory_reservation
release-Reach net attempt id s t h = elim (Option-cases (find_order id t.orders)) [
  | inl gone ↦ rw (gone, release_inventory_reservation) h
  | inr (row, found) ↦
      elim (Bool-cases
        (is_paid row.payment_status || is_nothing_held (plan_release row.inventory_status))) [
          | inl kept ↦ rw (found, release_inventory_reservation, kept) h
          | inr held ↦
              rw (found, release_inventory_reservation, held)
                (give_back-keeps (Reach s) id (finish_release id)
                  (λ sheets u k. next k (mutate sheets u)) (λ u k. next k (mark id u))
                  (λ u k. next k (finish id u)) (plan_release row.inventory_status) net attempt row
                  t (id-find id t.orders found) h)
        ]
]

pub delete-Reach :
    (net : Net) (attempt : Attempt) (id : String) (s : Store)
    → Reach s (delete_order net attempt id s).1
unfolding delete_order
delete-Reach net attempt id s = elim (Option-cases (find_order id s.orders)) [
  | inl gone ↦ rw (gone, delete_order) here
  | inr (row, found) ↦
      let restored =
        restored_count (plan_release row.inventory_status) row
          (order_operation_applied net row.id row.terms.items deduct s.sheets) in
      rw (found, delete_order)
        (give_back-keeps (Reach s) id (finish_delete id restored)
          (λ sheets u k. next k (mutate sheets u)) (λ u k. next k (mark id u))
          (λ u k. next k (delete id restored u)) (plan_release row.inventory_status) net attempt row
          s (id-find id s.orders found) here)
]

after_deduction-Reach :
    (c : Claimed) (now : ℕ) (s t : Store) (o : Result Failure (Unit {0}) × Sheets)
    → Reach s t
    → Reach s (after_deduction c now t o).1
unfolding after_deduction
after_deduction-Reach c now s t (ok u, sheets) h =
    next (next h (mutate sheets t)) (confirm c now (record t { sheets = sheets }))
after_deduction-Reach c now s t (err uncertain, sheets) h = next h (mutate sheets t)
after_deduction-Reach c now s t (err (failed e), sheets) h =
    next (next h (mutate sheets t)) (fail c.order.id (record t { sheets = sheets }))

reserve_claimed-Reach :
    (d : Draft) (call : Call) (c : Claimed) (i : InventoryStatus) (s t : Store)
    → Reach s t
    → Reach s (reserve_claimed d call c i t).1
unfolding reserve_claimed
reserve_claimed-Reach d call c reserved s t h = h
reserve_claimed-Reach d call c reservation_pending s t h =
    after_deduction-Reach c call.now s t
      (deduct_order_inventory call.attempt c.order.id d.terms.items t.sheets) h
reserve_claimed-Reach d call c legacy_unknown s t h = h
reserve_claimed-Reach d call c reservation_failed s t h = h
reserve_claimed-Reach d call c release_pending s t h = h
reserve_claimed-Reach d call c released s t h = h

reserve_after_claim-Reach :
    (d : Draft) (call : Call) (s : Store) (o : Result OrderError Claimed × Store)
    → Reach s o.1
    → Reach s (reserve_after_claim d call o).1
unfolding reserve_after_claim
reserve_after_claim-Reach d call s (ok c, t) h =
    reserve_claimed-Reach d call c c.order.inventory_status s t h
reserve_after_claim-Reach d call s (err e, t) h = h

pub place_order-Reach : (d : Draft) (call : Call) (s : Store) → Reach s (place_order d call s).1
unfolding place_order
place_order-Reach d call s =
    reserve_after_claim-Reach d call s (claim_order d call s) (next here (claim d call s))

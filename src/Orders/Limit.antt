-- ===== src/Orders/Limit.antt =====
-- `create_order` adds no row beyond the limit on unpaid orders.
use social_media_manager.Prelude.{
  ℕ, ◌≤◌, String, ◌≡◌, refl, some, List, [], ◌∷◌, leb, if◌then◌else◌, arith, Option-cases,
  Bool-cases, inl, inr, eq_iff,
}
use social_media_manager.Prelude.Result.{Result, ok, err}
use social_media_manager.Inventory.Ledger.{Sheets}
use social_media_manager.Reservation.{Failure, uncertain, failed, deduct_order_inventory}
use social_media_manager.Orders.Table.{
  InventoryStatus, reservation_pending, reserved, legacy_unknown, reservation_failed,
  release_pending, released, Order, Store, find_order, update_order,
}
use social_media_manager.Orders.Queries.{active_unpaid, get_active_unpaid_order_count}
use social_media_manager.Orders.Reserve.{
  Draft, Call, Claimed, OrderError, max_active_unpaid_orders, find_existing, claim_order,
  mark_failed_row, mark_inventory_reservation_failed, confirm_row, confirm_found,
  confirm_reservation, after_deduction, reserve_claimed, reserve_after_claim, place_order,
}
use social_media_manager.Orders.Rows.{sum, sum-update}

-- What a row adds to the count.
abbrev weight : String → Order → ℕ
weight customer o = if active_unpaid customer o then 1 else 0

count-sum :
    (customer : String) (os : List Order)
    → get_active_unpaid_order_count customer os ≡ sum (weight customer) os
unfolding get_active_unpaid_order_count
count-sum customer [] = refl
count-sum customer (o ∷ os) = ground (arith, count-sum customer os)

fail-weight :
    (customer id : String) (os : List Order)
    → sum (weight customer) (update_order id (λ o. mark_failed_row o.inventory_status o) os)
      ≤ sum (weight customer) os
unfolding update_order
fail-weight customer id [] = omega arith
fail-weight customer id (o ∷ os) = ground (arith, fail-weight customer id os)

confirm-weight :
    (customer id : String) (now : ℕ) (row : Order) (os : List Order)
    → find_order id os ≡ some row
    → row.inventory_status ≡ reservation_pending
    → sum (weight customer) (update_order id (confirm_row now) os) ≡ sum (weight customer) os
confirm-weight customer id now row os found state =
    ground (arith, state, sum-update (weight customer) id (confirm_row now) os row found)

-- The count is within the limit.
abbrev pub WithinLimit : String → Store → Type 0
WithinLimit customer s = sum (weight customer) s.orders ≤ max_active_unpaid_orders

confirm_found-limit :
    (customer : String) (c : Claimed) (now : ℕ) (row : Order) (i : InventoryStatus) (s : Store)
    → find_order c.order.id s.orders ≡ some row
    → row.inventory_status ≡ i
    → WithinLimit customer s
    → WithinLimit customer (confirm_found c now row i s).1
unfolding confirm_found
confirm_found-limit customer c now row reservation_pending s found state h =
    ground (arith, confirm-weight customer c.order.id now row s.orders found state, h)
confirm_found-limit customer c now row reserved s found state h = h
confirm_found-limit customer c now row legacy_unknown s found state h = h
confirm_found-limit customer c now row reservation_failed s found state h = h
confirm_found-limit customer c now row release_pending s found state h = h
confirm_found-limit customer c now row released s found state h = h

confirm-limit :
    (customer : String) (c : Claimed) (now : ℕ) (s : Store)
    → WithinLimit customer s
    → WithinLimit customer (confirm_reservation c now s).1
unfolding confirm_reservation
confirm-limit customer c now s h = elim (Option-cases (find_order c.order.id s.orders)) [
  | inl gone ↦ rw (gone, confirm_reservation) h
  | inr (row, found) ↦
      rw (found, confirm_reservation)
        (confirm_found-limit customer c now row row.inventory_status s found refl h)
]

after_deduction-limit :
    (customer : String) (c : Claimed) (now : ℕ) (s : Store) (o : Result Failure (Unit {0}) × Sheets)
    → WithinLimit customer s
    → WithinLimit customer (after_deduction c now s o).1
unfolding after_deduction mark_inventory_reservation_failed
after_deduction-limit customer c now s (ok u, sheets) h =
    confirm-limit customer c now (record s { sheets = sheets }) h
after_deduction-limit customer c now s (err uncertain, sheets) h = h
after_deduction-limit customer c now s (err (failed e), sheets) h =
    omega (arith, fail-weight customer c.order.id s.orders, h)

claim-limit :
    (customer : String) (d : Draft) (call : Call) (s : Store)
    → WithinLimit customer s
    → WithinLimit customer (claim_order d call s).1
unfolding claim_order
claim-limit customer d call s h = elim (Option-cases (find_existing d call.now s.orders)) [
  | inr (o, found) ↦ rw (found, claim_order) h
  | inl new ↦
      elim (Bool-cases
        (leb max_active_unpaid_orders (get_active_unpaid_order_count d.customer_id s.orders))) [
          | inl full ↦ rw (new, claim_order, full) h
          | inr room ↦
              rw (new, claim_order, room)
                (ground
                  (arith, h, room, eq_iff d.customer_id customer, count-sum d.customer_id s.orders))
        ]
]

reserve_claimed-limit :
    (customer : String) (d : Draft) (call : Call) (c : Claimed) (i : InventoryStatus) (s : Store)
    → WithinLimit customer s
    → WithinLimit customer (reserve_claimed d call c i s).1
unfolding reserve_claimed
reserve_claimed-limit customer d call c reserved s h = h
reserve_claimed-limit customer d call c reservation_pending s h =
    after_deduction-limit customer c call.now s
      (deduct_order_inventory call.attempt c.order.id d.terms.items s.sheets) h
reserve_claimed-limit customer d call c legacy_unknown s h = h
reserve_claimed-limit customer d call c reservation_failed s h = h
reserve_claimed-limit customer d call c release_pending s h = h
reserve_claimed-limit customer d call c released s h = h

reserve_after_claim-limit :
    (customer : String) (d : Draft) (call : Call) (o : Result OrderError Claimed × Store)
    → WithinLimit customer o.1
    → WithinLimit customer (reserve_after_claim d call o).1
unfolding reserve_after_claim
reserve_after_claim-limit customer d call (ok c, t) h =
    reserve_claimed-limit customer d call c c.order.inventory_status t h
reserve_after_claim-limit customer d call (err e, t) h = h

-- No customer gets more active unpaid orders than the limit by creating orders, whether the
-- reservation succeeds, fails or stays unknown.
pub place_order_within_limit :
    (customer : String) (d : Draft) (call : Call) (s : Store)
    → get_active_unpaid_order_count customer s.orders ≤ max_active_unpaid_orders
    → get_active_unpaid_order_count customer (place_order d call s).1.orders
      ≤ max_active_unpaid_orders
unfolding place_order
place_order_within_limit customer d call s h =
    let start : WithinLimit customer s = omega (arith, count-sum customer s.orders, h) in
    let end =
      reserve_after_claim-limit customer d call (claim_order d call s)
        (claim-limit customer d call s start) in
    omega (arith, count-sum customer (place_order d call s).1.orders, end)

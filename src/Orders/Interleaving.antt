-- ===== src/Orders/Interleaving.antt =====
-- The transactions of the order operations as steps: whatever order they run in, under the inventory
-- lock or beside it, the table stays sound and the customers' totals stay accounted for.
use social_media_manager.Prelude.{
  ℕ, String, ◌≡◌, refl, false, not, ◌&&◌, Option, some, All, leb, inl, inr, arith, Option-cases,
  Bool-cases,
}
use mathlib.Core.Path.{subst}
use social_media_manager.Inventory.Ledger.{Sheets}
use social_media_manager.Orders.Table.{
  PaymentStatus, InventoryStatus, reservation_pending, reserved, legacy_unknown, reservation_failed,
  release_pending, released, Order, Store, is_paid, is_backed, find_order, update_order,
  customer_spend_amount,
}
use social_media_manager.Orders.Payment.{
  ProofMetadata, set_applied, totals_after, write_status, apply_status, set_payment_status,
  parse_payment_status, update_order_payment_status,
}
use social_media_manager.Orders.Reserve.{
  Draft, Call, Claimed, claim_order, find_existing, confirm_reservation,
  mark_inventory_reservation_failed, mark_failed_row, confirm_row, confirm_found,
  max_active_unpaid_orders,
}
use social_media_manager.Orders.Release.{mark_release, mark_from, finish_release, release_row}
use social_media_manager.Orders.Delete.{finish_delete}
use social_media_manager.Orders.Shipping.{ship_row, is_valid_shipping, update_order_shipping}
use social_media_manager.Orders.Queries.{get_active_unpaid_order_count}
use social_media_manager.Orders.Rows.{All-update, All-remove}
use social_media_manager.Orders.Outcomes.{set_payment_status-Outcome}
use social_media_manager.Orders.Accounts.{
  IsAccounted, apply_status-IsAccounted, finish_delete-IsAccounted,
}
use social_media_manager.Orders.Transactions.{
  KeepsAccount, update-IsAccounted, mark_failed-KeepsAccount, confirm-KeepsAccount,
  mark_release-KeepsAccount, release-KeepsAccount,
}
use social_media_manager.Orders.Sound.{
  IsSound, new_order-IsSound, confirm-IsSound, mark_failed-IsSound, mark_release-IsSound,
  release-IsSound, status-IsSound,
}

pub data Step : Store → Store → Type 0 where
  pay :
      (id status : String) (note_text : Option String) (proof : Option ProofMetadata) (s : Store)
      → Step s (update_order_payment_status id status note_text proof s).1
  claim : (d : Draft) (call : Call) (s : Store) → Step s (claim_order d call s).1
  confirm : (c : Claimed) (now : ℕ) (s : Store) → Step s (confirm_reservation c now s).1
  fail : (id : String) (s : Store) → Step s (mark_inventory_reservation_failed id s)
  mark : (id : String) (s : Store) → Step s (mark_release id s)
  finish : (id : String) (s : Store) → Step s (finish_release id s).1
  delete : (id : String) (restored : ℕ) (s : Store) → Step s (finish_delete id restored s).1
  ship :
      (id : String) (status tracking : Option String) (s : Store)
      → Step s (update_order_shipping id status tracking s).1
  mutate : (sheets : Sheets) (s : Store) → Step s (record s { sheets = sheets })

pub data Reach (s : Store) : Store → Type 0 where
  here : Reach s s
  next : {t u : Store} → Reach s t → Step t u → Reach s u

pub record IsConsistent (s : Store) : Type 0 where
  pub sound : All IsSound s.orders
  pub accounted : IsAccounted s

paid_rows-IsSound :
    (status : PaymentStatus) (note_text : Option String) (proof : Option ProofMetadata)
    (row : Order) (s : Store)
    → find_order row.id s.orders ≡ some row
    → (is_paid status && not (is_backed row.inventory_status)) ≡ false
    → All IsSound s.orders
    → All IsSound (apply_status status note_text proof row s).orders
unfolding apply_status
paid_rows-IsSound status note_text proof row s found allowed h =
    All-update IsSound row.id
      (λ o. set_applied (totals_after status row) (write_status status note_text proof o)) s.orders
      (λ o e k.
        let same : row ≡ o = ground (arith, found, e) in
        subst
          (λ r.
            IsSound r
            → IsSound
                (set_applied (totals_after status row) (write_status status note_text proof r)))
          same (status-IsSound status note_text proof row allowed) k)
      h

pay-IsConsistent :
    (id : String) (status : PaymentStatus) (note_text : Option String)
    (proof : Option ProofMetadata) (s : Store)
    → IsConsistent s
    → IsConsistent (set_payment_status id status note_text proof s).1
pay-IsConsistent id status note_text proof s h =
    elim (set_payment_status-Outcome id status note_text proof s) [
      | inl refused ↦ rw refused.1 h
      | inr a ↦ rw a.store (record {
        sound = paid_rows-IsSound status note_text proof a.row s a.found_by_row a.allowed h.sound;
        accounted =
            apply_status-IsAccounted status note_text proof a.row s a.found_by_row h.accounted;
      })
    ]

-- A new row counts for no customer.
claim-IsConsistent :
    (d : Draft) (call : Call) (s : Store) → IsConsistent s → IsConsistent (claim_order d call s).1
unfolding claim_order
claim-IsConsistent d call s h = elim (Option-cases (find_existing d call.now s.orders)) [
  | inr (o, found) ↦ rw (found, claim_order) h
  | inl none_found ↦
      elim (Bool-cases
        (leb max_active_unpaid_orders (get_active_unpaid_order_count d.customer_id s.orders))) [
          | inl full ↦ rw (none_found, claim_order, full) h
          | inr room ↦
              rw (none_found, claim_order, room)
                (record {
                  sound = (new_order-IsSound d call, h.sound);
                  accounted = record {
                    totals = λ id c known. ground (arith, h.accounted.totals id c known);
                  };
                })
        ]
]

-- An update of one row that keeps it sound and keeps what it counts for.
row-IsConsistent :
    (id : String) (f : Order → Order) (s : Store)
    → KeepsAccount f
    → ((o : Order) → find_order id s.orders ≡ some o → IsSound o → IsSound (f o))
    → IsConsistent s
    → IsConsistent (record s { orders = update_order id f s.orders })
row-IsConsistent id f s keep sound h = record {
  sound = All-update IsSound id f s.orders sound h.sound;
  accounted = update-IsAccounted id f s keep h.accounted;
}

confirm_found-IsConsistent :
    (c : Claimed) (now : ℕ) (row : Order) (status : InventoryStatus) (s : Store)
    → IsConsistent s
    → IsConsistent (confirm_found c now row status s).1
unfolding confirm_found
confirm_found-IsConsistent c now row reservation_pending s h =
    row-IsConsistent c.order.id (confirm_row now) s (confirm-KeepsAccount now)
      (λ o e k. confirm-IsSound now o k) h
confirm_found-IsConsistent c now row reserved s h = h
confirm_found-IsConsistent c now row legacy_unknown s h = h
confirm_found-IsConsistent c now row reservation_failed s h = h
confirm_found-IsConsistent c now row release_pending s h = h
confirm_found-IsConsistent c now row released s h = h

confirm-IsConsistent :
    (c : Claimed) (now : ℕ) (s : Store)
    → IsConsistent s
    → IsConsistent (confirm_reservation c now s).1
unfolding confirm_reservation
confirm-IsConsistent c now s h = elim (Option-cases (find_order c.order.id s.orders)) [
  | inl gone ↦ rw (gone, confirm_reservation) h
  | inr (row, found) ↦
      rw (found, confirm_reservation)
        (confirm_found-IsConsistent c now row row.inventory_status s h)
]

finish-IsConsistent :
    (id : String) (s : Store) → IsConsistent s → IsConsistent (finish_release id s).1
unfolding finish_release
finish-IsConsistent id s h = elim (Option-cases (find_order id s.orders)) [
  | inl gone ↦ rw (gone, finish_release) h
  | inr (row, found) ↦ elim (Bool-cases (is_paid row.payment_status)) [
    | inl paid ↦ rw (found, finish_release, paid) h
    | inr unpaid ↦
        rw (found, finish_release, unpaid)
          (row-IsConsistent id release_row s release-KeepsAccount
            (λ o e k. release-IsSound o (ground (arith, found, e, unpaid)) k) h)
  ]
]

delete-IsSound :
    (id : String) (restored : ℕ) (s : Store)
    → All IsSound s.orders
    → All IsSound (finish_delete id restored s).1.orders
unfolding finish_delete
delete-IsSound id restored s h = elim (Option-cases (find_order id s.orders)) [
  | inl gone ↦ rw (gone, finish_delete) h
  | inr (row, found) ↦ rw (found, finish_delete) (All-remove IsSound id s.orders h)
]

ship-IsConsistent :
    (id : String) (status tracking : Option String) (s : Store)
    → IsConsistent s
    → IsConsistent (update_order_shipping id status tracking s).1
unfolding update_order_shipping ship_row customer_spend_amount
ship-IsConsistent id status tracking s h = elim (Bool-cases (is_valid_shipping status)) [
  | inr invalid ↦ rw (invalid, update_order_shipping) h
  | inl valid ↦ elim (Option-cases (find_order id s.orders)) [
    | inl gone ↦ rw (valid, update_order_shipping, gone) h
    | inr (row, found) ↦
        rw (valid, update_order_shipping, found)
          (row-IsConsistent id (ship_row status tracking) s
            (record { customer = λ o. refl; applied = λ o. refl; spend = λ o. refl })
            (λ o e k. record { backed = k.backed; counted = k.counted }) h)
  ]
]

update_payment-IsConsistent :
    (id status : String) (note_text : Option String) (proof : Option ProofMetadata) (s : Store)
    → IsConsistent s
    → IsConsistent (update_order_payment_status id status note_text proof s).1
unfolding update_order_payment_status
update_payment-IsConsistent id status note_text proof s h =
    elim (Option-cases (parse_payment_status status)) [
      | inl invalid ↦ rw (invalid, update_order_payment_status) h
      | inr (p, valid) ↦
          rw (valid, update_order_payment_status) (pay-IsConsistent id p note_text proof s h)
    ]

-- Every transaction keeps the store consistent.
pub Step-IsConsistent : {s t : Store} → Step s t → IsConsistent s → IsConsistent t
unfolding mark_inventory_reservation_failed mark_release
Step-IsConsistent (pay id status note_text proof s) h =
    update_payment-IsConsistent id status note_text proof s h
Step-IsConsistent (claim d call s) h = claim-IsConsistent d call s h
Step-IsConsistent (confirm c now s) h = confirm-IsConsistent c now s h
Step-IsConsistent (fail id s) h =
    row-IsConsistent id (λ o. mark_failed_row o.inventory_status o) s mark_failed-KeepsAccount
      (λ o e k. mark_failed-IsSound o k) h
Step-IsConsistent (mark id s) h =
    row-IsConsistent id (λ o. mark_from o.inventory_status o) s mark_release-KeepsAccount
      (λ o e k. mark_release-IsSound o k) h
Step-IsConsistent (finish id s) h = finish-IsConsistent id s h
Step-IsConsistent (delete id restored s) h = record {
  sound = delete-IsSound id restored s h.sound;
  accounted = finish_delete-IsAccounted id restored s h.accounted;
}
Step-IsConsistent (ship id status tracking s) h = ship-IsConsistent id status tracking s h
Step-IsConsistent (mutate sheets s) h = record {
  sound = h.sound;
  accounted = record { totals = h.accounted.totals };
}

-- Whatever transactions ran, in whatever order, from a consistent store: the row of a paid order says
-- that its stock is held, was never tracked or is being released; it is counted for its customer exactly when it is
-- paid and has one; and each customer's totals are the number and the amounts of the orders that are
-- counted for it.
pub Reach-IsConsistent : {s t : Store} → Reach s t → IsConsistent s → IsConsistent t
Reach-IsConsistent here h = h
Reach-IsConsistent (next before step) h = Step-IsConsistent step (Reach-IsConsistent before h)

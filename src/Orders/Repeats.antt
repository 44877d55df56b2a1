-- ===== src/Orders/Repeats.antt =====
-- `create_order` adds no row for a request that an open order already answers.
use social_media_manager.Prelude.{
  ℕ, String, ◌≡◌, refl, Bool, true, false, some, List, [], ◌∷◌, leb, filter, any, length, arith,
  Option-cases, Bool-cases, inl, inr,
}
use social_media_manager.Prelude.Result.{Result, ok, err}
use social_media_manager.Inventory.Ledger.{Sheets}
use social_media_manager.Reservation.{Failure, uncertain, failed, deduct_order_inventory}
use social_media_manager.Orders.Table.{
  InventoryStatus, reservation_pending, reserved, legacy_unknown, reservation_failed,
  release_pending, released, Order, Store, find_order, update_order,
}
use social_media_manager.Orders.Queries.{latest, later_of}
use social_media_manager.Orders.Reserve.{
  Draft, Call, Claimed, repeats, find_existing, claim_order, mark_failed_row,
  mark_inventory_reservation_failed, confirm_row, confirm_found, confirm_reservation,
  after_deduction, reserve_claimed, reserve_after_claim, place_order,
}

-- The rows' number does not change in what follows the claim.
length-update :
    (id : String) (f : Order → Order) (os : List Order) → length (update_order id f os) ≡ length os
unfolding update_order
length-update id f [] = refl
length-update id f (o ∷ os) = ground (arith, length-update id f os)

confirm_found-length :
    (c : Claimed) (now : ℕ) (row : Order) (i : InventoryStatus) (s : Store)
    → length (confirm_found c now row i s).1.orders ≡ length s.orders
unfolding confirm_found
confirm_found-length c now row reservation_pending s =
    length-update c.order.id (confirm_row now) s.orders
confirm_found-length c now row reserved s = refl
confirm_found-length c now row legacy_unknown s = refl
confirm_found-length c now row reservation_failed s = refl
confirm_found-length c now row release_pending s = refl
confirm_found-length c now row released s = refl

confirm-length :
    (c : Claimed) (now : ℕ) (s : Store)
    → length (confirm_reservation c now s).1.orders ≡ length s.orders
unfolding confirm_reservation
confirm-length c now s = elim (Option-cases (find_order c.order.id s.orders)) [
  | inl gone ↦ rw (gone, confirm_reservation) refl
  | inr (row, found) ↦
      rw (found, confirm_reservation) (confirm_found-length c now row row.inventory_status s)
]

after_deduction-length :
    (c : Claimed) (now : ℕ) (s : Store) (o : Result Failure (Unit {0}) × Sheets)
    → length (after_deduction c now s o).1.orders ≡ length s.orders
unfolding after_deduction mark_inventory_reservation_failed
after_deduction-length c now s (ok u, sheets) = confirm-length c now (record s { sheets = sheets })
after_deduction-length c now s (err uncertain, sheets) = refl
after_deduction-length c now s (err (failed e), sheets) =
    length-update c.order.id (λ o. mark_failed_row o.inventory_status o) s.orders

reserve_claimed-length :
    (d : Draft) (call : Call) (c : Claimed) (i : InventoryStatus) (s : Store)
    → length (reserve_claimed d call c i s).1.orders ≡ length s.orders
unfolding reserve_claimed
reserve_claimed-length d call c reserved s = refl
reserve_claimed-length d call c reservation_pending s =
    after_deduction-length c call.now s
      (deduct_order_inventory call.attempt c.order.id d.terms.items s.sheets)
reserve_claimed-length d call c legacy_unknown s = refl
reserve_claimed-length d call c reservation_failed s = refl
reserve_claimed-length d call c release_pending s = refl
reserve_claimed-length d call c released s = refl

latest-some : (o : Order) (os : List Order) → (best : Order) × (latest (o ∷ os) ≡ some best)
unfolding latest later_of
latest-some o os = elim (Option-cases (latest os)) [
  | inl empty ↦ (o, rw (empty, latest, later_of) refl)
  | inr (best, e) ↦ elim (Bool-cases (leb best.created_at o.created_at)) [
    | inl later ↦ (o, rw (e, latest, later_of, later) refl)
    | inr older ↦ (best, rw (e, latest, later_of, older) refl)
  ]
]

existing_found :
    (f : Order → Bool) (os : List Order)
    → any f os ≡ true
    → (best : Order) × (latest (filter f os) ≡ some best)
existing_found f [] h = absurd (cc)
existing_found f (o ∷ os) h = elim (Bool-cases (f o)) [
  | inl hit ↦ rw hit (latest-some o (filter f os))
  | inr miss ↦ rw miss (existing_found f os (rw miss at h))
]

-- A request that a live order of the same customer repeats, one that is being reserved or was
-- created within the last half hour, adds no row to the table.
pub repeated_request_adds_nothing :
    (d : Draft) (call : Call) (s : Store)
    → any (repeats d call.now) s.orders ≡ true
    → length (place_order d call s).1.orders ≡ length s.orders
unfolding place_order claim_order find_existing reserve_after_claim
repeated_request_adds_nothing d call s h =
    let (o, e) = existing_found (repeats d call.now) s.orders h in
    rw (e, place_order, claim_order, find_existing, reserve_after_claim)
      (reserve_claimed-length d call (record { order = o; created_new = false }) o.inventory_status
        s)

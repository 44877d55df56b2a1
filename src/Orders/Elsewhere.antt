-- ===== src/Orders/Elsewhere.antt =====
-- A release or a deletion changes the row that it names and no other.
use social_media_manager.Prelude.{
  ℕ, String, ◌≡◌, refl, ◌∙◌, false, ◌||◌, List, [], ◌∷◌, ◌==◌, eq_iff, arith, Option-cases,
  Bool-cases, inl, inr,
}
use social_media_manager.Inventory.Ledger.{deduct, Net}
use social_media_manager.Reservation.{Attempt, order_operation_applied}
use social_media_manager.Orders.Table.{Order, Store, is_paid, find_order, remove_order}
use social_media_manager.Orders.Release.{
  mark_release, mark_from, finish_release, release_row, release_inventory_reservation, plan_release,
  is_nothing_held,
}
use social_media_manager.Orders.Delete.{finish_delete, restored_count, delete_order}
use social_media_manager.Orders.Rows.{id-find, find-update}
use social_media_manager.Orders.Sequences.{give_back-keeps}

-- The rows named `k` of both stores are the same.
abbrev SameAt : String → Store → Store → Type 0
SameAt k s t = find_order k t.orders ≡ find_order k s.orders

find-remove :
    (k id : String) (os : List Order)
    → (k == id) ≡ false
    → find_order k (remove_order id os) ≡ find_order k os
unfolding find_order remove_order
find-remove k id [] other = refl
find-remove k id (o ∷ os) other =
    ground (arith, eq_iff o.id id, eq_iff o.id k, eq_iff k id, find-remove k id os other)

module _ (k id : String) (other : (k == id) ≡ false) where
  mark_release-elsewhere : (s : Store) → SameAt k s (mark_release id s)
  unfolding mark_release
  mark_release-elsewhere s = ground (
    arith,
    other,
    find-update k id (λ o. mark_from o.inventory_status o) s.orders (λ o. ground arith),
  )

  finish_release-elsewhere : (s : Store) → SameAt k s (finish_release id s).1
  unfolding finish_release
  finish_release-elsewhere s =
      ground (arith, other, find-update k id release_row s.orders (λ o. refl))

  finish_delete-elsewhere : (restored : ℕ) (s : Store) → SameAt k s (finish_delete id restored s).1
  unfolding finish_delete
  finish_delete-elsewhere restored s = ground (arith, find-remove k id s.orders other)

  pub release-elsewhere :
      (net : Net) (attempt : Attempt) (s : Store)
      → SameAt k s (release_inventory_reservation net attempt id s).1
  unfolding release_inventory_reservation
  release-elsewhere net attempt s = elim (Option-cases (find_order id s.orders)) [
    | inl gone ↦ rw (gone, release_inventory_reservation) refl
    | inr (row, found) ↦
        elim (Bool-cases
          (is_paid row.payment_status || is_nothing_held (plan_release row.inventory_status))) [
            | inl kept ↦ rw (found, release_inventory_reservation, kept) refl
            | inr held ↦
                rw (found, release_inventory_reservation, held)
                  (give_back-keeps (SameAt k s) id (finish_release id) (λ sheets t h. h)
                    (λ t h. mark_release-elsewhere t ∙ h) (λ t h. finish_release-elsewhere t ∙ h)
                    (plan_release row.inventory_status) net attempt row s
                    (id-find id s.orders found) refl)
          ]
  ]

-- Deleting an order leaves every other order's row exactly as it was, however the spreadsheet answers.
pub delete_order-elsewhere :
    (k id : String) (net : Net) (attempt : Attempt) (s : Store)
    → (k == id) ≡ false
    → find_order k (delete_order net attempt id s).1.orders ≡ find_order k s.orders
unfolding delete_order
delete_order-elsewhere k id net attempt s other = elim (Option-cases (find_order id s.orders)) [
  | inl gone ↦ rw (gone, delete_order) refl
  | inr (row, found) ↦
      let restored =
        restored_count (plan_release row.inventory_status) row
          (order_operation_applied net row.id row.terms.items deduct s.sheets) in
      rw (found, delete_order)
        (give_back-keeps (SameAt k s) id (finish_delete id restored) (λ sheets t h. h)
          (λ t h. mark_release-elsewhere k id other t ∙ h)
          (λ t h. finish_delete-elsewhere k id other restored t ∙ h)
          (plan_release row.inventory_status) net attempt row s (id-find id s.orders found) refl)
]

-- ===== src/Orders/Cleanup.antt =====
-- The cleanup job and the orders that are paid.
use social_media_manager.Prelude.{
  ℕ, zero, suc, ◌+◌, ◌≤◌, length-take_le, String, ◌≡◌, refl, ◌∙◌, ◌&&◌, any, Bool, true, false,
  some, List, [], ◌∷◌, ◌==◌, filter, take, length, eq_iff, arith, Bool-cases, inl, inr,
}
use social_media_manager.Prelude.Result.{Result, ok, err}
use social_media_manager.Inventory.Ledger.{Net}
use social_media_manager.Reservation.{Failure, Attempt}
use social_media_manager.Orders.Table.{Order, Store, is_paid, find_order}
use social_media_manager.Orders.Release.{
  release_inventory_reservation, Counts, count_release, release_each, sort_by_age, insert_by_age,
  is_expired, release_expired_inventory_reservations,
}
use social_media_manager.Orders.Elsewhere.{release-elsewhere}

-- The row `k` is there and is paid.
abbrev pub Paid : String → Order → Store → Type 0
Paid k row s = (find_order k s.orders ≡ some row) × (is_paid row.payment_status ≡ true)

-- A release never changes a row that is paid when it starts, its own included.
release-keeps :
    (net : Net) (attempt : Attempt) (k id : String) (row : Order) (s : Store)
    → Paid k row s
    → Paid k row (release_inventory_reservation net attempt id s).1
unfolding release_inventory_reservation
release-keeps net attempt k id row s h = elim (Bool-cases (k == id)) [
  | inr other ↦ (release-elsewhere k id other net attempt s ∙ h.0, h.1)
  | inl own ↦
      let found : find_order id s.orders ≡ some row = ground (arith, eq_iff k id, own, h.0) in
      (rw (found, release_inventory_reservation, h.1) h.0, h.1)
]

release_each-keeps :
    (rows : List Order) (nets : String → Net × Attempt) (counts : Counts) (k : String) (row : Order)
    (s : Store)
    → Paid k row s
    → Paid k row (release_each rows nets counts s).1
unfolding release_each
release_each-keeps [] nets counts k row s h = h
release_each-keeps (r ∷ rows) nets counts k row s h =
    release_each-keeps rows nets
      (count_release (release_inventory_reservation (nets r.id).0 (nets r.id).1 r.id s).0 counts) k
      row (release_inventory_reservation (nets r.id).0 (nets r.id).1 r.id s).1
      (release-keeps (nets r.id).0 (nets r.id).1 k r.id row s h)

-- The cleanup of expired reservations leaves a paid order exactly as it was, whatever the spreadsheet
-- answers and whichever other orders it releases.
pub cleanup-keeps_paid :
    (limit now : ℕ) (nets : String → Net × Attempt) (k : String) (row : Order) (s : Store)
    → find_order k s.orders ≡ some row
    → is_paid row.payment_status ≡ true
    → find_order k (release_expired_inventory_reservations limit now nets s).1.orders ≡ some row
unfolding release_expired_inventory_reservations
cleanup-keeps_paid limit now nets k row s found paid =
    let rows = take limit (sort_by_age (filter (is_expired now) s.orders)) in
    (release_each-keeps rows nets (record { checked = length rows; released = 0; failed = 0 }) k row
      s (found, paid)).0

-- Some row of the list is named `k`.
abbrev has_id : String → List Order → Bool
has_id k os = any (λ o. o.id == k) os

insert-has_id :
    (k : String) (o : Order) (os : List Order) → has_id k (insert_by_age o os) ≡ has_id k (o ∷ os)
unfolding insert_by_age
insert-has_id k o [] = refl
insert-has_id k o (p ∷ ps) = ground (arith, insert-has_id k o ps)

sort-has_id : (k : String) (os : List Order) → has_id k (sort_by_age os) ≡ has_id k os
unfolding sort_by_age
sort-has_id k [] = refl
sort-has_id k (o ∷ os) = ground (arith, insert-has_id k o (sort_by_age os), sort-has_id k os)

take-has_id :
    (k : String) (n : ℕ) (os : List Order) → has_id k os ≡ false → has_id k (take n os) ≡ false
take-has_id k zero os h = refl
take-has_id k (suc n) [] h = refl
take-has_id k (suc n) (o ∷ os) h = ground (arith, h, take-has_id k n os)

filter-has_id :
    (k : String) (f : Order → Bool) (os : List Order)
    → any (λ o. f o && o.id == k) os ≡ false
    → has_id k (filter f os) ≡ false
filter-has_id k f [] h = refl
filter-has_id k f (o ∷ os) h = ground (arith, h, filter-has_id k f os)

release_each-elsewhere :
    (k : String) (rows : List Order) (nets : String → Net × Attempt) (counts : Counts) (s : Store)
    → has_id k rows ≡ false
    → find_order k (release_each rows nets counts s).1.orders ≡ find_order k s.orders
unfolding release_each
release_each-elsewhere k [] nets counts s h = refl
release_each-elsewhere k (r ∷ rows) nets counts s h =
    let o = release_inventory_reservation (nets r.id).0 (nets r.id).1 r.id s in
    release_each-elsewhere k rows nets (count_release o.0 counts) o.1 (ground (arith, h))
    ∙ release-elsewhere k r.id (ground (arith, h, eq_iff k r.id, eq_iff r.id k)) (nets r.id).0
        (nets r.id).1 s

-- The cleanup leaves alone every order that has not expired: one that no expired row is named like is
-- afterwards exactly as it was, whatever happens to the others.
pub cleanup-keeps_unexpired :
    (limit now : ℕ) (nets : String → Net × Attempt) (k : String) (s : Store)
    → any (λ o. is_expired now o && o.id == k) s.orders ≡ false
    → find_order k (release_expired_inventory_reservations limit now nets s).1.orders
      ≡ find_order k s.orders
unfolding release_expired_inventory_reservations
cleanup-keeps_unexpired limit now nets k s h =
    let expired = filter (is_expired now) s.orders in
    release_each-elsewhere k (take limit (sort_by_age expired)) nets
      (record { checked = length (take limit (sort_by_age expired)); released = 0; failed = 0 }) s
      (take-has_id k limit (sort_by_age expired)
        (sort-has_id k expired ∙ filter-has_id k (is_expired now) s.orders h))

-- How many rows the counts speak of.
abbrev tally : Counts → ℕ
tally c = c.released + c.failed

count_release-tally :
    (r : Result Failure Bool) (c : Counts)
    → (tally (count_release r c) ≤ tally c + 1) × ((count_release r c).checked ≡ c.checked)
unfolding count_release
count_release-tally (ok true) c = (omega arith, refl)
count_release-tally (ok false) c = (omega arith, refl)
count_release-tally (err e) c = (omega arith, refl)

release_each-counts :
    (rows : List Order) (nets : String → Net × Attempt) (counts : Counts) (s : Store)
    → (tally (release_each rows nets counts s).0 ≤ tally counts + length rows)
      × ((release_each rows nets counts s).0.checked ≡ counts.checked)
unfolding release_each count_release
release_each-counts [] nets counts s = (omega arith, refl)
release_each-counts (r ∷ rows) nets counts s =
    let o = release_inventory_reservation (nets r.id).0 (nets r.id).1 r.id s in
    let h = release_each-counts rows nets (count_release o.0 counts) o.1 in
    let k = count_release-tally o.0 counts in (ground (arith, h, k), ground (arith, h, k))

-- The report of the cleanup: it looks at no more rows than its limit, and those that it counts as
-- released or failed are together no more than those that it looks at.
pub cleanup-counts :
    (limit now : ℕ) (nets : String → Net × Attempt) (s : Store)
    → (release_expired_inventory_reservations limit now nets s).0.checked ≤ limit
      × (release_expired_inventory_reservations limit now nets s).0.released
          + (release_expired_inventory_reservations limit now nets s).0.failed
        ≤ (release_expired_inventory_reservations limit now nets s).0.checked
unfolding release_expired_inventory_reservations
cleanup-counts limit now nets s =
    let rows = take limit (sort_by_age (filter (is_expired now) s.orders)) in
    let h =
      release_each-counts rows nets (record { checked = length rows; released = 0; failed = 0 })
        s in
    (
      ground (arith, h, length-take_le limit (sort_by_age (filter (is_expired now) s.orders))),
      ground (arith, h),
    )

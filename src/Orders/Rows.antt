-- ===== src/Orders/Rows.antt =====
-- Laws of the orders table: what an update or a deletion by primary key changes.
use social_media_manager.Prelude.{
  ℕ, ◌+◌, String, ◌≡◌, refl, none, some, List, [], ◌∷◌, ◌==◌, All, if◌then◌else◌, eq_iff, arith,
  Bool-cases, inl, inr,
}
use mathlib.Core.Path.{subst}
use social_media_manager.Orders.Table.{Order, find_order, update_order, remove_order}

pub id-find :
    (id : String) (os : List Order) {row : Order} → find_order id os ≡ some row → row.id ≡ id
unfolding find_order
id-find id [] h = cc
id-find id (o ∷ os) {row} h = ground (arith, eq_iff o.id id, id-find id os {row = row})

-- An update shows in its own row alone.
pub find-update :
    (k id : String) (f : Order → Order) (os : List Order)
    → ((o : Order) → (f o).id ≡ o.id)
    → find_order k (update_order id f os) ≡ (
        if k == id
        then elim (find_order k os) [ none ↦ none | some o ↦ some (f o) ]
        else find_order k os)
unfolding find_order update_order
find-update k id f [] keeps = ground arith
find-update k id f (o ∷ os) keeps =
    ground (arith, keeps o, eq_iff k id, eq_iff o.id id, eq_iff o.id k, find-update k id f os keeps)

-- A property of all rows survives an update whose one row keeps it.
pub All-update {κ} :
    (P : Order → Type κ) (id : String) (f : Order → Order) (os : List Order)
    → ((o : Order) → find_order id os ≡ some o → P o → P (f o))
    → All P os
    → All P (update_order id f os)
unfolding find_order update_order
All-update P id f [] keep h = tt
All-update P id f (o ∷ os) keep h = elim (Bool-cases (o.id == id)) [
  | inl hit ↦ rw hit (keep o (rw hit refl) h.0, h.1)
  | inr miss ↦ rw miss (h.0, All-update P id f os (λ p e. keep p (rw miss e)) h.1)
]

pub All-remove {κ} :
    (P : Order → Type κ) (id : String) (os : List Order) → All P os → All P (remove_order id os)
unfolding remove_order
All-remove P id [] h = tt
All-remove P id (o ∷ os) h = elim (Bool-cases (o.id == id)) [
  | inl hit ↦ rw hit h.1
  | inr miss ↦ rw miss (h.0, All-remove P id os h.1)
]

pub All-find {κ} :
    (P : Order → Type κ) (id : String) (os : List Order) (o : Order)
    → All P os
    → find_order id os ≡ some o
    → P o
unfolding find_order
All-find P id [] o h e = absurd (cc)
All-find P id (x ∷ os) o h e = elim (Bool-cases (x.id == id)) [
  | inl hit ↦ let same : x ≡ o = ground (arith, hit) in subst P same h.0
  | inr miss ↦ All-find P id os o h.1 (rw miss at e)
]

abbrev pub sum : (Order → ℕ) → List Order → ℕ
sum g [] = 0
sum g (o ∷ os) = g o + sum g os

-- An update moves a sum by what its row contributes.
pub sum-update :
    (g : Order → ℕ) (id : String) (f : Order → Order) (os : List Order) (row : Order)
    → find_order id os ≡ some row
    → sum g (update_order id f os) + g row ≡ sum g os + g (f row)
unfolding find_order update_order
sum-update g id f [] row h = cc
sum-update g id f (o ∷ os) row h = ground (arith, sum-update g id f os row)

pub sum-remove :
    (g : Order → ℕ) (id : String) (os : List Order) (row : Order)
    → find_order id os ≡ some row
    → sum g (remove_order id os) + g row ≡ sum g os
unfolding find_order remove_order
sum-remove g id [] row h = cc
sum-remove g id (o ∷ os) row h = ground (arith, sum-remove g id os row)

pub sum-keep :
    (g : Order → ℕ) (id : String) (f : Order → Order) (os : List Order)
    → ((o : Order) → g (f o) ≡ g o)
    → sum g (update_order id f os) ≡ sum g os
unfolding update_order
sum-keep g id f [] keep = refl
sum-keep g id f (o ∷ os) keep = ground (arith, keep o, sum-keep g id f os keep)

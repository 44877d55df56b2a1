-- ===== src/Inventory/Planned.antt =====
-- What `plan_changes` plans: changes of distinct SKUs, each from its row of the sheet, and none
-- below zero.
use social_media_manager.Prelude.{
  ℕ, String, ◌≡◌, true, false, ◌⊎◌, inl, inr, none, some, List, [], ◌∷◌, ◌==◌, eq_iff, arith,
  Option-cases,
}
use mathlib.Core.Path.{subst}
use social_media_manager.Prelude.Dict.{Dict, get, put, get-put, Distinct}
use social_media_manager.Prelude.Int.{pos, ◌≤ℤ◌}
use social_media_manager.Prelude.Result.{ok, >>=-eq-ok, ok_injective}
use social_media_manager.Inventory.Ledger.{Direction, SheetRow}
use social_media_manager.Inventory.Request.{Item}
use social_media_manager.Inventory.Plan.{Change, row_sku, index_rows, plan_sku, plan_changes}
use social_media_manager.Inventory.Stock.{
  stock_of, has_row, IsPlanned, AllPlanned, Avoids, Separate,
}

-- A row that is indexed stays so.
index_rows-keeps :
    (k : String) (rows : List SheetRow) (index : Dict SheetRow) (r : SheetRow)
    (final : Dict SheetRow)
    → index_rows rows index ≡ ok final
    → get k index ≡ some r
    → get k final ≡ some r
unfolding index_rows
index_rows-keeps k [] index r final e h = ground arith
index_rows-keeps k (row ∷ rows) index r final e h = ground (
  arith,
  eq_iff (row_sku row) k,
  get-put (row_sku row) k row index,
  index_rows-keeps k rows index r final,
  index_rows-keeps k rows (put (row_sku row) row index) r final,
)

-- Where the index has its rows from.
abbrev IsFrom : String → List SheetRow → SheetRow → Type 0
IsFrom k rows r = (k == "" ≡ false) × (has_row k rows ≡ true) × (stock_of k rows ≡ r.stock)

index_rows-IsFrom :
    (k : String) (rows : List SheetRow) (index : Dict SheetRow) (r : SheetRow)
    (final : Dict SheetRow)
    → index_rows rows index ≡ ok final
    → get k final ≡ some r
    → (get k index ≡ some r) ⊎ IsFrom k rows r
unfolding index_rows has_row stock_of
index_rows-IsFrom k [] index r final e h = ground arith
index_rows-IsFrom k (row ∷ rows) index r final e h = ground (
  arith,
  eq_iff (row_sku row) k,
  eq_iff (row_sku row) "",
  eq_iff k "",
  get-put (row_sku row) k row index,
  index_rows-keeps k rows (put (row_sku row) row index) row final,
  index_rows-IsFrom k rows index r final,
  index_rows-IsFrom k rows (put (row_sku row) row index) r final,
)

indexed-IsFrom :
    (k : String) (rows : List SheetRow) (r : SheetRow) (index : Dict SheetRow)
    → index_rows rows [] ≡ ok index
    → get k index ≡ some r
    → IsFrom k rows r
unfolding get
indexed-IsFrom k rows r index e h = elim (index_rows-IsFrom k rows [] r index e h) [
  | inl none_yet ↦ cc
  | inr from ↦ from
]

-- What one planned SKU is.
plan_sku-IsPlanned :
    (direction : Direction) (items : List Item) (rows : List SheetRow) (index : Dict SheetRow)
    (sku : String) (q : ℕ) (c : Change)
    → index_rows rows [] ≡ ok index
    → plan_sku direction items index sku q ≡ ok c
    → IsPlanned direction rows c × (c.sku ≡ sku) × (c.quantity ≡ q) × (pos 0 ≤ℤ c.after)
unfolding plan_sku
plan_sku-IsPlanned direction items rows index sku q c indexed e =
    elim (Option-cases (get sku index)) [
      | inl missing ↦ ground arith
      | inr (row, there) ↦ ground (arith, indexed-IsFrom sku rows row index indexed there)
    ]

-- The planned changes are those of the request, in its order.
abbrev pub IsPlanOf : Dict ℕ → List Change → Type 0
IsPlanOf [] [] = Unit
IsPlanOf ((sku, q) ∷ requested) (c ∷ changes) =
    (c.sku ≡ sku) × (c.quantity ≡ q) × (pos 0 ≤ℤ c.after) × IsPlanOf requested changes
IsPlanOf _ _ = ⊥

pub plan_changes-IsPlanOf :
    (direction : Direction) (items : List Item) (rows : List SheetRow) (index : Dict SheetRow)
    (requested : Dict ℕ) (changes : List Change)
    → index_rows rows [] ≡ ok index
    → plan_changes direction items index requested ≡ ok changes
    → AllPlanned direction rows changes × IsPlanOf requested changes
unfolding plan_changes
plan_changes-IsPlanOf direction items rows index [] [] indexed e = (tt, tt)
plan_changes-IsPlanOf direction items rows index [] (c ∷ changes) indexed e = cc
plan_changes-IsPlanOf direction items rows index ((sku, q) ∷ requested) changes indexed e =
    let (c, first, e') = >>=-eq-ok (plan_sku direction items index sku q) _ e in
    let (cs, rest, same) = >>=-eq-ok (plan_changes direction items index requested) _ e' in
    let one = plan_sku-IsPlanned direction items rows index sku q c indexed first in
    let more = plan_changes-IsPlanOf direction items rows index requested cs indexed rest in
    subst (λ l. AllPlanned direction rows l × IsPlanOf ((sku, q) ∷ requested) l) (ok_injective same)
      ((one.0, more.0), (one.1, one.2, one.3, more.1))

Avoids-unrequested :
    (sku : String) (requested : Dict ℕ) (changes : List Change)
    → IsPlanOf requested changes
    → get sku requested ≡ none
    → Avoids sku changes
unfolding get
Avoids-unrequested sku [] [] p h = tt
Avoids-unrequested sku [] (c ∷ changes) p h = elim p [ ]
Avoids-unrequested sku ((k, q) ∷ requested) [] p h = elim p [ ]
Avoids-unrequested sku ((k, q) ∷ requested) (c ∷ changes) p h =
    ground (arith, Avoids-unrequested sku requested changes p.3)

-- A request with distinct SKUs has separate changes.
pub IsPlanOf-Separate :
    (requested : Dict ℕ) (changes : List Change)
    → Distinct requested
    → IsPlanOf requested changes
    → Separate changes
IsPlanOf-Separate [] [] d p = tt
IsPlanOf-Separate [] (c ∷ changes) d p = elim p [ ]
IsPlanOf-Separate ((k, q) ∷ requested) [] d p = elim p [ ]
IsPlanOf-Separate ((k, q) ∷ requested) (c ∷ changes) d p = (
  Avoids-unrequested c.sku requested changes p.3 (rw p.0 d.0),
  IsPlanOf-Separate requested changes d.1 p.3,
)

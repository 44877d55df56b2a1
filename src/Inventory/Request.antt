-- ===== src/Inventory/Request.antt =====
-- `_build_inventory_request` and `_validate_existing_inventory_operation` of
-- `store/app/catalog/sheets.py`.
use social_media_manager.Prelude.{
  ℕ, suc, ◌+◌, String, ◌≡◌, Bool, true, false, ◌&&◌, Option, none, some, List, [], ◌∷◌, ◌==◌,
  length, nat_eq, all, if◌then◌else◌, arith,
}
use social_media_manager.Prelude.Dict.{Dict, get, put, Distinct, put-Distinct}
use social_media_manager.Prelude.Int.{ℤ, pos, eq_ℤ}
use social_media_manager.Prelude.Result.{Result, ok, err, ◌>>=◌, >>=-eq-ok}
use social_media_manager.Prelude.Text.{strip}
use social_media_manager.Inventory.Ledger.{
  Error, invalid_quantity, invalid_item, incomplete_operation, mismatched_operation, Direction,
  type_name, Movement,
}

-- An order's item. `quantity` is what `int(...)` makes of the field, `none` where it raises; a
-- missing field is 1. `unit_price` is `none` where the item has none.
pub record Item : Type 0 where
  pub product_name : String
  pub sku : String
  pub size : String
  pub quantity : Option ℤ
  pub unit_price : Option ℕ

abbrev count_of : Option ℕ → ℕ
count_of none = 0
count_of (some n) = n

-- The quantity of an item, once it is known to be positive.
positive : Option ℤ → Result Error ℕ
positive none = err invalid_quantity
positive (some (pos (suc n))) = ok (suc n)
positive (some q) = err invalid_item

add_item : Item → Dict ℕ → Result Error (Dict ℕ)
unfolding positive
add_item item requested =
    let sku = strip item.sku in
    elim (positive item.quantity) [
      | err e ↦ err e
      | ok q ↦
          if sku == ""
          then err invalid_item
          else ok (put sku (count_of (get sku requested) + q) requested)
    ]

request_from : List Item → Dict ℕ → Result Error (Dict ℕ)
unfolding add_item
request_from [] requested = ok requested
request_from (item ∷ items) requested = do more ← add_item item requested; request_from items more

unfoldable pub build_inventory_request : List Item → Result Error (Dict ℕ)
unfolding request_from
build_inventory_request items = request_from items []

-- `sku in requested and requested[sku] == quantity`
is_requested : Dict ℕ → String → ℤ → Bool
is_requested requested sku quantity = elim (get sku requested) [
  | none ↦ false
  | some n ↦ eq_ℤ (pos n) quantity
]

-- The loop over the ledger rows: what the operation left each SKU at.
collect_applied : List Movement → Dict ℕ → Direction → Dict ℤ → Result Error (Dict ℤ)
unfolding is_requested
collect_applied [] requested direction applied = ok applied
collect_applied (row ∷ rows) requested direction applied =
    let sku = strip row.sku in
    elim (strip row.type_cell == type_name direction && is_requested requested sku row.quantity) [
      | true ↦ collect_applied rows requested direction (put sku row.stock_after applied)
      | false ↦ err mismatched_operation
    ]

has_key {ℓ} : {V : Type ℓ} → String → Dict V → Bool
has_key k d = elim (get k d) [ none ↦ false | some _ ↦ true ]

-- `set(a) == set(b)`
same_keys : Dict ℤ → Dict ℕ → Bool
unfolding has_key
same_keys a b = all (λ e. has_key e.0 b) a && all (λ e. has_key e.0 a) b

unfoldable pub validate_existing_inventory_operation :
    List Movement → Dict ℕ → Direction → Result Error (Dict ℤ)
unfolding collect_applied same_keys
validate_existing_inventory_operation rows requested direction =
    if nat_eq (length rows) (length requested)
    then elim (collect_applied rows requested direction []) [
      | err e ↦ err e
      | ok applied ↦ if same_keys applied requested then ok applied else err incomplete_operation
    ]
    else err incomplete_operation

add_item-Distinct :
    (item : Item) (d : Dict ℕ) {r : Dict ℕ} → Distinct d → add_item item d ≡ ok r → Distinct r
unfolding add_item
add_item-Distinct item d h e = grind (arith, put-Distinct)

-- A request names no SKU twice.
request_from-Distinct :
    (items : List Item) (d : Dict ℕ) {r : Dict ℕ}
    → Distinct d
    → request_from items d ≡ ok r
    → Distinct r
unfolding request_from
request_from-Distinct [] d h e = ground arith
request_from-Distinct (item ∷ items) d h e =
    let (more, added, rest) = >>=-eq-ok (add_item item d) (request_from items) e in
    request_from-Distinct items more (add_item-Distinct item d h added) rest

pub build_inventory_request-Distinct :
    (items : List Item) {r : Dict ℕ} → build_inventory_request items ≡ ok r → Distinct r
unfolding build_inventory_request
build_inventory_request-Distinct items e = request_from-Distinct items [] tt e

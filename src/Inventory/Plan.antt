-- ===== src/Inventory/Plan.antt =====
-- The body of `_update_stock` in `store/app/catalog/sheets.py` between its reads and its write:
-- the index of the sheet, the checks of each SKU, and the rows to be written.
use social_media_manager.Prelude.{
  ℕ, ◌+◌, ◌-◌, String, Bool, true, false, ◌&&◌, not, Option, none, some, List, [], ◌∷◌, ◌==◌, ltb,
  find?, if◌then◌else◌,
}
use social_media_manager.Prelude.Dict.{Dict, get, put}
use social_media_manager.Prelude.Int.{ℤ, pos, ◌+ℤ◌, ◌-ℤ◌, ltb_ℤ}
use social_media_manager.Prelude.Result.{Result, ok, err, ◌>>=◌, ◌>>◌, raise_if}
use social_media_manager.Prelude.Text.{strip, lower}
use social_media_manager.Inventory.Ledger.{
  Error, duplicate_sku, unknown_sku, inactive, price_changed, insufficient, Direction, deduct,
  restore, type_name, Movement, SheetRow,
}
use social_media_manager.Inventory.Request.{Item}

-- `record["SKU"]`, stripped
abbrev pub row_sku : SheetRow → String
row_sku row = strip row.sku

-- `inventory_rows`: the rows that have a SKU, by SKU; a SKU that stands twice is refused.
unfoldable pub index_rows : List SheetRow → Dict SheetRow → Result Error (Dict SheetRow)
index_rows [] index = ok index
index_rows (row ∷ rows) index = elim (row_sku row == "") [
  | true ↦ index_rows rows index
  | false ↦ elim (get (row_sku row) index) [
    | some _ ↦ err duplicate_sku
    | none ↦ index_rows rows (put (row_sku row) row index)
  ]
]

abbrev has_price_for : String → Item → Bool
has_price_for sku item =
    strip item.sku == sku && elim item.unit_price [ none ↦ false | some _ ↦ true ]

-- `expected_price`: the unit price of the first item of that SKU which has one
unfoldable pub expected_price : List Item → String → Option ℕ
expected_price items sku = elim (find? (has_price_for sku) items) [
  | none ↦ none
  | some item ↦ item.unit_price
]

-- More than 0.01 dollars apart.
abbrev far_apart : ℕ → ℕ → Bool
far_apart a b = ltb 100 ((a - b) + (b - a))

-- Whether the sheet's price contradicts the one that the order was made at.
unfoldable pub price_differs : Option ℕ → Option ℕ → Bool
price_differs none current = false
price_differs (some e) none = true
price_differs (some e) (some c) = far_apart c e

-- One line of `updates` with its line of `ledger_values`.
pub record Change : Type 0 where
  pub sku : String
  pub quantity : ℕ
  pub before : ℤ
  pub after : ℤ

-- The checks that only a deduction makes.
unfoldable pub check_sellable : Direction → List Item → String → SheetRow → Result Error (Unit {0})
check_sellable restore items sku row = ok tt
check_sellable deduct items sku row = do
  raise_if (not (lower (strip row.active) == "yes")) inactive
  raise_if (price_differs (expected_price items sku) row.price) price_changed

-- `current_stock + direction * quantity`
abbrev pub moved_stock : Direction → ℤ → ℕ → ℤ
moved_stock deduct stock q = stock -ℤ pos q
moved_stock restore stock q = stock +ℤ pos q

find_row : String → Dict SheetRow → Result Error SheetRow
find_row sku index = elim (get sku index) [ none ↦ err unknown_sku | some row ↦ ok row ]

unfoldable pub plan_sku : Direction → List Item → Dict SheetRow → String → ℕ → Result Error Change
unfolding check_sellable find_row
plan_sku direction items index sku q = do
  row ← find_row sku index
  check_sellable direction items sku row
  raise_if (ltb_ℤ (moved_stock direction row.stock q) (pos 0)) insufficient
  ok (record {
    sku = sku;
    quantity = q;
    before = row.stock;
    after = moved_stock direction row.stock q;
  })

-- The loop over `requested.items()`.
unfoldable pub plan_changes :
    Direction → List Item → Dict SheetRow → Dict ℕ → Result Error (List Change)
plan_changes direction items index [] = ok []
plan_changes direction items index ((sku, q) ∷ requested) = do
  change ← plan_sku direction items index sku q
  changes ← plan_changes direction items index requested
  ok (change ∷ changes)

-- The stock cell of the row that has the SKU.
unfoldable pub set_stock : String → ℤ → List SheetRow → List SheetRow
set_stock sku stock [] = []
set_stock sku stock (row ∷ rows) =
    if row_sku row == sku
    then record row { stock = stock } ∷ rows
    else row ∷ set_stock sku stock rows

-- The `updates` of the batch.
unfoldable pub write_stock : List Change → List SheetRow → List SheetRow
write_stock [] rows = rows
write_stock (c ∷ changes) rows = write_stock changes (set_stock c.sku c.after rows)

-- The `ledger_values` of the batch.
unfoldable pub movement : String → Direction → String → Change → Movement
movement id direction now c = record {
  operation_id = id;
  type_cell = type_name direction;
  sku = c.sku;
  quantity = pos c.quantity;
  stock_before = c.before;
  stock_after = c.after;
  created_at = now;
}

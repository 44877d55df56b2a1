-- ===== src/Inventory/Ledger.antt =====
-- The spreadsheet's data and the ledger helpers of `store/app/catalog/sheets.py`.
use social_media_manager.Prelude.{
  ℕ, zero, suc, ◌+◌, String, Bool, true, false, Option, none, some, List, [], ◌∷◌, ◌++◌, ◌==◌,
  length, drop, filter,
}
use social_media_manager.Prelude.Int.{ℤ}
use social_media_manager.Prelude.Text.{strip}

-- What `InventoryUpdateError` reports.
pub data Error : Type 0 where
  invalid_quantity invalid_item unexpected_headers incomplete_operation mismatched_operation : Error
  no_stock_column duplicate_sku unknown_sku inactive price_changed insufficient : Error
  sheets_failed : Error

pub data Direction : Type 0 where
  deduct restore : Direction

-- `operation_type` as it is written to the ledger
abbrev pub type_name : Direction → String
type_name deduct = "deduct"
type_name restore = "restore"

-- One row below the ledger's headers.
pub record Movement : Type 0 where
  pub operation_id : String
  pub type_cell : String
  pub sku : String
  pub quantity : ℤ
  pub stock_before : ℤ
  pub stock_after : ℤ
  pub created_at : String

pub data Headers : Type 0 where
  blank expected unexpected : Headers

pub record Worksheet : Type 0 where
  pub headers : Headers
  pub records : List Movement

-- One row of the product sheet. Prices count ten-thousandths of a dollar; `none` is a cell that
-- `_safe_float` rejects. A stock cell that is no number reads as 0.
pub record SheetRow : Type 0 where
  pub sku : String
  pub active : String
  pub price : Option ℕ
  pub stock : ℤ

-- An entry of `_inventory_ledger_cache`.
pub record Cache : Type 0 where
  pub records : List Movement
  pub next_row : ℕ

pub record Sheets : Type 0 where
  pub rows : List SheetRow
  pub has_stock_column : Bool
  pub ledger : Option Worksheet
  pub cache : Option Cache

-- How the network treats one operation: all calls arrive, or one of them raises. A write that
-- raises is either lost or applied without the client hearing of it.
pub data Net : Type 0 where
  reached open_lost ledger_lost header_lost header_unreported : Net
  records_lost sheet_lost write_lost write_unreported : Net

-- `_ledger_operation_rows`
unfoldable pub ledger_operation_rows : List Movement → String → List Movement
ledger_operation_rows records id = filter (λ r. strip r.operation_id == id) records

-- What an empty ledger line reads as.
abbrev blank_movement : Movement
blank_movement = record {
  operation_id = "";
  type_cell = "";
  sku = "";
  quantity = ℤ.pos 0;
  stock_before = ℤ.pos 0;
  stock_after = ℤ.pos 0;
  created_at = "";
}

-- Writing `entries` from the record at place `n` on; what stood there is overwritten, and lines
-- between the last record and `n` stay blank.
unfoldable pub write_at : ℕ → List Movement → List Movement → List Movement
write_at zero entries old = entries ++ drop (length entries) old
write_at (suc n) entries [] = blank_movement ∷ write_at n entries []
write_at (suc n) entries (r ∷ old) = r ∷ write_at n entries old

-- `_append_cached_ledger_rows`
unfoldable pub append_cached_ledger_rows : List Movement → Option Cache → Option Cache
append_cached_ledger_rows entries none = none
append_cached_ledger_rows entries (some c) =
    some (record c { records = c.records ++ entries; next_row = c.next_row + length entries })

-- `_cached_inventory_ledger_records`, the cache that it leaves
unfoldable pub cached_inventory_ledger_records : Bool → Worksheet → Option Cache → Cache
cached_inventory_ledger_records true w c = record {
  records = w.records;
  next_row = length w.records + 2;
}
cached_inventory_ledger_records false w none = record {
  records = w.records;
  next_row = length w.records + 2;
}
cached_inventory_ledger_records false w (some c) = c

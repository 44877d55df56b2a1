-- ===== src/Inventory/Update.antt =====
-- `_update_stock`, `deduct_stock` and `restore_stock` of `store/app/catalog/sheets.py`. Every function returns the spreadsheet beside its result, since
-- what was written before an error stays written. The catalog refresh that follows a mutation
-- reads the sheet, catches its own errors and writes only the catalog cache.
use social_media_manager.Prelude.{
  ℕ, ◌-◌, String, Bool, true, false, not, Option, none, some, List, [], ◌∷◌, ◌==◌, map,
  if◌then◌else◌,
}
use social_media_manager.Prelude.Dict.{Dict}
use social_media_manager.Prelude.Int.{ℤ}
use social_media_manager.Prelude.Result.{Result, ok, err, ◌>>=◌, ◌>>◌, raise_if}
use social_media_manager.Inventory.Ledger.{
  Error, unexpected_headers, no_stock_column, sheets_failed, Direction, deduct, restore, Movement,
  Headers, blank, expected, unexpected, Worksheet, Cache, Sheets, Net, open_lost, ledger_lost,
  header_lost, header_unreported, records_lost, sheet_lost, write_lost, write_unreported,
  ledger_operation_rows, write_at, append_cached_ledger_rows, cached_inventory_ledger_records,
}
use social_media_manager.Inventory.Request.{
  Item, build_inventory_request, validate_existing_inventory_operation,
}
use social_media_manager.Inventory.Plan.{Change, index_rows, plan_changes, write_stock, movement}

abbrev pub Outcome : Type 0 → Type 0
Outcome A = Result Error A × Sheets

-- Opening the spreadsheet and its first sheet.
abbrev pub opens : Net → Bool
opens open_lost = false
opens _ = true

-- `_get_or_create_inventory_ledger` where the worksheet is missing: it is added, then its headers
-- are written, then its cache is reset.
unfoldable pub create_ledger : Net → Sheets → Outcome Worksheet
create_ledger ledger_lost s = (err sheets_failed, s)
create_ledger header_lost s =
    (err sheets_failed, record s { ledger = some (record { headers = blank; records = [] }) })
create_ledger header_unreported s =
    (err sheets_failed, record s { ledger = some (record { headers = expected; records = [] }) })
create_ledger _ s =
    let w : Worksheet = record { headers = expected; records = [] } in
    (ok w, record s { ledger = some w; cache = some (record { records = []; next_row = 2 }) })

-- and where it is there.
unfoldable pub open_ledger : Net → Headers → Worksheet → Sheets → Outcome Worksheet
open_ledger ledger_lost h w s = (err sheets_failed, s)
open_ledger header_lost blank w s = (err sheets_failed, s)
open_ledger header_unreported blank w s =
    (err sheets_failed, record s { ledger = some (record w { headers = expected }) })
open_ledger net blank w s =
    let w' : Worksheet = record w { headers = expected } in (ok w', record s { ledger = some w' })
open_ledger net expected w s = (ok w, s)
open_ledger net unexpected w s = (err unexpected_headers, s)

unfoldable pub open_or_create : Net → Option Worksheet → Sheets → Outcome Worksheet
unfolding create_ledger open_ledger
open_or_create net none s = create_ledger net s
open_or_create net (some w) s = open_ledger net w.headers w s

unfoldable pub get_or_create_inventory_ledger : Net → Sheets → Outcome Worksheet
unfolding open_or_create
get_or_create_inventory_ledger net s = open_or_create net s.ledger s

-- Whether the ledger's records can be had: from the cache always, from the worksheet if the call
-- arrives.
abbrev pub records_arrive : Net → Option Cache → Bool
records_arrive records_lost none = false
records_arrive _ _ = true

-- `ledger_range` and the ledger's half of the batch. A run with no operation writes no ledger.
ledger_after : String → List Movement → Sheets → Option Worksheet
ledger_after id entries s = elim s.ledger [
  | none ↦ none
  | some w ↦ elim s.cache [
    | none ↦ some w
    | some c ↦
        if id == ""
        then some w
        else some (record w { records = write_at (c.next_row - 2) entries w.records })
  ]
]

-- The batch update on the spreadsheet.
unfoldable pub batch_update : String → Direction → String → List Change → Sheets → Sheets
unfolding ledger_after
batch_update id direction now changes s = record s {
  rows = write_stock changes s.rows;
  ledger = ledger_after id (map (movement id direction now) changes) s;
}

abbrev new_stock : List Change → Dict ℤ
new_stock changes = map (λ c. (c.sku, c.after)) changes

-- The write, and the cache's update behind it.
unfoldable pub commit : Net → String → Direction → String → List Change → Sheets → Outcome (Dict ℤ)
commit net id direction now [] s = (ok [], s)
commit write_lost id direction now changes s = (err sheets_failed, s)
commit write_unreported id direction now changes s =
    (err sheets_failed, batch_update id direction now changes s)
commit _ id direction now changes s =
    let written = batch_update id direction now changes s in
    (
      ok (new_stock changes),
      record written {
        cache =
            if id == ""
            then written.cache
            else append_cached_ledger_rows (map (movement id direction now) changes) written.cache;
      },
    )

abbrev pub sheet_arrives : Net → Bool
sheet_arrives sheet_lost = false
sheet_arrives _ = true

-- What is to be written, from one read of the product sheet.
unfoldable pub plan_update :
    Net → Direction → List Item → Dict ℕ → Sheets → Result Error (List Change)
plan_update net direction items requested s = do
  raise_if (not (sheet_arrives net)) sheets_failed
  raise_if (not s.has_stock_column) no_stock_column
  index ← index_rows s.rows []
  plan_changes direction items index requested

unfoldable pub mutate :
    Net → String → Direction → String → List Item → Dict ℕ → Sheets → Outcome (Dict ℤ)
unfolding plan_update commit
mutate net id direction now items requested s = elim (plan_update net direction items requested s) [
  | err e ↦ (err e, s)
  | ok changes ↦ commit net id direction now changes s
]

-- An operation that the ledger's records list is not run again.
unfoldable pub run_unless_listed :
    Net
    → String
    → Direction
    → String
    → List Item
    → Dict ℕ
    → List Movement
    → Sheets
    → Outcome (Dict ℤ)
unfolding mutate
run_unless_listed net id direction now items requested [] s =
    mutate net id direction now items requested s
run_unless_listed net id direction now items requested (r ∷ rs) s =
    (validate_existing_inventory_operation (r ∷ rs) requested direction, s)

-- With the ledger's records at hand.
unfoldable pub once :
    Net → String → Direction → String → List Item → Dict ℕ → Cache → Sheets → Outcome (Dict ℤ)
unfolding run_unless_listed
once net id direction now items requested c s =
    run_unless_listed net id direction now items requested (ledger_operation_rows c.records id)
      (record s { cache = some c })

unfoldable pub with_ledger :
    Net → String → Direction → String → List Item → Dict ℕ → Outcome Worksheet → Outcome (Dict ℤ)
unfolding once
with_ledger net id direction now items requested (err e, s) = (err e, s)
with_ledger net id direction now items requested (ok w, s) =
    if records_arrive net s.cache
    then once net id direction now items requested (cached_inventory_ledger_records false w s.cache)
        s
    else (err sheets_failed, s)

unfoldable pub update_requested :
    Net → String → Direction → String → List Item → Dict ℕ → Sheets → Outcome (Dict ℤ)
unfolding with_ledger
update_requested net id direction now items requested s =
    if opens net
    then if id == ""
      then mutate net id direction now items requested s
      else with_ledger net id direction now items requested (get_or_create_inventory_ledger net s)
    else (err sheets_failed, s)

-- `_update_stock`; `now` is the time of the run. The direction is one of the two that the code
-- accepts.
unfoldable pub update_stock :
    Net → String → Direction → String → List Item → Sheets → Outcome (Dict ℤ)
unfolding update_requested
update_stock net id direction now items s = elim (build_inventory_request items) [
  | err e ↦ (err e, s)
  | ok requested ↦ update_requested net id direction now items requested s
]

unfoldable pub deduct_stock : Net → String → String → List Item → Sheets → Outcome (Dict ℤ)
deduct_stock net id now items s = update_stock net id deduct now items s

unfoldable pub restore_stock : Net → String → String → List Item → Sheets → Outcome (Dict ℤ)
restore_stock net id now items s = update_stock net id restore now items s

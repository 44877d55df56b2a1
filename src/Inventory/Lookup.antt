-- ===== src/Inventory/Lookup.antt =====
-- `inventory_operation_applied` of `store/app/catalog/sheets.py`: it always reads the ledger anew,
-- and leaves the cache as read.
use social_media_manager.Prelude.{
  ℕ, String, Bool, true, false, Option, none, some, List, [], ◌∷◌, ◌==◌, if◌then◌else◌,
}
use social_media_manager.Prelude.Dict.{Dict}
use social_media_manager.Prelude.Int.{ℤ}
use social_media_manager.Prelude.Result.{Result, ok, err}
use social_media_manager.Prelude.Text.{strip}
use social_media_manager.Inventory.Ledger.{
  Error, unexpected_headers, sheets_failed, Direction, Movement, Headers, blank, expected,
  unexpected, Worksheet, Sheets, Net, open_lost, ledger_lost, records_lost, ledger_operation_rows,
  cached_inventory_ledger_records,
}
use social_media_manager.Inventory.Request.{
  Item, build_inventory_request, validate_existing_inventory_operation,
}
use social_media_manager.Inventory.Update.{Outcome}

-- The network as it treats the reads of the lookup.
abbrev pub lookup_arrives : Net → Bool
lookup_arrives open_lost = false
lookup_arrives ledger_lost = false
lookup_arrives records_lost = false
lookup_arrives _ = true

abbrev reread : Worksheet → Sheets → Sheets
reread w s = record s { cache = some (cached_inventory_ledger_records true w s.cache) }

-- `_read_inventory_ledger` with `force_reload`: a missing worksheet or one without headers holds
-- no records.
unfoldable pub read_worksheet : Headers → Worksheet → Sheets → Outcome (List Movement)
read_worksheet blank w s = (ok [], s)
read_worksheet unexpected w s = (err unexpected_headers, s)
read_worksheet expected w s = (ok w.records, reread w s)

unfoldable pub read_from : Option Worksheet → Sheets → Outcome (List Movement)
unfolding read_worksheet
read_from none s = (ok [], s)
read_from (some w) s = read_worksheet w.headers w s

unfoldable pub read_inventory_ledger : Sheets → Outcome (List Movement)
unfolding read_from
read_inventory_ledger s = read_from s.ledger s

matching : Result Error (Dict ℤ) → Result Error Bool
matching (ok applied) = ok true
matching (err e) = err e

found : List Movement → Dict ℕ → Direction → Result Error Bool
unfolding matching
found [] requested direction = ok false
found (r ∷ rs) requested direction =
    matching (validate_existing_inventory_operation (r ∷ rs) requested direction)

unfoldable pub look_up : String → Dict ℕ → Direction → Outcome (List Movement) → Outcome Bool
unfolding found
look_up id requested direction (err e, s) = (err e, s)
look_up id requested direction (ok records, s) =
    (found (ledger_operation_rows records id) requested direction, s)

unfoldable pub lookup_requested : Net → String → Dict ℕ → Direction → Sheets → Outcome Bool
unfolding look_up
lookup_requested net id requested direction s =
    if lookup_arrives net
    then look_up id requested direction (read_inventory_ledger s)
    else (err sheets_failed, s)

unfoldable pub inventory_operation_applied :
    Net → String → List Item → Direction → Sheets → Outcome Bool
unfolding lookup_requested
inventory_operation_applied net id items direction s =
    if strip id == "" then (ok false, s) else elim (build_inventory_request items) [
      | err e ↦ (err e, s)
      | ok requested ↦ lookup_requested net (strip id) requested direction s
    ]

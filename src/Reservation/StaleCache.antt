-- ===== src/Reservation/StaleCache.antt =====
-- A mutation that is applied without its reply, and then cannot be looked up, leaves a cached ledger
-- that does not list it; the next attempt of the same process runs it again.
use social_media_manager.Prelude.{
  ℕ, suc, ◌+◌, ◌≤◌, String, ◌≡◌, refl, true, false, drop, none, some, List, [], ◌∷◌, ◌==◌, eq_refl,
  arith,
}
use native.Mathlib.Nat.{zero-add}
use social_media_manager.Prelude.Dict.{get, put}
use social_media_manager.Prelude.Int.{ℤ, pos, ◌-ℤ◌, ◌≤ℤ◌, ltb_ℤ, -ℤ_parts, int_laws}
use social_media_manager.Prelude.Result.{ok, err}
use social_media_manager.Prelude.Text.{strip, lower}
use social_media_manager.Inventory.Ledger.{
  deduct, Movement, expected, SheetRow, Cache, Sheets, Net, reached, open_lost, sheets_failed,
  write_unreported, ledger_operation_rows, write_at, append_cached_ledger_rows,
  cached_inventory_ledger_records,
}
use social_media_manager.Inventory.Request.{Item, build_inventory_request}
use social_media_manager.Inventory.Plan.{
  Change, index_rows, expected_price, price_differs, plan_sku, plan_changes, set_stock, write_stock,
  movement,
}
use social_media_manager.Inventory.Update.{
  opens, records_arrive, get_or_create_inventory_ledger, batch_update, commit, sheet_arrives,
  plan_update, mutate, update_stock, deduct_stock,
}
use social_media_manager.Inventory.Lookup.{lookup_requested, inventory_operation_applied}
use social_media_manager.Inventory.Stock.{stock_of, signed, moved}
use social_media_manager.Inventory.Book.{records_of}
use social_media_manager.Reservation.Attempts.{IsName}
use social_media_manager.Reservation.{
  uncertain, operation_id, reserve_operation_id, order_operation_applied, deduct_order_inventory,
}

abbrev row_of : String → ℤ → SheetRow
row_of sku stock = record { sku = sku; active = "yes"; price = none; stock = stock }

-- One product, at `stock`, an open ledger, and what the process has cached of it.
abbrev pub shop : String → ℤ → List Movement → Cache → Sheets
shop sku stock records cached = record {
  rows = row_of sku stock ∷ [];
  has_stock_column = true;
  ledger = some (record { headers = expected; records = records });
  cache = some cached;
}

-- The ledger was empty when the process read it.
abbrev pub read_empty : Cache
read_empty = record { records = []; next_row = 2 }

-- An order for `q + 1` pieces of it.
abbrev pub order_of : String → ℕ → List Item
order_of sku q =
    record {
      product_name = "";
      sku = sku;
      size = "";
      quantity = some (pos (suc q));
      unit_price = none;
    }
    ∷ []

abbrev change_of : String → ℕ → ℤ → Change
change_of sku q stock = record {
  sku = sku;
  quantity = suc q;
  before = stock;
  after = stock -ℤ pos (suc q);
}

yes_is_active : (lower (strip "yes") == "yes") ≡ true
unfolding lower strip
yes_is_active = refl

not_negative : (stock : ℤ) (n : ℕ) → pos n ≤ℤ stock → ltb_ℤ (stock -ℤ pos n) (pos 0) ≡ false
not_negative stock n h = ground (arith, -ℤ_parts stock (pos n))

module _ (sku : String) (q : ℕ) (trimmed : strip sku ≡ sku) (nonblank : (sku == "") ≡ false) where
  request_of : build_inventory_request (order_of sku q) ≡ ok ((sku, suc q) ∷ [])
  unfolding build_inventory_request get put
  request_of = rw (trimmed, nonblank, zero-add) refl

  index_of : (stock : ℤ) → index_rows (row_of sku stock ∷ []) [] ≡ ok ((sku, row_of sku stock) ∷ [])
  unfolding index_rows get put
  index_of stock =
      let named : (strip sku == "") ≡ false = rw trimmed nonblank in
      rw (named, index_rows, trimmed) refl

  no_price_expected : expected_price (order_of sku q) sku ≡ none
  unfolding expected_price
  no_price_expected = ground arith

  found_row : (stock : ℤ) → get sku ((sku, row_of sku stock) ∷ []) ≡ some (row_of sku stock)
  unfolding get
  found_row stock = rw (eq_refl sku) refl

  plan_sku_of :
      (stock : ℤ)
      → pos (suc q) ≤ℤ stock
      → plan_sku deduct (order_of sku q) ((sku, row_of sku stock) ∷ []) sku (suc q)
        ≡ ok (change_of sku q stock)
  unfolding plan_sku price_differs
  plan_sku_of stock enough =
      let covered : ltb_ℤ (stock -ℤ pos (suc q)) (pos 0) ≡ false =
        not_negative stock (suc q) enough in
      ground (arith, found_row stock, no_price_expected, yes_is_active, covered)

  plan_of :
      (net : Net) (stock : ℤ) (records : List Movement) (cached : Cache)
      → sheet_arrives net ≡ true
      → pos (suc q) ≤ℤ stock
      → plan_update net deduct (order_of sku q) ((sku, suc q) ∷ []) (shop sku stock records cached)
        ≡ ok (change_of sku q stock ∷ [])
  unfolding plan_update plan_changes
  plan_of net stock records cached arrives enough =
      ground (arith, arrives, index_of stock, plan_sku_of stock enough)

  -- The ledger line of the run.
  abbrev line : String → String → ℤ → Movement
  line id now stock = movement id deduct now (change_of sku q stock)

  -- Before the write, a run that does not find its operation in the cache.
  run_of :
      (net : Net) (id now : String) (stock : ℤ) (records : List Movement)
      → (id == "") ≡ false
      → sheet_arrives net ≡ true
      → opens net ≡ true
      → get_or_create_inventory_ledger net (shop sku stock records read_empty)
        ≡ (ok (record { headers = expected; records = records }), shop sku stock records read_empty)
      → records_arrive net (some read_empty) ≡ true
      → pos (suc q) ≤ℤ stock
      → update_stock net id deduct now (order_of sku q) (shop sku stock records read_empty)
        ≡ commit net id deduct now (change_of sku q stock ∷ []) (shop sku stock records read_empty)
  unfolding update_stock cached_inventory_ledger_records ledger_operation_rows
  run_of net id now stock records named arrives open_now got records_in enough =
      rw (request_of, update_stock, open_now, named, got, records_in)
        (rw (plan_of net stock records read_empty arrives enough, mutate) refl)

  written :
      (id now : String) (stock : ℤ) (records : List Movement)
      → (id == "") ≡ false
      → drop 1 records ≡ []
      → batch_update id deduct now (change_of sku q stock ∷ []) (shop sku stock records read_empty)
        ≡ shop sku (stock -ℤ pos (suc q)) (line id now stock ∷ []) read_empty
  unfolding batch_update write_stock set_stock write_at
  written id now stock records named short = rw (named, trimmed, eq_refl sku) (rw short refl)

  unreported_run :
      (id now : String) (stock : ℤ)
      → (id == "") ≡ false
      → pos (suc q) ≤ℤ stock
      → update_stock write_unreported id deduct now (order_of sku q) (shop sku stock [] read_empty)
        ≡ (err sheets_failed, shop sku (stock -ℤ pos (suc q)) (line id now stock ∷ []) read_empty)
  unfolding get_or_create_inventory_ledger commit
  unreported_run id now stock named enough =
      rw
        (
          run_of write_unreported id now stock [] named refl refl refl refl enough,
          written id now stock [] named refl,
        )
        refl

  later_run :
      (id now : String) (stock : ℤ) (records : List Movement)
      → (id == "") ≡ false
      → drop 1 records ≡ []
      → pos (suc q) ≤ℤ stock
      → update_stock reached id deduct now (order_of sku q) (shop sku stock records read_empty) ≡ (
        ok ((sku, stock -ℤ pos (suc q)) ∷ []),
        shop sku
            (stock -ℤ pos (suc q))
            (line id now stock ∷ [])
            (record { records = line id now stock ∷ []; next_row = 3 }),
      )
  unfolding get_or_create_inventory_ledger commit append_cached_ledger_rows
  later_run id now stock records named short enough =
      rw
        (
          run_of reached id now stock records named refl refl refl refl enough,
          written id now stock records named short,
          named,
        )
        refl

  unanswered_lookup :
      (id : String) (s : Sheets)
      → IsName id
      → inventory_operation_applied open_lost id (order_of sku q) deduct s ≡ (err sheets_failed, s)
  unfolding inventory_operation_applied lookup_requested
  unanswered_lookup id s name =
      rw (name.trimmed, name.nonblank) (rw (request_of, inventory_operation_applied) refl)

  -- The shop after the first attempt, and after the second.
  abbrev once_taken : String → String → ℤ → Sheets
  once_taken id now stock = shop sku (stock -ℤ pos (suc q)) (line id now stock ∷ []) read_empty

  abbrev twice_taken : String → String → ℤ → Sheets
  twice_taken id later stock =
      shop sku (stock -ℤ pos (suc q) -ℤ pos (suc q)) (line id later (stock -ℤ pos (suc q)) ∷ [])
        (record { records = line id later (stock -ℤ pos (suc q)) ∷ []; next_row = 3 })

  first_attempt :
      (order_id now : String) (stock : ℤ)
      → IsName (reserve_operation_id order_id)
      → pos (suc q) ≤ℤ stock
      → deduct_order_inventory
          (record { mutation = write_unreported; verification = open_lost; now = now })
          order_id
          (order_of sku q)
          (shop sku stock [] read_empty)
        ≡ (err uncertain, once_taken (reserve_operation_id order_id) now stock)
  unfolding deduct_order_inventory deduct_stock order_operation_applied operation_id
  first_attempt order_id now stock name enough =
      rw
        (
          unreported_run (reserve_operation_id order_id) now stock name.nonblank enough,
          unanswered_lookup (reserve_operation_id order_id)
              (once_taken (reserve_operation_id order_id) now stock) name,
        )
        refl

  second_attempt :
      (order_id now later : String) (verification : Net) (stock : ℤ)
      → IsName (reserve_operation_id order_id)
      → pos (suc q) ≤ℤ stock -ℤ pos (suc q)
      → deduct_order_inventory
          (record { mutation = reached; verification = verification; now = later })
          order_id
          (order_of sku q)
          (once_taken (reserve_operation_id order_id) now stock)
        ≡ (ok tt, twice_taken (reserve_operation_id order_id) later stock)
  unfolding deduct_order_inventory deduct_stock
  second_attempt order_id now later verification stock name enough =
      rw
        (later_run (reserve_operation_id order_id) later (stock -ℤ pos (suc q))
          (line (reserve_operation_id order_id) now stock ∷ []) name.nonblank refl enough)
        refl

  taken_twice :
      (id later : String) (stock : ℤ)
      → (stock_of sku (twice_taken id later stock).rows ≡ stock -ℤ pos (suc q) -ℤ pos (suc q))
        × (moved sku (records_of (twice_taken id later stock).ledger) ≡ pos 0 -ℤ pos (suc q))
  unfolding stock_of moved signed movement
  taken_twice id later stock = (rw (trimmed, eq_refl sku) refl, rw (eq_refl sku) (omega int_laws))

  -- From a process that has read the empty ledger, for a SKU and an operation name that are not
  -- blank and have no space at their ends, and a stock that suffices twice: when the write of a
  -- reservation is applied without its reply and the lookup does not arrive, the attempt reports
  -- `uncertain`; the next attempt of that process then succeeds, has taken the order's quantity
  -- twice, and the ledger shows it once.
  pub uncertain_reservation_repeats :
      (order_id now later : String) (verification : Net) (n : ℕ)
      → IsName (reserve_operation_id order_id)
      → suc q + suc q ≤ n
      → let first =
          deduct_order_inventory
            (record { mutation = write_unreported; verification = open_lost; now = now })
            order_id
            (order_of sku q)
            (shop sku (pos n) [] read_empty) in
        let second =
          deduct_order_inventory
            (record { mutation = reached; verification = verification; now = later })
            order_id
            (order_of sku q)
            first.1 in
        (first.0 ≡ err uncertain)
        × (second.0 ≡ ok tt)
        × (stock_of sku second.1.rows ≡ pos n -ℤ pos (suc q) -ℤ pos (suc q))
        × (moved sku (records_of second.1.ledger) ≡ pos 0 -ℤ pos (suc q))
  uncertain_reservation_repeats order_id now later verification n name enough =
      rw
        (
          first_attempt order_id now (pos n) name (omega arith),
          second_attempt order_id now later verification (pos n) name (omega int_laws),
        )
        (let (stock, ledger) = taken_twice (reserve_operation_id order_id) later (pos n) in
          (refl, refl, stock, ledger))

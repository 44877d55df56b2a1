-- ===== src/Inventory/Conservation.antt =====
-- Stock and ledger move together, and no deduction takes a stock below zero.
use social_media_manager.Prelude.{
  ℕ, String, ◌≡◌, refl, false, inl, inr, List, [], ◌∷◌, ◌==◌, map, arith,
}
use social_media_manager.Prelude.Dict.{Dict}
use social_media_manager.Prelude.Int.{ℤ, pos, ◌-ℤ◌, ◌≤ℤ◌, int_laws}
use social_media_manager.Inventory.Ledger.{Direction, SheetRow, Sheets, Net}
use social_media_manager.Inventory.Request.{Item, build_inventory_request-Distinct}
use social_media_manager.Inventory.Plan.{Change, write_stock, set_stock, movement}
use social_media_manager.Inventory.Stock.{
  stock_of, moved, moved-append, stock_of-set_stock, AllPlanned, AllPlanned-set_stock, Separate,
  write_stock-moved,
}
use social_media_manager.Inventory.Planned.{IsPlanOf, IsPlanOf-Separate}
use social_media_manager.Inventory.Update.{update_stock}
use social_media_manager.Inventory.Book.{records_of, IsSynced}
use social_media_manager.Inventory.Effect.{Effect, update_stock-Effect}

-- What a SKU's stock was before any recorded movement.
unfoldable pub balance : String → Sheets → ℤ
balance sku s = stock_of sku s.rows -ℤ moved sku (records_of s.ledger)

pub Effect-balance :
    (id : String) (direction : Direction) (now : String) (items : List Item) (s t : Sheets)
    (sku : String)
    → Effect id direction now items s t
    → balance sku t ≡ balance sku s
unfolding balance
Effect-balance id direction now items s t sku (inl same) = rw (same.rows, same.records) refl
Effect-balance id direction now items s t sku (inr v) =
    let separate : Separate v.changes =
      IsPlanOf-Separate v.requested v.changes (build_inventory_request-Distinct items v.request)
        v.plan in
    rw
      (
        v.rows,
        v.records,
        write_stock-moved direction id now sku v.changes s.rows v.planned separate,
        moved-append sku (records_of s.ledger) (map (movement id direction now) v.changes),
      )
      (omega int_laws)

-- From a spreadsheet whose cached ledger is the worksheet's: whatever the network does, a run of a
-- named operation leaves the difference of every SKU's stock and its ledger movements as it was.
pub update_stock_conserves :
    (net : Net) (id : String) (direction : Direction) (now : String) (items : List Item)
    (s : Sheets) (sku : String)
    → (id == "") ≡ false
    → IsSynced s.ledger s.cache
    → balance sku (update_stock net id direction now items s).1 ≡ balance sku s
update_stock_conserves net id direction now items s sku named k =
    Effect-balance id direction now items s (update_stock net id direction now items s).1 sku
      (update_stock-Effect net id direction now items s named k)

write_stock_nonneg :
    (direction : Direction) (requested : Dict ℕ) (changes : List Change) (rows : List SheetRow)
    (sku : String)
    → AllPlanned direction rows changes
    → Separate changes
    → IsPlanOf requested changes
    → pos 0 ≤ℤ stock_of sku rows
    → pos 0 ≤ℤ stock_of sku (write_stock changes rows)
unfolding write_stock
write_stock_nonneg direction requested [] rows sku p apart plan h = h
write_stock_nonneg direction [] (c ∷ changes) rows sku p apart plan h = elim plan [ ]
write_stock_nonneg direction ((k, q) ∷ requested) (c ∷ changes) rows sku p apart plan h =
    write_stock_nonneg direction requested changes (set_stock c.sku c.after rows) sku
      (AllPlanned-set_stock direction rows c changes p.0.present apart.0 p.1) apart.1 plan.3
      (rw (stock_of-set_stock sku c.sku c.after rows p.0.present) (ground (arith, plan.2, h)))

-- From a spreadsheet whose cached ledger is the worksheet's: a run of a named operation leaves no SKU
-- that had a stock of zero or more with one below zero.
pub update_stock_nonneg :
    (net : Net) (id : String) (direction : Direction) (now : String) (items : List Item)
    (s : Sheets) (sku : String)
    → (id == "") ≡ false
    → IsSynced s.ledger s.cache
    → pos 0 ≤ℤ stock_of sku s.rows
    → pos 0 ≤ℤ stock_of sku (update_stock net id direction now items s).1.rows
update_stock_nonneg net id direction now items s sku named k h =
    elim (update_stock-Effect net id direction now items s named k) [
      | inl same ↦ rw same.rows h
      | inr v ↦ rw v.rows (
          write_stock_nonneg direction v.requested v.changes s.rows sku v.planned
            (IsPlanOf-Separate v.requested v.changes
              (build_inventory_request-Distinct items v.request) v.plan)
            v.plan h)
    ]

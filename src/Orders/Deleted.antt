-- ===== src/Orders/Deleted.antt =====
-- How `delete_order` ends: what happened to the order's stock before its row went.
use social_media_manager.Prelude.{ℕ, String, ◌≡◌, Bool, true, false, Option, none, some, length}
use social_media_manager.Prelude.Result.{Result, ok, err}
use social_media_manager.Inventory.Ledger.{deduct, Sheets, Net}
use social_media_manager.Inventory.Update.{Outcome}
use social_media_manager.Reservation.{
  Failure, Attempt, order_operation_applied, restore_order_inventory,
}
use social_media_manager.Orders.Table.{Order, Store, find_order, remove_order}
use social_media_manager.Orders.Release.{Plan, restore_now, ask_ledger, nothing_held, plan_release}

abbrev pub restoring : Attempt → Order → Sheets → Result Failure (Unit {0}) × Sheets
restoring attempt row sheets = restore_order_inventory attempt row.id row.terms.items sheets

abbrev pub looking : Net → Order → Sheets → Outcome Bool
looking net row sheets = order_operation_applied net row.id row.terms.items deduct sheets

-- What happened to the stock of a row that goes, and the count of restored items. `restored` is a row that
-- held its stock; of the two after it the ledger was asked.
pub data GivenBack (net : Net) (attempt : Attempt) (row : Order) (plan : Plan)
    (before after : Sheets) (n : ℕ) : Type 0 where
  untracked :
      plan ≡ nothing_held → after ≡ before → n ≡ 0 → GivenBack net attempt row plan before after n
  restored :
      plan ≡ restore_now
      → restoring attempt row before ≡ (ok tt, after)
      → n ≡ length row.terms.items
      → GivenBack net attempt row plan before after n
  listed :
      (asked : Sheets)
      → plan ≡ ask_ledger
      → looking net row before ≡ (ok true, asked)
      → restoring attempt row asked ≡ (ok tt, after)
      → n ≡ length row.terms.items
      → GivenBack net attempt row plan before after n
  unlisted :
      plan ≡ ask_ledger
      → looking net row before ≡ (ok false, after)
      → n ≡ 0
      → GivenBack net attempt row plan before after n

-- The ways in which a deletion ends.
pub data Deleted (net : Net) (attempt : Attempt) (id : String) (s : Store)
    (a : Result Failure (Option ℕ) × Store) : Type 0 where
  absent : find_order id s.orders ≡ none → a ≡ (ok none, s) → Deleted net attempt id s a
  removed :
      (row : Order) (n : ℕ)
      → find_order id s.orders ≡ some row
      → GivenBack net attempt row (plan_release row.inventory_status) s.sheets a.1.sheets n
      → a.0 ≡ ok (some n)
      → a.1.orders ≡ remove_order id s.orders
      → Deleted net attempt id s a
  kept :
      (row left : Order) (e : Failure)
      → find_order id s.orders ≡ some row
      → a.0 ≡ err e
      → find_order id a.1.orders ≡ some left
      → left.payment_status ≡ row.payment_status
      → a.1.customers ≡ s.customers
      → a.1.replays ≡ s.replays
      → Deleted net attempt id s a

-- A row `row` of the store `s`, found under its id.
module _ (net : Net) (attempt : Attempt) (s : Store) (row : Order)
    (found : find_order row.id s.orders ≡ some row) where
  -- The store while the stock goes back: the row marked or not, and other sheets.
  record During (u : Store) : Type 0 where
    left : Order
    there : find_order row.id u.orders ≡ some left
    same_payment : left.payment_status ≡ row.payment_status
    same_rest : remove_order row.id u.orders ≡ remove_order row.id s.orders
    same_customers : u.customers ≡ s.customers
    same_replays : u.replays ≡ s.replays

-- ===== src/Orders/Placed.antt =====
-- How `create_order` ends from the inventory lock on: whose stock was deducted, and which row says so.
use social_media_manager.Prelude.{ℕ, ◌≡◌, Bool, true, false, some}
use social_media_manager.Prelude.Result.{Result, ok, err}
use social_media_manager.Prelude.Rows.{one_if}
use social_media_manager.Inventory.Ledger.{Sheets}
use social_media_manager.Reservation.{Failure, uncertain, deduct_order_inventory}
use social_media_manager.Orders.Table.{InventoryStatus, reserved, Order, Store, find_order}
use social_media_manager.Orders.Reserve.{
  Draft, Call, Claimed, OrderError, OrderReply, inventory, claim_order,
}
use social_media_manager.Orders.Rows.{sum}

abbrev is_reserved : InventoryStatus → Bool
is_reserved reserved = true
is_reserved _ = false

-- How many rows say that their stock is deducted.
abbrev pub reserved_rows : Store → ℕ
reserved_rows s = sum (λ o. one_if (is_reserved o.inventory_status)) s.orders

-- The deduction of a call, for the row that it goes on with.
abbrev pub deduction : Draft → Call → Claimed → Store → Result Failure (Unit {0}) × Sheets
deduction d call c t = deduct_order_inventory call.attempt c.order.id d.terms.items t.sheets

-- The ways in which a call ends.
pub data Placed (d : Draft) (call : Call) (s : Store) (a : Result OrderError OrderReply × Store)
    : Type 0 where
  reused :
      (c : Claimed) (r : OrderReply)
      → claim_order d call s ≡ (ok c, s)
      → c.order.inventory_status ≡ reserved
      → a ≡ (ok r, s)
      → r.order_id ≡ c.order.id
      → Placed d call s a
  confirmed :
      (c : Claimed) (t : Store) (r : OrderReply) (row : Order)
      → claim_order d call s ≡ (ok c, t)
      → (deduction d call c t).0 ≡ ok tt
      → a.1.sheets ≡ (deduction d call c t).1
      → a.0 ≡ ok r
      → r.order_id ≡ c.order.id
      → find_order c.order.id a.1.orders ≡ some row
      → row.inventory_status ≡ reserved
      → Placed d call s a
  unknown :
      (c : Claimed) (t : Store)
      → claim_order d call s ≡ (ok c, t)
      → (deduction d call c t).0 ≡ err uncertain
      → a.0 ≡ err (inventory uncertain)
      → a.1 ≡ record t { sheets = (deduction d call c t).1 }
      → reserved_rows a.1 ≡ reserved_rows s
      → Placed d call s a
  refused : (e : OrderError) → a.0 ≡ err e → reserved_rows a.1 ≡ reserved_rows s → Placed d call s a

abbrev claims_reserved : Result OrderError Claimed → Bool
claims_reserved (ok c) = is_reserved c.order.inventory_status
claims_reserved (err e) = false

-- What is known of a call whose deduction succeeded, by the row as the last transaction finds it.
module _ (d : Draft) (call : Call) (s : Store) (c : Claimed) (t : Store)
    (start : claim_order d call s ≡ (ok c, t)) (done : (deduction d call c t).0 ≡ ok tt)
    (kept : reserved_rows t ≡ reserved_rows s) where
  abbrev deducted : Store
  deducted = record t { sheets = (deduction d call c t).1 }

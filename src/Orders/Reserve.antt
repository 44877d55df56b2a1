-- ===== src/Orders/Reserve.antt =====
-- The reservation in `create_order` of `store/app/crm/orders.py`: the duplicate query, the limit on
-- unpaid orders, the insert, the deduction from the spreadsheet, and the row's confirmation.
use social_media_manager.Prelude.{
  ℕ, ◌+◌, String, Bool, true, false, ◌&&◌, Option, none, some, List, ◌∷◌, leb, filter,
  if◌then◌else◌,
}
use social_media_manager.Prelude.Result.{Result, ok, err}
use social_media_manager.Inventory.Ledger.{Sheets}
use social_media_manager.Reservation.{Failure, uncertain, failed, Attempt, deduct_order_inventory}
use social_media_manager.Orders.Table.{
  PaymentStatus, pending, rejected, InventoryStatus, reservation_pending, reserved,
  reservation_failed, Terms, Order, Store, is_open, find_order, update_order,
}
use social_media_manager.Orders.Payment.{holds}
use social_media_manager.Orders.Queries.{same_terms, latest, get_active_unpaid_order_count}

-- What is raised after validation. `limit` is `PendingOrderLimitError`; `row_missing` and
-- `row_changed` are the two calls for manual reconciliation.
pub data OrderError : Type 0 where
  limit : ℕ → OrderError
  not_reservable : OrderError
  inventory : Failure → OrderError
  row_missing row_changed : OrderError

-- A validated order: its terms and what it costs.
pub record Draft : Type 0 where
  pub customer_id : String
  pub terms : Terms
  pub total : ℕ
  pub merchandise_total : ℕ

-- What the environment brings: the generated id, the time, and the network's choices.
pub record Call : Type 0 where
  pub fresh_id : String
  pub now : ℕ
  pub attempt : Attempt

pub record OrderReply : Type 0 where
  pub order_id : String
  pub total : ℕ
  pub status : PaymentStatus
  pub created_new : Bool

-- `MAX_ACTIVE_UNPAID_ORDERS`
abbrev pub max_active_unpaid_orders : ℕ
max_active_unpaid_orders = 3

-- `INTERVAL '30 minutes'`
abbrev reuse_window : ℕ
reuse_window = 1800

abbrev reusable : InventoryStatus → ℕ → ℕ → Bool
reusable reservation_pending created now = true
reusable reserved created now = leb now (created + reuse_window)
reusable _ created now = false

-- The `existing` query.
abbrev pub repeats : Draft → ℕ → Order → Bool
repeats d now o =
    holds o.customer_id d.customer_id
    && same_terms o.terms d.terms
    && is_open o.payment_status
    && reusable o.inventory_status o.created_at now

unfoldable pub find_existing : Draft → ℕ → List Order → Option Order
find_existing d now orders = latest (filter (repeats d now) orders)

abbrev pub new_order : Draft → Call → Order
new_order d call = record {
  id = call.fresh_id;
  customer_id = some d.customer_id;
  terms = d.terms;
  total = d.total;
  merchandise_total = some d.merchandise_total;
  payment_status = pending;
  payment_proof = none;
  payment_proof_hash = none;
  payment_reference_key = none;
  inventory_status = reservation_pending;
  inventory_reserved_at = none;
  customer_totals_applied = false;
  shipping_status = "pending";
  tracking_number = none;
  created_at = call.now;
}

-- The row that the call goes on with, and whether it was inserted.
pub record Claimed : Type 0 where
  pub order : Order
  pub created_new : Bool

-- The first transaction.
unfoldable pub claim_order : Draft → Call → Store → Result OrderError Claimed × Store
claim_order d call s = elim (find_existing d call.now s.orders) [
  | some o ↦ (ok (record { order = o; created_new = false }), s)
  | none ↦
      let count = get_active_unpaid_order_count d.customer_id s.orders in
      if leb max_active_unpaid_orders count then (err (limit count), s) else (
        ok (record { order = new_order d call; created_new = true }),
        record s { orders = new_order d call ∷ s.orders },
      )
]

abbrev pub reject_pending : PaymentStatus → PaymentStatus
reject_pending pending = rejected
reject_pending p = p

-- `_mark_inventory_reservation_failed`, whose `WHERE` also asks for the pending state
abbrev pub mark_failed_row : InventoryStatus → Order → Order
mark_failed_row reservation_pending o = record o {
  inventory_status = reservation_failed;
  payment_status = reject_pending o.payment_status;
}
mark_failed_row _ o = o

unfoldable pub mark_inventory_reservation_failed : String → Store → Store
mark_inventory_reservation_failed id s = record s {
  orders = update_order id (λ o. mark_failed_row o.inventory_status o) s.orders;
}

abbrev pub confirm_row : ℕ → Order → Order
confirm_row now o = record o { inventory_status = reserved; inventory_reserved_at = some now }

-- The last transaction, on the row as it then is.
unfoldable pub confirm_found :
    Claimed → ℕ → Order → InventoryStatus → Store → Result OrderError OrderReply × Store
confirm_found c now row reservation_pending s = (
  ok (record {
    order_id = c.order.id;
    total = c.order.total;
    status = row.payment_status;
    created_new = c.created_new;
  }),
  record s { orders = update_order c.order.id (confirm_row now) s.orders },
)
confirm_found c now row reserved s = (
  ok (record {
    order_id = c.order.id;
    total = c.order.total;
    status = row.payment_status;
    created_new = c.created_new;
  }),
  s,
)
confirm_found c now row _ s = (err row_changed, s)

unfoldable pub confirm_reservation : Claimed → ℕ → Store → Result OrderError OrderReply × Store
unfolding confirm_found
confirm_reservation c now s = elim (find_order c.order.id s.orders) [
  | none ↦ (err row_missing, s)
  | some row ↦ confirm_found c now row row.inventory_status s
]

-- After the deduction, by how it ended.
unfoldable pub after_deduction :
    Claimed → ℕ → Store → Result Failure (Unit {0}) × Sheets → Result OrderError OrderReply × Store
unfolding mark_inventory_reservation_failed confirm_reservation
after_deduction c now s (ok _, sheets) = confirm_reservation c now (record s { sheets = sheets })
after_deduction c now s (err uncertain, sheets) =
    (err (inventory uncertain), record s { sheets = sheets })
after_deduction c now s (err (failed e), sheets) = (
  err (inventory (failed e)),
  mark_inventory_reservation_failed c.order.id (record s { sheets = sheets }),
)

-- What is done with the claimed row, by its inventory state.
unfoldable pub reserve_claimed :
    Draft → Call → Claimed → InventoryStatus → Store → Result OrderError OrderReply × Store
unfolding after_deduction
reserve_claimed d call c reserved s = (
  ok (record {
    order_id = c.order.id;
    total = c.order.total;
    status = c.order.payment_status;
    created_new = false;
  }),
  s,
)
reserve_claimed d call c reservation_pending s =
    after_deduction c call.now s
      (deduct_order_inventory call.attempt c.order.id d.terms.items s.sheets)
reserve_claimed d call c _ s = (err not_reservable, s)

unfoldable pub reserve_after_claim :
    Draft → Call → Result OrderError Claimed × Store → Result OrderError OrderReply × Store
unfolding reserve_claimed
reserve_after_claim d call (err e, s) = (err e, s)
reserve_after_claim d call (ok c, s) = reserve_claimed d call c c.order.inventory_status s

-- `create_order` from the inventory lock on.
unfoldable pub place_order : Draft → Call → Store → Result OrderError OrderReply × Store
unfolding claim_order reserve_after_claim
place_order d call s = reserve_after_claim d call (claim_order d call s)

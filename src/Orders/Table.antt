-- ===== src/Orders/Table.antt =====
-- The rows of the `orders` and `payment_proof_replays` tables, and the queries of
-- `store/app/crm/orders.py`. Amounts are whole cents, times are seconds.
use social_media_manager.Prelude.{
  ℕ, String, Bool, true, false, Option, none, some, List, [], ◌∷◌, ◌==◌, if◌then◌else◌,
}
use social_media_manager.Customers.Totals.{Customer}
use social_media_manager.Inventory.Ledger.{Sheets}
use social_media_manager.Inventory.Request.{Item}

-- `VALID_PAYMENT_STATUSES`
pub data PaymentStatus : Type 0 where
  pending proof_received confirmed failed rejected : PaymentStatus

-- `inventory_status`
pub data InventoryStatus : Type 0 where
  legacy_unknown reservation_pending reserved reservation_failed : InventoryStatus
  release_pending released : InventoryStatus

-- What makes two orders of a customer the same request.
pub record Terms : Type 0 where
  pub items : List Item
  pub payment_method : String
  pub shipping_city : String
  pub shipping_address : String
  pub shipping_method : String
  pub fulfillment_type : String
  pub shipping_zone : String
  pub pickup_agency : String
  pub shipping_fee : ℕ

pub record Order : Type 0 where
  pub id : String
  pub customer_id : Option String
  pub terms : Terms
  pub total : ℕ
  pub merchandise_total : Option ℕ
  pub payment_status : PaymentStatus
  pub payment_proof : Option String
  pub payment_proof_hash : Option String
  pub payment_reference_key : Option String
  pub inventory_status : InventoryStatus
  pub inventory_reserved_at : Option ℕ
  pub customer_totals_applied : Bool
  pub shipping_status : String
  pub tracking_number : Option String
  pub created_at : ℕ

-- A row of `payment_proof_replays`.
pub record Replay : Type 0 where
  pub proof_hash : Option String
  pub reference_key : Option String
  pub original_order_id : String

pub record Store : Type 0 where
  pub orders : List Order
  pub customers : List Customer
  pub replays : List Replay
  pub sheets : Sheets

-- `PAID_STATUSES`
abbrev pub is_paid : PaymentStatus → Bool
is_paid proof_received = true
is_paid confirmed = true
is_paid _ = false

-- `payment_status IN ('pending', 'proof_received')`
abbrev pub is_open : PaymentStatus → Bool
is_open pending = true
is_open proof_received = true
is_open _ = false

-- `inventory_status IN ('reserved', 'legacy_unknown')`
abbrev pub is_backed : InventoryStatus → Bool
is_backed reserved = true
is_backed legacy_unknown = true
is_backed _ = false

-- A row by its primary key.
unfoldable pub find_order : String → List Order → Option Order
find_order id [] = none
find_order id (o ∷ os) = if o.id == id then some o else find_order id os

-- `UPDATE orders SET … WHERE id = :oid`
unfoldable pub update_order : String → (Order → Order) → List Order → List Order
update_order id f [] = []
update_order id f (o ∷ os) = if o.id == id then f o ∷ os else o ∷ update_order id f os

-- `DELETE FROM orders WHERE id = :oid`
unfoldable pub remove_order : String → List Order → List Order
remove_order id [] = []
remove_order id (o ∷ os) = if o.id == id then os else o ∷ remove_order id os

-- `_customer_spend_amount`
unfoldable pub customer_spend_amount : Order → ℕ
customer_spend_amount o = elim o.merchandise_total [ none ↦ o.total | some m ↦ m ]

-- ===== src/Orders/Queries.antt =====
-- The reads of `store/app/crm/orders.py` that choose an order of a customer.
use social_media_manager.Prelude.{
  ℕ, String, Bool, true, false, ◌&&◌, Option, none, some, List, [], ◌∷◌, ◌==◌, nat_eq, leb, length,
  filter, if◌then◌else◌,
}
use social_media_manager.Prelude.Int.{eq_ℤ}
use social_media_manager.Inventory.Request.{Item}
use social_media_manager.Orders.Table.{
  InventoryStatus, reservation_pending, reserved, legacy_unknown, Terms, Order, is_open, is_backed,
}
use social_media_manager.Orders.Payment.{holds, is_pending}

eq_option : {A : Type 0} → (A → A → Bool) → Option A → Option A → Bool
eq_option eq none none = true
eq_option eq none (some b) = false
eq_option eq (some a) none = false
eq_option eq (some a) (some b) = eq a b

eq_item : Item → Item → Bool
unfolding eq_option
eq_item a b =
    a.product_name == b.product_name
    && a.sku == b.sku
    && a.size == b.size
    && eq_option eq_ℤ a.quantity b.quantity
    && eq_option nat_eq a.unit_price b.unit_price

eq_items : List Item → List Item → Bool
unfolding eq_item
eq_items [] [] = true
eq_items [] (b ∷ bs) = false
eq_items (a ∷ rest) [] = false
eq_items (a ∷ rest) (b ∷ bs) = eq_item a b && eq_items rest bs

-- The columns that the duplicate query compares. A NULL column is stored as the empty text.
unfoldable pub same_terms : Terms → Terms → Bool
unfolding eq_items
same_terms a b =
    eq_items a.items b.items
    && a.payment_method == b.payment_method
    && a.shipping_city == b.shipping_city
    && a.shipping_address == b.shipping_address
    && a.shipping_method == b.shipping_method
    && a.fulfillment_type == b.fulfillment_type
    && a.shipping_zone == b.shipping_zone
    && a.pickup_agency == b.pickup_agency
    && nat_eq a.shipping_fee b.shipping_fee

-- `ORDER BY created_at DESC LIMIT 1`
unfoldable pub later_of : Order → Option Order → Option Order
later_of o none = some o
later_of o (some best) = if leb best.created_at o.created_at then some o else some best

unfoldable pub latest : List Order → Option Order
unfolding later_of
latest [] = none
latest (o ∷ os) = later_of o (latest os)

abbrev pub open_for : String → Order → Bool
open_for customer o =
    holds o.customer_id customer && is_open o.payment_status && is_backed o.inventory_status

-- `get_latest_open_order`
unfoldable pub get_latest_open_order : String → List Order → Option Order
get_latest_open_order customer orders = latest (filter (open_for customer) orders)

-- `get_latest_pending_order`
unfoldable pub get_latest_pending_order : String → List Order → Option Order
get_latest_pending_order customer orders = latest (
    filter
      (λ o.
        holds o.customer_id customer && is_pending o.payment_status && is_backed o.inventory_status)
      orders)

-- `get_unambiguous_open_order`: the order, and whether there are several.
abbrev sole : List Order → Option Order × Bool
sole [] = (none, false)
sole (o ∷ []) = (some o, false)
sole (o ∷ p ∷ os) = (none, true)

unfoldable pub get_unambiguous_open_order : String → List Order → Option Order × Bool
get_unambiguous_open_order customer orders = sole (filter (open_for customer) orders)

-- `inventory_status IN ('reservation_pending', 'reserved', 'legacy_unknown')`
abbrev pub holds_inventory : InventoryStatus → Bool
holds_inventory reservation_pending = true
holds_inventory reserved = true
holds_inventory legacy_unknown = true
holds_inventory _ = false

abbrev pub active_unpaid : String → Order → Bool
active_unpaid customer o =
    holds o.customer_id customer && is_open o.payment_status && holds_inventory o.inventory_status

-- `_get_active_unpaid_order_count`
unfoldable pub get_active_unpaid_order_count : String → List Order → ℕ
get_active_unpaid_order_count customer orders = length (filter (active_unpaid customer) orders)

-- `get_customer_open_order_by_id`
abbrev by_id : String → String → Order → Bool
by_id customer id o = o.id == id && open_for customer o

unfoldable pub get_customer_open_order_by_id : String → String → List Order → Option Order
get_customer_open_order_by_id customer id orders = elim (filter (by_id customer id) orders) [
  | [] ↦ none
  | o ∷ os ↦ some o
]

-- ===== src/Orders/Shipping.antt =====
-- `update_order_shipping` of `store/app/crm/orders.py`.
use social_media_manager.Prelude.{
  String, Bool, true, Option, none, some, List, [], ◌∷◌, ◌==◌, if◌then◌else◌,
}
use social_media_manager.Prelude.Result.{Result, ok, err}
use social_media_manager.Prelude.Text.{strip, contains}
use social_media_manager.Orders.Table.{Order, Store, find_order, update_order}

pub data ShippingError : Type 0 where
  invalid_shipping_status : ShippingError

-- `VALID_SHIPPING_STATUSES`
abbrev valid_shipping_statuses : List String
valid_shipping_statuses = "pending" ∷ "shipped" ∷ "delivered" ∷ []

abbrev pub is_valid_shipping : Option String → Bool
is_valid_shipping none = true
is_valid_shipping (some s) = contains valid_shipping_statuses s

-- `(tracking_number or "").strip() or None`
abbrev cleaned : String → Option String
cleaned t = if strip t == "" then none else some (strip t)

-- A tracking number that is given is written, also as NULL; one that is not is kept.
abbrev shipping_or : Option String → String → String
shipping_or none old = old
shipping_or (some s) old = s

abbrev tracking_or : Option String → Option String → Option String
tracking_or none old = old
tracking_or (some t) old = cleaned t

unfoldable pub ship_row : Option String → Option String → Order → Order
ship_row status tracking o = record o {
  shipping_status = shipping_or status o.shipping_status;
  tracking_number = tracking_or tracking o.tracking_number;
}

-- The row's shipping after the update, or `none` where there is no such order.
pub record ShippingReply : Type 0 where
  pub shipping_status : String
  pub tracking_number : Option String

reply_of : Option Order → Option ShippingReply
reply_of none = none
reply_of (some o) =
    some (record { shipping_status = o.shipping_status; tracking_number = o.tracking_number })

unfoldable pub update_order_shipping :
    String
    → Option String
    → Option String
    → Store
    → Result ShippingError (Option ShippingReply) × Store
unfolding ship_row reply_of
update_order_shipping id status tracking s =
    if is_valid_shipping status
    then elim (find_order id s.orders) [
      | none ↦ (ok none, s)
      | some row ↦
          let orders = update_order id (ship_row status tracking) s.orders in
          (ok (reply_of (find_order id orders)), record s { orders = orders })
    ]
    else (err invalid_shipping_status, s)

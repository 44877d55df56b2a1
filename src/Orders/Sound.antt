-- ===== src/Orders/Sound.antt =====
-- What every row of the orders table satisfies, whatever transactions ran.
use social_media_manager.Prelude.{
  ℕ, String, ◌≡◌, refl, Bool, true, false, not, ◌&&◌, Option, none, some, arith,
}
use social_media_manager.Orders.Table.{
  PaymentStatus, InventoryStatus, reserved, legacy_unknown, release_pending, Order, is_paid,
  is_backed,
}
use social_media_manager.Orders.Payment.{ProofMetadata, totals_after, write_status, set_applied}
use social_media_manager.Orders.Reserve.{Draft, Call, new_order, mark_failed_row, confirm_row}
use social_media_manager.Orders.Release.{mark_from, release_row}

-- The states in which an order that is paid for can be: its stock is held, or was never tracked, or
-- the order is being deleted.
abbrev pub may_be_paid : InventoryStatus → Bool
may_be_paid reserved = true
may_be_paid legacy_unknown = true
may_be_paid release_pending = true
may_be_paid _ = false

abbrev has_customer : Order → Bool
has_customer o = elim o.customer_id [ none ↦ false | some _ ↦ true ]

pub record IsSound (o : Order) : Type 0 where
  pub backed : (is_paid o.payment_status && not (may_be_paid o.inventory_status)) ≡ false
  pub counted : o.customer_totals_applied ≡ (is_paid o.payment_status && has_customer o)

pub new_order-IsSound : (d : Draft) (call : Call) → IsSound (new_order d call)
new_order-IsSound d call = record { backed = refl; counted = refl }

pub confirm-IsSound : (now : ℕ) (o : Order) → IsSound o → IsSound (confirm_row now o)
confirm-IsSound now o h = ground arith

pub mark_failed-IsSound : (o : Order) → IsSound o → IsSound (mark_failed_row o.inventory_status o)
mark_failed-IsSound o h = ground arith

pub mark_release-IsSound : (o : Order) → IsSound o → IsSound (mark_from o.inventory_status o)
mark_release-IsSound o h = ground arith

-- The last transaction of a release applies to rows that are not paid.
pub release-IsSound :
    (o : Order) → is_paid o.payment_status ≡ false → IsSound o → IsSound (release_row o)
release-IsSound o unpaid h = ground arith

pub status-IsSound :
    (status : PaymentStatus) (note_text : Option String) (proof : Option ProofMetadata) (o : Order)
    → (is_paid status && not (is_backed o.inventory_status)) ≡ false
    → IsSound o
    → IsSound (set_applied (totals_after status o) (write_status status note_text proof o))
unfolding write_status
status-IsSound status note_text none o allowed h = ground arith
status-IsSound status note_text (some p) o allowed h = ground arith

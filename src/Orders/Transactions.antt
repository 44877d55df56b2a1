-- ===== src/Orders/Transactions.antt =====
-- The single-row updates of reservations and releases, as far as the totals are concerned.
use social_media_manager.Prelude.{ℕ, String, ◌≡◌, refl, arith}
use social_media_manager.Orders.Table.{Order, Store, update_order, customer_spend_amount}
use social_media_manager.Orders.Reserve.{mark_failed_row, confirm_row}
use social_media_manager.Orders.Release.{mark_from, release_row}
use social_media_manager.Orders.Rows.{sum-keep}
use social_media_manager.Orders.Accounts.{order_count, order_spend, IsAccounted}

-- An update that leaves alone whose the order is, what it costs and whether it was counted.
pub record KeepsAccount (f : Order → Order) : Type 0 where
  pub customer : (o : Order) → (f o).customer_id ≡ o.customer_id
  pub applied : (o : Order) → (f o).customer_totals_applied ≡ o.customer_totals_applied
  pub spend : (o : Order) → customer_spend_amount (f o) ≡ customer_spend_amount o

pub update-IsAccounted :
    (id : String) (f : Order → Order) (s : Store)
    → KeepsAccount f
    → IsAccounted s
    → IsAccounted (record s { orders = update_order id f s.orders })
update-IsAccounted id f s keep h = record {
  totals = λ k c found. ground (
    arith,
    h.totals k c found,
    sum-keep (order_count k) id f s.orders (λ o. ground (arith, keep.customer o, keep.applied o)),
    sum-keep (order_spend k) id f s.orders
        (λ o. ground (arith, keep.customer o, keep.applied o, keep.spend o)),
  );
}

pub mark_failed-KeepsAccount : KeepsAccount (λ o. mark_failed_row o.inventory_status o)
unfolding customer_spend_amount
mark_failed-KeepsAccount = record {
  customer = λ o. ground arith;
  applied = λ o. ground arith;
  spend = λ o. ground arith;
}

pub confirm-KeepsAccount : (now : ℕ) → KeepsAccount (confirm_row now)
unfolding customer_spend_amount
confirm-KeepsAccount now = record { customer = λ o. refl; applied = λ o. refl; spend = λ o. refl }

pub mark_release-KeepsAccount : KeepsAccount (λ o. mark_from o.inventory_status o)
unfolding customer_spend_amount
mark_release-KeepsAccount = record {
  customer = λ o. ground arith;
  applied = λ o. ground arith;
  spend = λ o. ground arith;
}

pub release-KeepsAccount : KeepsAccount release_row
unfolding customer_spend_amount
release-KeepsAccount = record { customer = λ o. refl; applied = λ o. refl; spend = λ o. refl }

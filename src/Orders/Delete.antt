-- ===== src/Orders/Delete.antt =====
-- The last transaction of `delete_order` in `store/app/crm/orders.py`, and the whole operation: under
-- the inventory lock the stock of the order is given back as in a release, then its row goes.
use social_media_manager.Prelude.{
  ℕ, String, Bool, true, false, not, ◌||◌, Option, none, some, List, ◌∷◌, ◌==◌, length, any,
  if◌then◌else◌,
}
use social_media_manager.Prelude.Result.{Result, ok}
use social_media_manager.Customers.Totals.{Customer, decrement_orders}
use social_media_manager.Inventory.Ledger.{deduct, Net}
use social_media_manager.Inventory.Update.{Outcome}
use social_media_manager.Reservation.{Failure, Attempt, order_operation_applied}
use social_media_manager.Orders.Table.{
  Order, Replay, Store, find_order, remove_order, customer_spend_amount,
}
use social_media_manager.Orders.Payment.{holds}
use social_media_manager.Orders.Release.{
  Plan, restore_now, ask_ledger, nothing_held, plan_release, give_back,
}

-- `ON CONFLICT DO NOTHING`: a replay row whose hash or key is there already is not inserted.
unfoldable pub eq_key : Option String → Option String → Bool
eq_key none k = false
eq_key (some h) k = holds k h

unfoldable pub insert_replay : Replay → List Replay → List Replay
unfolding eq_key
insert_replay r replays =
    if any (λ q. eq_key r.proof_hash q.proof_hash || eq_key r.reference_key q.reference_key) replays
    then replays
    else r ∷ replays

unfoldable pub nonempty : Option String → Bool
nonempty none = false
nonempty (some k) = not (k == "")

-- The proof that a deleted order leaves behind.
unfoldable pub keep_replay : Order → List Replay → List Replay
unfolding insert_replay nonempty
keep_replay o replays =
    if nonempty o.payment_proof_hash || nonempty o.payment_reference_key
    then insert_replay
        (record {
          proof_hash = o.payment_proof_hash;
          reference_key = o.payment_reference_key;
          original_order_id = o.id;
        })
        replays
    else replays

-- `_revert_paid_customer_updates`, up to the `tags` column
unfoldable pub revert_customer : Order → List Customer → List Customer
revert_customer o customers = elim o.customer_id [
  | none ↦ customers
  | some c ↦
      if o.customer_totals_applied
      then decrement_orders c (customer_spend_amount o) customers
      else customers
]

-- The last transaction of a deletion; `none` where the row is gone.
unfoldable pub finish_delete : String → ℕ → Store → Result Failure (Option ℕ) × Store
unfolding keep_replay revert_customer
finish_delete id restored s = elim (find_order id s.orders) [
  | none ↦ (ok none, s)
  | some row ↦ (
    ok (some restored),
    record s {
      orders = remove_order id s.orders;
      customers = revert_customer row s.customers;
      replays = keep_replay row s.replays;
    },
  )
]

-- `restored_items`
unfoldable pub restored_count : Plan → Order → Outcome Bool → ℕ
restored_count nothing_held row answer = 0
restored_count restore_now row answer = length row.terms.items
restored_count ask_ledger row (ok true, s) = length row.terms.items
restored_count ask_ledger row (_, s) = 0

-- `delete_order`: the number of restored items, or `none` where there is no such order.
unfoldable pub delete_order : Net → Attempt → String → Store → Result Failure (Option ℕ) × Store
unfolding give_back restored_count finish_delete
delete_order net attempt id s = elim (find_order id s.orders) [
  | none ↦ (ok none, s)
  | some row ↦
      let plan = plan_release row.inventory_status in
      let restored =
        restored_count plan row
          (order_operation_applied net row.id row.terms.items deduct s.sheets) in
      give_back plan net attempt row s (finish_delete id restored)
]

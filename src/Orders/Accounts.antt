-- ===== src/Orders/Accounts.antt =====
-- Each customer's totals are those of the orders that were counted for it.
use social_media_manager.Prelude.{
  ℕ, ◌+◌, ◌-◌, String, ◌≡◌, refl, Bool, ◌&&◌, Option, none, some, List, if◌then◌else◌, eq_iff,
  arith, Option-cases, inl, inr,
}
use social_media_manager.Customers.Totals.{
  Customer, add_order, drop_order, find_customer, increment_orders, decrement_orders,
  find-update as find-update_customer,
}
use social_media_manager.Orders.Table.{
  PaymentStatus, Order, Store, find_order, remove_order, customer_spend_amount,
}
use social_media_manager.Orders.Payment.{
  ProofMetadata, holds, set_applied, totals_after, write_status, settle_customer, apply_status,
}
use social_media_manager.Orders.Delete.{revert_customer, finish_delete}
use social_media_manager.Orders.Rows.{sum, sum-update, sum-remove}

-- What an order adds to a customer's totals.
abbrev pub counted_for : String → Order → Bool
counted_for customer o = o.customer_totals_applied && holds o.customer_id customer

abbrev pub order_count : String → Order → ℕ
order_count customer o = if counted_for customer o then 1 else 0

abbrev pub order_spend : String → Order → ℕ
order_spend customer o = if counted_for customer o then customer_spend_amount o else 0

abbrev pub AgreesWith : List Order → String → Customer → Type 0
AgreesWith orders id c =
    (c.total_orders ≡ sum (order_count id) orders) × (c.total_spent ≡ sum (order_spend id) orders)

pub record IsAccounted (s : Store) : Type 0 where
  pub totals :
      (id : String) (c : Customer)
      → find_customer id s.customers ≡ some c
      → AgreesWith s.orders id c

-- The row after both updates.
abbrev settled_row : PaymentStatus → Option String → Option ProofMetadata → Order → Order → Order
settled_row status note_text proof row o =
    set_applied (totals_after status row) (write_status status note_text proof o)

spend-write_status :
    (status : PaymentStatus) (note_text : Option String) (proof : Option ProofMetadata)
    (row o : Order)
    → customer_spend_amount (settled_row status note_text proof row o) ≡ customer_spend_amount o
unfolding customer_spend_amount write_status
spend-write_status status note_text none row o = refl
spend-write_status status note_text (some p) row o = refl

customer-write_status :
    (status : PaymentStatus) (note_text : Option String) (proof : Option ProofMetadata)
    (row o : Order)
    → (settled_row status note_text proof row o).customer_id ≡ o.customer_id
unfolding write_status
customer-write_status status note_text none row o = refl
customer-write_status status note_text (some p) row o = refl

apply_status-totals :
    (status : PaymentStatus) (note_text : Option String) (proof : Option ProofMetadata)
    (row : Order) (s : Store) (id : String) (c : Customer)
    → find_order row.id s.orders ≡ some row
    → ((b : Customer) → find_customer id s.customers ≡ some b → AgreesWith s.orders id b)
    → find_customer id (apply_status status note_text proof row s).customers ≡ some c
    → AgreesWith (apply_status status note_text proof row s).orders id c
unfolding apply_status settle_customer increment_orders decrement_orders
apply_status-totals status note_text proof row s id c here before after =
    let f = settled_row status note_text proof row in
    let count = sum-update (order_count id) row.id f s.orders row here in
    let spend = sum-update (order_spend id) row.id f s.orders row here in
    elim (Option-cases row.customer_id) [
      | inl ownerless ↦ ground (
        arith,
        ownerless,
        count,
        spend,
        before c,
        spend-write_status status note_text proof row row,
        customer-write_status status note_text proof row row,
      )
      | inr (owner, mine) ↦ elim (Option-cases (find_customer id s.customers)) [
        | inl missing ↦ ground (
          arith,
          mine,
          missing,
          find-update_customer id owner (add_order (customer_spend_amount row)) s.customers
              (λ b. refl),
          find-update_customer id owner (drop_order (customer_spend_amount row)) s.customers
              (λ b. refl),
        )
        | inr (b, known) ↦ ground (
          arith,
          mine,
          known,
          before b known,
          count,
          spend,
          eq_iff id owner,
          eq_iff owner id,
          spend-write_status status note_text proof row row,
          customer-write_status status note_text proof row row,
          find-update_customer id owner (add_order (customer_spend_amount row)) s.customers
              (λ b. refl),
          find-update_customer id owner (drop_order (customer_spend_amount row)) s.customers
              (λ b. refl),
        )
      ]
    ]

delete-totals :
    (oid : String) (row : Order) (s : Store) (id : String) (c : Customer)
    → find_order oid s.orders ≡ some row
    → ((b : Customer) → find_customer id s.customers ≡ some b → AgreesWith s.orders id b)
    → find_customer id (revert_customer row s.customers) ≡ some c
    → AgreesWith (remove_order oid s.orders) id c
unfolding revert_customer decrement_orders
delete-totals oid row s id c here before after =
    let count = sum-remove (order_count id) oid s.orders row here in
    let spend = sum-remove (order_spend id) oid s.orders row here in
    elim (Option-cases row.customer_id) [
      | inl ownerless ↦ ground (arith, ownerless, count, spend, before c)
      | inr (owner, mine) ↦ elim (Option-cases (find_customer id s.customers)) [
        | inl missing ↦ ground (
          arith,
          mine,
          missing,
          find-update_customer id owner (drop_order (customer_spend_amount row)) s.customers
              (λ b. refl),
        )
        | inr (b, known) ↦ ground (
          arith,
          mine,
          known,
          before b known,
          count,
          spend,
          eq_iff id owner,
          eq_iff owner id,
          find-update_customer id owner (drop_order (customer_spend_amount row)) s.customers
              (λ b. refl),
        )
      ]
    ]

-- The status update keeps the accounts.
pub apply_status-IsAccounted :
    (status : PaymentStatus) (note_text : Option String) (proof : Option ProofMetadata)
    (row : Order) (s : Store)
    → find_order row.id s.orders ≡ some row
    → IsAccounted s
    → IsAccounted (apply_status status note_text proof row s)
apply_status-IsAccounted status note_text proof row s here h = record {
  totals =
      λ id c after. apply_status-totals status note_text proof row s id c here (h.totals id) after;
}

remaining : (n a b : ℕ) → n + a ≡ b → b - a ≡ n
remaining n a b h = omega arith

-- A deletion takes back what its order had been counted for.
pub finish_delete-IsAccounted :
    (id : String) (restored : ℕ) (s : Store)
    → IsAccounted s
    → IsAccounted (finish_delete id restored s).1
unfolding finish_delete
finish_delete-IsAccounted id restored s h = elim (Option-cases (find_order id s.orders)) [
  | inl gone ↦ rw (gone, finish_delete) h
  | inr (row, here) ↦
      rw (here, finish_delete)
        (record { totals = λ k c after. delete-totals id row s k c here (h.totals k) after })
]

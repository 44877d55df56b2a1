-- ===== src/Customers/Totals.antt =====
-- `increment_orders` and `decrement_orders` of `store/app/crm/customers.py`. Amounts are whole
-- cents; `GREATEST(x - y, 0)` is the subtraction of naturals.
use social_media_manager.Prelude.{
  ℕ, ◌+◌, ◌-◌, String, ◌≡◌, Option, none, some, List, [], ◌∷◌, ◌==◌, if◌then◌else◌, eq_iff, arith,
}

pub record Customer : Type 0 where
  pub id : String
  pub total_orders : ℕ
  pub total_spent : ℕ

unfoldable pub find_customer : String → List Customer → Option Customer
find_customer id [] = none
find_customer id (c ∷ cs) = if c.id == id then some c else find_customer id cs

-- `UPDATE customers SET … WHERE id = :id`; the id is the primary key.
unfoldable pub update_customer : String → (Customer → Customer) → List Customer → List Customer
update_customer id f [] = []
update_customer id f (c ∷ cs) = if c.id == id then f c ∷ cs else c ∷ update_customer id f cs

abbrev pub add_order : ℕ → Customer → Customer
add_order amount c = record c {
  total_orders = c.total_orders + 1;
  total_spent = c.total_spent + amount;
}

abbrev pub drop_order : ℕ → Customer → Customer
drop_order amount c = record c {
  total_orders = c.total_orders - 1;
  total_spent = c.total_spent - amount;
}

unfoldable pub increment_orders : String → ℕ → List Customer → List Customer
increment_orders id amount customers = update_customer id (add_order amount) customers

unfoldable pub decrement_orders : String → ℕ → List Customer → List Customer
decrement_orders id amount customers = update_customer id (drop_order amount) customers

pub find-update :
    (k id : String) (f : Customer → Customer) (cs : List Customer)
    → ((c : Customer) → (f c).id ≡ c.id)
    → find_customer k (update_customer id f cs) ≡ (
        if k == id
        then elim (find_customer k cs) [ none ↦ none | some c ↦ some (f c) ]
        else find_customer k cs)
unfolding find_customer update_customer
find-update k id f [] keeps = ground arith
find-update k id f (c ∷ cs) keeps =
    ground (arith, keeps c, eq_iff k id, eq_iff c.id id, eq_iff c.id k, find-update k id f cs keeps)

-- ===== src/Orders/Payment.antt =====
-- `update_order_payment_status` of `store/app/crm/orders.py`: one transaction under the row's lock.
use social_media_manager.Prelude.{
  String, Bool, true, false, not, ◌&&◌, ◌||◌, Option, none, some, List, ◌==◌, find?, if◌then◌else◌,
}
use social_media_manager.Prelude.Result.{Result, ok, err}
use social_media_manager.Customers.Totals.{Customer, increment_orders, decrement_orders}
use social_media_manager.Orders.Table.{
  PaymentStatus, pending, proof_received, confirmed, failed, rejected, Order, Replay, Store,
  is_paid, is_backed, find_order, update_order, customer_spend_amount,
}

-- The proof's keys. The other metadata is stored beside them and read by nothing here.
pub record ProofMetadata : Type 0 where
  pub proof_hash : String
  pub reference_key : String

-- The `ValueError`s.
pub data PaymentError : Type 0 where
  invalid_status : PaymentError
  not_backed : PaymentError

-- The returned dict, or `None`.
pub data PaymentReply : Type 0 where
  no_update : PaymentReply
  updated : PaymentStatus → Bool → PaymentReply
  replay_detected : String → PaymentReply

unfoldable pub parse_payment_status : String → Option PaymentStatus
parse_payment_status s =
    if s == "pending"
    then some pending
    else if s == "proof_received"
    then some proof_received
    else if s == "confirmed"
    then some confirmed
    else if s == "failed"
    then some failed
    else if s == "rejected"
    then some rejected
    else none

-- SQL's `column = :value`, which a NULL column does not meet
abbrev pub holds : Option String → String → Bool
holds none s = false
holds (some c) s = c == s

abbrev pub order_replays : String → ProofMetadata → Order → Bool
order_replays id p o =
    not (o.id == id)
    && (holds o.payment_proof_hash p.proof_hash || holds o.payment_reference_key p.reference_key)

abbrev pub row_replays : ProofMetadata → Replay → Bool
row_replays p r = holds r.proof_hash p.proof_hash || holds r.reference_key p.reference_key

-- The `replay` query: an earlier use of the proof by another order, or by one that was deleted.
unfoldable pub find_replay : String → ProofMetadata → List Order → List Replay → Option String
find_replay id p orders replays = elim (find? (order_replays id p) orders) [
  | some o ↦ some o.id
  | none ↦ elim (find? (row_replays p) replays) [ some r ↦ some r.original_order_id | none ↦ none ]
]

-- `COALESCE(:note, payment_proof)`
abbrev pub coalesce {ℓ} : {A : Type ℓ} → Option A → Option A → Option A
coalesce none old = old
coalesce (some a) old = some a

-- The row's update, with the proof's columns where there is a proof.
unfoldable pub write_status : PaymentStatus → Option String → Option ProofMetadata → Order → Order
write_status status note_text none o = record o {
  payment_status = status;
  payment_proof = coalesce note_text o.payment_proof;
}
write_status status note_text (some p) o = record o {
  payment_status = status;
  payment_proof = coalesce note_text o.payment_proof;
  payment_proof_hash = some p.proof_hash;
  payment_reference_key = some p.reference_key;
}

abbrev pub set_applied : Bool → Order → Order
set_applied b o = record o { customer_totals_applied = b }

-- What becomes of the customer's totals: applied once when the order is first paid, and taken back
-- when it is paid no longer.
abbrev pub totals_after : PaymentStatus → Order → Bool
totals_after status row =
    if is_paid status
    then row.customer_totals_applied || elim row.customer_id [ none ↦ false | some _ ↦ true ]
    else false

-- `_apply_paid_customer_updates` and `_revert_paid_customer_updates`. The synchronisation of the tier
-- tags, which runs after either, writes the `tags` column alone.
unfoldable pub settle_customer : PaymentStatus → Order → List Customer → List Customer
settle_customer status row customers = elim row.customer_id [
  | none ↦ customers
  | some c ↦
      if is_paid status && not row.customer_totals_applied
      then increment_orders c (customer_spend_amount row) customers
      else if not (is_paid status) && row.customer_totals_applied
      then decrement_orders c (customer_spend_amount row) customers
      else customers
]

-- Both updates of the row, and the customer's.
unfoldable pub apply_status :
    PaymentStatus → Option String → Option ProofMetadata → Order → Store → Store
unfolding write_status settle_customer
apply_status status note_text proof row s = record s {
  orders =
      update_order row.id
        (λ o. set_applied (totals_after status row) (write_status status note_text proof o))
        s.orders;
  customers = settle_customer status row s.customers;
}

abbrev pub has_proof : Option ProofMetadata → Bool
has_proof none = false
has_proof (some _) = true

abbrev pub is_pending : PaymentStatus → Bool
is_pending pending = true
is_pending _ = false

-- With the row read `FOR UPDATE`.
unfoldable pub update_row :
    PaymentStatus
    → Option String
    → Option ProofMetadata
    → Order
    → Store
    → Result PaymentError PaymentReply × Store
unfolding apply_status
update_row status note_text proof row s =
    if is_paid status && not (is_backed row.inventory_status)
    then (if has_proof proof then (ok no_update, s) else (err not_backed, s))
    else if has_proof proof && not (is_pending row.payment_status)
    then (ok no_update, s)
    else (ok (updated status (totals_after status row)), apply_status status note_text proof row s)

unfoldable pub replay_of : String → Option ProofMetadata → Store → Option String
replay_of id none s = none
replay_of id (some p) s = find_replay id p s.orders s.replays

unfoldable pub set_payment_status :
    String
    → PaymentStatus
    → Option String
    → Option ProofMetadata
    → Store
    → Result PaymentError PaymentReply × Store
unfolding replay_of update_row
set_payment_status id status note_text proof s = elim (replay_of id proof s) [
  | some earlier ↦ (ok (replay_detected earlier), s)
  | none ↦ elim (find_order id s.orders) [
    | none ↦ (ok no_update, s)
    | some row ↦ update_row status note_text proof row s
  ]
]

unfoldable pub update_order_payment_status :
    String
    → String
    → Option String
    → Option ProofMetadata
    → Store
    → Result PaymentError PaymentReply × Store
unfolding parse_payment_status set_payment_status
update_order_payment_status id status note_text proof s = elim (parse_payment_status status) [
  | none ↦ (err invalid_status, s)
  | some p ↦ set_payment_status id p note_text proof s
]

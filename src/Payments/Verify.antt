-- ===== src/Payments/Verify.antt =====
-- `verify_payment_proof`: the order that a proof is for, its checks, and the update of the order and session.
use social_media_manager.Prelude.{
  String, Bool, true, false, Option, none, some, List, ◌==◌, if◌then◌else◌,
}
use social_media_manager.Prelude.Text.{strip}
use social_media_manager.Prelude.Result.{Result, ok, err}
use social_media_manager.Orders.Table.{Order, Store, is_paid}
use social_media_manager.Orders.Payment.{
  PaymentError, PaymentReply, no_update, updated, replay_detected, update_order_payment_status,
}
use social_media_manager.Orders.Queries.{get_unambiguous_open_order, get_customer_open_order_by_id}
use social_media_manager.Payments.Sessions.{Session, get_session, set_current_order}
use social_media_manager.Payments.Readers.{Vision}
use social_media_manager.Payments.Proof.{
  Verification, result, compare_amount, verified, no_open_order, ambiguous_order, duplicate_proof,
  manual_review, Desk, Checked, check_proof,
}

pub record World : Type 0 where
  pub store : Store
  pub sessions : List Session

pub data Target : Type 0 where
  ambiguous nothing : Target
  found : Order → Target

abbrev sole_target : Option Order × Bool → Target
sole_target (o, true) = ambiguous
sole_target (none, false) = nothing
sole_target (some o, false) = found o

-- The order that the session is bound to while it waits for payment.
abbrev session_order : String → List Order → Option Session → Option Order
session_order customer orders none = none
session_order customer orders (some s) = elim s.current_order_id [
  | none ↦ none
  | some id ↦
      if s.workflow_stage == "waiting_for_payment"
      then get_customer_open_order_by_id customer id orders
      else none
]

-- `_get_payment_target_order`; a session that could not be read counts as none.
unfoldable pub get_payment_target_order : String → Bool → World → Target
get_payment_target_order customer readable w =
    elim (if readable
      then session_order customer w.store.orders (get_session customer w.sessions)
      else none) [
        | some o ↦ found o
        | none ↦ sole_target (get_unambiguous_open_order customer w.store.orders)
      ]

-- `_mark_session_payment_verified`
abbrev pub mark_session_payment_verified : String → World → World
mark_session_payment_verified customer w = record w {
  sessions = set_current_order customer none "completed" "payment" w.sessions;
}

abbrev pub Answer : Type 0
Answer = Result PaymentError Verification × World

abbrev pub answered : Verification → World → Answer
answered r w = (ok r, w)

-- The context names the method where there is one.
abbrev method_of : Order → Option String
method_of o =
    let method = strip o.terms.payment_method in if method == "" then none else some method

-- The answers for a proof that passed.
abbrev pub duplicate_answer : Order → Checked → Verification
duplicate_answer o c =
    compare_amount o duplicate_proof c.expected (some c.detected) (some c.currency)
      (some c.currency)

abbrev pub correct_answer : Order → Checked → Verification
correct_answer o c =
    record (compare_amount o verified c.expected (some c.detected) (some c.currency)
      (some c.currency)) { payment_method = method_of o }

-- With the answer of `update_order_payment_status`
abbrev pub conclude :
    String → Order → Checked → World → Result PaymentError PaymentReply × Store → Answer
conclude customer o c w (err e, store) = (err e, record w { store = store })
conclude customer o c w (ok no_update, store) =
    answered (compare_amount o manual_review o.total (some c.detected) none none)
      (record w { store = store })
conclude customer o c w (ok (replay_detected earlier), store) =
    answered (duplicate_answer o c) (record w { store = store })
conclude customer o c w (ok (updated status applied), store) =
    answered (correct_answer o c)
      (mark_session_payment_verified customer (record w { store = store }))

-- With the outcome of the checks. `update` is `update_order`.
abbrev pub settle :
    String → Order → Option String → Bool → World → Result Verification Checked → Answer
settle customer o note_text update w (err r) = answered r w
settle customer o note_text false w (ok c) = answered (correct_answer o c) w
settle customer o note_text true w (ok c) =
    conclude customer o c w
      (update_order_payment_status o.id "proof_received" note_text (some c.proof) w.store)

-- The answer for an order that is paid
abbrev pub known_answer : Order → Verification
known_answer o = record (result verified (some o.id)) {
  expected_amount = some o.total;
  payment_method = method_of o;
}

-- With the order
unfoldable pub verify_order : Desk → String → Vision → Option String → Bool → Order → World → Answer
verify_order d customer v note_text update o w =
    if is_paid o.payment_status
    then answered (known_answer o) (if update then mark_session_payment_verified customer w else w)
    else settle customer o note_text update w (check_proof d o v)

abbrev pub verify_target : Desk → String → Vision → Option String → Bool → World → Target → Answer
verify_target d customer v note_text update w ambiguous = answered (result ambiguous_order none) w
verify_target d customer v note_text update w nothing = answered (result no_open_order none) w
verify_target d customer v note_text update w (found o) =
    verify_order d customer v note_text update o w

unfoldable pub verify_payment_proof :
    Desk → String → Vision → Option String → Bool → Bool → World → Answer
unfolding verify_order
verify_payment_proof d customer v note_text update readable w =
    verify_target d customer v note_text update w (get_payment_target_order customer readable w)

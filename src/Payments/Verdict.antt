-- ===== src/Payments/Verdict.antt =====
-- What a verification comes to.
use social_media_manager.Prelude.{
  ◌+◌, ◌≤◌, String, ◌≡◌, refl, ap, Bool, true, false, Option, none, some, arith, Bool-cases,
  Option-cases, inl, inr,
}
use social_media_manager.Prelude.Result.{Result, ok, err}
use social_media_manager.Orders.Table.{proof_received, Order, Store, is_paid, find_order}
use social_media_manager.Orders.Payment.{
  ProofMetadata, PaymentError, PaymentReply, no_update, updated, replay_detected,
  parse_payment_status, replay_of, update_row, set_payment_status, update_order_payment_status,
}
use social_media_manager.Orders.Outcomes.{IsApplied, Outcome, set_payment_status-Outcome}
use social_media_manager.Payments.Readers.{
  Vision, method_currency, normalize_currency, expected_receipt_amount,
}
use social_media_manager.Payments.Proof.{
  VerificationStatus, Verification, result, compare_amount, verified, ambiguous_order,
  no_open_order, manual_review, Desk, Checked, equals_option, check_proof,
}
use social_media_manager.Payments.Verify.{
  World, duplicate_answer, correct_answer, known_answer, Target, ambiguous, nothing, found,
  get_payment_target_order, Answer, conclude, settle, verify_order, verify_target,
  verify_payment_proof,
}

abbrev pub is_verified : VerificationStatus → Bool
is_verified verified = true
is_verified _ = false

-- A proof that passed: it is in its method's currency, and its amount is within a cent of what the order
-- costs in that currency.
pub record IsMatching (d : Desk) (o : Order) (v : Vision) (c : Checked) : Type 0 where
  pub of_method : method_currency c.kind ≡ some c.currency
  pub in_currency : equals_option (normalize_currency d.readers v.currency) c.currency ≡ true
  pub price : expected_receipt_amount d.rate o.total (d.currency_of o) c.currency ≡ some c.expected
  pub read_amount : d.readers.safe_decimal v.amount ≡ some c.detected
  pub not_over : c.detected ≤ c.expected + 1
  pub not_under : c.expected ≤ c.detected + 1

check_proof-IsMatching :
    (d : Desk) (o : Order) (v : Vision) (c : Checked)
    → check_proof d o v ≡ ok c
    → IsMatching d o v c
unfolding check_proof
check_proof-IsMatching d o v c passed = record {
  of_method = ground (arith, passed);
  in_currency = ground (arith, passed);
  price = ground (arith, passed);
  read_amount = ground (arith, passed);
  not_over = ground (arith, passed);
  not_under = ground (arith, passed);
}

-- The three ways in which a verification with an update ends.
pub data Verdict (d : Desk) (v : Vision) (note_text : Option String) (target : Target) (w : World)
    (a : Answer) : Type 0 where
  refused :
      (r : Verification)
      → a.0 ≡ ok r
      → is_verified r.status ≡ false
      → a.1 ≡ w
      → Verdict d v note_text target w a
  already :
      (o : Order) (r : Verification)
      → target ≡ found o
      → a.0 ≡ ok r
      → is_paid o.payment_status ≡ true
      → a.1.store ≡ w.store
      → Verdict d v note_text target w a
  accepted :
      (o : Order) (r : Verification) (c : Checked)
      → target ≡ found o
      → a.0 ≡ ok r
      → check_proof d o v ≡ ok c
      → IsMatching d o v c
      → IsApplied o.id proof_received note_text
          (some c.proof)
          w.store
          (set_payment_status o.id proof_received note_text (some c.proof) w.store)
      → a.1.store ≡ (set_payment_status o.id proof_received note_text (some c.proof) w.store).1
      → Verdict d v note_text target w a

-- An update with a proof raises nothing.
no_error :
    (id : String) (note_text : Option String) (p : ProofMetadata) (s : Store) (e : PaymentError)
    → (set_payment_status id proof_received note_text (some p) s).0 ≡ err e
    → ⊥
unfolding set_payment_status update_row
no_error id note_text p s e raised = elim (Option-cases (replay_of id (some p) s)) [
  | inr (earlier, used) ↦ absurd (ground (arith, used, raised))
  | inl fresh ↦ elim (Option-cases (find_order id s.orders)) [
    | inl missing ↦ absurd (ground (arith, fresh, missing, raised))
    | inr (row, held) ↦ absurd (ground (arith, fresh, held, raised))
  ]
]

conclude-Verdict :
    (d : Desk) (customer : String) (v : Vision) (note_text : Option String) (o : Order) (w : World)
    (c : Checked) (r : Result PaymentError PaymentReply × Store)
    → set_payment_status o.id proof_received note_text (some c.proof) w.store ≡ r
    → check_proof d o v ≡ ok c
    → Outcome o.id proof_received note_text (some c.proof) w.store r
    → Verdict d v note_text (found o) w (conclude customer o c w r)
conclude-Verdict d customer v note_text o w c (err e, store) updates passed out =
    absurd (no_error o.id note_text c.proof w.store e (ap (λ a. a.0) updates))
conclude-Verdict d customer v note_text o w c (ok no_update, store) updates passed out = elim out [
  | inl (unmade, same) ↦
      refused (compare_amount o manual_review o.total (some c.detected) none none) refl refl
        (rw same refl)
  | inr applied ↦ absurd (ground (arith, applied.reply))
]
conclude-Verdict d customer v note_text o w c (ok (replay_detected earlier), store) updates passed
      out =
    elim out [
      | inl (unmade, same) ↦ refused (duplicate_answer o c) refl refl (rw same refl)
      | inr applied ↦ absurd (ground (arith, applied.reply))
    ]
conclude-Verdict d customer v note_text o w c (ok (updated status applied), store) updates passed
      out =
    elim out [
      | inl (unmade, same) ↦ absurd unmade
      | inr done ↦
          accepted o (correct_answer o c) c refl refl passed (check_proof-IsMatching d o v c passed)
            (rw updates done) (rw updates refl)
    ]

pub update-parsed :
    (id : String) (note_text : Option String) (proof : Option ProofMetadata) (s : Store)
    → update_order_payment_status id "proof_received" note_text proof s
      ≡ set_payment_status id proof_received note_text proof s
unfolding update_order_payment_status parse_payment_status
update-parsed id note_text proof s = refl

refusal-unverified :
    (d : Desk) (o : Order) (v : Vision) (r : Verification)
    → check_proof d o v ≡ err r
    → is_verified r.status ≡ false
unfolding check_proof
refusal-unverified d o v r failed = ground (arith, failed)

settle-Verdict :
    (d : Desk) (customer : String) (v : Vision) (note_text : Option String) (o : Order) (w : World)
    (checks : Result Verification Checked)
    → check_proof d o v ≡ checks
    → Verdict d v note_text (found o) w (settle customer o note_text true w checks)
settle-Verdict d customer v note_text o w (err r) outcome =
    refused r refl (refusal-unverified d o v r outcome) refl
settle-Verdict d customer v note_text o w (ok c) outcome =
    let proof = some c.proof in
    rw (update-parsed o.id note_text proof w.store) (
      conclude-Verdict d customer v note_text o w c
        (set_payment_status o.id proof_received note_text proof w.store) refl outcome
        (set_payment_status-Outcome o.id proof_received note_text proof w.store))

verify_order-Verdict :
    (d : Desk) (customer : String) (v : Vision) (note_text : Option String) (o : Order) (w : World)
    → Verdict d v note_text (found o) w (verify_order d customer v note_text true o w)
unfolding verify_order
verify_order-Verdict d customer v note_text o w = elim (Bool-cases (is_paid o.payment_status)) [
  | inl paid ↦ rw (paid, verify_order) (already o (known_answer o) refl refl paid refl)
  | inr unpaid ↦
      rw (unpaid, verify_order) (settle-Verdict d customer v note_text o w (check_proof d o v) refl)
]

verify_target-Verdict :
    (d : Desk) (customer : String) (v : Vision) (note_text : Option String) (w : World)
    (target : Target)
    → Verdict d v note_text target w (verify_target d customer v note_text true w target)
verify_target-Verdict d customer v note_text w ambiguous =
    refused (result ambiguous_order none) refl refl refl
verify_target-Verdict d customer v note_text w nothing =
    refused (result no_open_order none) refl refl refl
verify_target-Verdict d customer v note_text w (found o) =
    verify_order-Verdict d customer v note_text o w

-- A verification that may update never raises and ends in one of three ways: it is refused and nothing
-- changes; or the customer's order was paid already and the store stays as it is; or the proof passed every
-- check, its amount is within a cent of the expected one, and the order is updated: then the proof was used
-- by no other order, the order was pending, and its row says that its stock is held or was never tracked.
pub verify_payment_proof-Verdict :
    (d : Desk) (customer : String) (v : Vision) (note_text : Option String) (readable : Bool)
    (w : World)
    → Verdict d v note_text
        (get_payment_target_order customer readable w)
        w
        (verify_payment_proof d customer v note_text true readable w)
unfolding verify_payment_proof
verify_payment_proof-Verdict d customer v note_text readable w =
    verify_target-Verdict d customer v note_text w (get_payment_target_order customer readable w)

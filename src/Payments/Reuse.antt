-- ===== src/Payments/Reuse.antt =====
-- A screenshot that has paid one order pays no other.
use social_media_manager.Prelude.{
  String, ◌≡◌, refl, sym, ap, ◌∙◌, Bool, true, false, Option, some, List, [], ◌∷◌, ◌==◌, any, arith,
  eq_iff, eq_refl,
}
use mathlib.Core.Path.{subst}
use social_media_manager.Prelude.Result.{ok, ok_injective}
use social_media_manager.Orders.Table.{
  proof_received, Order, Store, is_paid, find_order, update_order,
}
use social_media_manager.Orders.Payment.{
  ProofMetadata, order_replays, write_status, set_applied, totals_after, apply_status,
}
use social_media_manager.Orders.Replays.{is_used, used_proof_detected}
use social_media_manager.Orders.Rows.{id-find, find-update}
use social_media_manager.Payments.Readers.{Vision}
use social_media_manager.Payments.Proof.{Verification, Desk, Checked, check_proof}
use social_media_manager.Payments.Verify.{
  World, duplicate_answer, Target, found, get_payment_target_order, Answer, verify_order,
  verify_payment_proof,
}
use social_media_manager.Payments.Verdict.{
  is_verified, Verdict, refused, already, accepted, verify_payment_proof-Verdict, update-parsed,
}

found-any :
    (f : Order → Bool) (id : String) (os : List Order) (o : Order)
    → find_order id os ≡ some o
    → f o ≡ true
    → any f os ≡ true
unfolding find_order
found-any f id [] o held holds = absurd (cc)
found-any f id (p ∷ os) o held holds = ground (arith, found-any f id os o)

-- The row that was paid holds the proof's hash.
paid-holds :
    (id other : String) (row : Order) (note_text : Option String) (p q : ProofMetadata) (s : Store)
    → find_order row.id s.orders ≡ some row
    → (row.id == other) ≡ false
    → q.proof_hash ≡ p.proof_hash
    → is_used other q (apply_status proof_received note_text (some p) row s) ≡ true
unfolding apply_status write_status
paid-holds id other row note_text p q s held apart same =
    let f : Order → Order = λ o.
      set_applied (totals_after proof_received row)
        (write_status proof_received note_text (some p) o) in
    let paid : find_order row.id (update_order row.id f s.orders) ≡ some (f row) =
      find-update row.id row.id f s.orders (λ o. refl) ∙ ground (arith, eq_refl row.id, held) in
    let seen : any (order_replays other q) (update_order row.id f s.orders) ≡ true =
      found-any (order_replays other q) row.id (update_order row.id f s.orders) (f row) paid
        (ground (arith, apart, same, eq_iff p.proof_hash q.proof_hash)) in
    ground (arith, seen)

reused-detected :
    (d : Desk) (customer : String) (v : Vision) (note_text : Option String) (o : Order) (w : World)
    (c : Checked)
    → is_paid o.payment_status ≡ false
    → check_proof d o v ≡ ok c
    → is_used o.id c.proof w.store ≡ true
    → verify_order d customer v note_text true o w ≡ (ok (duplicate_answer o c), w)
unfolding verify_order
reused-detected d customer v note_text o w c unpaid passed used =
    let (earlier, e) = used_proof_detected o.id proof_received note_text c.proof w.store used in
    rw (unpaid, passed, update-parsed o.id note_text (some c.proof) w.store, e) refl

found_injective : {o p : Order} → ◌≡◌ {A = Target} (found o) (found p) → o ≡ p
found_injective h = cc

hash_of :
    (d : Desk) (v : Vision) (o p : Order) (c b : Checked)
    → o ≡ p
    → check_proof d o v ≡ ok c
    → check_proof d p v ≡ ok b
    → c ≡ b
hash_of d v o p c b same first second =
    ok_injective (sym first ∙ ap (λ x. check_proof d x v) same ∙ second)

verified-used :
    (d : Desk) (v : Vision) (note_text : Option String) (target : Target) (w : World) (a : Answer)
    (o : Order) (r : Verification) (c : Checked) (other : String) (q : ProofMetadata)
    → Verdict d v note_text target w a
    → target ≡ found o
    → is_paid o.payment_status ≡ false
    → a.0 ≡ ok r
    → is_verified r.status ≡ true
    → check_proof d o v ≡ ok c
    → (o.id == other) ≡ false
    → q.proof_hash ≡ c.proof.proof_hash
    → is_used other q a.1.store ≡ true
verified-used d v note_text target w a o r c other q (refused r2 e unverified kept) t unpaid answer
      good passed apart same =
    let same_r : r2 ≡ r = ok_injective (sym e ∙ answer) in
    let bad = subst (λ x. is_verified x.status ≡ false) same_r unverified in absurd (cc)
verified-used d v note_text target w a o r c other q (already p r2 t2 e paid kept) t unpaid answer
      good passed apart same =
    let bad = subst (λ x. is_paid x.payment_status ≡ true) (found_injective (sym t2 ∙ t)) paid in
    absurd (cc)
verified-used d v note_text target w a o r c other q
      (accepted p r2 b t2 e checked matching done kept) t unpaid answer good passed apart same =
    let same_order : o ≡ p = found_injective (sym t ∙ t2) in
    let same_hash : q.proof_hash ≡ b.proof.proof_hash =
      same ∙ ap (λ x. x.proof.proof_hash) (hash_of d v o p c b same_order passed checked) in
    let of_row : o.id ≡ done.row.id =
      ap (λ x. x.id) same_order ∙ sym (id-find p.id w.store.orders done.found) in
    subst (λ s. is_used other q s ≡ true) (sym (kept ∙ done.store))
      (paid-holds done.row.id other done.row note_text b.proof q w.store done.found_by_row
        (subst (λ k. (k == other) ≡ false) of_row apart) same_hash)

-- A proof that was verified for one order, and whose screenshot passes the checks for another unpaid order
-- of any customer afterwards: the second verification answers `duplicate_proof` and changes nothing.
pub verified_once :
    (d d' : Desk) (customer customer' : String) (v v' : Vision)
    (note_text note_text' : Option String) (readable readable' : Bool) (w : World) (o o' : Order)
    (r : Verification) (c c' : Checked)
    → get_payment_target_order customer readable w ≡ found o
    → is_paid o.payment_status ≡ false
    → (verify_payment_proof d customer v note_text true readable w).0 ≡ ok r
    → is_verified r.status ≡ true
    → check_proof d o v ≡ ok c
    → let after = (verify_payment_proof d customer v note_text true readable w).1 in
      get_payment_target_order customer' readable' after ≡ found o'
      → is_paid o'.payment_status ≡ false
      → (o.id == o'.id) ≡ false
      → check_proof d' o' v' ≡ ok c'
      → c'.proof.proof_hash ≡ c.proof.proof_hash
      → verify_payment_proof d' customer' v' note_text' true readable' after
        ≡ (ok (duplicate_answer o' c'), after)
unfolding verify_payment_proof
verified_once d d' customer customer' v v' note_text note_text' readable readable' w o o' r c c'
      target unpaid answer good passed target' unpaid' apart passed' same =
    let first = verify_payment_proof d customer v note_text true readable w in
    let used =
      verified-used d v note_text (get_payment_target_order customer readable w) w first o r c o'.id
        c'.proof (verify_payment_proof-Verdict d customer v note_text readable w) target unpaid
        answer good passed apart same in
    rw target' (reused-detected d' customer' v' note_text' o' first.1 c' unpaid' passed' used)

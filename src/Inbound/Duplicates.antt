-- ===== src/Inbound/Duplicates.antt =====
-- A message that Meta delivers again.
use social_media_manager.Prelude.{
  ℕ, String, ◌≡◌, refl, Bool, true, false, not, ◌||◌, Option, none, some, [], ◌∷◌, ◌==◌, find?,
  filter, any, arith, eq_refl, Bool-cases, Option-cases, inl, inr,
}
use social_media_manager.Prelude.Text.{contains}
use social_media_manager.Prelude.Result.{ok}
use social_media_manager.Inbound.Jobs.{Job, Queue, waits, runs, holds_lease}
use social_media_manager.Inbound.Enqueue.{
  Delivery, is_receipt, add_message, enqueue_new, enqueue_inbound_message,
}
use social_media_manager.Inbound.Claim.{
  is_due, is_candidate, earliest, claim_due_job, lease_row, claim_sender_job, is_ready, heartbeat,
}
use social_media_manager.Inbound.Finish.{Claim, complete, requeue_row, requeue_failed_job}
use social_media_manager.Inbound.Recover.{is_abandoned, recover_row, recover_one}
use social_media_manager.Inbound.Outbound.{
  Response, mark_outbound_send_started, record_outbound_message,
}
use social_media_manager.Inbound.Line.{
  Step, enqueue, claim_due, claim_sender, beat, mark, record_ids, finish, requeue, recover, cleanup,
}

known_after :
    (d : Delivery) (id : String) (now : ℕ) (q : Queue) (o : Option Job)
    → any (is_receipt d) (add_message d id now q o).receipts ≡ true
unfolding add_message
known_after d id now q none = ground (arith, eq_refl d.channel, eq_refl d.message_id)
known_after d id now q (some j) = ground (arith, eq_refl d.channel, eq_refl d.message_id)

known_after_new :
    (d : Delivery) (id : String) (now : ℕ) (q : Queue)
    → any (is_receipt d) (enqueue_new d id now q).1.receipts ≡ true
unfolding enqueue_new
known_after_new d id now q = elim (Bool-cases (any (is_receipt d) q.receipts)) [
  | inl known ↦ rw (known, enqueue_new) known
  | inr fresh ↦
      rw (fresh, enqueue_new) (known_after d id now q (find? (waits d.channel d.sender_id) q.jobs))
]

again_new :
    (d : Delivery) (id : String) (now : ℕ) (q : Queue)
    → any (is_receipt d) q.receipts ≡ true
    → enqueue_new d id now q ≡ (false, q)
unfolding enqueue_new
again_new d id now q known = rw known refl

kept_add :
    (d e : Delivery) (id : String) (now : ℕ) (q : Queue) (o : Option Job)
    → any (is_receipt d) q.receipts ≡ true
    → any (is_receipt d) (add_message e id now q o).receipts ≡ true
unfolding add_message
kept_add d e id now q none h = ground (arith, h)
kept_add d e id now q (some j) h = ground (arith, h)

kept_enqueue :
    (d e : Delivery) (id : String) (now : ℕ) (q : Queue)
    → any (is_receipt d) q.receipts ≡ true
    → any (is_receipt d) (enqueue_inbound_message e id now q).1.receipts ≡ true
unfolding enqueue_inbound_message enqueue_new
kept_enqueue d e id now q h =
    let added = kept_add d e id now q (find? (waits e.channel e.sender_id) q.jobs) h in
    elim (Bool-cases (not (contains ("whatsapp" ∷ "instagram" ∷ []) e.channel))) [
      | inl unsupported ↦ rw unsupported h
      | inr supported ↦ elim (Bool-cases (e.sender_id == "" || e.message_id == "")) [
        | inl unnamed ↦ rw (supported, unnamed) h
        | inr named ↦ elim (Bool-cases (any (is_receipt e) q.receipts)) [
          | inl known ↦ rw (supported, named, known) h
          | inr fresh ↦ rw (supported, named, fresh) added
        ]
      ]
    ]

lease_row-receipts :
    (p : Job → Bool) (token : String) (now : ℕ) (q : Queue) (o : Option Job)
    → (lease_row p token now q o).1.receipts ≡ q.receipts
lease_row-receipts p token now q none = refl
lease_row-receipts p token now q (some j) = refl

claim_sender-receipts :
    (locked : Job → Bool) (channel sender token : String) (now : ℕ) (q : Queue)
    → (claim_sender_job locked channel sender token now q).1.receipts ≡ q.receipts
unfolding claim_sender_job
claim_sender-receipts locked channel sender token now q =
    elim (Bool-cases (any (runs channel sender) q.jobs)) [
      | inl active ↦ rw (active, claim_sender_job) refl
      | inr idle ↦
          let chosen =
            is_candidate (is_ready locked channel sender now)
              (earliest (filter (is_ready locked channel sender now) q.jobs)) in
          rw (idle, claim_sender_job) (lease_row-receipts chosen token now q (find? chosen q.jobs))
    ]

requeue_row-receipts :
    (c : Claim) (safe : Bool) (error : String) (now : ℕ) (q : Queue) (row : Job)
    → (requeue_row c safe error now q row).receipts ≡ q.receipts
unfolding requeue_row
requeue_row-receipts c safe error now q row = ground arith

requeue-receipts :
    (c : Claim) (safe : Bool) (error : String) (now : ℕ) (q : Queue)
    → (requeue_failed_job c safe error now q).receipts ≡ q.receipts
unfolding requeue_failed_job
requeue-receipts c safe error now q =
    elim (Option-cases (find? (holds_lease c.id c.token) q.jobs)) [
      | inl lost ↦ rw (lost, requeue_failed_job) refl
      | inr (row, found) ↦
          rw (found, requeue_failed_job) (requeue_row-receipts c safe error now q row)
    ]

recover_row-receipts :
    (stale : Job) (now : ℕ) (q : Queue) (row : Job)
    → (recover_row stale now q row).receipts ≡ q.receipts
unfolding recover_row
recover_row-receipts stale now q row = ground arith

recover-receipts :
    (stale : Job) (now : ℕ) (q : Queue) → (recover_one stale now q).1.receipts ≡ q.receipts
unfolding recover_one
recover-receipts stale now q = elim (Option-cases (find? (is_abandoned stale now) q.jobs)) [
  | inl gone ↦ rw (gone, recover_one) refl
  | inr (row, found) ↦ rw (found, recover_one) (recover_row-receipts stale now q row)
]

complete-receipts :
    (id token : String) (now : ℕ) (q : Queue) → (complete id token now q).1.receipts ≡ q.receipts
unfolding complete
complete-receipts id token now q = elim (Option-cases (find? (holds_lease id token) q.jobs)) [
  | inl lost ↦ rw (lost, complete) refl
  | inr (row, found) ↦ rw (found, complete) refl
]

mark-receipts :
    (id token : String) (now : ℕ) (q : Queue)
    → (mark_outbound_send_started id token now q).1.receipts ≡ q.receipts
unfolding mark_outbound_send_started
mark-receipts id token now q = ground arith

record-receipts :
    (id token : String) (r : Response) (now : ℕ) (q : Queue)
    → (record_outbound_message id token r now q).receipts ≡ q.receipts
unfolding record_outbound_message
record-receipts id token r now q = ground arith

-- The transaction is not the cleanup, which deletes receipts with their jobs.
abbrev pub keeps_receipts : {q r : Queue} → Step q r → Bool
keeps_receipts (cleanup days now q) = false
keeps_receipts _ = true

Step-known :
    (d : Delivery) {q r : Queue} (step : Step q r)
    → keeps_receipts step ≡ true
    → any (is_receipt d) q.receipts ≡ true
    → any (is_receipt d) r.receipts ≡ true
unfolding claim_due_job heartbeat
Step-known d (enqueue e id now q) quiet h = kept_enqueue d e id now q h
Step-known d (claim_due locked token now q) quiet h =
    let chosen =
      is_candidate (is_due locked now q.jobs)
        (earliest (filter (is_due locked now q.jobs) q.jobs)) in
    rw (lease_row-receipts chosen token now q (find? chosen q.jobs)) h
Step-known d (claim_sender locked channel sender token now q) quiet h =
    rw (claim_sender-receipts locked channel sender token now q) h
Step-known d (beat id token now q) quiet h = h
Step-known d (mark id token now q) quiet h = rw (mark-receipts id token now q) h
Step-known d (record_ids id token r now q) quiet h = rw (record-receipts id token r now q) h
Step-known d (finish id token now q) quiet h = rw (complete-receipts id token now q) h
Step-known d (requeue c safe error now q claim) quiet h = rw (requeue-receipts c safe error now q) h
Step-known d (recover stale now q snapshot) quiet h = rw (recover-receipts stale now q) h
Step-known d (cleanup days now q) quiet h = absurd (cc)

-- Any transactions but the cleanup.
pub data Quiet (q : Queue) : Queue → Type 0 where
  unmoved : Quiet q q
  moved : {r s : Queue} → Quiet q r → (step : Step r s) → keeps_receipts step ≡ true → Quiet q s

Quiet-known :
    (d : Delivery) {q r : Queue}
    → Quiet q r
    → any (is_receipt d) q.receipts ≡ true
    → any (is_receipt d) r.receipts ≡ true
Quiet-known d unmoved h = h
Quiet-known d (moved quiet step kept) h = Step-known d step kept (Quiet-known d quiet h)

-- A delivery that was accepted, as new or as known, and that Meta delivers again after any transactions of
-- any workers but the cleanup: the answer is `False` and the queue stays as it is.
pub enqueue-twice :
    (d : Delivery) (id id' : String) (now now' : ℕ) (q : Queue) {r : Queue} (b : Bool)
    → (enqueue_inbound_message d id now q).0 ≡ ok b
    → Quiet (enqueue_inbound_message d id now q).1 r
    → enqueue_inbound_message d id' now' r ≡ (ok false, r)
unfolding enqueue_inbound_message
enqueue-twice d id id' now now' q {r} b accepted quiet =
    elim (Bool-cases (not (contains ("whatsapp" ∷ "instagram" ∷ []) d.channel))) [
      | inl unsupported ↦ absurd (ground (arith, unsupported, accepted))
      | inr supported ↦ elim (Bool-cases (d.sender_id == "" || d.message_id == "")) [
        | inl unnamed ↦ absurd (ground (arith, supported, unnamed, accepted))
        | inr named ↦
            let known : any (is_receipt d) r.receipts ≡ true =
              Quiet-known d quiet (rw (supported, named) (known_after_new d id now q)) in
            rw (supported, named, again_new d id' now' r known) refl
      ]
    ]

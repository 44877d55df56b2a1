-- ===== src/Inbound/Replies.antt =====
-- Batches whose replies Meta has accepted.
use social_media_manager.Prelude.{
  ℕ, ◌+◌, String, ◌≡◌, refl, Bool, true, false, not, ◌&&◌, Option, none, some, ltb, find?, filter,
  any, ◌⊎◌, arith, Bool-cases, Option-cases, inl, inr,
}
use mathlib.Core.Path.{subst}
use social_media_manager.Prelude.Rows.{update_first, find?-meets}
use social_media_manager.Inbound.Jobs.{Job, Queue, is_pending, waits, runs, holds_lease}
use social_media_manager.Inbound.Enqueue.{is_old, cleanup_completed_inbound_jobs}
use social_media_manager.Inbound.Claim.{
  take_lease, lease_row, is_due, is_ready, is_candidate, earliest, claim_due_job, claim_sender_job,
  heartbeat,
}
use social_media_manager.Inbound.Finish.{
  Claim, requeue_row, requeue_failed_job, merge_into, is_given, is_nonempty,
  max_processing_attempts,
}
use social_media_manager.Inbound.Recover.{is_abandoned, recover_row, recover_one}
use social_media_manager.Inbound.Steps.{candidate-meets}
use social_media_manager.Inbound.Line.{
  Step, enqueue, claim_due, claim_sender, beat, mark, record_ids, finish, requeue, recover, cleanup,
  Reach, here, next,
}
use social_media_manager.Inbound.Unanswered.{
  AreUnanswered, All-update_first, All-update_found, All-find, All-filter, lease-AreUnanswered,
  enqueue-AreUnanswered, end-AreUnanswered, complete-AreUnanswered, record-AreUnanswered,
  mark-AreUnanswered,
}

requeue_row-AreUnanswered :
    (c : Claim) (safe : Bool) (error : String) (now : ℕ) (q : Queue) (row : Job)
    → find? (holds_lease c.id c.token) q.jobs ≡ some row
    → AreUnanswered q
    → AreUnanswered (requeue_row c safe error now q row)
unfolding requeue_row
requeue_row-AreUnanswered c safe error now q row found h =
    let mine = holds_lease c.id c.token in
    let retry = ltb c.attempt_count max_processing_attempts in
    let merged =
      All-update_first (waits c.channel c.sender_id) (merge_into row (now + 30) now) q.jobs
        (λ j m u. u) h in
    let joined : Queue = record q {
      jobs = update_first (waits c.channel c.sender_id) (merge_into row (now + 30) now) q.jobs;
    } in
    elim (Bool-cases (is_nonempty row.outbound_ids)) [
      | inl sent ↦ rw sent (end-AreUnanswered mine _ q (λ j. refl) h)
      | inr unsent ↦ elim (Bool-cases (is_given row.outbound_started_at && not safe)) [
        | inl unknown ↦ rw (unsent, unknown) (end-AreUnanswered mine _ q (λ j. refl) h)
        | inr known ↦ elim (Bool-cases retry) [
          | inr spent ↦ rw (unsent, known, spent) (end-AreUnanswered mine _ q (λ j. refl) h)
          | inl again ↦ elim (Option-cases (find? (waits c.channel c.sender_id) q.jobs)) [
            | inl vacant ↦
                rw (unsent, known, again, vacant)
                  (All-update_found mine _ q.jobs row found (λ w. unsent) h)
            | inr (y, found_y) ↦
                rw (unsent, known, again, found_y)
                  (end-AreUnanswered mine _ joined (λ j. refl) merged)
          ]
        ]
      ]
    ]

recover_row-AreUnanswered :
    (stale : Job) (now : ℕ) (q : Queue) (row : Job)
    → find? (is_abandoned stale now) q.jobs ≡ some row
    → AreUnanswered q
    → AreUnanswered (recover_row stale now q row)
unfolding recover_row
recover_row-AreUnanswered stale now q row found h =
    let mine = is_abandoned stale now in
    let merged =
      All-update_first (waits stale.channel stale.sender_id) (merge_into row now now) q.jobs
        (λ j m u. u) h in
    let joined : Queue = record q {
      jobs = update_first (waits stale.channel stale.sender_id) (merge_into row now now) q.jobs;
    } in
    elim (Bool-cases (is_nonempty row.outbound_ids)) [
      | inl sent ↦ rw sent (end-AreUnanswered mine _ q (λ j. refl) h)
      | inr unsent ↦ elim (Bool-cases (is_given row.outbound_started_at)) [
        | inl unknown ↦ rw (unsent, unknown) (end-AreUnanswered mine _ q (λ j. refl) h)
        | inr known ↦ elim (Option-cases (find? (waits stale.channel stale.sender_id) q.jobs)) [
          | inl vacant ↦
              rw (unsent, known, vacant) (All-update_found mine _ q.jobs row found (λ w. unsent) h)
          | inr (y, found_y) ↦
              rw (unsent, known, found_y) (end-AreUnanswered mine _ joined (λ j. refl) merged)
        ]
      ]
    ]

requeue-AreUnanswered :
    (c : Claim) (safe : Bool) (error : String) (now : ℕ) (q : Queue)
    → AreUnanswered q
    → AreUnanswered (requeue_failed_job c safe error now q)
unfolding requeue_failed_job
requeue-AreUnanswered c safe error now q h =
    elim (Option-cases (find? (holds_lease c.id c.token) q.jobs)) [
      | inl lost ↦ rw (lost, requeue_failed_job) h
      | inr (row, found) ↦
          rw (found, requeue_failed_job) (requeue_row-AreUnanswered c safe error now q row found h)
    ]

recover-AreUnanswered :
    (stale : Job) (now : ℕ) (q : Queue)
    → AreUnanswered q
    → AreUnanswered (recover_one stale now q).1
unfolding recover_one
recover-AreUnanswered stale now q h = elim (Option-cases (find? (is_abandoned stale now) q.jobs)) [
  | inl gone ↦ rw (gone, recover_one) h
  | inr (row, found) ↦ rw (found, recover_one) (recover_row-AreUnanswered stale now q row found h)
]

claim_due-AreUnanswered :
    (locked : Job → Bool) (token : String) (now : ℕ) (q : Queue)
    → AreUnanswered q
    → AreUnanswered (claim_due_job locked token now q).1
unfolding claim_due_job
claim_due-AreUnanswered locked token now q h =
    let chosen =
      is_candidate (is_due locked now q.jobs)
        (earliest (filter (is_due locked now q.jobs) q.jobs)) in
    lease-AreUnanswered chosen token now q (find? chosen q.jobs) h

claim_sender-AreUnanswered :
    (locked : Job → Bool) (channel sender token : String) (now : ℕ) (q : Queue)
    → AreUnanswered q
    → AreUnanswered (claim_sender_job locked channel sender token now q).1
unfolding claim_sender_job
claim_sender-AreUnanswered locked channel sender token now q h =
    elim (Bool-cases (any (runs channel sender) q.jobs)) [
      | inl active ↦ rw (active, claim_sender_job) h
      | inr idle ↦
          let ready = is_ready locked channel sender now in
          let chosen = is_candidate ready (earliest (filter ready q.jobs)) in
          rw (idle, claim_sender_job)
            (lease-AreUnanswered chosen token now q (find? chosen q.jobs) h)
    ]

Step-AreUnanswered : {q r : Queue} → Step q r → AreUnanswered q → AreUnanswered r
unfolding heartbeat cleanup_completed_inbound_jobs
Step-AreUnanswered (enqueue d id now q) h = enqueue-AreUnanswered d id now q h
Step-AreUnanswered (claim_due locked token now q) h = claim_due-AreUnanswered locked token now q h
Step-AreUnanswered (claim_sender locked channel sender token now q) h =
    claim_sender-AreUnanswered locked channel sender token now q h
Step-AreUnanswered (beat id token now q) h =
    All-update_first (holds_lease id token)
      (λ j. record j { heartbeat_at = some now; updated_at = now }) q.jobs (λ j m u. u) h
Step-AreUnanswered (mark id token now q) h = mark-AreUnanswered id token now q h
Step-AreUnanswered (record_ids id token r now q) h = record-AreUnanswered id token r now q h
Step-AreUnanswered (finish id token now q) h = complete-AreUnanswered id token now q h
Step-AreUnanswered (requeue c safe error now q claim) h = requeue-AreUnanswered c safe error now q h
Step-AreUnanswered (recover stale now q snapshot) h = recover-AreUnanswered stale now q h
Step-AreUnanswered (cleanup days now q) h = All-filter (λ j. not (is_old days now j)) q.jobs h

Reach-AreUnanswered : {q r : Queue} → Reach q r → AreUnanswered q → AreUnanswered r
Reach-AreUnanswered here h = h
Reach-AreUnanswered (next reach step) h = Step-AreUnanswered step (Reach-AreUnanswered reach h)

lease_row-answer :
    (p : Job → Bool) (token : String) (now : ℕ) (q : Queue) (o : Option Job) (j : Job)
    → find? p q.jobs ≡ o
    → ((k : Job) → p k ≡ true → is_pending k.status ≡ true)
    → AreUnanswered q
    → (lease_row p token now q o).0 ≡ some j
    → is_nonempty j.outbound_ids ≡ false
lease_row-answer p token now q none j found waiting h e = absurd (cc)
lease_row-answer p token now q (some k) j found waiting h e =
    let fresh = All-find p q.jobs k found h (waiting k (find?-meets p q.jobs k found)) in
    subst (λ r. is_nonempty r.outbound_ids ≡ false) {x = take_lease token now k} {y = j}
      (ground (arith, e)) fresh

-- After any sequence of transactions, from a queue in which no batch that waits has a recorded reply that
-- Meta accepted: no worker, of the whole queue or of one sender, is given a batch that has one.
pub claimed-unanswered :
    {q r : Queue} (locked : Job → Bool) (channel sender token : String) (now : ℕ) (j : Job)
    → Reach q r
    → AreUnanswered q
    → ((claim_due_job locked token now r).0 ≡ some j)
      ⊎ ((claim_sender_job locked channel sender token now r).0 ≡ some j)
    → is_nonempty j.outbound_ids ≡ false
unfolding claim_due_job claim_sender_job
claimed-unanswered {r} locked channel sender token now j reach h (inl e) =
    let p = is_due locked now r.jobs in
    let chosen = is_candidate p (earliest (filter p r.jobs)) in
    lease_row-answer chosen token now r (find? chosen r.jobs) j refl
      (λ k m. ground (arith, candidate-meets p (earliest (filter p r.jobs)) k m))
      (Reach-AreUnanswered reach h) e
claimed-unanswered {r} locked channel sender token now j reach h (inr e) =
    let p = is_ready locked channel sender now in
    let chosen = is_candidate p (earliest (filter p r.jobs)) in
    lease_row-answer chosen token now r (find? chosen r.jobs) j refl
      (λ k m. ground (arith, candidate-meets p (earliest (filter p r.jobs)) k m))
      (Reach-AreUnanswered reach h) (ground (arith, e))

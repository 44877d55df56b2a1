-- ===== src/Inbound/Finish.antt =====
-- The end of a lease: completion in `_process_claimed_job`, and `_requeue_failed_job`.
use social_media_manager.Prelude.{
  ℕ, ◌+◌, String, Bool, true, false, not, ◌&&◌, Option, none, some, List, [], ◌∷◌, ◌++◌, ltb, find?,
  if◌then◌else◌,
}
use social_media_manager.Prelude.Rows.{update_first}
use social_media_manager.Inbound.Jobs.{
  pending, completed, failed, Job, Queue, waits, holds_lease, coalesce, merge_profile, end_lease,
}

-- What a worker holds of the job that it claimed.
pub record Claim : Type 0 where
  pub id : String
  pub channel : String
  pub sender_id : String
  pub token : String
  pub attempt_count : ℕ

abbrev complete_row : ℕ → Job → Job
complete_row now j = record (end_lease completed none now j) { completed_at = some now }

-- The lease's completion; `false` where the lease was lost.
unfoldable pub complete : String → String → ℕ → Queue → Bool × Queue
complete id token now q = elim (find? (holds_lease id token) q.jobs) [
  | none ↦ (false, q)
  | some _ ↦
      (true, record q { jobs = update_first (holds_lease id token) (complete_row now) q.jobs })
]

-- `MAX_PROCESSING_ATTEMPTS`
abbrev pub max_processing_attempts : ℕ
max_processing_attempts = 5

abbrev pub is_given {ℓ} : {A : Type ℓ} → Option A → Bool
is_given none = false
is_given (some a) = true

abbrev pub is_nonempty {ℓ} : {A : Type ℓ} → List A → Bool
is_nonempty [] = false
is_nonempty (a ∷ l) = true

-- The parts and the profile of an older batch go before those of the one that waits.
abbrev pub merge_into : Job → ℕ → ℕ → Job → Job
merge_into old available now j = record j {
  message_parts = old.message_parts ++ j.message_parts;
  media_url = coalesce j.media_url old.media_url;
  customer_profile = merge_profile old.customer_profile j.customer_profile;
  available_at = available;
  updated_at = now;
}

abbrev retry_row : String → ℕ → Job → Job
retry_row error now j = record (end_lease pending (some error) now j) { available_at = now + 30 }

-- With the row that holds the lease.
unfoldable pub requeue_row : Claim → Bool → String → ℕ → Queue → Job → Queue
requeue_row c safe error now q row =
    let retry = ltb c.attempt_count max_processing_attempts in
    let mine = holds_lease c.id c.token in
    if is_nonempty row.outbound_ids
    then record q {
      jobs =
          update_first mine (end_lease failed (some "partial_delivery_requires_reconciliation") now)
            q.jobs;
    }
    else if is_given row.outbound_started_at && not safe
    then record q {
      jobs =
          update_first mine (end_lease failed (some "delivery_unknown_after_send_attempt") now)
            q.jobs;
    }
    else if retry && is_given (find? (waits c.channel c.sender_id) q.jobs)
    then record q {
      jobs =
          update_first mine (end_lease failed (some error) now)
            (update_first (waits c.channel c.sender_id) (merge_into row (now + 30) now) q.jobs);
    }
    else if retry
    then record q { jobs = update_first mine (retry_row error now) q.jobs }
    else record q { jobs = update_first mine (end_lease failed (some error) now) q.jobs }

-- `_requeue_failed_job`. `safe` says that the error is a send that is known not to have reached Meta.
unfoldable pub requeue_failed_job : Claim → Bool → String → ℕ → Queue → Queue
unfolding requeue_row
requeue_failed_job c safe error now q = elim (find? (holds_lease c.id c.token) q.jobs) [
  | none ↦ q
  | some row ↦ requeue_row c safe error now q row
]

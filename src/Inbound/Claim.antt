-- ===== src/Inbound/Claim.antt =====
-- The leases: `_claim_due_job`, `_claim_sender_job` and the heartbeat. The token is generated.
-- `locked` are the rows that other transactions have locked, which `SKIP LOCKED` leaves out.
use social_media_manager.Prelude.{
  ℕ, ◌+◌, String, Bool, false, not, ◌&&◌, ◌||◌, Option, none, some, List, [], ◌∷◌, ◌==◌, ltb, leb,
  any, find?, filter, if◌then◌else◌,
}
use social_media_manager.Prelude.Rows.{update_first}
use social_media_manager.Inbound.Jobs.{processing, Job, Queue, is_pending, waits, runs, holds_lease}

abbrev pub take_lease : String → ℕ → Job → Job
take_lease token now j = record j {
  status = processing;
  started_at = some now;
  heartbeat_at = some now;
  lease = some token;
  attempt_count = j.attempt_count + 1;
  updated_at = now;
}

-- `ORDER BY available_at ASC, created_at ASC`
abbrev pub is_before : Job → Job → Bool
is_before a b =
    ltb a.available_at b.available_at
    || (leb a.available_at b.available_at && leb a.created_at b.created_at)

unfoldable pub earlier_of : Job → Option Job → Job
earlier_of j none = j
earlier_of j (some best) = if is_before j best then j else best

-- The first row of that order.
unfoldable pub earliest : List Job → Option Job
unfolding earlier_of
earliest [] = none
earliest (j ∷ js) = some (earlier_of j (earliest js))

-- The row that the `SELECT` has locked gets the lease.
abbrev pub lease_row : (Job → Bool) → String → ℕ → Queue → Option Job → Option Job × Queue
lease_row p token now q none = (none, q)
lease_row p token now q (some j) = (
  some (take_lease token now j),
  record q { jobs = update_first p (take_lease token now) q.jobs },
)

-- A batch that is due, and whose sender has none in processing.
abbrev pub is_due : (Job → Bool) → ℕ → List Job → Job → Bool
is_due locked now jobs j =
    is_pending j.status
    && leb j.available_at now
    && not (any (runs j.channel j.sender_id) jobs)
    && not (locked j)

abbrev pub is_candidate : (Job → Bool) → Option Job → Job → Bool
is_candidate p none j = false
is_candidate p (some c) j = p j && j.id == c.id

unfoldable pub claim_due_job : (Job → Bool) → String → ℕ → Queue → Option Job × Queue
claim_due_job locked token now q =
    let chosen =
      is_candidate (is_due locked now q.jobs)
        (earliest (filter (is_due locked now q.jobs) q.jobs)) in
    lease_row chosen token now q (find? chosen q.jobs)

abbrev pub is_ready : (Job → Bool) → String → String → ℕ → Job → Bool
is_ready locked channel sender now j =
    waits channel sender j && leb j.available_at now && not (locked j)

unfoldable pub claim_sender_job :
    (Job → Bool) → String → String → String → ℕ → Queue → Option Job × Queue
claim_sender_job locked channel sender token now q =
    if any (runs channel sender) q.jobs
    then (none, q)
    else let chosen =
        is_candidate (is_ready locked channel sender now)
          (earliest (filter (is_ready locked channel sender now) q.jobs)) in
      lease_row chosen token now q (find? chosen q.jobs)

-- One beat of `_heartbeat_claimed_job`
unfoldable pub heartbeat : String → String → ℕ → Queue → Queue
heartbeat id token now q = record q {
  jobs =
      update_first (holds_lease id token)
        (λ j. record j { heartbeat_at = some now; updated_at = now }) q.jobs;
}

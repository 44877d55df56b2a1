-- ===== src/Inbound/Recover.antt =====
-- `recover_stale_inbound_jobs`: leases without a heartbeat are ended.
use social_media_manager.Prelude.{
  ℕ, ◌+◌, String, Bool, true, false, ◌&&◌, Option, none, some, List, [], ◌∷◌, ◌==◌, leb, find?,
  filter, take, if◌then◌else◌,
}
use social_media_manager.Prelude.Rows.{update_first}
use social_media_manager.Inbound.Jobs.{
  pending, completed, failed, Job, Queue, is_processing, waits, coalesce, end_lease, is_stale,
}
use social_media_manager.Inbound.Finish.{is_given, is_nonempty, merge_into}

-- `IS NOT DISTINCT FROM`
abbrev same_token : Option String → Option String → Bool
same_token none none = true
same_token none (some b) = false
same_token (some a) none = false
same_token (some a) (some b) = a == b

-- The row of the stale lease, as long as it is the same lease and still stale.
abbrev pub is_abandoned : Job → ℕ → Job → Bool
is_abandoned stale now j =
    is_processing j.status && j.id == stale.id && same_token j.lease stale.lease && is_stale now j

abbrev complete_stale : ℕ → Job → Job
complete_stale now j =
    record (end_lease completed (some "stale_lease_completed_after_meta_accept") now j) {
      completed_at = some now;
    }

abbrev reopen : ℕ → Job → Job
reopen now j = record (end_lease pending (some "stale_lease_recovered") now j) {
  available_at = now;
}

-- With the abandoned row.
unfoldable pub recover_row : Job → ℕ → Queue → Job → Queue
recover_row stale now q row =
    let mine = is_abandoned stale now in
    if is_nonempty row.outbound_ids
    then record q { jobs = update_first mine (complete_stale now) q.jobs }
    else if is_given row.outbound_started_at
    then record q {
      jobs =
          update_first mine (end_lease failed (some "delivery_unknown_after_stale_lease") now)
            q.jobs;
    }
    else if is_given (find? (waits stale.channel stale.sender_id) q.jobs)
    then record q {
      jobs =
          update_first mine (end_lease failed (some "stale_lease_merged") now)
            (update_first (waits stale.channel stale.sender_id) (merge_into row now now) q.jobs);
    }
    else record q { jobs = update_first mine (reopen now) q.jobs }

-- One transaction of the loop, and whether it recovered the lease.
unfoldable pub recover_one : Job → ℕ → Queue → Bool × Queue
unfolding recover_row
recover_one stale now q = elim (find? (is_abandoned stale now) q.jobs) [
  | none ↦ (false, q)
  | some row ↦ (true, recover_row stale now q row)
]

unfoldable pub recover_each : List Job → ℕ → ℕ → Queue → ℕ × Queue
unfolding recover_one
recover_each [] now recovered q = (recovered, q)
recover_each (stale ∷ rows) now recovered q =
    let (done, q') = recover_one stale now q in
    recover_each rows now (if done then recovered + 1 else recovered) q'

abbrev last_sign : Job → ℕ
last_sign j = elim (coalesce j.heartbeat_at j.started_at) [ none ↦ 0 | some t ↦ t ]

insert_by_sign : Job → List Job → List Job
insert_by_sign j [] = j ∷ []
insert_by_sign j (k ∷ ks) =
    if leb (last_sign j) (last_sign k) then j ∷ k ∷ ks else k ∷ insert_by_sign j ks

sort_by_sign : List Job → List Job
unfolding insert_by_sign
sort_by_sign [] = []
sort_by_sign (j ∷ js) = insert_by_sign j (sort_by_sign js)

unfoldable pub recover_stale_inbound_jobs : ℕ → Queue → ℕ × Queue
unfolding recover_each sort_by_sign
recover_stale_inbound_jobs now q =
    recover_each
      (take 20 (sort_by_sign (filter (λ j. is_processing j.status && is_stale now j) q.jobs))) now 0
      q

-- ===== src/Inbound/Returns.antt =====
-- A batch that is given back, by its worker or by the recovery.
use social_media_manager.Prelude.{
  ℕ, ◌+◌, String, ◌≡◌, refl, Bool, true, false, not, ◌&&◌, some, ltb, find?, arith, Bool-cases,
  Option-cases, inl, inr,
}
use social_media_manager.Prelude.Rows.{find?-meets}
use social_media_manager.Inbound.Jobs.{Job, Queue, is_pending, is_processing, waits, holds_lease}
use social_media_manager.Inbound.Finish.{
  Claim, requeue_row, requeue_failed_job, is_given, is_nonempty, max_processing_attempts,
}
use social_media_manager.Inbound.Recover.{is_abandoned, recover_row, recover_one}
use social_media_manager.Inbound.View.{IsExclusive}
use social_media_manager.Inbound.Steps.{IsOrderly, unchanged-IsOrderly}
use social_media_manager.Inbound.Ends.{
  end-IsOrderly, return-IsOrderly, join-IsOrderly, lease_row-runs, idle_lease,
}

requeue_row-IsOrderly :
    (c : Claim) (safe : Bool) (error : String) (now : ℕ) (q : Queue) (row : Job)
    → find? (holds_lease c.id c.token) q.jobs ≡ some row
    → (c.channel ≡ row.channel) × (c.sender_id ≡ row.sender_id)
    → IsExclusive q.jobs
    → IsOrderly q.jobs (requeue_row c safe error now q row).jobs
unfolding requeue_row
requeue_row-IsOrderly c safe error now q row found (channel, sender) ex =
    let mine = holds_lease c.id c.token in
    let runs_row = lease_row-runs c.id c.token row (find?-meets mine q.jobs row found) in
    let retry = ltb c.attempt_count max_processing_attempts in
    elim (Bool-cases (is_nonempty row.outbound_ids)) [
      | inl sent ↦ rw sent (end-IsOrderly mine _ q.jobs row found runs_row (refl, refl, refl) ex)
      | inr unsent ↦ elim (Bool-cases (is_given row.outbound_started_at && not safe)) [
        | inl unknown ↦
            rw (unsent, unknown)
              (end-IsOrderly mine _ q.jobs row found runs_row (refl, refl, refl) ex)
        | inr known ↦ elim (Bool-cases retry) [
          | inr spent ↦
              rw (unsent, known, spent)
                (end-IsOrderly mine _ q.jobs row found runs_row (refl, refl, refl) ex)
          | inl again ↦ elim (Option-cases (find? (waits row.channel row.sender_id) q.jobs)) [
            | inl vacant ↦
                rw (unsent, known, again, channel, sender, vacant)
                  (return-IsOrderly mine _ q.jobs row found runs_row (refl, refl, refl, refl) vacant
                    ex)
            | inr (y, found_y) ↦
                rw (unsent, known, again, channel, sender, found_y)
                  (join-IsOrderly mine _ (now + 30) now q.jobs row y found found_y
                    (idle_lease c.id c.token) runs_row (refl, refl, refl) ex)
          ]
        ]
      ]
    ]

-- A worker's claim names the sender of the row whose lease it holds.
abbrev pub IsClaimOf : Claim → Queue → Type 0
IsClaimOf c q =
    (row : Job)
    → find? (holds_lease c.id c.token) q.jobs ≡ some row
    → (c.channel ≡ row.channel) × (c.sender_id ≡ row.sender_id)

pub requeue-IsOrderly :
    (c : Claim) (safe : Bool) (error : String) (now : ℕ) (q : Queue)
    → IsClaimOf c q
    → IsExclusive q.jobs
    → IsOrderly q.jobs (requeue_failed_job c safe error now q).jobs
unfolding requeue_failed_job
requeue-IsOrderly c safe error now q claim ex =
    elim (Option-cases (find? (holds_lease c.id c.token) q.jobs)) [
      | inl lost ↦ rw (lost, requeue_failed_job) (unchanged-IsOrderly q.jobs ex)
      | inr (row, found) ↦
          rw (found, requeue_failed_job)
            (requeue_row-IsOrderly c safe error now q row found (claim row found) ex)
    ]

-- The row of a stale lease is still of the sender that was read with it.
abbrev pub IsSnapshotOf : Job → ℕ → Queue → Type 0
IsSnapshotOf stale now q =
    (row : Job)
    → find? (is_abandoned stale now) q.jobs ≡ some row
    → (stale.channel ≡ row.channel) × (stale.sender_id ≡ row.sender_id)

abandoned-runs :
    (stale : Job) (now : ℕ) (j : Job)
    → is_abandoned stale now j ≡ true
    → is_processing j.status ≡ true
abandoned-runs stale now j h = ground arith

not_abandoned :
    (stale : Job) (now : ℕ) (j : Job)
    → is_pending j.status ≡ true
    → is_abandoned stale now j ≡ false
not_abandoned stale now j h = ground arith

recover_row-IsOrderly :
    (stale : Job) (now : ℕ) (q : Queue) (row : Job)
    → find? (is_abandoned stale now) q.jobs ≡ some row
    → (stale.channel ≡ row.channel) × (stale.sender_id ≡ row.sender_id)
    → IsExclusive q.jobs
    → IsOrderly q.jobs (recover_row stale now q row).jobs
unfolding recover_row
recover_row-IsOrderly stale now q row found (channel, sender) ex =
    let mine = is_abandoned stale now in
    let runs_row = abandoned-runs stale now row (find?-meets mine q.jobs row found) in
    elim (Bool-cases (is_nonempty row.outbound_ids)) [
      | inl sent ↦ rw sent (end-IsOrderly mine _ q.jobs row found runs_row (refl, refl, refl) ex)
      | inr unsent ↦ elim (Bool-cases (is_given row.outbound_started_at)) [
        | inl unknown ↦
            rw (unsent, unknown)
              (end-IsOrderly mine _ q.jobs row found runs_row (refl, refl, refl) ex)
        | inr known ↦ elim (Option-cases (find? (waits row.channel row.sender_id) q.jobs)) [
          | inl vacant ↦
              rw (unsent, known, channel, sender, vacant)
                (return-IsOrderly mine _ q.jobs row found runs_row (refl, refl, refl, refl) vacant
                  ex)
          | inr (y, found_y) ↦
              rw (unsent, known, channel, sender, found_y)
                (join-IsOrderly mine _ now now q.jobs row y found found_y (not_abandoned stale now)
                  runs_row (refl, refl, refl) ex)
        ]
      ]
    ]

pub recover-IsOrderly :
    (stale : Job) (now : ℕ) (q : Queue)
    → IsSnapshotOf stale now q
    → IsExclusive q.jobs
    → IsOrderly q.jobs (recover_one stale now q).1.jobs
unfolding recover_one
recover-IsOrderly stale now q snapshot ex =
    elim (Option-cases (find? (is_abandoned stale now) q.jobs)) [
      | inl gone ↦ rw (gone, recover_one) (unchanged-IsOrderly q.jobs ex)
      | inr (row, found) ↦
          rw (found, recover_one)
            (recover_row-IsOrderly stale now q row found (snapshot row found) ex)
    ]

-- ===== src/Inbound/Ends.antt =====
-- The transactions that end a lease or act under it.
use social_media_manager.Prelude.{
  ℕ, String, ◌≡◌, refl, sym, Bool, true, false, not, ◌||◌, none, some, List, ◌==◌, find?, arith,
  Bool-cases, Option-cases, inl, inr,
}
use social_media_manager.Prelude.Rows.{update_first, find?-meets}
use social_media_manager.Inbound.Jobs.{
  Job, Queue, is_pending, is_processing, is_terminal, waits, holds_lease,
}
use social_media_manager.Inbound.Enqueue.{is_old, cleanup_completed_inbound_jobs}
use social_media_manager.Inbound.Claim.{heartbeat}
use social_media_manager.Inbound.Finish.{complete, merge_into, is_nonempty}
use social_media_manager.Inbound.Outbound.{
  Response, mark_row, record_row, mark_outbound_send_started, record_outbound_message,
  extract_meta_message_ids,
}
use social_media_manager.Inbound.View.{of_channel, of_sender, IsExclusive, end-Moves, return-Moves}
use social_media_manager.Inbound.Exclusive.{end-IsExclusive, return-IsExclusive}
use social_media_manager.Inbound.Merge.{
  merge-Moves, merge-IsExclusive, filter-Moves, filter-IsExclusive,
}
use social_media_manager.Inbound.Steps.{IsOrderly, own_waits, unchanged-IsOrderly, keep-IsOrderly}

pub heartbeat-IsOrderly :
    (id token : String) (now : ℕ) (q : Queue)
    → IsExclusive q.jobs
    → IsOrderly q.jobs (heartbeat id token now q).jobs
unfolding heartbeat
heartbeat-IsOrderly id token now q ex =
    keep-IsOrderly (holds_lease id token)
      (λ j. record j { heartbeat_at = some now; updated_at = now }) q.jobs
      (λ j. (refl, refl, refl, refl)) ex

pub mark-IsOrderly :
    (id token : String) (now : ℕ) (q : Queue)
    → IsExclusive q.jobs
    → IsOrderly q.jobs (mark_outbound_send_started id token now q).1.jobs
unfolding mark_outbound_send_started
mark-IsOrderly id token now q ex = elim (Bool-cases (id == "" || token == "")) [
  | inl unnamed ↦ rw unnamed (unchanged-IsOrderly q.jobs ex)
  | inr named ↦ rw named (
      keep-IsOrderly (holds_lease id token) (mark_row now) q.jobs (λ j. (refl, refl, refl, refl))
        ex)
]

pub record-IsOrderly :
    (id token : String) (r : Response) (now : ℕ) (q : Queue)
    → IsExclusive q.jobs
    → IsOrderly q.jobs (record_outbound_message id token r now q).jobs
unfolding record_outbound_message record_row
record-IsOrderly id token r now q ex =
    let ids = extract_meta_message_ids r in
    elim (Bool-cases (id == "" || token == "" || not (is_nonempty ids))) [
      | inl unnamed ↦ rw unnamed (unchanged-IsOrderly q.jobs ex)
      | inr named ↦ rw named (
          keep-IsOrderly (holds_lease id token) (record_row ids now) q.jobs
            (λ j. (refl, refl, refl, refl)) ex)
    ]

-- A row in processing that ends.
pub end-IsOrderly :
    (p : Job → Bool) (f : Job → Job) (jobs : List Job) (x : Job)
    → find? p jobs ≡ some x
    → is_processing x.status ≡ true
    → (is_terminal (f x).status ≡ true)
      × ((f x).channel ≡ x.channel)
      × ((f x).sender_id ≡ x.sender_id)
    → IsExclusive jobs
    → IsOrderly jobs (update_first p f jobs)
end-IsOrderly p f jobs x found was (over, channel, sender) ex = record {
  exclusive = end-IsExclusive p f jobs x found channel sender over ex;
  moves = end-Moves p f jobs x found channel sender was over ex;
}

-- A row in processing that waits again.
pub return-IsOrderly :
    (p : Job → Bool) (f : Job → Job) (jobs : List Job) (x : Job)
    → find? p jobs ≡ some x
    → is_processing x.status ≡ true
    → (is_pending (f x).status ≡ true)
      × ((f x).message_parts ≡ x.message_parts)
      × ((f x).channel ≡ x.channel)
      × ((f x).sender_id ≡ x.sender_id)
    → find? (waits x.channel x.sender_id) jobs ≡ none
    → IsExclusive jobs
    → IsOrderly jobs (update_first p f jobs)
return-IsOrderly p f jobs x found was (now, same, channel, sender) vacant ex = record {
  exclusive = return-IsExclusive p f jobs x found channel sender now vacant ex;
  moves = return-Moves p f jobs x found channel sender was now same vacant ex;
}

pub lease_row-runs :
    (id token : String) (j : Job) → holds_lease id token j ≡ true → is_processing j.status ≡ true
lease_row-runs id token j h = ground arith

pub idle_lease :
    (id token : String) (j : Job) → is_pending j.status ≡ true → holds_lease id token j ≡ false
idle_lease id token j h = ground arith

pub complete-IsOrderly :
    (id token : String) (now : ℕ) (q : Queue)
    → IsExclusive q.jobs
    → IsOrderly q.jobs (complete id token now q).1.jobs
unfolding complete
complete-IsOrderly id token now q ex = elim (Option-cases (find? (holds_lease id token) q.jobs)) [
  | inl lost ↦ rw (lost, complete) (unchanged-IsOrderly q.jobs ex)
  | inr (x, found) ↦
      rw (found, complete)
        (end-IsOrderly (holds_lease id token) _ q.jobs x found
          (lease_row-runs id token x (find?-meets (holds_lease id token) q.jobs x found))
          (refl, refl, refl) ex)
]

pub cleanup-IsOrderly :
    (days now : ℕ) (q : Queue)
    → IsExclusive q.jobs
    → IsOrderly q.jobs (cleanup_completed_inbound_jobs days now q).jobs
unfolding cleanup_completed_inbound_jobs
cleanup-IsOrderly days now q ex =
    let keep : Job → Bool = λ j. not (is_old days now j) in
    record {
      exclusive = filter-IsExclusive keep (λ j h. ground (arith, h)) q.jobs ex;
      moves = filter-Moves keep (λ j h. ground (arith, h)) q.jobs;
    }

-- The row in processing goes in front of the batch that waits.
pub join-IsOrderly :
    (p : Job → Bool) (f : Job → Job) (available now : ℕ) (jobs : List Job) (x y : Job)
    → find? p jobs ≡ some x
    → find? (waits x.channel x.sender_id) jobs ≡ some y
    → ((j : Job) → is_pending j.status ≡ true → p j ≡ false)
    → is_processing x.status ≡ true
    → (is_terminal (f x).status ≡ true)
      × ((f x).channel ≡ x.channel)
      × ((f x).sender_id ≡ x.sender_id)
    → IsExclusive jobs
    → IsOrderly jobs (
        update_first p f
          (update_first (waits x.channel x.sender_id) (merge_into x available now) jobs))
join-IsOrderly p f available now jobs x y found found_y apart was (over, channel, sender) ex =
    let mine = waits x.channel x.sender_id in
    let g = merge_into x available now in
    let (y_waits, own) = own_waits x.channel x.sender_id y (find?-meets mine jobs y found_y) in
    record {
      exclusive =
          merge-IsExclusive p mine f g jobs x y found found_y apart was y_waits over refl channel
            sender refl refl ex;
      moves =
          merge-Moves p mine f g jobs x y found found_y apart was y_waits over refl channel sender
            refl refl (sym (of_channel x.channel x.sender_id y own))
            (sym (of_sender x.channel x.sender_id y own)) refl ex;
    }

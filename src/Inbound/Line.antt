-- ===== src/Inbound/Line.antt =====
-- The queue's transactions as one relation, and each sender's messages as an abstract line.
use social_media_manager.Prelude.{ℕ, String, ◌≡◌, refl, sym, Bool, List, [], ◌∷◌, ◌++◌}
use mathlib.Core.List.{append_assoc, append-nil}
use social_media_manager.Inbound.Jobs.{Job, Queue}
use social_media_manager.Inbound.Enqueue.{
  Delivery, enqueue_inbound_message, cleanup_completed_inbound_jobs,
}
use social_media_manager.Inbound.Claim.{claim_due_job, claim_sender_job, heartbeat}
use social_media_manager.Inbound.Finish.{Claim, complete, requeue_failed_job}
use social_media_manager.Inbound.Recover.{recover_one}
use social_media_manager.Inbound.Outbound.{
  Response, mark_outbound_send_started, record_outbound_message,
}
use social_media_manager.Inbound.View.{
  running, waiting, Move, stay, arrive, take_batch, end_batch, give_back, IsExclusive,
}
use social_media_manager.Inbound.Steps.{
  IsOrderly, enqueue-IsOrderly, claim_due-IsOrderly, claim_sender-IsOrderly,
}
use social_media_manager.Inbound.Ends.{
  heartbeat-IsOrderly, mark-IsOrderly, record-IsOrderly, complete-IsOrderly, cleanup-IsOrderly,
}
use social_media_manager.Inbound.Returns.{
  IsClaimOf, requeue-IsOrderly, IsSnapshotOf, recover-IsOrderly,
}

-- One transaction of some worker, at any time and with any token. A worker gives back what it has claimed,
-- and the recovery what it has read.
pub data Step : Queue → Queue → Type 0 where
  enqueue :
      (d : Delivery) (id : String) (now : ℕ) (q : Queue)
      → Step q (enqueue_inbound_message d id now q).1
  claim_due :
      (locked : Job → Bool) (token : String) (now : ℕ) (q : Queue)
      → Step q (claim_due_job locked token now q).1
  claim_sender :
      (locked : Job → Bool) (channel sender token : String) (now : ℕ) (q : Queue)
      → Step q (claim_sender_job locked channel sender token now q).1
  beat : (id token : String) (now : ℕ) (q : Queue) → Step q (heartbeat id token now q)
  mark :
      (id token : String) (now : ℕ) (q : Queue)
      → Step q (mark_outbound_send_started id token now q).1
  record_ids :
      (id token : String) (r : Response) (now : ℕ) (q : Queue)
      → Step q (record_outbound_message id token r now q)
  finish : (id token : String) (now : ℕ) (q : Queue) → Step q (complete id token now q).1
  requeue :
      (c : Claim) (safe : Bool) (error : String) (now : ℕ) (q : Queue)
      → IsClaimOf c q
      → Step q (requeue_failed_job c safe error now q)
  recover :
      (stale : Job) (now : ℕ) (q : Queue)
      → IsSnapshotOf stale now q
      → Step q (recover_one stale now q).1
  cleanup : (days now : ℕ) (q : Queue) → Step q (cleanup_completed_inbound_jobs days now q)

pub data Reach (q : Queue) : Queue → Type 0 where
  here : Reach q q
  next : {r s : Queue} → Reach q r → Step r s → Reach q s

Step-IsOrderly : {q r : Queue} → Step q r → IsExclusive q.jobs → IsOrderly q.jobs r.jobs
Step-IsOrderly (enqueue d id now q) ex = enqueue-IsOrderly d id now q ex
Step-IsOrderly (claim_due locked token now q) ex = claim_due-IsOrderly locked token now q ex
Step-IsOrderly (claim_sender locked channel sender token now q) ex =
    claim_sender-IsOrderly locked channel sender token now q ex
Step-IsOrderly (beat id token now q) ex = heartbeat-IsOrderly id token now q ex
Step-IsOrderly (mark id token now q) ex = mark-IsOrderly id token now q ex
Step-IsOrderly (record_ids id token r now q) ex = record-IsOrderly id token r now q ex
Step-IsOrderly (finish id token now q) ex = complete-IsOrderly id token now q ex
Step-IsOrderly (requeue c safe error now q claim) ex = requeue-IsOrderly c safe error now q claim ex
Step-IsOrderly (recover stale now q snapshot) ex = recover-IsOrderly stale now q snapshot ex
Step-IsOrderly (cleanup days now q) ex = cleanup-IsOrderly days now q ex

-- From a queue in which every sender has at most one batch in processing and one that waits, every
-- sequence of transactions, of any workers in any order, ends in such a queue. A worker's claim and the row
-- of a stale lease name the sender of the row that they stand for.
pub Reach-IsExclusive : {q r : Queue} → Reach q r → IsExclusive q.jobs → IsExclusive r.jobs
Reach-IsExclusive here ex = ex
Reach-IsExclusive (next reach step) ex =
    IsOrderly.exclusive (Step-IsOrderly step (Reach-IsExclusive reach ex))

-- A sender's messages that are not done: the batch in processing, then the batch that waits.
abbrev pub line : String → String → List Job → List String
line channel sender jobs = running channel sender jobs ++ waiting channel sender jobs

-- What may happen to an abstract line: it stays, a message joins at its end, or the batch at its front
-- leaves as a whole.
pub data LineStep (front before after : List String) : Type 0 where
  same : after ≡ before → LineStep front before after
  joined : (text : String) → after ≡ before ++ text ∷ [] → LineStep front before after
  left : before ≡ front ++ after → LineStep front before after

Move-LineStep : {r w r' w' : List String} → Move r w r' w' → LineStep r (r ++ w) (r' ++ w')
Move-LineStep (stay e f) = same (rw (e, f) refl)
Move-LineStep {r} {w} (arrive text e f) =
    joined text (rw (e, f) (sym (append_assoc r w (text ∷ []))))
Move-LineStep {w} (take_batch e f g) = same (rw (e, f, g) (append-nil w))
Move-LineStep (end_batch e f) = left (rw (e, f) refl)
Move-LineStep (give_back e f) = same (rw (e, f) refl)

-- In a queue in which every sender has at most one batch in processing and one that waits, every
-- transaction is a step of every sender's abstract line: the line stays as it is, or one message joins at
-- its end, or the batch in processing leaves as a whole. So no message changes its place, none is doubled,
-- and none leaves but with its batch. A worker's claim and the row of a stale lease name the sender of the
-- row that they stand for.
pub Step-LineStep :
    {q r : Queue} (channel sender : String)
    → Step q r
    → IsExclusive q.jobs
    → LineStep
        (running channel sender q.jobs)
        (line channel sender q.jobs)
        (line channel sender r.jobs)
Step-LineStep channel sender step ex =
    Move-LineStep (IsOrderly.moves (Step-IsOrderly step ex) channel sender)

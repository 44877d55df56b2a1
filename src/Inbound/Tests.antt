-- ===== src/Inbound/Tests.antt =====
-- Runs of the inbound queue.
use social_media_manager.Prelude.{
  Bool, false, ℕ, zero, suc, ◌≡◌, refl, true, false, none, some, [], ◌∷◌, arith, ◌⊎◌, inl, find?,
  ◌<◌, ◌+◌,
}
use social_media_manager.Prelude.Result.{Result, ok, err}
use social_media_manager.Prelude.Rows.{count, update_first}
use social_media_manager.Inbound.Jobs.{Job, Queue, processing, holds_lease}
use social_media_manager.Inbound.Enqueue.{
  Delivery, add_message, enqueue_new, enqueue_inbound_message,
}
use social_media_manager.Inbound.Claim.{claim_due_job, earliest}
use social_media_manager.Inbound.Finish.{is_nonempty}
use social_media_manager.Inbound.Outbound.{
  Response, SendError, meta_error, lease_lost, mark_outbound_send_started,
  send_with_delivery_record, record_sent,
}
use social_media_manager.Inbound.View.{running, IsExclusive}
use social_media_manager.Inbound.Line.{
  Reach, here, next, enqueue, claim_due, Reach-IsExclusive, line, LineStep, Step-LineStep,
}
use social_media_manager.Inbound.Replies.{claimed-unanswered}
use social_media_manager.Inbound.Duplicates.{Quiet, unmoved, moved, enqueue-twice}
use social_media_manager.Inbound.Sends.{send_with_delivery_record-calls}

abbrev nothing : Queue
nothing = record { jobs = []; receipts = [] }

-- No other transaction holds a row.
abbrev unlocked : Job → Bool
unlocked j = false

abbrev hello : Delivery
hello = record {
  channel = "whatsapp";
  sender_id = "584120001122";
  message_id = "wamid.1";
  text = "hola";
  media_url = none;
  customer_profile = [];
}

abbrev price : Delivery
price = record hello { message_id = "wamid.2"; text = "precio?" }

abbrev one_message : Queue
one_message = (enqueue_inbound_message hello "job-1" 100 nothing).1

abbrev two_messages : Queue
two_messages = (enqueue_inbound_message price "job-2" 105 one_message).1

abbrev claimed : Queue
claimed = (claim_due_job unlocked "lease-1" 130 two_messages).1

nothing-IsExclusive : IsExclusive nothing.jobs
unfolding count
nothing-IsExclusive = record { one_running = λ c s. omega arith; one_waiting = λ c s. omega arith }

Reach-two : Reach nothing two_messages
Reach-two =
    next (next here (enqueue hello "job-1" 100 nothing)) (enqueue price "job-2" 105 one_message)

Reach-IsExclusive_example : IsExclusive claimed.jobs
Reach-IsExclusive_example =
    Reach-IsExclusive (next Reach-two (claim_due unlocked "lease-1" 130 two_messages))
      nothing-IsExclusive

Step-LineStep_example :
    LineStep
      (running "whatsapp" "584120001122" two_messages.jobs)
      (line "whatsapp" "584120001122" two_messages.jobs)
      (line "whatsapp" "584120001122" claimed.jobs)
Step-LineStep_example =
    Step-LineStep "whatsapp" "584120001122" (claim_due unlocked "lease-1" 130 two_messages)
      (Reach-IsExclusive Reach-two nothing-IsExclusive)

line_of_two : line "whatsapp" "584120001122" claimed.jobs ≡ "hola" ∷ "precio?" ∷ []
unfolding enqueue_inbound_message enqueue_new add_message claim_due_job earliest update_first
line_of_two = refl

abbrev a_job : Job
a_job = record {
  id = "job-1";
  channel = "whatsapp";
  sender_id = "584120001122";
  message_parts = "hola" ∷ [];
  media_url = none;
  customer_profile = [];
  status = processing;
  available_at = 115;
  created_at = 100;
  updated_at = 130;
  started_at = some 130;
  heartbeat_at = some 130;
  lease = some "lease-1";
  attempt_count = 1;
  outbound_started_at = none;
  outbound_ids = [];
  completed_at = none;
  last_error = none;
}

claimed_job : (claim_due_job unlocked "lease-1" 130 one_message).0 ≡ some a_job
unfolding enqueue_inbound_message enqueue_new add_message claim_due_job earliest update_first
claimed_job = refl

claimed-unanswered_example : is_nonempty a_job.outbound_ids ≡ false
claimed-unanswered_example =
    claimed-unanswered unlocked "whatsapp" "584120001122" "lease-1" 130 a_job
      (next here (enqueue hello "job-1" 100 nothing)) tt (inl claimed_job)

enqueue_hello : (enqueue_inbound_message hello "job-1" 100 nothing).0 ≡ ok true
unfolding enqueue_inbound_message enqueue_new
enqueue_hello = refl

redelivered_after : Quiet one_message claimed
redelivered_after =
    moved (moved unmoved (enqueue price "job-2" 105 one_message) refl)
      (claim_due unlocked "lease-1" 130 two_messages) refl

enqueue-twice_example : enqueue_inbound_message hello "job-9" 250 claimed ≡ (ok false, claimed)
enqueue-twice_example =
    enqueue-twice hello "job-1" "job-9" 100 250 nothing true enqueue_hello redelivered_after

abbrev leased : Queue
leased = record { jobs = a_job ∷ []; receipts = [] }

-- The first call fails before Meta was reached, the second succeeds.
abbrev second_time : ℕ → Result SendError Response
second_time zero = err (meta_error true)
second_time (suc n) = ok (record { messages = "wamid.9" ∷ []; direct = "" })

send_with_delivery_record-calls_example :
    ((find? (holds_lease "job-1" "lease-1") leased.jobs ≡ none)
      × (send_with_delivery_record "job-1" "lease-1" 140 second_time leased
          ≡ (err lease_lost, 0, leased)))
    ⊎ ((row : Job) × (find? (holds_lease "job-1" "lease-1") leased.jobs ≡ some row)
        × (last : ℕ) × (last < 3)
        × (send_with_delivery_record "job-1" "lease-1" 140 second_time leased
            ≡ record_sent "job-1" "lease-1" 140
                (mark_outbound_send_started "job-1" "lease-1" 140 leased).1
                (second_time last, last + 1))
        × ((k : ℕ) → k < last → second_time k ≡ err (meta_error true)))
send_with_delivery_record-calls_example =
    send_with_delivery_record-calls "job-1" "lease-1" 140 second_time leased refl

-- ===== src/Inbound/Enqueue.antt =====
-- `enqueue_inbound_message` and `cleanup_completed_inbound_jobs` of `store/app/webhooks/inbound_buffer.py`.
use social_media_manager.Prelude.{
  ℕ, ◌+◌, ◌*◌, String, Bool, true, false, not, ◌&&◌, ◌||◌, Option, none, some, [], ◌∷◌, ◌++◌, ◌==◌,
  ltb, any, find?, filter, if◌then◌else◌,
}
use social_media_manager.Prelude.Text.{contains}
use social_media_manager.Prelude.Dict.{Dict}
use social_media_manager.Prelude.Result.{Result, ok, err}
use social_media_manager.Prelude.Rows.{update_first}
use social_media_manager.Inbound.Jobs.{
  pending, Job, Receipt, Queue, is_terminal, waits, coalesce, merge_profile,
}

-- The two `ValueError`s.
pub data EnqueueError : Type 0 where
  unsupported_channel missing_ids : EnqueueError

pub record Delivery : Type 0 where
  pub channel : String
  pub sender_id : String
  pub message_id : String
  pub text : String
  pub media_url : Option String
  pub customer_profile : Dict String

-- `MESSAGE_DEBOUNCE_SECONDS`
abbrev pub message_debounce : ℕ
message_debounce = 15

abbrev pub is_receipt : Delivery → Receipt → Bool
is_receipt d r = r.channel == d.channel && r.external_message_id == d.message_id

-- The batch with one more message; its window starts anew.
abbrev pub extend : Delivery → ℕ → Job → Job
extend d now j = record j {
  message_parts = j.message_parts ++ d.text ∷ [];
  media_url = coalesce d.media_url j.media_url;
  customer_profile = merge_profile j.customer_profile d.customer_profile;
  available_at = now + message_debounce;
  updated_at = now;
}

-- A new batch, under the generated id.
abbrev pub new_job : Delivery → String → ℕ → Job
new_job d id now = record {
  id = id;
  channel = d.channel;
  sender_id = d.sender_id;
  message_parts = d.text ∷ [];
  media_url = d.media_url;
  customer_profile = d.customer_profile;
  status = pending;
  available_at = now + message_debounce;
  created_at = now;
  updated_at = now;
  started_at = none;
  heartbeat_at = none;
  lease = none;
  attempt_count = 0;
  outbound_started_at = none;
  outbound_ids = [];
  completed_at = none;
  last_error = none;
}

abbrev receipt_of : Delivery → String → Receipt
receipt_of d id = record { channel = d.channel; external_message_id = d.message_id; job_id = id }

-- With the message new: into the batch that waits, or into one of its own.
unfoldable pub add_message : Delivery → String → ℕ → Queue → Option Job → Queue
add_message d id now q none = record {
  jobs = q.jobs ++ new_job d id now ∷ [];
  receipts = receipt_of d id ∷ q.receipts;
}
add_message d id now q (some j) = record {
  jobs = update_first (waits d.channel d.sender_id) (extend d now) q.jobs;
  receipts = receipt_of d j.id ∷ q.receipts;
}

-- The transaction under the sender's lock.
unfoldable pub enqueue_new : Delivery → String → ℕ → Queue → Bool × Queue
unfolding add_message
enqueue_new d id now q =
    if any (is_receipt d) q.receipts
    then (false, q)
    else (true, add_message d id now q (find? (waits d.channel d.sender_id) q.jobs))

unfoldable pub enqueue_inbound_message :
    Delivery → String → ℕ → Queue → Result EnqueueError Bool × Queue
unfolding enqueue_new
enqueue_inbound_message d id now q =
    if not (contains ("whatsapp" ∷ "instagram" ∷ []) d.channel)
    then (err unsupported_channel, q)
    else if d.sender_id == "" || d.message_id == ""
    then (err missing_ids, q)
    else (ok (enqueue_new d id now q).0, (enqueue_new d id now q).1)

abbrev pub is_old : ℕ → ℕ → Job → Bool
is_old days now j = is_terminal j.status && ltb (j.updated_at + days * 86400) now

-- The receipts of a deleted job go with it.
unfoldable pub cleanup_completed_inbound_jobs : ℕ → ℕ → Queue → Queue
cleanup_completed_inbound_jobs days now q = record {
  jobs = filter (λ j. not (is_old days now j)) q.jobs;
  receipts = filter (λ r. not (any (λ j. is_old days now j && j.id == r.job_id) q.jobs)) q.receipts;
}

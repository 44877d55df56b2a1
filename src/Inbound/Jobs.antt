-- ===== src/Inbound/Jobs.antt =====
-- The tables `meta_inbound_jobs` and `meta_inbound_receipts`. Times are seconds.
use social_media_manager.Prelude.{
  ℕ, ◌+◌, String, Bool, true, false, ◌&&◌, Option, none, some, List, [], ◌∷◌, ◌==◌, ltb,
  if◌then◌else◌,
}
use social_media_manager.Prelude.Dict.{Dict, put}

pub data JobStatus : Type 0 where
  pending processing completed failed : JobStatus

pub record Job : Type 0 where
  pub id : String
  pub channel : String
  pub sender_id : String
  pub message_parts : List String
  pub media_url : Option String
  pub customer_profile : Dict String
  pub status : JobStatus
  pub available_at : ℕ
  pub created_at : ℕ
  pub updated_at : ℕ
  pub started_at : Option ℕ
  pub heartbeat_at : Option ℕ
  pub lease : Option String
  pub attempt_count : ℕ
  pub outbound_started_at : Option ℕ
  pub outbound_ids : List String
  pub completed_at : Option ℕ
  pub last_error : Option String

pub record Receipt : Type 0 where
  pub channel : String
  pub external_message_id : String
  pub job_id : String

pub record Queue : Type 0 where
  pub jobs : List Job
  pub receipts : List Receipt

abbrev pub is_pending : JobStatus → Bool
is_pending pending = true
is_pending _ = false

abbrev pub is_processing : JobStatus → Bool
is_processing processing = true
is_processing _ = false

abbrev pub is_terminal : JobStatus → Bool
is_terminal completed = true
is_terminal failed = true
is_terminal _ = false

-- `channel = :channel AND sender_id = :sender_id`
abbrev pub is_of : String → String → Job → Bool
is_of channel sender j = j.channel == channel && j.sender_id == sender

-- A sender's batch that waits, and the one that is being processed.
abbrev pub waits : String → String → Job → Bool
waits channel sender j = is_pending j.status && is_of channel sender j

abbrev pub runs : String → String → Job → Bool
runs channel sender j = is_processing j.status && is_of channel sender j

-- `column = :value`, which a NULL column does not meet
abbrev pub equals : Option String → String → Bool
equals none v = false
equals (some c) v = c == v

-- `id = :job_id AND status = 'processing' AND processing_lease_token = :lease_token`
abbrev pub holds_lease : String → String → Job → Bool
holds_lease id token j = is_processing j.status && j.id == id && equals j.lease token

-- `COALESCE(old, new)`
abbrev pub coalesce {ℓ} : {A : Type ℓ} → Option A → Option A → Option A
coalesce none b = b
coalesce (some a) b = some a

-- `_merge_profile`: the new values that are not empty replace the old ones.
unfoldable pub merge_profile : Dict String → Dict String → Dict String
merge_profile current [] = current
merge_profile current ((k, v) ∷ values) =
    merge_profile (if v == "" then current else put k v current) values

-- The row without its lease, in a new state.
abbrev pub end_lease : JobStatus → Option String → ℕ → Job → Job
end_lease status error now j = record j {
  status = status;
  started_at = none;
  heartbeat_at = none;
  lease = none;
  last_error = error;
  updated_at = now;
}

-- `PROCESSING_LEASE_MINUTES`
abbrev pub processing_lease : ℕ
processing_lease = 300

-- `COALESCE(processing_heartbeat_at, processing_started_at) < NOW() - INTERVAL '5 minutes'`
abbrev pub is_stale : ℕ → Job → Bool
is_stale now j = elim (coalesce j.heartbeat_at j.started_at) [
  | none ↦ false
  | some t ↦ ltb (t + processing_lease) now
]

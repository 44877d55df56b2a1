-- ===== src/Inbound/Outbound.antt =====
-- The fence around a send: `mark_outbound_send_started`, `record_outbound_message` and
-- `send_with_delivery_record`.
use social_media_manager.Prelude.{
  ℕ, zero, suc, ◌+◌, String, Bool, true, false, not, ◌&&◌, ◌||◌, some, List, [], ◌∷◌, ◌++◌, ◌==◌,
  find?, if◌then◌else◌,
}
use social_media_manager.Prelude.Text.{strip, contains}
use social_media_manager.Prelude.Result.{Result, ok, err}
use social_media_manager.Prelude.Rows.{update_first}
use social_media_manager.Inbound.Jobs.{Job, Queue, holds_lease, coalesce}
use social_media_manager.Inbound.Finish.{is_given, is_nonempty}

abbrev pub mark_row : ℕ → Job → Job
mark_row now j = record j {
  outbound_started_at = coalesce j.outbound_started_at (some now);
  updated_at = now;
}

unfoldable pub mark_outbound_send_started : String → String → ℕ → Queue → Bool × Queue
mark_outbound_send_started id token now q = if id == "" || token == "" then (false, q) else (
  is_given (find? (holds_lease id token) q.jobs),
  record q { jobs = update_first (holds_lease id token) (mark_row now) q.jobs },
)

-- `_extract_meta_message_ids`: the ids of the `messages` entries, and the direct one; an entry without
-- an id is the empty text.
pub record Response : Type 0 where
  pub messages : List String
  pub direct : String

nonblank : List String → List String
nonblank [] = []
nonblank (s ∷ ss) = let rest = nonblank ss in if strip s == "" then rest else strip s ∷ rest

unfoldable pub extract_meta_message_ids : Response → List String
unfolding nonblank
extract_meta_message_ids r = nonblank (r.messages ++ r.direct ∷ [])

-- `jsonb_agg(DISTINCT value)`, in the order of arrival
add_distinct : List String → List String → List String
add_distinct old [] = old
add_distinct old (s ∷ ss) = add_distinct (if contains old s then old else old ++ s ∷ []) ss

unfoldable pub record_row : List String → ℕ → Job → Job
unfolding add_distinct
record_row ids now j = record j { outbound_ids = add_distinct j.outbound_ids ids; updated_at = now }

unfoldable pub record_outbound_message : String → String → Response → ℕ → Queue → Queue
unfolding record_row
record_outbound_message id token r now q =
    let ids = extract_meta_message_ids r in
    if id == "" || token == "" || not (is_nonempty ids)
    then q
    else record q { jobs = update_first (holds_lease id token) (record_row ids now) q.jobs }

-- A send that raised: `MetaSendError` and whether it is retryable, or the lost lease.
pub data SendError : Type 0 where
  meta_error : Bool → SendError
  lease_lost : SendError

-- `MAX_META_SEND_ATTEMPTS`
abbrev pub max_meta_send_attempts : ℕ
max_meta_send_attempts = 3

-- The loop, on the attempts that are left; `send` answers the attempt of that number. The result comes
-- with the number of calls that were made.
unfoldable pub send_attempts :
    ℕ → ℕ → (ℕ → Result SendError Response) → Result SendError Response × ℕ
send_attempts zero made send = (err lease_lost, made)
send_attempts (suc left) made send = elim (send made) [
  | ok r ↦ (ok r, made + 1)
  | err (meta_error true) ↦ elim left [
    | zero ↦ (err (meta_error true), made + 1)
    | suc k ↦ send_attempts left (made + 1) send
  ]
  | err e ↦ (err e, made + 1)
]

abbrev pub Sent : Type 0
Sent = Result SendError Response × ℕ × Queue

unfoldable pub record_sent : String → String → ℕ → Queue → Result SendError Response × ℕ → Sent
record_sent id token now q (ok r, made) = (ok r, made, record_outbound_message id token r now q)
record_sent id token now q (err e, made) = (err e, made, q)

abbrev pub fenced : String → String → Bool
fenced id token = not (id == "") && not (token == "")

-- With the answer of `mark_outbound_send_started`
abbrev send_marked : String → String → ℕ → (ℕ → Result SendError Response) → Bool × Queue → Sent
send_marked id token now send (false, q) = (err lease_lost, 0, q)
send_marked id token now send (true, q) =
    record_sent id token now q (send_attempts max_meta_send_attempts 0 send)

unfoldable pub send_with_delivery_record :
    String → String → ℕ → (ℕ → Result SendError Response) → Queue → Sent
unfolding record_sent
send_with_delivery_record id token now send q =
    if fenced id token
    then send_marked id token now send (mark_outbound_send_started id token now q)
    else record_sent id token now q (send_attempts max_meta_send_attempts 0 send)

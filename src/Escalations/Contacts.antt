-- ===== src/Escalations/Contacts.antt =====
-- The columns of `customers` that say whether the assistant may answer, and the expiry of a pause.
-- Times are seconds.
use social_media_manager.Prelude.{
  ℕ, ◌+◌, ◌*◌, String, Bool, true, false, ◌&&◌, ◌||◌, Option, none, some, List, leb, find?,
  if◌then◌else◌,
}
use social_media_manager.Prelude.Int.{ℤ, pos, negsuc}
use social_media_manager.Prelude.Rows.{update_first}

pub data ConversationState : Type 0 where
  active escalated blocked : ConversationState

pub data EscalationSource : Type 0 where
  automatic manual external : EscalationSource

pub record Customer : Type 0 where
  pub id : String
  pub channel : Option String
  pub conversation_state : Option ConversationState
  pub escalation_source : Option EscalationSource
  pub escalated_at : Option ℕ
  pub escalation_expires_at : Option ℕ
  pub is_blocked : Option Bool

-- The table, and the customers whose history and session were reset, the last one first.
pub record Contacts : Type 0 where
  pub customers : List Customer
  pub resets : List String

abbrev pub is_escalated : Option ConversationState → Bool
is_escalated (some escalated) = true
is_escalated _ = false

abbrev pub is_state_blocked : Option ConversationState → Bool
is_state_blocked (some blocked) = true
is_state_blocked _ = false

abbrev pub is_automatic : Option EscalationSource → Bool
is_automatic (some automatic) = true
is_automatic _ = false

abbrev pub is_external : Option EscalationSource → Bool
is_external (some external) = true
is_external _ = false

-- `COALESCE(is_blocked, FALSE)`
abbrev pub is_true : Option Bool → Bool
is_true (some b) = b
is_true none = false

abbrev pub is_blocked_row : Customer → Bool
is_blocked_row c = is_true c.is_blocked || is_state_blocked c.conversation_state

-- `UPDATE customers SET f WHERE p RETURNING *`, where `p` asks for an id, which one row has.
unfoldable pub update_where :
    (Customer → Bool) → (Customer → Customer) → Contacts → Option Customer × Contacts
update_where p f s = (
  elim (find? p s.customers) [ none ↦ none | some c ↦ some (f c) ],
  record s { customers = update_first p f s.customers },
)

-- What `int` makes of the setting; `none` where it raises.
unfoldable pub normalize_automatic_timeout_minutes : Option ℤ → ℕ
normalize_automatic_timeout_minutes none = 180
normalize_automatic_timeout_minutes (some (negsuc n)) = 180
normalize_automatic_timeout_minutes (some (pos n)) =
    if leb n 0 then 0 else if leb 5 n && leb n 10080 then n else 180

unfoldable pub automatic_expiration_from_settings : Option ℤ → ℕ → Option ℕ
automatic_expiration_from_settings setting now =
    let minutes = normalize_automatic_timeout_minutes setting in
    if leb minutes 0 then none else some (now + minutes * 60)

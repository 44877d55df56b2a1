-- ===== src/Escalations/Pauses.antt =====
-- The updates that pause the assistant and resume it.
use social_media_manager.Prelude.{
  ℕ, String, Bool, not, ◌&&◌, ◌||◌, Option, none, some, ◌∷◌, ◌==◌, if◌then◌else◌,
}
use social_media_manager.Prelude.Int.{ℤ}
use social_media_manager.Escalations.Contacts.{
  ConversationState, active, escalated, blocked, EscalationSource, automatic, manual, external,
  Customer, Contacts, is_escalated, is_automatic, is_external, is_blocked_row, update_where,
  automatic_expiration_from_settings,
}

abbrev coalesce_channel : Option String → Option String → Option String
coalesce_channel none old = old
coalesce_channel (some new) old = some new

abbrev pub pause : EscalationSource → ℕ → Option ℕ → Customer → Customer
pause source now expires c = record c {
  conversation_state = some escalated;
  escalation_source = some source;
  escalated_at = some now;
  escalation_expires_at = expires;
}

-- No pause, in the state.
abbrev pub clear : ConversationState → Customer → Customer
clear state c = record c {
  conversation_state = some state;
  escalation_source = none;
  escalated_at = none;
  escalation_expires_at = none;
}

abbrev pub may_escalate : String → Customer → Bool
may_escalate id c =
    c.id == id
    && not (is_blocked_row c)
    && (not (is_escalated c.conversation_state) || is_automatic c.escalation_source)

unfoldable pub escalate_customer_automatically :
    String → Option ℤ → ℕ → Contacts → Option Customer × Contacts
escalate_customer_automatically id setting now s =
    update_where (may_escalate id)
      (pause automatic now (automatic_expiration_from_settings setting now)) s

abbrev pub has_id : String → Customer → Bool
has_id id c = c.id == id

abbrev pub pause_manually : Option String → ℕ → Customer → Customer
pause_manually channel now c = record (pause manual now none c) {
  channel = coalesce_channel channel c.channel;
}

unfoldable pub escalate_customer_manually :
    String → Option String → ℕ → Contacts → Option Customer × Contacts
escalate_customer_manually id channel now s =
    update_where (has_id id) (pause_manually channel now) s

-- An automatic pause keeps its columns.
unfoldable pub pause_externally : ℕ → Customer → Customer
pause_externally now c =
    if is_escalated c.conversation_state && is_automatic c.escalation_source
    then c
    else pause external now none c

abbrev pub is_open : String → Customer → Bool
is_open id c = c.id == id && not (is_blocked_row c)

unfoldable pub mark_external_escalation : String → ℕ → Contacts → Option Customer × Contacts
unfolding pause_externally
mark_external_escalation id now s = update_where (is_open id) (pause_externally now) s

abbrev pub may_resume : String → Customer → Bool
may_resume id c =
    is_open id c && (not (is_escalated c.conversation_state) || is_external c.escalation_source)

unfoldable pub mark_external_active : String → Contacts → Option Customer × Contacts
mark_external_active id s = update_where (may_resume id) (clear active) s

abbrev pub clear_for_admin : ConversationState → Option String → Customer → Customer
clear_for_admin state channel c = record (clear state c) {
  channel = coalesce_channel channel c.channel;
}

-- `reset_customer_context`
abbrev pub reset_customer_context : String → Contacts → Contacts
reset_customer_context id s = record s { resets = id ∷ s.resets }

abbrev pub reset_updated : String → Option Customer × Contacts → Option Customer × Contacts
reset_updated id (none, s) = (none, s)
reset_updated id (some c, s) = (some c, reset_customer_context id s)

unfoldable pub mark_customer_active_for_admin :
    String → Option String → Contacts → Option Customer × Contacts
mark_customer_active_for_admin id channel s =
    reset_updated id (update_where (has_id id) (clear_for_admin active channel) s)

unfoldable pub mark_customer_blocked :
    String → Option String → Contacts → Option Customer × Contacts
mark_customer_blocked id channel s = update_where (has_id id) (clear_for_admin blocked channel) s

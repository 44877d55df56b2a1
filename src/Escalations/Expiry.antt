-- ===== src/Escalations/Expiry.antt =====
-- The end of automatic pauses.
use social_media_manager.Prelude.{
  ℕ, String, Bool, true, false, not, ◌&&◌, ◌||◌, Option, none, some, ◌==◌, leb, find?,
  if◌then◌else◌,
}
use social_media_manager.Prelude.Result.{Result, ok, err}
use social_media_manager.Escalations.Contacts.{
  active, Customer, Contacts, is_escalated, is_automatic, is_true, is_state_blocked, update_where,
}
use social_media_manager.Escalations.Pauses.{clear, has_id, reset_customer_context}

pub data ReactivationStatus : Type 0 where
  reactivated failed skipped : ReactivationStatus

pub data Reason : Type 0 where
  missing_customer_id is_blocked not_escalated not_automatic no_expiration not_expired not_found :
      Reason
  stale_state expired unexpected_error : Reason
  provider_reason : String → Reason

-- The channel's backend: `meta`, or a Kommo lead whose mode was set.
pub data Provider : Type 0 where
  meta : Provider
  kommo : Option String → Provider

pub record ReactivationResult : Type 0 where
  pub customer_id : Option String
  pub status : ReactivationStatus
  pub reason : Reason
  pub provider : Provider

-- `_reactivate_delivery_provider_if_needed` raises its own error with a reason code, or another one.
pub data ProviderError : Type 0 where
  refused : String → ProviderError
  crashed : ProviderError

abbrev pub passed : ℕ → Option ℕ → Option Reason
passed now none = some no_expiration
passed now (some expires) = if leb expires now then none else some not_expired

unfoldable pub quick_skip_reason : Customer → ℕ → Option Reason
quick_skip_reason c now =
    if is_state_blocked c.conversation_state || is_true c.is_blocked
    then some is_blocked
    else if not (is_escalated c.conversation_state)
    then some not_escalated
    else if not (is_automatic c.escalation_source)
    then some not_automatic
    else passed now c.escalation_expires_at

abbrev pub is_due_at : ℕ → Option ℕ → Bool
is_due_at now none = false
is_due_at now (some expires) = leb expires now

-- The condition of the batch's `SELECT`
abbrev pub is_expired : ℕ → Customer → Bool
is_expired now c =
    is_escalated c.conversation_state
    && is_automatic c.escalation_source
    && is_due_at now c.escalation_expires_at
    && not (is_true c.is_blocked)

-- `=` and `IS NOT DISTINCT FROM`
abbrev pub equal_time : Option ℕ → Option ℕ → Bool
equal_time (some a) (some b) = leb a b && leb b a
equal_time _ _ = false

abbrev pub same_time : Option ℕ → Option ℕ → Bool
same_time none none = true
same_time (some a) (some b) = leb a b && leb b a
same_time _ _ = false

-- The condition of the update, with the row as it was read.
abbrev pub is_still_expired : Customer → ℕ → Customer → Bool
is_still_expired seen now c =
    c.id == seen.id
    && is_expired now c
    && equal_time c.escalation_expires_at seen.escalation_expires_at
    && same_time c.escalated_at seen.escalated_at

abbrev pub answer : String → ReactivationStatus → Reason → Provider → ReactivationResult
answer id status reason provider = record {
  customer_id = some id;
  status = status;
  reason = reason;
  provider = provider;
}

-- With the update's row
abbrev pub conclude :
    Customer → Provider → Option Customer × Contacts → ReactivationResult × Contacts
conclude c provider (none, s) = (answer c.id skipped stale_state provider, s)
conclude c provider (some updated, s) =
    (answer c.id reactivated expired provider, reset_customer_context c.id s)

abbrev pub with_provider :
    Customer
    → ℕ
    → Result ProviderError Provider
    → Contacts
    → Result ProviderError ReactivationResult × Contacts
with_provider c now (err (refused code)) s =
    (ok (answer c.id failed (provider_reason code) (kommo none)), s)
with_provider c now (err crashed) s = (err crashed, s)
with_provider c now (ok provider) s =
    let (r, s') = conclude c provider (update_where (is_still_expired c now) (clear active) s) in
    (ok r, s')

-- `_reactivate_expired_locked`, of a row that is locked. `provider` answers for a customer.
unfoldable pub reactivate_expired_locked :
    (String → Result ProviderError Provider)
    → Customer
    → ℕ
    → Contacts
    → Result ProviderError ReactivationResult × Contacts
unfolding quick_skip_reason
reactivate_expired_locked provider c now s = elim (quick_skip_reason c now) [
  | some reason ↦ (ok (answer c.id skipped reason meta), s)
  | none ↦ with_provider c now (provider c.id) s
]

-- A customer's row as the caller has it, or an id.
pub data Subject : Type 0 where
  row : Customer → Subject
  key : String → Subject

abbrev without_id : ReactivationResult
without_id = record {
  customer_id = none;
  status = skipped;
  reason = missing_customer_id;
  provider = meta;
}

abbrev pub reactivate_by_id :
    (String → Result ProviderError Provider)
    → String
    → ℕ
    → Contacts
    → Result ProviderError ReactivationResult × Contacts
reactivate_by_id provider id now s = elim (find? (has_id id) s.customers) [
  | none ↦ (ok (answer id skipped not_found meta), s)
  | some c ↦ reactivate_expired_locked provider c now s
]

unfoldable pub reactivate_if_expired :
    (String → Result ProviderError Provider)
    → Subject
    → ℕ
    → Contacts
    → Result ProviderError ReactivationResult × Contacts
unfolding reactivate_expired_locked
reactivate_if_expired provider (key id) now s =
    if id == "" then (ok without_id, s) else reactivate_by_id provider id now s
reactivate_if_expired provider (row c) now s =
    if c.id == "" then (ok without_id, s) else elim (quick_skip_reason c now) [
      | some reason ↦ (ok (answer c.id skipped reason meta), s)
      | none ↦ reactivate_by_id provider c.id now s
    ]

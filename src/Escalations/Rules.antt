-- ===== src/Escalations/Rules.antt =====
-- What the updates keep.
use social_media_manager.Prelude.{
  ℕ, ◌+◌, ◌≤◌, ◌≡◌, refl, Bool, true, false, ◌&&◌, Option, none, some, leb, arith, ◌⊎◌, inr,
}
use social_media_manager.Prelude.Int.{ℤ, pos, negsuc}
use social_media_manager.Escalations.Contacts.{
  ConversationState, escalated, EscalationSource, automatic, manual, external, Customer,
  normalize_automatic_timeout_minutes, automatic_expiration_from_settings,
}

-- Minutes that are 0, which means never, or from 5 minutes to 7 days; such minutes are kept.
pub normalize-bounds :
    (setting : Option ℤ)
    → let minutes = normalize_automatic_timeout_minutes setting in
      ((minutes ≡ 0) ⊎ ((5 ≤ minutes) × (minutes ≤ 10080)))
      × (normalize_automatic_timeout_minutes (some (pos minutes)) ≡ minutes)
unfolding normalize_automatic_timeout_minutes
normalize-bounds none = (inr (omega arith, omega arith), refl)
normalize-bounds (some (negsuc n)) = (inr (omega arith, omega arith), refl)
normalize-bounds (some (pos n)) = ground arith

-- An expiry is from five minutes to seven days after its pause.
abbrev within : ℕ → ℕ → Bool
within at expires = leb (at + 300) expires && leb expires (at + 604800)

unfoldable pub agrees :
    Option ConversationState → Option EscalationSource → Option ℕ → Option ℕ → Bool
agrees (some escalated) (some automatic) (some at) (some expires) = within at expires
agrees (some escalated) (some automatic) (some at) none = true
agrees (some escalated) (some manual) (some at) none = true
agrees (some escalated) (some external) (some at) none = true
agrees (some escalated) _ _ _ = false
agrees _ none none none = true
agrees _ _ _ _ = false

-- The columns agree: a pause has its source and its time, only an automatic one may have an expiry, and
-- where there is no pause all three are empty.
abbrev pub IsAgreed : Customer → Type 0
IsAgreed c =
    agrees c.conversation_state c.escalation_source c.escalated_at c.escalation_expires_at ≡ true

pub automatic-agrees :
    (setting : Option ℤ) (now : ℕ)
    → agrees
        (some escalated)
        (some automatic)
        (some now)
        (automatic_expiration_from_settings setting now)
      ≡ true
unfolding automatic_expiration_from_settings agrees
automatic-agrees setting now = ground (arith, normalize-bounds setting)

-- ===== src/Escalations/Guards.antt =====
-- The columns agree, and pauses that no automatic part may lift.
use social_media_manager.Prelude.{
  ℕ, String, ◌≡◌, refl, sym, ap, ◌∙◌, Bool, true, false, ◌&&◌, Option, none, some, find?, All,
  arith, Bool-cases, inl, inr,
}
use mathlib.Core.Path.{subst}
use social_media_manager.Prelude.Rows.{update_first, find?-meets, find-updated}
use social_media_manager.Escalations.Contacts.{
  ConversationState, active, escalated, blocked, EscalationSource, automatic, manual, external,
  Customer, Contacts, is_escalated, is_automatic, is_external, is_state_blocked, is_blocked_row,
  update_where, automatic_expiration_from_settings,
}
use social_media_manager.Escalations.Pauses.{
  pause, clear, may_escalate, has_id, is_open, pause_externally, may_resume,
  mark_external_escalation, mark_external_active,
}
use social_media_manager.Escalations.Expiry.{is_expired}
use social_media_manager.Escalations.Rules.{agrees, IsAgreed, automatic-agrees}
use social_media_manager.Escalations.Steps.{Actors, Kept, Reach, Reach-All}

cleared-agrees :
    (state : ConversationState)
    → is_escalated (some state) ≡ false
    → agrees (some state) none none none ≡ true
unfolding agrees
cleared-agrees active h = refl
cleared-agrees escalated h = absurd (cc)
cleared-agrees blocked h = refl

mirrored-IsAgreed : (now : ℕ) (c : Customer) → IsAgreed c → IsAgreed (pause_externally now c)
unfolding pause_externally agrees
mirrored-IsAgreed now c h =
    elim (Bool-cases (is_escalated c.conversation_state && is_automatic c.escalation_source)) [
      | inl own ↦ rw own h
      | inr other ↦ rw other refl
    ]

IsAgreed-Kept : (who : Actors) → Kept who IsAgreed
unfolding agrees
IsAgreed-Kept who = record {
  by_assistant = λ id setting now c m h. automatic-agrees setting now;
  by_kommo_pause = λ id now c on m h. mirrored-IsAgreed now c h;
  by_kommo_resume = λ id c m h. refl;
  by_admin_pause = λ channel now c on h. refl;
  by_admin_clear = λ state channel c on cleared h. cleared-agrees state cleared;
  by_expiry = λ now c m h. refl;
}

-- Over every sequence of operations, of the assistant, Kommo, the scheduler and administrators: where the
-- columns of every row agree, they agree afterwards. A pause has its source and its time, only an automatic
-- pause has an expiry, which is from five minutes to seven days after it, and a row without a pause has none
-- of the three.
pub Reach-IsAgreed :
    (who : Actors) {s t : Contacts}
    → Reach who s t
    → All IsAgreed s.customers
    → All IsAgreed t.customers
Reach-IsAgreed who reach h = Reach-All who IsAgreed (IsAgreed-Kept who) reach h

-- Every row of the customer `o` is `o`.
abbrev pub IsStill : Customer → Customer → Type 0
IsStill o c = c.id ≡ o.id → c ≡ o

-- An update that a row's condition does not admit.
refused-IsStill :
    (o c : Customer) (f : Customer → Customer) (p : Customer → Bool)
    → p o ≡ false
    → p c ≡ true
    → (f c).id ≡ c.id
    → IsStill o c
    → IsStill o (f c)
refused-IsStill o c f p shut meets same still e =
    let shut_c = subst (λ d. p d ≡ false) (sym (still (sym same ∙ e))) shut in absurd (cc)

mirrored-id : (now : ℕ) (c : Customer) → (pause_externally now c).id ≡ c.id
unfolding pause_externally
mirrored-id now c = ground arith

not_escalated :
    (state : Option ConversationState) → is_state_blocked state ≡ true → is_escalated state ≡ false
not_escalated none h = refl
not_escalated (some active) h = refl
not_escalated (some escalated) h = absurd (cc)
not_escalated (some blocked) h = refl

abbrev pub nobody : Actors
nobody = record { mirrors = false; admins = false }

abbrev pub mirror : Actors
mirror = record { mirrors = true; admins = false }

blocked-not_expired : (o : Customer) (now : ℕ) → is_blocked_row o ≡ true → is_expired now o ≡ false
blocked-not_expired o now shut = ground (arith, not_escalated o.conversation_state)

blocked-Kept : (o : Customer) → is_blocked_row o ≡ true → Kept mirror (IsStill o)
blocked-Kept o shut = record {
  by_assistant = λ id setting now c m k.
      refused-IsStill o c (pause automatic now (automatic_expiration_from_settings setting now))
        (may_escalate id) (ground (arith, shut)) m refl k;
  by_kommo_pause = λ id now c on m k.
      refused-IsStill o c (pause_externally now) (is_open id) (ground (arith, shut)) m
        (mirrored-id now c) k;
  by_kommo_resume = λ id c m k.
      refused-IsStill o c (clear active) (may_resume id) (ground (arith, shut)) m refl k;
  by_admin_pause = λ channel now c on k. absurd (cc);
  by_admin_clear = λ state channel c on cleared k. absurd (cc);
  by_expiry = λ now c m k.
      refused-IsStill o c (clear active) (is_expired now) (blocked-not_expired o now shut) m refl k;
}

abbrev pub is_manual : Option EscalationSource → Bool
is_manual (some manual) = true
is_manual _ = false

manual-apart :
    (source : Option EscalationSource)
    → is_manual source ≡ true
    → (is_automatic source ≡ false) × (is_external source ≡ false)
manual-apart none h = (refl, refl)
manual-apart (some automatic) h = absurd (cc)
manual-apart (some manual) h = (refl, refl)
manual-apart (some external) h = absurd (cc)

abbrev pub is_manual_row : Customer → Bool
is_manual_row c = is_escalated c.conversation_state && is_manual c.escalation_source

manual-Kept : (o : Customer) → is_manual_row o ≡ true → Kept nobody (IsStill o)
manual-Kept o held = record {
  by_assistant = λ id setting now c m k.
      refused-IsStill o c (pause automatic now (automatic_expiration_from_settings setting now))
        (may_escalate id) (ground (arith, held, manual-apart o.escalation_source)) m refl k;
  by_kommo_pause = λ id now c on m k. absurd (cc);
  by_kommo_resume = λ id c m k.
      refused-IsStill o c (clear active) (may_resume id)
        (ground (arith, held, manual-apart o.escalation_source)) m refl k;
  by_admin_pause = λ channel now c on k. absurd (cc);
  by_admin_clear = λ state channel c on cleared k. absurd (cc);
  by_expiry = λ now c m k.
      refused-IsStill o c (clear active) (is_expired now)
        (ground (arith, held, manual-apart o.escalation_source)) m refl k;
}

-- Over every sequence of operations of the assistant, the scheduler and Kommo, none of an administrator: the
-- row of a blocked customer stays as it is.
pub Reach-blocked-IsStill :
    (o : Customer) {s t : Contacts}
    → is_blocked_row o ≡ true
    → Reach mirror s t
    → All (IsStill o) s.customers
    → All (IsStill o) t.customers
Reach-blocked-IsStill o shut reach h = Reach-All mirror (IsStill o) (blocked-Kept o shut) reach h

-- Over every sequence of operations of the assistant, the scheduler and Kommo, except that Kommo mirrors no
-- pause: the row of a customer whom an administrator has paused stays as it is.
pub Reach-manual-IsStill :
    (o : Customer) {s t : Contacts}
    → is_manual_row o ≡ true
    → Reach nobody s t
    → All (IsStill o) s.customers
    → All (IsStill o) t.customers
Reach-manual-IsStill o held reach h = Reach-All nobody (IsStill o) (manual-Kept o held) reach h

mirrored-external :
    (now : ℕ) (c : Customer)
    → is_automatic c.escalation_source ≡ false
    → pause_externally now c ≡ pause external now none c
unfolding pause_externally
mirrored-external now c h = ground (arith, h)

-- A customer whom an administrator has paused and who is not blocked: once Kommo has mirrored a pause of its
-- own, an active state that Kommo mirrors resumes the assistant.
pub mirrored_pause-resumes :
    (id : String) (now : ℕ) (s : Contacts) (c : Customer)
    → find? (has_id id) s.customers ≡ some c
    → is_manual_row c ≡ true
    → is_blocked_row c ≡ false
    → find? (has_id id) (mark_external_active id (mark_external_escalation id now s).1).1.customers
      ≡ some (clear active c)
unfolding mark_external_active mark_external_escalation update_where
mirrored_pause-resumes id now s c found held unblocked =
    let named : has_id id c ≡ true = find?-meets (has_id id) s.customers c found in
    let paused : Customer = pause external now none c in
    let same : pause_externally now c ≡ paused =
      mirrored-external now c (ground (arith, held, manual-apart c.escalation_source)) in
    let mirrored : find? (has_id id) (update_first (is_open id) (pause_externally now) s.customers)
        ≡ some paused =
      find-updated (has_id id) (is_open id) (pause_externally now) s.customers c
        (λ d m. ground arith) found (ground (arith, named, unblocked)) (rw same named)
      ∙ ap some same in
    find-updated (has_id id) (may_resume id) (clear active)
      (update_first (is_open id) (pause_externally now) s.customers) paused (λ d m. ground arith)
      mirrored (ground (arith, named, held, unblocked)) named

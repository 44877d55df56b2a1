-- ===== src/Escalations/Steps.antt =====
-- The updates as steps, in whatever order the assistant, Kommo, the scheduler and administrators take them.
use social_media_manager.Prelude.{
  ℕ, String, ◌≡◌, refl, Bool, true, false, Option, none, some, List, [], ◌∷◌, ◌==◌, find?, All,
  arith, Bool-cases, Option-cases, inl, inr,
}
use social_media_manager.Prelude.Int.{ℤ}
use social_media_manager.Prelude.Result.{Result, ok, err}
use social_media_manager.Prelude.Rows.{update_first}
use social_media_manager.Escalations.Contacts.{
  ConversationState, active, blocked, automatic, Customer, Contacts, is_escalated, update_where,
  automatic_expiration_from_settings,
}
use social_media_manager.Escalations.Pauses.{
  pause, clear, clear_for_admin, may_escalate, has_id, pause_manually, is_open, pause_externally,
  may_resume, reset_updated, escalate_customer_automatically, escalate_customer_manually,
  mark_external_escalation, mark_external_active, mark_customer_active_for_admin,
  mark_customer_blocked,
}
use social_media_manager.Escalations.Expiry.{
  Provider, ProviderError, refused, crashed, Subject, row, key, quick_skip_reason, is_expired,
  is_still_expired, with_provider, conclude, reactivate_expired_locked, reactivate_by_id,
  reactivate_if_expired,
}
use social_media_manager.Escalations.Batch.{
  reactivate_each, process_expired_automatic_escalations, selected,
}

update_first-All :
    {P : Customer → Type 0} (p : Customer → Bool) (f : Customer → Customer) (cs : List Customer)
    → ((c : Customer) → p c ≡ true → P c → P (f c))
    → All P cs
    → All P (update_first p f cs)
unfolding update_first
update_first-All p f [] step h = h
update_first-All p f (c ∷ cs) step (h, hs) = elim (Bool-cases (p c)) [
  | inl meets ↦ rw meets (step c meets h, hs)
  | inr misses ↦ rw misses (h, update_first-All p f cs step hs)
]

-- Whether Kommo mirrors pauses, and whether administrators act.
pub record Actors : Type 0 where
  pub mirrors : Bool
  pub admins : Bool

-- What every row keeps: each update of these actors keeps it where its condition holds.
pub record Kept (who : Actors) (P : Customer → Type 0) : Type 0 where
  pub by_assistant :
      (id : String) (setting : Option ℤ) (now : ℕ) (c : Customer)
      → may_escalate id c ≡ true
      → P c
      → P (pause automatic now (automatic_expiration_from_settings setting now) c)
  pub by_kommo_pause :
      (id : String) (now : ℕ) (c : Customer)
      → who.mirrors ≡ true
      → is_open id c ≡ true
      → P c
      → P (pause_externally now c)
  pub by_kommo_resume :
      (id : String) (c : Customer) → may_resume id c ≡ true → P c → P (clear active c)
  pub by_admin_pause :
      (channel : Option String) (now : ℕ) (c : Customer)
      → who.admins ≡ true
      → P c
      → P (pause_manually channel now c)
  pub by_admin_clear :
      (state : ConversationState) (channel : Option String) (c : Customer)
      → who.admins ≡ true
      → is_escalated (some state) ≡ false
      → P c
      → P (clear_for_admin state channel c)
  pub by_expiry : (now : ℕ) (c : Customer) → is_expired now c ≡ true → P c → P (clear active c)

-- One operation of one of the actors. The scheduler and the assistant end what has expired.
pub data Step (who : Actors) : Contacts → Contacts → Type 0 where
  escalate :
      (id : String) (setting : Option ℤ) (now : ℕ) (s : Contacts)
      → Step who s (escalate_customer_automatically id setting now s).1
  pause_mirrored :
      (id : String) (now : ℕ) (s : Contacts)
      → who.mirrors ≡ true
      → Step who s (mark_external_escalation id now s).1
  resume_mirrored : (id : String) (s : Contacts) → Step who s (mark_external_active id s).1
  pause_by_admin :
      (id : String) (channel : Option String) (now : ℕ) (s : Contacts)
      → who.admins ≡ true
      → Step who s (escalate_customer_manually id channel now s).1
  resume_by_admin :
      (id : String) (channel : Option String) (s : Contacts)
      → who.admins ≡ true
      → Step who s (mark_customer_active_for_admin id channel s).1
  block_by_admin :
      (id : String) (channel : Option String) (s : Contacts)
      → who.admins ≡ true
      → Step who s (mark_customer_blocked id channel s).1
  look :
      (provider : String → Result ProviderError Provider) (subject : Subject) (now : ℕ)
      (s : Contacts)
      → Step who s (reactivate_if_expired provider subject now s).1
  sweep :
      (provider : String → Result ProviderError Provider) (limit : ℤ) (now : ℕ)
      (locked : Customer → Bool) (s : Contacts)
      → Step who s (process_expired_automatic_escalations provider limit now locked s).1

pub data Reach (who : Actors) (s : Contacts) : Contacts → Type 0 where
  here : Reach who s s
  next : {t u : Contacts} → Reach who s t → Step who t u → Reach who s u

-- A property of all rows, kept by every update of the automatic parts.
module _ (who : Actors) (P : Customer → Type 0) (kept : Kept who P) where
  update-All :
      (p : Customer → Bool) (f : Customer → Customer) (s : Contacts)
      → ((c : Customer) → p c ≡ true → P c → P (f c))
      → All P s.customers
      → All P (update_where p f s).1.customers
  unfolding update_where
  update-All p f s step h = update_first-All p f s.customers step h

  conclude-customers :
      (c : Customer) (provider : Provider) (r : Option Customer × Contacts)
      → (conclude c provider r).1.customers ≡ r.1.customers
  conclude-customers c provider (none, s) = refl
  conclude-customers c provider (some d, s) = refl

  with_provider-All :
      (c : Customer) (now : ℕ) (answer : Result ProviderError Provider) (s : Contacts)
      → All P s.customers
      → All P (with_provider c now answer s).1.customers
  with_provider-All c now (err (refused code)) s h = h
  with_provider-All c now (err crashed) s h = h
  with_provider-All c now (ok provider) s h =
      rw (conclude-customers c provider (update_where (is_still_expired c now) (clear active) s)) (
        update-All (is_still_expired c now) (clear active) s
          (λ d m k. kept.by_expiry now d (ground arith) k) h)

  reactivate-All :
      (provider : String → Result ProviderError Provider) (c : Customer) (now : ℕ) (s : Contacts)
      → All P s.customers
      → All P (reactivate_expired_locked provider c now s).1.customers
  unfolding reactivate_expired_locked
  reactivate-All provider c now s h = elim (Option-cases (quick_skip_reason c now)) [
    | inl due ↦ rw (due, reactivate_expired_locked) (with_provider-All c now (provider c.id) s h)
    | inr (reason, early) ↦ rw (early, reactivate_expired_locked) h
  ]

  by_id-All :
      (provider : String → Result ProviderError Provider) (id : String) (now : ℕ) (s : Contacts)
      → All P s.customers
      → All P (reactivate_by_id provider id now s).1.customers
  by_id-All provider id now s h = elim (Option-cases (find? (has_id id) s.customers)) [
    | inl absent ↦ rw (absent, reactivate_by_id) h
    | inr (c, found) ↦ rw (found, reactivate_by_id) (reactivate-All provider c now s h)
  ]

  if_expired-All :
      (provider : String → Result ProviderError Provider) (who : Subject) (now : ℕ) (s : Contacts)
      → All P s.customers
      → All P (reactivate_if_expired provider who now s).1.customers
  unfolding reactivate_if_expired
  if_expired-All provider (key id) now s h = elim (Bool-cases (id == "")) [
    | inl unnamed ↦ rw unnamed h
    | inr named ↦ rw named (by_id-All provider id now s h)
  ]
  if_expired-All provider (row c) now s h = elim (Bool-cases (c.id == "")) [
    | inl unnamed ↦ rw unnamed h
    | inr named ↦ elim (Option-cases (quick_skip_reason c now)) [
      | inl due ↦ rw (named, due) (by_id-All provider c.id now s h)
      | inr (reason, early) ↦ rw (named, early) h
    ]
  ]

  each-All :
      (provider : String → Result ProviderError Provider) (rows : List Customer) (now : ℕ)
      (s : Contacts)
      → All P s.customers
      → All P (reactivate_each provider rows now s).1.customers
  unfolding reactivate_each
  each-All provider [] now s h = h
  each-All provider (c ∷ cs) now s h =
      each-All provider cs now (reactivate_expired_locked provider c now s).1
        (reactivate-All provider c now s h)

  reset-customers :
      (id : String) (r : Option Customer × Contacts)
      → (reset_updated id r).1.customers ≡ r.1.customers
  reset-customers id (none, s) = refl
  reset-customers id (some c, s) = refl

  Step-All : {s t : Contacts} → Step who s t → All P s.customers → All P t.customers
  unfolding escalate_customer_automatically mark_external_escalation mark_external_active
      escalate_customer_manually mark_customer_active_for_admin mark_customer_blocked
      process_expired_automatic_escalations
  Step-All (escalate id setting now s) h =
      update-All (may_escalate id) _ s (λ c m k. kept.by_assistant id setting now c m k) h
  Step-All (pause_mirrored id now s on) h =
      update-All (is_open id) (pause_externally now) s
        (λ c m k. kept.by_kommo_pause id now c on m k) h
  Step-All (resume_mirrored id s) h =
      update-All (may_resume id) (clear active) s (λ c m k. kept.by_kommo_resume id c m k) h
  Step-All (pause_by_admin id channel now s on) h =
      update-All (has_id id) (pause_manually channel now) s
        (λ c m k. kept.by_admin_pause channel now c on k) h
  Step-All (resume_by_admin id channel s on) h =
      rw (reset-customers id (update_where (has_id id) (clear_for_admin active channel) s)) (
        update-All (has_id id) (clear_for_admin active channel) s
          (λ c m k. kept.by_admin_clear active channel c on refl k) h)
  Step-All (block_by_admin id channel s on) h =
      update-All (has_id id) (clear_for_admin blocked channel) s
        (λ c m k. kept.by_admin_clear blocked channel c on refl k) h
  Step-All (look provider subject now s) h = if_expired-All provider subject now s h
  Step-All (sweep provider limit now locked s) h =
      each-All provider (selected limit now locked s) now s h

  pub Reach-All : {s t : Contacts} → Reach who s t → All P s.customers → All P t.customers
  Reach-All here h = h
  Reach-All (next reach step) h = Step-All step (Reach-All reach h)

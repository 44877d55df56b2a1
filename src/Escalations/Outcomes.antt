-- ===== src/Escalations/Outcomes.antt =====
-- How expired pauses end.
use social_media_manager.Prelude.{
  ℕ, zero, suc, ◌+◌, ◌≤◌, String, ◌≡◌, refl, ap, ◌∙◌, Bool, true, false, not, ◌&&◌, Option, none,
  some, List, [], ◌∷◌, min, length, find?, filter, take, arith, eq_refl, ◌⊎◌, inl, inr,
}
use social_media_manager.Prelude.Int.{ℤ, pos, negsuc}
use social_media_manager.Prelude.Result.{Result, ok}
use social_media_manager.Prelude.Rows.{find-updated, find-narrower}
use social_media_manager.Escalations.Contacts.{
  ConversationState, active, escalated, blocked, Customer, Contacts, is_escalated, is_state_blocked,
  update_where,
}
use social_media_manager.Escalations.Pauses.{clear, has_id}
use social_media_manager.Escalations.Expiry.{
  ReactivationStatus, reactivated, failed, skipped, ReactivationResult, Reason, expired, Provider,
  ProviderError, passed, quick_skip_reason, is_due_at, is_expired, equal_time, same_time,
  is_still_expired, answer, reactivate_expired_locked,
}
use social_media_manager.Escalations.Batch.{
  insert_by_expiry, sort_by_expiry, reactivate_each, is_reactivated, is_failed, is_skipped,
  clamp_limit, selected, process_expired_automatic_escalations,
}

unfoldable pub is_nothing : Option Reason → Bool
is_nothing none = true
is_nothing (some r) = false

escalated_not_blocked :
    (state : Option ConversationState) → is_escalated state ≡ true → is_state_blocked state ≡ false
escalated_not_blocked none h = refl
escalated_not_blocked (some active) h = refl
escalated_not_blocked (some escalated) h = refl
escalated_not_blocked (some blocked) h = absurd (cc)

passed-due :
    (now : ℕ) (expires : Option ℕ) → is_nothing (passed now expires) ≡ is_due_at now expires
unfolding is_nothing
passed-due now none = refl
passed-due now (some t) = ground arith

-- The check in Python finds no reason to skip a customer exactly when the row meets the condition of the
-- batch's query.
pub quick_skip_reason-expired :
    (c : Customer) (now : ℕ) → is_nothing (quick_skip_reason c now) ≡ is_expired now c
unfolding quick_skip_reason is_nothing
quick_skip_reason-expired c now =
    ground
      (arith, escalated_not_blocked c.conversation_state, passed-due now c.escalation_expires_at)

no_reason : (o : Option Reason) → is_nothing o ≡ true → o ≡ none
unfolding is_nothing
no_reason none h = refl
no_reason (some r) h = absurd (cc)

same_time_refl : (t : Option ℕ) → same_time t t ≡ true
same_time_refl none = refl
same_time_refl (some n) = ground arith

equal_time_refl : (now : ℕ) (t : Option ℕ) → is_due_at now t ≡ true → equal_time t t ≡ true
equal_time_refl now none h = absurd (cc)
equal_time_refl now (some n) h = ground arith

still_expired : (now : ℕ) (c : Customer) → is_expired now c ≡ true → is_still_expired c now c ≡ true
still_expired now c h = ground (
  arith,
  eq_refl c.id,
  same_time_refl c.escalated_at,
  equal_time_refl now c.escalation_expires_at,
  h,
)

-- A customer's row that is locked, whose automatic pause has expired, and whose provider confirms: the pause
-- ends, the answer says so, the row is active without the columns of a pause, and the history is reset once.
-- The row that was read cannot be stale.
pub reactivate_expired_locked-resumes :
    (provider : String → Result ProviderError Provider) (c : Customer) (now : ℕ) (s : Contacts)
    (confirmed : Provider)
    → find? (has_id c.id) s.customers ≡ some c
    → is_expired now c ≡ true
    → provider c.id ≡ ok confirmed
    → let (result, after) = reactivate_expired_locked provider c now s in
      (result ≡ ok (answer c.id reactivated expired confirmed))
      × (find? (has_id c.id) after.customers ≡ some (clear active c))
      × (after.resets ≡ c.id ∷ s.resets)
unfolding reactivate_expired_locked update_where
reactivate_expired_locked-resumes provider c now s confirmed found due sure =
    let no_skip = no_reason (quick_skip_reason c now) (quick_skip_reason-expired c now ∙ due) in
    let test = is_still_expired c now in
    let admits = still_expired now c due in
    let seen : find? test s.customers ≡ some c =
      find-narrower (has_id c.id) test s.customers c (λ d m. ground arith) found admits in
    let cleared =
      find-updated (has_id c.id) test (clear active) s.customers c (λ d m. ground arith) found
        admits (eq_refl c.id) in
    rw (no_skip, reactivate_expired_locked)
      (rw sure (rw (seen, update_where) (refl, cleared, refl)))

length-insert :
    (c : Customer) (cs : List Customer) → length (insert_by_expiry c cs) ≡ suc (length cs)
unfolding insert_by_expiry
length-insert c [] = refl
length-insert c (d ∷ ds) = ground (arith, length-insert c ds)

length-sort_by_expiry : (cs : List Customer) → length (sort_by_expiry cs) ≡ length cs
unfolding sort_by_expiry
length-sort_by_expiry [] = refl
length-sort_by_expiry (c ∷ cs) =
    omega (arith, length-insert c (sort_by_expiry cs), length-sort_by_expiry cs)

length-take : (n : ℕ) (cs : List Customer) → length (take n cs) ≡ min n (length cs)
length-take zero cs = omega arith
length-take (suc n) [] = omega arith
length-take (suc n) (c ∷ cs) = omega (arith, length-take n cs)

length-reactivate_each :
    (provider : String → Result ProviderError Provider) (rows : List Customer) (now : ℕ)
    (s : Contacts)
    → length (reactivate_each provider rows now s).0 ≡ length rows
unfolding reactivate_each
length-reactivate_each provider [] now s = refl
length-reactivate_each provider (c ∷ cs) now s =
    omega
      (arith, length-reactivate_each provider cs now (reactivate_expired_locked provider c now s).1)

status-cases :
    (st : ReactivationStatus)
    → ((is_reactivated st ≡ true) × (is_failed st ≡ false) × (is_skipped st ≡ false))
      ⊎ (((is_reactivated st ≡ false) × (is_failed st ≡ true) × (is_skipped st ≡ false))
          ⊎ ((is_reactivated st ≡ false) × (is_failed st ≡ false) × (is_skipped st ≡ true)))
status-cases reactivated = inl (refl, refl, refl)
status-cases failed = inr (inl (refl, refl, refl))
status-cases skipped = inr (inr (refl, refl, refl))

one_status :
    (r : ReactivationResult) (rs : List ReactivationResult)
    → length (filter (λ x. is_reactivated x.status) rs)
        + length (filter (λ x. is_failed x.status) rs)
        + length (filter (λ x. is_skipped x.status) rs)
      ≡ length rs
    → length (filter (λ x. is_reactivated x.status) (r ∷ rs))
        + length (filter (λ x. is_failed x.status) (r ∷ rs))
        + length (filter (λ x. is_skipped x.status) (r ∷ rs))
      ≡ suc (length rs)
one_status r rs h = ground (arith, h, status-cases r.status)

statuses :
    (rs : List ReactivationResult)
    → length (filter (λ x. is_reactivated x.status) rs)
        + length (filter (λ x. is_failed x.status) rs)
        + length (filter (λ x. is_skipped x.status) rs)
      ≡ length rs
statuses [] = omega arith
statuses (r ∷ rs) = one_status r rs (statuses rs)

clamp-bounds : (limit : ℤ) → (1 ≤ clamp_limit limit) × (clamp_limit limit ≤ 100)
clamp-bounds (negsuc n) = (omega arith, omega arith)
clamp-bounds (pos n) = ground arith

-- One run of the batch checks as many customers as have an expired automatic pause and are not locked, up to
-- the limit, which is from 1 to 100; each of them is counted once, as resumed, failed or skipped.
pub process_expired-checks :
    (provider : String → Result ProviderError Provider) (limit : ℤ) (now : ℕ)
    (locked : Customer → Bool) (s : Contacts)
    → let done = (process_expired_automatic_escalations provider limit now locked s).0 in
      (done.checked
        ≡ min
            (clamp_limit limit)
            (length (filter (λ c. is_expired now c && not (locked c)) s.customers)))
      × (1 ≤ clamp_limit limit)
      × (clamp_limit limit ≤ 100)
      × (done.reactivated_count + done.failed_count + done.skipped_count ≡ done.checked)
unfolding process_expired_automatic_escalations
process_expired-checks provider limit now locked s =
    let found = filter (λ c. is_expired now c && not (locked c)) s.customers in
    let rows = selected limit now locked s in
    (
      length-reactivate_each provider rows now s
          ∙ length-take (clamp_limit limit) (sort_by_expiry found)
          ∙ ap (λ n. min (clamp_limit limit) n) (length-sort_by_expiry found),
      (clamp-bounds limit).0,
      (clamp-bounds limit).1,
      statuses (reactivate_each provider rows now s).0,
    )

-- ===== src/Escalations/Tests.antt =====
-- Runs of the pauses.
use social_media_manager.Prelude.{
  ◌+◌, ◌≤◌, String, ◌≡◌, refl, Bool, true, false, none, some, [], ◌∷◌, All, find?, eq_iff, arith,
}
use social_media_manager.Prelude.Int.{pos}
use social_media_manager.Prelude.Result.{Result, ok}
use social_media_manager.Escalations.Contacts.{
  active, escalated, blocked, automatic, manual, Customer, Contacts,
}
use social_media_manager.Escalations.Pauses.{
  clear, has_id, escalate_customer_automatically, mark_external_escalation, mark_external_active,
}
use social_media_manager.Escalations.Expiry.{
  Provider, meta, ProviderError, reactivated, expired, answer, quick_skip_reason,
  reactivate_expired_locked,
}
use social_media_manager.Escalations.Batch.{clamp_limit, process_expired_automatic_escalations}
use social_media_manager.Escalations.Rules.{agrees, IsAgreed}
use social_media_manager.Escalations.Steps.{here, next, escalate, resume_mirrored, sweep}
use social_media_manager.Escalations.Guards.{
  IsStill, mirror, Reach-IsAgreed, Reach-blocked-IsStill, Reach-manual-IsStill,
  mirrored_pause-resumes,
}
use social_media_manager.Escalations.Outcomes.{
  is_nothing, quick_skip_reason-expired, reactivate_expired_locked-resumes, process_expired-checks,
}

abbrev maria : Customer
maria = record {
  id = "c-1";
  channel = some "whatsapp";
  conversation_state = some escalated;
  escalation_source = some automatic;
  escalated_at = some 1000;
  escalation_expires_at = some 11800;
  is_blocked = some false;
}

abbrev jose : Customer
jose = record maria { id = "c-2"; escalation_source = some manual; escalation_expires_at = none }

abbrev luis : Customer
luis = record {
  id = "c-3";
  channel = none;
  conversation_state = some blocked;
  escalation_source = none;
  escalated_at = none;
  escalation_expires_at = none;
  is_blocked = none;
}

abbrev three : Contacts
three = record { customers = maria ∷ jose ∷ luis ∷ []; resets = [] }

abbrev confirms : String → Result ProviderError Provider
confirms id = ok meta

abbrev unlocked : Customer → Bool
unlocked c = false

abbrev swept : Contacts
swept = (process_expired_automatic_escalations confirms (pos 10) 20000 unlocked three).1

abbrev escalated_again : Contacts
escalated_again = (escalate_customer_automatically "c-3" none 20010 swept).1

three-IsAgreed : All IsAgreed three.customers
unfolding agrees
three-IsAgreed = (refl, (refl, (refl, tt)))

Reach-IsAgreed_example : All IsAgreed escalated_again.customers
Reach-IsAgreed_example =
    Reach-IsAgreed mirror
      (next (next here (sweep confirms (pos 10) 20000 unlocked three))
        (escalate "c-3" none 20010 swept))
      three-IsAgreed

luis-IsStill : All (IsStill luis) three.customers
luis-IsStill = (
  λ e. absurd (ground (arith, eq_iff "c-1" "c-3", e)),
  (λ e. absurd (ground (arith, eq_iff "c-2" "c-3", e)), (λ e. refl, tt)),
)

Reach-blocked-IsStill_example : All (IsStill luis) escalated_again.customers
Reach-blocked-IsStill_example =
    Reach-blocked-IsStill luis refl
      (next (next here (sweep confirms (pos 10) 20000 unlocked three))
        (escalate "c-3" none 20010 swept))
      luis-IsStill

jose-IsStill : All (IsStill jose) three.customers
jose-IsStill = (
  λ e. absurd (ground (arith, eq_iff "c-1" "c-2", e)),
  (λ e. refl, (λ e. absurd (ground (arith, eq_iff "c-3" "c-2", e)), tt)),
)

Reach-manual-IsStill_example : All (IsStill jose) (mark_external_active "c-2" three).1.customers
Reach-manual-IsStill_example =
    Reach-manual-IsStill jose refl (next here (resume_mirrored "c-2" three)) jose-IsStill

mirrored_pause-resumes_example :
    find?
      (has_id "c-2")
      (mark_external_active "c-2" (mark_external_escalation "c-2" 20000 three).1).1.customers
    ≡ some (clear active jose)
mirrored_pause-resumes_example = mirrored_pause-resumes "c-2" 20000 three jose refl refl refl

quick_skip_reason-expired_example : is_nothing (quick_skip_reason maria 20000) ≡ true
quick_skip_reason-expired_example = quick_skip_reason-expired maria 20000

reactivate_expired_locked-resumes_example :
    let (result, after) = reactivate_expired_locked confirms maria 20000 three in
    (result ≡ ok (answer "c-1" reactivated expired meta))
    × (find? (has_id "c-1") after.customers ≡ some (clear active maria))
    × (after.resets ≡ "c-1" ∷ [])
reactivate_expired_locked-resumes_example =
    reactivate_expired_locked-resumes confirms maria 20000 three meta refl refl refl

process_expired-checks_example :
    let done = (process_expired_automatic_escalations confirms (pos 10) 20000 unlocked three).0 in
    (done.checked ≡ 1)
    × (1 ≤ clamp_limit (pos 10))
    × (clamp_limit (pos 10) ≤ 100)
    × (done.reactivated_count + done.failed_count + done.skipped_count ≡ done.checked)
process_expired-checks_example = process_expired-checks confirms (pos 10) 20000 unlocked three

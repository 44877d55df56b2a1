-- ===== src/Escalations/Batch.antt =====
-- `process_expired_automatic_escalations`.
use social_media_manager.Prelude.{
  ℕ, String, Bool, true, false, not, ◌&&◌, none, some, List, [], ◌∷◌, leb, filter, take, min,
  length, if◌then◌else◌,
}
use social_media_manager.Prelude.Int.{ℤ, pos, negsuc}
use social_media_manager.Prelude.Result.{Result, ok, err}
use social_media_manager.Escalations.Contacts.{Customer, Contacts}
use social_media_manager.Escalations.Expiry.{
  answer, ReactivationStatus, reactivated, failed, skipped, unexpected_error, meta,
  ReactivationResult, Provider, ProviderError, is_expired, reactivate_expired_locked,
}

abbrev expiry : Customer → ℕ
expiry c = elim c.escalation_expires_at [ none ↦ 0 | some t ↦ t ]

unfoldable pub insert_by_expiry : Customer → List Customer → List Customer
insert_by_expiry c [] = c ∷ []
insert_by_expiry c (d ∷ ds) =
    if leb (expiry c) (expiry d) then c ∷ d ∷ ds else d ∷ insert_by_expiry c ds

-- `ORDER BY escalation_expires_at ASC`
unfoldable pub sort_by_expiry : List Customer → List Customer
unfolding insert_by_expiry
sort_by_expiry [] = []
sort_by_expiry (c ∷ cs) = insert_by_expiry c (sort_by_expiry cs)

-- An error other than the provider's own is answered by `failed`.
abbrev pub caught : Customer → Result ProviderError ReactivationResult → ReactivationResult
caught c (ok r) = r
caught c (err e) = answer c.id failed unexpected_error meta

unfoldable pub reactivate_each :
    (String → Result ProviderError Provider)
    → List Customer
    → ℕ
    → Contacts
    → List ReactivationResult × Contacts
unfolding reactivate_expired_locked
reactivate_each provider [] now s = ([], s)
reactivate_each provider (c ∷ cs) now s =
    let (r, s') = reactivate_expired_locked provider c now s in
    let (rs, s'') = reactivate_each provider cs now s' in (caught c r ∷ rs, s'')

abbrev pub is_reactivated : ReactivationStatus → Bool
is_reactivated reactivated = true
is_reactivated _ = false

abbrev pub is_failed : ReactivationStatus → Bool
is_failed failed = true
is_failed _ = false

abbrev pub is_skipped : ReactivationStatus → Bool
is_skipped skipped = true
is_skipped _ = false

pub record Summary : Type 0 where
  pub checked : ℕ
  pub reactivated_count : ℕ
  pub failed_count : ℕ
  pub skipped_count : ℕ
  pub results : List ReactivationResult

-- `max(1, min(int(limit or 10), 100))`
abbrev pub clamp_limit : ℤ → ℕ
clamp_limit (negsuc n) = 1
clamp_limit (pos n) = if leb n 0 then 10 else min n 100

abbrev pub summary : List ReactivationResult → Summary
summary results = record {
  checked = length results;
  reactivated_count = length (filter (λ r. is_reactivated r.status) results);
  failed_count = length (filter (λ r. is_failed r.status) results);
  skipped_count = length (filter (λ r. is_skipped r.status) results);
  results = results;
}

-- The rows of the batch; rows that other transactions have locked are skipped.
abbrev pub selected : ℤ → ℕ → (Customer → Bool) → Contacts → List Customer
selected limit now locked s =
    take (clamp_limit limit)
      (sort_by_expiry (filter (λ c. is_expired now c && not (locked c)) s.customers))

unfoldable pub process_expired_automatic_escalations :
    (String → Result ProviderError Provider)
    → ℤ
    → ℕ
    → (Customer → Bool)
    → Contacts
    → Summary × Contacts
unfolding reactivate_each sort_by_expiry
process_expired_automatic_escalations provider limit now locked s =
    let (results, s') = reactivate_each provider (selected limit now locked s) now s in
    (summary results, s')

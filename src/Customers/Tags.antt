-- ===== src/Customers/Tags.antt =====
-- `_dedupe_preserve_order` and the tier tags of `sync_purchase_tier_tags` in
-- `store/app/crm/customers.py`, from tags that are normalised already. Amounts are whole cents.
use social_media_manager.Prelude.{
  ℕ, String, ◌≡◌, refl, Bool, not, ◌&&◌, ◌||◌, List, [], ◌∷◌, ◌++◌, leb, filter, if◌then◌else◌,
  eq_iff, arith,
}
use social_media_manager.Prelude.Text.{contains}

-- `_dedupe_preserve_order`, from the tags that were seen
unfoldable pub dedupe_from : List String → List String → List String
dedupe_from seen [] = []
dedupe_from seen (t ∷ ts) =
    let fresh = t ∷ dedupe_from (t ∷ seen) ts in
    let rest = dedupe_from seen ts in if contains seen t then rest else fresh

-- The tags that the totals call for, in the order in which they are appended.
unfoldable pub desired_tier_tags : ℕ → ℕ → List String
desired_tier_tags total_orders total_spent =
    (if leb 2 total_orders then "repeat_buyer" ∷ [] else [])
    ++ (if leb 3 total_orders || leb 10000 total_spent then "vip" ∷ [] else [])

abbrev is_tier_tag : String → Bool
is_tier_tag tag = contains ("repeat_buyer" ∷ "vip" ∷ []) tag

-- `if tag in desired and tag not in updated: updated.append(tag)`
append_missing : List String → List String → List String
append_missing [] updated = updated
append_missing (tag ∷ desired) updated =
    append_missing desired (if contains updated tag then updated else updated ++ tag ∷ [])

-- `updated`, from the normalised tags
unfoldable pub reconcile_tier_tags : ℕ → ℕ → List String → List String
unfolding desired_tier_tags append_missing
reconcile_tier_tags total_orders total_spent existing =
    let desired = desired_tier_tags total_orders total_spent in
    append_missing desired (filter (λ tag. not (is_tier_tag tag) || contains desired tag) existing)

contains-append :
    (xs ys : List String) (t : String) → contains (xs ++ ys) t ≡ (contains xs t || contains ys t)
contains-append [] ys t = refl
contains-append (x ∷ xs) ys t = ground (arith, contains-append xs ys t)

contains-append_missing :
    (ds us : List String) (t : String)
    → contains (append_missing ds us) t ≡ (contains us t || contains ds t)
unfolding append_missing
contains-append_missing [] us t = ground arith
contains-append_missing (d ∷ ds) us t = ground (
  arith,
  contains-append_missing ds us t,
  contains-append_missing ds (us ++ d ∷ []) t,
  contains-append us (d ∷ []) t,
  eq_iff d t,
)

contains-filter :
    (p : String → Bool) (xs : List String) (t : String)
    → contains (filter p xs) t ≡ (contains xs t && p t)
contains-filter p [] t = refl
contains-filter p (x ∷ xs) t = ground (arith, contains-filter p xs t, eq_iff x t)

-- After reconciliation a tier tag is there exactly when the totals call for it, whatever was there
-- before, and every other tag is there exactly when it was before.
pub reconcile_tier_tags_lem :
    (total_orders total_spent : ℕ) (existing : List String) (t : String)
    → contains (reconcile_tier_tags total_orders total_spent existing) t ≡ (
        if is_tier_tag t
        then contains (desired_tier_tags total_orders total_spent) t
        else contains existing t)
unfolding reconcile_tier_tags
reconcile_tier_tags_lem total_orders total_spent existing t =
    rw
      (
        contains-append_missing (desired_tier_tags total_orders total_spent)
            (filter
              (λ tag.
                not (is_tier_tag tag) || contains (desired_tier_tags total_orders total_spent) tag)
              existing)
            t,
        contains-filter
            (λ tag.
              not (is_tier_tag tag) || contains (desired_tier_tags total_orders total_spent) tag)
            existing t,
      )
      (unfold desired_tier_tags in ground (arith, eq_iff "repeat_buyer" t, eq_iff "vip" t))

-- ===== src/Routing/Arguments.antt =====
-- `apply_tool_argument_policy` of `store/app/ai/policies/channel_capabilities.py`.
use social_media_manager.Prelude.{
  ◌≤◌, String, ◌≡◌, refl, sym, Bool, true, false, not, ◌&&◌, ◌||◌, Option, List, [], ◌∷◌, ◌==◌,
  filter, any, all, length, nat_eq, if◌then◌else◌, arith, Bool-cases, inl, inr, starts_with,
}
use social_media_manager.Prelude.Text.{strip, lower}
use social_media_manager.Routing.Channel.{normalize_channel, get_channel_capabilities}

-- A value of the `tags` list: a text, or something else that JSON has.
pub data TagValue : Type 0 where
  text : String → TagValue
  not_text : TagValue

-- The `tags` argument: a list, or anything else. The other arguments pass through.
pub data Tags : Type 0 where
  tag_list : List TagValue → Tags
  not_list : Tags

pub record ToolArgumentPolicyResult : Type 0 where
  pub tags : Tags
  pub rejected : Bool

-- The tag is a text that begins with a forbidden prefix.
abbrev pub is_forbidden_tag : List String → TagValue → Bool
is_forbidden_tag prefixes not_text = false
is_forbidden_tag prefixes (text t) = any (λ p. starts_with (lower (strip t)) p) prefixes

abbrev allowed_tags : List String → List TagValue → List TagValue
allowed_tags prefixes tags = filter (λ t. not (is_forbidden_tag prefixes t)) tags

abbrev pub is_empty : List TagValue → Bool
is_empty [] = true
is_empty (t ∷ ts) = false

abbrev has_prefixes : List String → Bool
has_prefixes [] = false
has_prefixes (p ∷ ps) = true

filter_tags : List String → List TagValue → ToolArgumentPolicyResult
filter_tags prefixes tags =
    let kept = allowed_tags prefixes tags in
    if nat_eq (length kept) (length tags)
    then record { tags = tag_list tags; rejected = false }
    else record { tags = tag_list kept; rejected = is_empty kept }

apply_to : List String → Tags → ToolArgumentPolicyResult
unfolding filter_tags
apply_to prefixes not_list = record { tags = not_list; rejected = false }
apply_to prefixes (tag_list tags) = filter_tags prefixes tags

unfoldable pub apply_tool_argument_policy : Option String → String → Tags → ToolArgumentPolicyResult
unfolding apply_to
apply_tool_argument_policy channel tool tags =
    let prefixes = (get_channel_capabilities channel).forbidden_customer_tag_prefixes in
    if not (tool == "tag_customer") || not (has_prefixes prefixes)
    then record { tags = tags; rejected = false }
    else apply_to prefixes tags

-- Every tag of the list may be given to a customer.
abbrev pub AllAllowed : List String → Tags → Type 0
AllAllowed prefixes not_list = Unit
AllAllowed prefixes (tag_list tags) = any (is_forbidden_tag prefixes) tags ≡ false

filter_shorter :
    (prefixes : List String) (tags : List TagValue)
    → length (allowed_tags prefixes tags) ≤ length tags
filter_shorter prefixes [] = omega arith
filter_shorter prefixes (t ∷ tags) = ground (arith, filter_shorter prefixes tags)

all_kept :
    (prefixes : List String) (tags : List TagValue)
    → length (allowed_tags prefixes tags) ≡ length tags
    → any (is_forbidden_tag prefixes) tags ≡ false
all_kept prefixes [] h = refl
all_kept prefixes (t ∷ tags) h =
    ground (arith, all_kept prefixes tags, filter_shorter prefixes tags)

kept_allowed :
    (prefixes : List String) (tags : List TagValue)
    → any (is_forbidden_tag prefixes) (allowed_tags prefixes tags) ≡ false
kept_allowed prefixes [] = refl
kept_allowed prefixes (t ∷ tags) = ground (arith, kept_allowed prefixes tags)

apply_to-AllAllowed :
    (prefixes : List String) (tags : Tags) → AllAllowed prefixes (apply_to prefixes tags).tags
unfolding apply_to filter_tags
apply_to-AllAllowed prefixes not_list = tt
apply_to-AllAllowed prefixes (tag_list tags) =
    elim (Bool-cases (nat_eq (length (allowed_tags prefixes tags)) (length tags))) [
      | inl same ↦ rw same (all_kept prefixes tags (ground (arith, same)))
      | inr fewer ↦ rw fewer (kept_allowed prefixes tags)
    ]

nothing_forbidden : (tags : Tags) → AllAllowed [] tags
nothing_forbidden not_list = tt
nothing_forbidden (tag_list []) = refl
nothing_forbidden (tag_list (text t ∷ tags)) = nothing_forbidden (tag_list tags)
nothing_forbidden (tag_list (not_text ∷ tags)) = nothing_forbidden (tag_list tags)

-- On a channel that forbids tag prefixes, no tag with one of them is left for the tool that tags a
-- customer; on any other channel nothing is forbidden.
pub tags_after_policy-AllAllowed :
    (channel : Option String) (tags : Tags)
    → AllAllowed
        (get_channel_capabilities channel).forbidden_customer_tag_prefixes
        (apply_tool_argument_policy channel "tag_customer" tags).tags
unfolding apply_tool_argument_policy get_channel_capabilities
tags_after_policy-AllAllowed channel tags =
    elim (Bool-cases (normalize_channel channel == "instagram")) [
      | inl instagram ↦
          rw (instagram, apply_tool_argument_policy) (apply_to-AllAllowed ("payment:" ∷ []) tags)
      | inr other ↦ rw (other, apply_tool_argument_policy) (nothing_forbidden tags)
    ]

rejected_all :
    (prefixes : List String) (tags : List TagValue)
    → is_empty (allowed_tags prefixes tags) ≡ all (is_forbidden_tag prefixes) tags
rejected_all prefixes [] = refl
rejected_all prefixes (t ∷ tags) = ground (arith, rejected_all prefixes tags)

empty_kept :
    (prefixes : List String) (tags : List TagValue)
    → length (allowed_tags prefixes tags) ≡ length tags
    → is_empty (allowed_tags prefixes tags) ≡ is_empty tags
empty_kept prefixes [] h = refl
empty_kept prefixes (t ∷ tags) h =
    ground (
      arith,
      all_kept prefixes (t ∷ tags) h,
      empty_kept prefixes tags,
      filter_shorter prefixes tags,
    )

empty-length : (tags : List TagValue) → is_empty tags ≡ nat_eq (length tags) 0
empty-length [] = refl
empty-length (t ∷ tags) = ground arith

filter_tags-rejected :
    (prefixes : List String) (tags : List TagValue)
    → (filter_tags prefixes tags).rejected
      ≡ (not (is_empty tags) && all (is_forbidden_tag prefixes) tags)
unfolding filter_tags
filter_tags-rejected prefixes tags = ground (
  arith,
  rejected_all prefixes tags,
  empty_kept prefixes tags,
  filter_shorter prefixes tags,
  empty-length tags,
  empty-length (allowed_tags prefixes tags),
)

no_prefix : (tags : List TagValue) → (not (is_empty tags) && all (is_forbidden_tag []) tags) ≡ false
no_prefix [] = refl
no_prefix (text t ∷ tags) = refl
no_prefix (not_text ∷ tags) = refl

-- A call that tags a customer is rejected exactly when it gives tags and the channel forbids every
-- one of them.
pub policy-rejected :
    (channel : Option String) (tags : List TagValue)
    → (apply_tool_argument_policy channel "tag_customer" (tag_list tags)).rejected ≡ (
        not (is_empty tags)
        && all
            (is_forbidden_tag (get_channel_capabilities channel).forbidden_customer_tag_prefixes)
            tags)
unfolding apply_tool_argument_policy get_channel_capabilities apply_to
policy-rejected channel tags = elim (Bool-cases (normalize_channel channel == "instagram")) [
  | inl instagram ↦
      rw (instagram, apply_tool_argument_policy) (filter_tags-rejected ("payment:" ∷ []) tags)
  | inr other ↦ rw (other, apply_tool_argument_policy) (sym (no_prefix tags))
]

-- ===== src/Routing/Decide.antt =====
-- `decide_route` of `store/app/ai/routing.py`. Confidence is in hundredths. The text `reason`, which
-- explains a decision to people, is left out.
use social_media_manager.Prelude.{
  ℕ, String, ◌≡◌, Bool, true, false, not, ◌&&◌, ◌||◌, Option, none, some, List, [], ◌∷◌, ◌==◌,
  if◌then◌else◌, arith,
}
use social_media_manager.Prelude.Text.{strip, lower, contains}
use social_media_manager.Routing.Channel.{get_channel_capabilities}
use social_media_manager.Routing.Intent.{
  looks_like_checkout_cancellation, looks_like_purchase_intent, looks_like_support_followup,
  detect_sales_intent, detect_support_intent,
}

-- `AgentRoute`
pub data AgentRoute : Type 0 where
  legacy sales checkout payment support direct : AgentRoute

pub record RouteDecision : Type 0 where
  pub route : AgentRoute
  pub intent : String
  pub confidence : ℕ
  pub source : String

abbrev pub decision : AgentRoute → String → ℕ → String → RouteDecision
decision route intent confidence source = record {
  route = route;
  intent = intent;
  confidence = confidence;
  source = source;
}

-- What rests on regular expressions and Unicode decomposition: `detect_hostile_customer_message`,
-- `detect_human_request` and `normalize_text_for_moderation` of `store/app/ai/policies/guards.py`, and
-- the four detectors of `routing.py` that match patterns.
pub record Patterns : Type 0 where
  pub hostile : String → Bool
  pub human_request : String → Bool
  pub normalize : String → String
  pub transaction : String → Bool
  pub pdf_catalog : String → Bool
  pub handoff_decline : String → Bool
  pub transaction_decline : String → Bool

pub record Inbound : Type 0 where
  pub message : String
  pub channel : Option String
  pub payment_proof_attempt : Bool
  pub has_vision_result : Bool
  pub active_agent : Option String
  pub workflow_stage : Option String

-- `_session_value`
session_value : Option String → Option String
session_value none = none
session_value (some v) = if lower (strip v) == "" then none else some (lower (strip v))

-- `value == name`
abbrev pub is_value : Option String → String → Bool
is_value none name = false
is_value (some v) name = v == name

-- The support intents that come before the sales rules.
abbrev urgent_support : List String
urgent_support =
    "complaint_or_refund" ∷ "payment_dispute" ∷ "delivery_issue" ∷ "tracking_question" ∷ []

abbrev is_urgent : Option String → Bool
is_urgent none = false
is_urgent (some intent) = contains urgent_support intent

support_decision : String → RouteDecision
support_decision intent = decision support intent 80 "deterministic_keyword"

-- `if intent: return ...`
abbrev or_else : Option RouteDecision → RouteDecision → RouteDecision
or_else none rest = rest
or_else (some d) rest = d

on_intent : (String → RouteDecision) → Option String → Option RouteDecision
on_intent decide none = none
on_intent decide (some intent) = some (decide intent)

-- The block for channels that only inform; `none` where it falls through.
unfoldable pub informational_route : Patterns → Inbound → Option RouteDecision
unfolding session_value support_decision on_intent
informational_route p m =
    let text = p.normalize m.message in
    let intent = detect_support_intent text in
    if is_urgent intent
    then on_intent support_decision intent
    else if p.pdf_catalog text
    then some (decision sales "instagram_catalog_pdf_handoff" 90 "channel_policy")
    else if m.payment_proof_attempt || p.transaction text
    then some (
        decision sales "instagram_whatsapp_handoff" (if m.payment_proof_attempt then 95 else 90)
          "channel_policy")
    else if p.handoff_decline text
    then some (decision sales "conversation_close" 90 "channel_policy")
    else if p.transaction_decline text
    then some (decision sales "product_decline" 90 "channel_policy")
    else if is_value (session_value m.active_agent) "checkout"
    then some (decision sales "instagram_whatsapp_handoff" 90 "channel_policy")
    else on_intent support_decision intent

-- What applies on every channel.
unfoldable pub general_route : Patterns → Inbound → RouteDecision
unfolding session_value support_decision on_intent
general_route p m =
    let text = p.normalize m.message in
    let agent = session_value m.active_agent in
    let stage = session_value m.workflow_stage in
    if m.payment_proof_attempt
    then decision payment "payment_proof" (if m.has_vision_result then 95 else 85)
        "deterministic_guard"
    else if looks_like_checkout_cancellation text && is_value agent "checkout"
    then decision checkout "cancel_checkout" 90 "session_guard"
    else if is_value agent "checkout"
        && (is_value stage "checkout_collecting" || is_value stage "checkout_ready")
    then decision checkout "checkout_followup" 90 "session_sticky"
    else if is_value agent "support" && looks_like_support_followup text
    then decision support "support_followup" 85 "session_sticky"
    else if looks_like_purchase_intent text
    then decision checkout "checkout_or_order" 75 "deterministic_keyword"
    else or_else (on_intent support_decision (detect_support_intent text)) (
        or_else
          (on_intent (λ i. decision sales i 70 "deterministic_keyword") (detect_sales_intent text))
          (decision legacy "general" 50 "default"))

unfoldable pub decide_route : Patterns → Inbound → RouteDecision
unfolding informational_route general_route
decide_route p m =
    if p.hostile m.message
    then decision support "hostile_message" 100 "deterministic_guard"
    else if p.human_request m.message
    then decision support "human_request" 95 "deterministic_guard"
    else if (get_channel_capabilities m.channel).informational_only
    then or_else (informational_route p m) (general_route p m)
    else general_route p m

abbrev pub is_payment : AgentRoute → Bool
is_payment payment = true
is_payment _ = false

abbrev pub is_checkout : AgentRoute → Bool
is_checkout checkout = true
is_checkout _ = false

-- On a channel that only informs, a message is never routed to the payment agent, and to the checkout
-- agent only if it has a phrase of purchase that the pattern of transactions does not match.
pub informational_channel-route :
    (p : Patterns) (m : Inbound)
    → (get_channel_capabilities m.channel).informational_only ≡ true
    → (is_payment (decide_route p m).route ≡ false)
      × (is_checkout (decide_route p m).route ≡ true
          → (looks_like_purchase_intent (p.normalize m.message)
              && not (p.transaction (p.normalize m.message)))
            ≡ true)
unfolding decide_route informational_route general_route session_value on_intent support_decision
informational_channel-route p m informs = (ground (arith, informs), ground (arith, informs))

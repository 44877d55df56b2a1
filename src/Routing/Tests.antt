-- ===== src/Routing/Tests.antt =====
-- Messages on Instagram and WhatsApp, with patterns that know a few phrases.
use social_media_manager.Routing.Gate.{
  admitted, arguments_refused, admit_tool_call, advertised_admitted,
}
use social_media_manager.Prelude.{
  ◌⊎◌, ◌≡◌, refl, Bool, true, false, not, ◌&&◌, none, some, List, [], ◌∷◌, ◌==◌, all,
}
use social_media_manager.Prelude.Text.{contains, strip, lower}
use social_media_manager.Routing.Channel.{
  normalize_channel, get_channel_capabilities, is_tool_schema_allowed, filter_tool_names,
  is_agent_route_allowed, contains-filter_tool_names,
}
use social_media_manager.Routing.Arguments.{
  TagValue, text, not_text, tag_list, AllAllowed, is_empty, is_forbidden_tag,
  apply_tool_argument_policy, tags_after_policy-AllAllowed, policy-rejected,
}
use social_media_manager.Routing.Decide.{
  Patterns, Inbound, AgentRoute, RouteDecision, is_payment, is_checkout, decide_route,
  informational_channel-route,
}
use social_media_manager.Routing.Intent.{looks_like_purchase_intent}
use social_media_manager.Routing.Orchestrate.{
  OrchestrationDecision, route_name, decide_orchestration_with_router, resolve_orchestration_mode,
  multi_agent, build_orchestration_decision, enforce_channel_route, orchestration-allowed,
}

abbrev patterns : Patterns
patterns = record {
  hostile = λ m. m == "idiota";
  human_request = λ m. m == "quiero hablar con alguien";
  normalize = λ m. m;
  transaction = λ m. m == "lo quiero";
  pdf_catalog = λ m. m == "mandame el catalogo";
  handoff_decline = λ m. m == "gracias";
  transaction_decline = λ m. m == "no lo quiero";
}

abbrev wanted : Inbound
wanted = record {
  message = "quiero esas";
  channel = some " Instagram";
  payment_proof_attempt = false;
  has_vision_result = false;
  active_agent = none;
  workflow_stage = none;
}

abbrev every_agent : AgentRoute → Bool
every_agent route = true

abbrev unrefined : RouteDecision → RouteDecision
unrefined d = d

abbrev mixed_tags : List TagValue
mixed_tags = text "vip" ∷ text " Payment:zelle" ∷ not_text ∷ []

informs : (get_channel_capabilities wanted.channel).informational_only ≡ true
unfolding get_channel_capabilities normalize_channel strip lower
informs = refl

whatsapp_allows : is_tool_schema_allowed (some "whatsapp") "create_order" ≡ true
unfolding is_tool_schema_allowed get_channel_capabilities normalize_channel strip lower
whatsapp_allows = refl

informational_channel-route_example :
    (is_payment (decide_route patterns wanted).route ≡ false)
    × (is_checkout (decide_route patterns wanted).route ≡ true
        → (looks_like_purchase_intent "quiero esas" && not (patterns.transaction "quiero esas"))
          ≡ true)
informational_channel-route_example = informational_channel-route patterns wanted informs

instagram_tags : is_tool_schema_allowed (some "instagram") "tag_customer" ≡ true
unfolding is_tool_schema_allowed get_channel_capabilities normalize_channel strip lower
instagram_tags = refl

advertised_admitted_example :
    let r = apply_tool_argument_policy (some "instagram") "tag_customer" (tag_list mixed_tags) in
    ((r.rejected ≡ false)
      × (admit_tool_call (some "instagram") "tag_customer" none (tag_list mixed_tags)
          ≡ admitted r.tags))
    ⊎ ((r.rejected ≡ true)
        × (("tag_customer" == "tag_customer") ≡ true)
        × (admit_tool_call (some "instagram") "tag_customer" none (tag_list mixed_tags)
            ≡ arguments_refused))
advertised_admitted_example =
    advertised_admitted (some "instagram") "tag_customer" none (tag_list mixed_tags) instagram_tags

contains-filter_tool_names_example :
    contains
      (filter_tool_names (some "instagram") ("create_order" ∷ "search_catalog" ∷ []))
      "create_order"
    ≡ (true && is_tool_schema_allowed (some "instagram") "create_order")
contains-filter_tool_names_example =
    contains-filter_tool_names (some "instagram") ("create_order" ∷ "search_catalog" ∷ [])
      "create_order"

tags_after_policy-AllAllowed_example :
    AllAllowed
      (get_channel_capabilities (some "instagram")).forbidden_customer_tag_prefixes
      (apply_tool_argument_policy (some "instagram") "tag_customer" (tag_list mixed_tags)).tags
tags_after_policy-AllAllowed_example =
    tags_after_policy-AllAllowed (some "instagram") (tag_list mixed_tags)

policy-rejected_example :
    (apply_tool_argument_policy (some "instagram") "tag_customer" (tag_list mixed_tags)).rejected
    ≡ (not (is_empty mixed_tags)
        && all
            (is_forbidden_tag
              (get_channel_capabilities (some "instagram")).forbidden_customer_tag_prefixes)
            mixed_tags)
policy-rejected_example = policy-rejected (some "instagram") mixed_tags

-- The message is routed to checkout, which the channel blocks, so the sales agent runs.
abbrev redirected : OrchestrationDecision
redirected =
    build_orchestration_decision multi_agent
      (enforce_channel_route wanted.channel (decide_route patterns wanted)) every_agent

decided :
    decide_orchestration_with_router (some "multi_agent") patterns wanted unrefined every_agent
    ≡ some redirected
unfolding decide_orchestration_with_router resolve_orchestration_mode strip lower
decided = refl

orchestration-allowed_example :
    (is_agent_route_allowed wanted.channel (route_name redirected.route_decision.route) ≡ true)
    × (is_agent_route_allowed wanted.channel (route_name redirected.agent) ≡ true)
orchestration-allowed_example =
    orchestration-allowed (some "multi_agent") patterns wanted unrefined every_agent redirected
      decided

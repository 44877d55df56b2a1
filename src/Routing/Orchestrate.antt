-- ===== src/Routing/Orchestrate.antt =====
-- `store/app/ai/orchestrator.py`: the agent that runs.
use social_media_manager.Prelude.{
  ℕ, String, ◌≡◌, Bool, true, false, not, ◌&&◌, Option, none, some, ◌==◌, leb, if◌then◌else◌, arith,
  Bool-cases, Option-cases, inl, inr,
}
use mathlib.Core.Path.{subst}
use mathlib.Core.Option.{some-injective}
use social_media_manager.Prelude.Text.{strip, lower}
use social_media_manager.Routing.Channel.{get_channel_capabilities, is_agent_route_allowed}
use social_media_manager.Routing.Decide.{
  AgentRoute, legacy, sales, checkout, payment, support, direct, RouteDecision, decision, Patterns,
  Inbound, decide_route,
}

-- `OrchestrationMode`
pub data OrchestrationMode : Type 0 where
  legacy_mode shadow multi_agent : OrchestrationMode

abbrev pub route_name : AgentRoute → String
route_name legacy = "legacy"
route_name sales = "sales"
route_name checkout = "checkout"
route_name payment = "payment"
route_name support = "support"
route_name direct = "direct"

mode_of : String → Option OrchestrationMode
mode_of s =
    if s == "legacy"
    then some legacy_mode
    else if s == "shadow"
    then some shadow
    else if s == "multi_agent"
    then some multi_agent
    else none

abbrev given_mode : Option String → String
given_mode none = "legacy"
given_mode (some v) = if v == "" then "legacy" else v

-- `resolve_orchestration_mode`; `none` is its `ValueError`
unfoldable pub resolve_orchestration_mode : Option String → Option OrchestrationMode
unfolding mode_of
resolve_orchestration_mode value = mode_of (lower (strip (given_mode value)))

abbrev at_least : ℕ → ℕ → ℕ
at_least a b = if leb a b then b else a

-- `_enforce_channel_route`
unfoldable pub enforce_channel_route : Option String → RouteDecision → RouteDecision
enforce_channel_route channel d =
    if is_agent_route_allowed channel (route_name d.route)
    then d
    else decision sales "instagram_whatsapp_handoff" (at_least d.confidence 90) "channel_policy"

abbrev is_legacy : AgentRoute → Bool
is_legacy legacy = true
is_legacy _ = false

-- `agent_for_route`: the route whose agent is taken from the registry, and whether that is a fallback.
unfoldable pub agent_for_route : (AgentRoute → Bool) → AgentRoute → AgentRoute × Bool
agent_for_route registered route =
    if not (is_legacy route) && registered route
    then (route, false)
    else (legacy, not (is_legacy route))

-- `select_agent_for_route`
unfoldable pub select_agent_for_route :
    OrchestrationMode → (AgentRoute → Bool) → AgentRoute → AgentRoute × Bool
select_agent_for_route legacy_mode registered route = (legacy, false)
select_agent_for_route shadow registered route = (legacy, false)
select_agent_for_route multi_agent registered route = agent_for_route registered route

pub record OrchestrationDecision : Type 0 where
  pub mode : OrchestrationMode
  pub route_decision : RouteDecision
  pub agent : AgentRoute
  pub route_agent : AgentRoute
  pub fallback_to_legacy : Bool

-- `_build_orchestration_decision`
unfoldable pub build_orchestration_decision :
    OrchestrationMode → RouteDecision → (AgentRoute → Bool) → OrchestrationDecision
unfolding select_agent_for_route agent_for_route
build_orchestration_decision mode d registered = record {
  mode = mode;
  route_decision = d;
  agent = (select_agent_for_route mode registered d.route).0;
  route_agent = (agent_for_route registered d.route).0;
  fallback_to_legacy = (select_agent_for_route mode registered d.route).1;
}

-- The session is not shown to the router in the legacy mode.
abbrev routed : OrchestrationMode → Inbound → Inbound
routed legacy_mode m = record m { active_agent = none; workflow_stage = none }
routed _ m = m

-- What the classifier makes of a decision: the language model is asked in the other modes only.
abbrev refined : OrchestrationMode → (RouteDecision → RouteDecision) → RouteDecision → RouteDecision
refined legacy_mode refine d = d
refined _ refine d = refine d

-- `decide_orchestration_with_router`, with `refine_route_if_ambiguous` as an argument; with one that
-- returns its argument it is `decide_orchestration`.
unfoldable pub decide_orchestration_with_router :
    Option String
    → Patterns
    → Inbound
    → (RouteDecision → RouteDecision)
    → (AgentRoute → Bool)
    → Option OrchestrationDecision
unfolding resolve_orchestration_mode enforce_channel_route build_orchestration_decision decide_route
decide_orchestration_with_router mode p m refine registered =
    elim (resolve_orchestration_mode mode) [
      | none ↦ none
      | some resolved ↦ some (
          build_orchestration_decision resolved
            (enforce_channel_route m.channel
              (refined resolved refine (decide_route p (routed resolved m))))
            registered)
    ]

enforced-allowed :
    (channel : Option String) (d : RouteDecision)
    → is_agent_route_allowed channel (route_name (enforce_channel_route channel d).route) ≡ true
unfolding enforce_channel_route is_agent_route_allowed get_channel_capabilities
enforced-allowed channel d =
    elim (Bool-cases (is_agent_route_allowed channel (route_name d.route))) [
      | inl allowed ↦ rw (allowed, enforce_channel_route) allowed
      | inr blocked ↦ rw (blocked, enforce_channel_route) (ground arith)
    ]

legacy-allowed : (channel : Option String) → is_agent_route_allowed channel "legacy" ≡ true
unfolding is_agent_route_allowed get_channel_capabilities
legacy-allowed channel = ground arith

select-allowed :
    (mode : OrchestrationMode) (channel : Option String) (registered : AgentRoute → Bool)
    (route : AgentRoute)
    → is_agent_route_allowed channel (route_name route) ≡ true
    → is_agent_route_allowed channel (route_name (select_agent_for_route mode registered route).0)
      ≡ true
unfolding select_agent_for_route agent_for_route
select-allowed legacy_mode channel registered route h = legacy-allowed channel
select-allowed shadow channel registered route h = legacy-allowed channel
select-allowed multi_agent channel registered route h = ground (arith, h, legacy-allowed channel)

-- Whatever the classifier answers and whichever agents are registered, the route that is decided and
-- the agent that runs are allowed on the message's channel.
pub orchestration-allowed :
    (mode : Option String) (p : Patterns) (m : Inbound) (refine : RouteDecision → RouteDecision)
    (registered : AgentRoute → Bool) (o : OrchestrationDecision)
    → decide_orchestration_with_router mode p m refine registered ≡ some o
    → (is_agent_route_allowed m.channel (route_name o.route_decision.route) ≡ true)
      × (is_agent_route_allowed m.channel (route_name o.agent) ≡ true)
unfolding decide_orchestration_with_router build_orchestration_decision
orchestration-allowed mode p m refine registered o h =
    elim (Option-cases (resolve_orchestration_mode mode)) [
      | inl invalid ↦
          let impossible : ◌≡◌ {A = Option OrchestrationDecision} none (some o) =
            rw (invalid, decide_orchestration_with_router) at h in
          absurd (cc)
      | inr (resolved, valid) ↦
          let d =
            enforce_channel_route m.channel
              (refined resolved refine (decide_route p (routed resolved m))) in
          let same : build_orchestration_decision resolved d registered ≡ o =
            some-injective _ _ (rw (valid, decide_orchestration_with_router) at h) in
          let allowed =
            enforced-allowed m.channel
              (refined resolved refine (decide_route p (routed resolved m))) in
          subst
            (λ o.
              (is_agent_route_allowed m.channel (route_name o.route_decision.route) ≡ true)
              × (is_agent_route_allowed m.channel (route_name o.agent) ≡ true))
            same (allowed, select-allowed resolved m.channel registered d.route allowed)
    ]

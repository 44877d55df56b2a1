-- ===== src/Routing/Channel.antt =====
-- `store/app/ai/policies/channel_capabilities.py`: what a channel permits.
use social_media_manager.Prelude.{
  String, ◌≡◌, refl, Bool, true, false, not, ◌&&◌, Option, none, some, List, [], ◌∷◌, ◌==◌, filter,
  if◌then◌else◌, eq_iff, arith,
}
use social_media_manager.Prelude.Text.{strip, lower, contains}

pub record ChannelCapabilities : Type 0 where
  pub informational_only : Bool
  pub blocked_agent_routes : List String
  pub forbidden_tool_names : List String
  pub forbidden_handoff_targets : List String
  pub forbidden_customer_tag_prefixes : List String
  pub payment_proof_processing : Bool

-- `_DEFAULT_CAPABILITIES`
abbrev pub default_capabilities : ChannelCapabilities
default_capabilities = record {
  informational_only = false;
  blocked_agent_routes = [];
  forbidden_tool_names = [];
  forbidden_handoff_targets = [];
  forbidden_customer_tag_prefixes = [];
  payment_proof_processing = true;
}

-- `_INSTAGRAM_CAPABILITIES`
abbrev pub instagram_capabilities : ChannelCapabilities
instagram_capabilities = record {
  informational_only = true;
  blocked_agent_routes = "checkout" ∷ "payment" ∷ [];
  forbidden_tool_names =
      "create_order" ∷ "update_payment_status" ∷ "update_checkout_draft" ∷ "finalize_checkout"
      ∷ "cancel_checkout" ∷ "send_catalog_pdf" ∷ [];
  forbidden_handoff_targets = "checkout" ∷ "payment" ∷ [];
  forbidden_customer_tag_prefixes = "payment:" ∷ [];
  payment_proof_processing = false;
}

-- `_TOOL_CHANNEL_ALLOWLISTS.get(tool_name)`
abbrev pub tool_channel_allowlist : String → Option (List String)
tool_channel_allowlist tool =
    if tool == "send_whatsapp_handoff" then some ("instagram" ∷ []) else none

-- `str(value or "").strip().lower()`
unfoldable pub normalize_channel : Option String → String
normalize_channel none = ""
normalize_channel (some c) = lower (strip c)

unfoldable pub get_channel_capabilities : Option String → ChannelCapabilities
get_channel_capabilities channel =
    if normalize_channel channel == "instagram"
    then instagram_capabilities
    else default_capabilities

unfoldable pub is_agent_route_allowed : Option String → String → Bool
is_agent_route_allowed channel route =
    not (contains (get_channel_capabilities channel).blocked_agent_routes route)

unfoldable pub can_process_payment_proof : Option String → Bool
can_process_payment_proof channel = (get_channel_capabilities channel).payment_proof_processing

-- The check that both authorisations begin with: the tool's own list of channels.
abbrev off_allowlist : Option String → String → Bool
off_allowlist channel tool = elim (tool_channel_allowlist tool) [
  | none ↦ false
  | some channels ↦ not (contains channels (normalize_channel channel))
]

abbrev is_nonempty : List String → Bool
is_nonempty [] = false
is_nonempty (x ∷ xs) = true

unfoldable pub is_tool_schema_allowed : Option String → String → Bool
is_tool_schema_allowed channel tool =
    let capabilities = get_channel_capabilities channel in
    if off_allowlist channel tool
    then false
    else if contains capabilities.forbidden_tool_names tool
    then false
    else not (tool == "request_agent_handoff" && is_nonempty capabilities.forbidden_handoff_targets)

unfoldable pub filter_tool_names : Option String → List String → List String
filter_tool_names channel tools = filter (is_tool_schema_allowed channel) tools

-- `target_agent` is the tool's argument of that name.
unfoldable pub is_tool_call_allowed : Option String → String → Option String → Bool
is_tool_call_allowed channel tool target_agent =
    let capabilities = get_channel_capabilities channel in
    if off_allowlist channel tool
    then false
    else if contains capabilities.forbidden_tool_names tool
    then false
    else if tool == "request_agent_handoff"
    then not (contains capabilities.forbidden_handoff_targets (normalize_channel target_agent))
    else true

-- A tool that may be advertised on a channel passes the channel's check of calls there, whatever agent a
-- handoff names. The policy on a call's arguments is another check.
pub schema_allowed-call_allowed :
    (channel : Option String) (tool : String) (target_agent : Option String)
    → is_tool_schema_allowed channel tool ≡ true
    → is_tool_call_allowed channel tool target_agent ≡ true
unfolding is_tool_schema_allowed is_tool_call_allowed get_channel_capabilities
schema_allowed-call_allowed channel tool target_agent h = ground arith

-- The tools of a run are those of the agent that may be advertised on the channel: a tool is in the
-- filtered list exactly when it was given and is allowed.
pub contains-filter_tool_names :
    (channel : Option String) (tools : List String) (tool : String)
    → contains (filter_tool_names channel tools) tool
      ≡ (contains tools tool && is_tool_schema_allowed channel tool)
unfolding filter_tool_names
contains-filter_tool_names channel [] tool = refl
contains-filter_tool_names channel (t ∷ tools) tool =
    ground (arith, contains-filter_tool_names channel tools tool, eq_iff t tool)

-- ===== src/Routing/Gate.antt =====
-- What `execute_tool` of `store/app/ai/tools/executor.py` asks of the channel before it checks and runs a call.
use social_media_manager.Prelude.{
  String, ◌≡◌, refl, true, false, not, Option, ◌==◌, ◌⊎◌, inl, inr, arith, Bool-cases,
  if◌then◌else◌,
}
use social_media_manager.Routing.Channel.{
  is_tool_schema_allowed, is_tool_call_allowed, schema_allowed-call_allowed,
}
use social_media_manager.Routing.Arguments.{
  Tags, ToolArgumentPolicyResult, apply_tool_argument_policy,
}

-- The two refusals, and the `tags` argument that goes on to the schema's validator.
pub data Admission : Type 0 where
  tool_refused arguments_refused : Admission
  admitted : Tags → Admission

abbrev pub admit_arguments : ToolArgumentPolicyResult → Admission
admit_arguments r = if r.rejected then arguments_refused else admitted r.tags

unfoldable pub admit_tool_call : Option String → String → Option String → Tags → Admission
admit_tool_call channel tool target_agent tags =
    if not (is_tool_call_allowed channel tool target_agent)
    then tool_refused
    else admit_arguments (apply_tool_argument_policy channel tool tags)

-- Only the tool that tags customers has its arguments refused.
rejected-tag_customer :
    (channel : Option String) (tool : String) (tags : Tags)
    → (apply_tool_argument_policy channel tool tags).rejected ≡ true
    → (tool == "tag_customer") ≡ true
unfolding apply_tool_argument_policy
rejected-tag_customer channel tool tags h = ground (arith, h)

-- A call of a tool that may be advertised on the channel is admitted, with the tags that the argument policy
-- leaves, or it tags a customer and the policy refuses its arguments; it is never refused as a tool.
pub advertised_admitted :
    (channel : Option String) (tool : String) (target_agent : Option String) (tags : Tags)
    → is_tool_schema_allowed channel tool ≡ true
    → let r = apply_tool_argument_policy channel tool tags in
      ((r.rejected ≡ false) × (admit_tool_call channel tool target_agent tags ≡ admitted r.tags))
      ⊎ ((r.rejected ≡ true)
          × ((tool == "tag_customer") ≡ true)
          × (admit_tool_call channel tool target_agent tags ≡ arguments_refused))
unfolding admit_tool_call
advertised_admitted channel tool target_agent tags advertised =
    let allowed = schema_allowed-call_allowed channel tool target_agent advertised in
    elim (Bool-cases (apply_tool_argument_policy channel tool tags).rejected) [
      | inr kept ↦ inl (kept, rw (allowed, admit_tool_call, kept) refl)
      | inl rejected ↦ inr (
        rejected,
        rejected-tag_customer channel tool tags rejected,
        rw (allowed, admit_tool_call, rejected) refl,
      )
    ]

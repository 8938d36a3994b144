-- ===== src/Tools/Permission.antt =====
-- vermay/permission.py: `PermissionPolicy.check`, over what the registry knows of each tool. The summary
-- and the preview of the arguments, which only an operator reads, are left out.
use mathlib.Core.Path.{subst}
use Prim.Native.String.{◌++◌ as text_append}
use vermay_agent.Prelude.{
  String, ◌≡◌, ◌∙◌, sym, refl, Bool, true, false, ◌||◌, Option, none, some, List, [], ◌∷◌, ◌++◌,
  if◌then◌else◌, arith,
}
use vermay_agent.Json.{bool, str, Fields, get}
use vermay_agent.Runtime.State.{Call, approval_required as status_approval_required}
use vermay_agent.Runtime.Nodes.{GateDecision, gate_status}
use vermay_agent.Tools.{
  Python, ToolMetadata, ApprovalPolicy, auto, approval_required, argument_sensitive, deny,
  category_value, approval_policy_value, execution_scope_value, side_effect_value, one_of,
  or_default, bool_value, approval_policy_named, member_named, normalize_tool_metadata,
}
use vermay_agent.Tools.Steps.{Makes, Makes-bind, validated_same}

pub record PermissionDecision : Type 0 where
  pub allowed : Bool
  pub requires_approval : Bool
  pub reason : String
  pub decision : String
  pub risk_level : String
  pub policy_tags : List String

-- `tags.append(tag)` if it is new
abbrev pub add_new : String → List String → List String
add_new tag tags = if one_of tag tags then tags else tags ++ tag ∷ []

abbrev pub add_if : Bool → String → List String → List String
add_if b tag tags = if b then tags ++ tag ∷ [] else tags

unfoldable pub policy_tags : ToolMetadata → List String
policy_tags m = add_if m.credential_sensitive "credential_sensitive" (
    add_if m.destructive "destructive" (
      add_new (side_effect_value m.side_effect_level) (
        add_new (execution_scope_value m.execution_scope)
          (category_value m.category ∷ approval_policy_value m.approval_policy ∷ []))))

abbrev pub about_tool : String → String → String
about_tool name text = text_append "tool '" (text_append name text)

unfoldable pub unknown_tool : String → PermissionDecision
unknown_tool name = record {
  allowed = false;
  requires_approval = false;
  reason = text_append "unknown tool: " name;
  decision = "deny";
  risk_level = "high";
  policy_tags = "unknown_tool" ∷ [];
}

unfoldable pub denied_by_policy : String → PermissionDecision
denied_by_policy name = record {
  allowed = false;
  requires_approval = false;
  reason = about_tool name "' is denied by policy";
  decision = "deny";
  risk_level = "high";
  policy_tags = "policy_deny" ∷ [];
}

unfoldable pub argument_sensitive_decision : String → ToolMetadata → PermissionDecision
argument_sensitive_decision name m = record {
  allowed = false;
  requires_approval = true;
  reason = about_tool name "' requires argument-sensitive approval";
  decision = "interrupt_for_approval";
  risk_level = "medium";
  policy_tags = category_value m.category ∷ "argument_sensitive" ∷ [];
}

unfoldable pub approval_decision : String → ToolMetadata → PermissionDecision
approval_decision name m = record {
  allowed = false;
  requires_approval = true;
  reason = about_tool name "' is marked dangerous";
  decision = "interrupt_for_approval";
  risk_level = if m.dangerous || m.destructive then "high" else "medium";
  policy_tags = policy_tags m;
}

unfoldable pub safe_tool : ToolMetadata → PermissionDecision
safe_tool m = record {
  allowed = true;
  requires_approval = false;
  reason = "safe tool";
  decision = "allow";
  risk_level = "low";
  policy_tags = category_value m.category ∷ approval_policy_value m.approval_policy ∷ [];
}

unfoldable pub check_known : String → ToolMetadata → PermissionDecision
check_known name m = elim m.approval_policy [
  | deny ↦ denied_by_policy name
  | argument_sensitive ↦ argument_sensitive_decision name m
  | approval_required ↦ approval_decision name m
  | auto ↦ safe_tool m
]

-- The registry as a function from the name; none for its `KeyError`.
unfoldable pub check : (String → Option ToolMetadata) → String → PermissionDecision
check registry name = elim (registry name) [
  | none ↦ unknown_tool name
  | some m ↦ check_known name m
]

-- The gate that the graph asks.
abbrev pub gate_of : (String → Option ToolMetadata) → Call → GateDecision
gate_of registry c =
    let d = check registry c.name in
    record { allowed = d.allowed; requires_approval = d.requires_approval; reason = d.reason }

marked_true :
    (values : Fields) (marked : Bool)
    → get "dangerous" values ≡ some (bool true)
    → bool_value (or_default (get "dangerous" values) (bool false)) ≡ some marked
    → marked ≡ true
unfolding bool_value
marked_true values marked h read = ground (arith, h, read)

required_named : approval_policy_named "approval_required" ≡ some approval_required
unfolding member_named
required_named = refl

policy_required :
    (py : Python) (values : Fields) (marked : Bool) (policy : ApprovalPolicy)
    → get "approval_policy" values ≡ none
    → marked ≡ true
    → approval_policy_named (
        py.text_of (
          or_default
            (get "approval_policy" values)
            (str (approval_policy_value (if marked then approval_required else auto)))))
      ≡ some policy
    → policy ≡ approval_required
policy_required py values marked policy absent danger read =
    let named : approval_policy_named (
          py.text_of (
            or_default (get "approval_policy" values)
              (str (approval_policy_value (if marked then approval_required else auto)))))
        ≡ some approval_required =
      rw (absent, danger, py.text_of_str "approval_required") required_named in
    ground (arith, sym named ∙ read)

abbrev NeedsApproval : ToolMetadata → Type 0
NeedsApproval m = m.approval_policy ≡ approval_required

Makes-normalize :
    (py : Python) (values : Fields)
    → get "dangerous" values ≡ some (bool true)
    → get "approval_policy" values ≡ none
    → Makes NeedsApproval (normalize_tool_metadata py values)
unfolding normalize_tool_metadata
Makes-normalize py values danger absent = Makes-bind _ _ (λ marked mark.
    Makes-bind _ _ (λ read_only _. Makes-bind _ _ (λ policy read. Makes-bind _ _ (λ source _.
      Makes-bind _ _ (λ category _. Makes-bind _ _ (λ scope _. Makes-bind _ _ (λ effect _.
        Makes-bind _ _ (λ destructive _. Makes-bind _ _ (λ sensitive _.
          Makes-bind _ _ (λ redaction _. Makes-bind _ _ (λ max_chars _.
            Makes-bind _ _ (λ artifacts _. Makes-bind _ _ (λ kinds _. record {
              has = λ m made. subst NeedsApproval (validated_same _ m made).0 (
                  policy_required py values marked policy absent
                    (marked_true values marked danger mark) read);
            })))))))))))))

-- The gate neither allows nor denies a call of such a tool.
pub gate_of-dangerous :
    (py : Python) (values : Fields) (m : ToolMetadata) (registry : String → Option ToolMetadata)
    (c : Call)
    → normalize_tool_metadata py values ≡ some m
    → get "dangerous" values ≡ some (bool true)
    → get "approval_policy" values ≡ none
    → registry c.name ≡ some m
    → gate_status (gate_of registry c) ≡ status_approval_required
unfolding check check_known approval_decision
gate_of-dangerous py values m registry c made danger absent known =
    let policy = (Makes-normalize py values danger absent).has m made in
    ground (arith, known, policy)

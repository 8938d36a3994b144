-- ===== src/Tools.antt =====
-- vermay/tool_metadata.py: what is known of a tool (`ToolMetadata`), and how it is read from a mapping
-- (`normalize_tool_metadata`, with the overrides already merged). `none` stands for a `ValueError`.
-- Python's `str` and `int` of a value, and the value of a number, are the fields of `Python`.
use vermay_agent.Prelude.{
  ℕ, String, ◌==◌, ◌≡◌, Bool, true, false, ◌&&◌, ◌||◌, not, Option, none, some, is_some, List, [],
  ◌∷◌, map, ltb, truthy, if◌then◌else◌,
}
use vermay_agent.Json.{
  Json, null, bool, num, str, arr, obj, Items, nil, cons, Fields, end, field, entry, get,
}
pub mod Steps
pub mod Idempotent
pub mod Permission
pub mod Held

abbrev pub is_bool : Json → Bool
is_bool (bool _) = true
is_bool _ = false

-- `str(value)`; `int(value)` if that is a natural number; and a natural number as a value.
pub record Python : Type 0 where
  pub text_of : Json → String
  pub int_of : Json → Option ℕ
  pub number : ℕ → Json
  pub text_of_str : (s : String) → text_of (str s) ≡ s
  pub int_of_number : (n : ℕ) → int_of (number n) ≡ some n
  pub number_no_bool : (n : ℕ) → is_bool (number n) ≡ false

pub data ToolSource : Type 0 where
  builtin source_mcp source_unknown : ToolSource

pub data ToolCategory : Type 0 where
  filesystem logs kubernetes shell weather category_mcp category_unknown : ToolCategory

pub data ExecutionScope : Type 0 where
  scope_local scope_remote external_network scope_mcp scope_unknown : ExecutionScope

pub data SideEffectLevel : Type 0 where
  effect_none effect_local effect_remote effect_destructive effect_unknown : SideEffectLevel

pub data ApprovalPolicy : Type 0 where
  auto approval_required argument_sensitive deny : ApprovalPolicy

-- The values of the enumerations, and the members that they name.
abbrev pub source_value : ToolSource → String
source_value builtin = "builtin"
source_value source_mcp = "mcp"
source_value source_unknown = "unknown"

abbrev pub category_value : ToolCategory → String
category_value filesystem = "filesystem"
category_value logs = "logs"
category_value kubernetes = "kubernetes"
category_value shell = "shell"
category_value weather = "weather"
category_value category_mcp = "mcp"
category_value category_unknown = "unknown"

abbrev pub execution_scope_value : ExecutionScope → String
execution_scope_value scope_local = "local"
execution_scope_value scope_remote = "remote"
execution_scope_value external_network = "external_network"
execution_scope_value scope_mcp = "mcp"
execution_scope_value scope_unknown = "unknown"

abbrev pub side_effect_value : SideEffectLevel → String
side_effect_value effect_none = "none"
side_effect_value effect_local = "local"
side_effect_value effect_remote = "remote"
side_effect_value effect_destructive = "destructive"
side_effect_value effect_unknown = "unknown"

abbrev pub approval_policy_value : ApprovalPolicy → String
approval_policy_value auto = "auto"
approval_policy_value approval_required = "approval_required"
approval_policy_value argument_sensitive = "argument_sensitive"
approval_policy_value deny = "deny"

unfoldable pub member_named : {A : Type 0} → (A → String) → String → List A → Option A
member_named value name [] = none
member_named value name (a ∷ members) =
    if value a == name then some a else member_named value name members

abbrev pub source_named : String → Option ToolSource
source_named s = member_named source_value s (builtin ∷ source_mcp ∷ source_unknown ∷ [])

abbrev pub category_named : String → Option ToolCategory
category_named s =
    member_named category_value s
      (filesystem ∷ logs ∷ kubernetes ∷ shell ∷ weather ∷ category_mcp ∷ category_unknown ∷ [])

abbrev pub execution_scope_named : String → Option ExecutionScope
execution_scope_named s =
    member_named execution_scope_value s
      (scope_local ∷ scope_remote ∷ external_network ∷ scope_mcp ∷ scope_unknown ∷ [])

abbrev pub side_effect_named : String → Option SideEffectLevel
side_effect_named s =
    member_named side_effect_value s
      (effect_none ∷ effect_local ∷ effect_remote ∷ effect_destructive ∷ effect_unknown ∷ [])

abbrev pub approval_policy_named : String → Option ApprovalPolicy
approval_policy_named s =
    member_named approval_policy_value s (auto ∷ approval_required ∷ argument_sensitive ∷ deny ∷ [])

pub record ToolMetadata : Type 0 where
  pub source : ToolSource
  pub category : ToolCategory
  pub execution_scope : ExecutionScope
  pub read_only : Bool
  pub side_effect_level : SideEffectLevel
  pub approval_policy : ApprovalPolicy
  pub destructive : Bool
  pub credential_sensitive : Bool
  pub argument_policy : Json
  pub output_visibility : String
  pub output_redaction_status : String
  pub redaction_required : Bool
  pub output_max_chars : ℕ
  pub produces_artifacts : Bool
  pub artifact_kinds : List String
  pub dangerous : Bool

unfoldable pub strings : List String → Items
strings [] = nil
strings (s ∷ rest) = cons (str s) (strings rest)

unfoldable pub to_metadata : Python → ToolMetadata → Fields
to_metadata py m = field "source" (str (source_value m.source)) (
    field "category" (str (category_value m.category)) (
      field "execution_scope" (str (execution_scope_value m.execution_scope)) (
        field "read_only" (bool m.read_only) (
          field "side_effect_level" (str (side_effect_value m.side_effect_level)) (
            field "approval_policy" (str (approval_policy_value m.approval_policy)) (
              field "destructive" (bool m.destructive) (
                field "credential_sensitive" (bool m.credential_sensitive) (
                  field "argument_policy" m.argument_policy (
                    field "output_visibility" (str m.output_visibility) (
                      field "output_redaction_status" (str m.output_redaction_status) (
                        field "redaction_required" (bool m.redaction_required) (
                          field "output_max_chars" (py.number m.output_max_chars) (
                            field "produces_artifacts" (bool m.produces_artifacts) (
                              field "artifact_kinds" (arr (strings m.artifact_kinds))
                                (entry "dangerous" (bool m.dangerous))))))))))))))))

-- `values.get(key, default)`
abbrev pub or_default : Option Json → Json → Json
or_default none d = d
or_default (some v) d = v

unfoldable pub bool_value : Json → Option Bool
bool_value (bool b) = some b
bool_value _ = none

unfoldable pub positive_int_value : Python → Json → Option ℕ
positive_int_value py value =
    if is_bool value
    then none
    else elim (py.int_of value) [ none ↦ none | some n ↦ if ltb 0 n then some n else none ]

-- `_string_tuple`: no value, or a list without an empty text.
unfoldable pub texts_of : Python → Items → Option (List String)
texts_of py nil = some []
texts_of py (cons v rest) =
    let later = texts_of py rest in
    if truthy (py.text_of v)
    then elim later [ none ↦ none | some texts ↦ some (py.text_of v ∷ texts) ]
    else none

unfoldable pub string_tuple : Python → Json → Option (List String)
string_tuple py null = some []
string_tuple py (arr values) = texts_of py values
string_tuple py _ = none

abbrev pub one_of : String → List String → Bool
one_of s [] = false
one_of s (t ∷ rest) = if s == t then true else one_of s rest

abbrev pub no_texts : List String → Bool
no_texts [] = true
no_texts _ = false

abbrev pub is_destructive : SideEffectLevel → Bool
is_destructive effect_destructive = true
is_destructive _ = false

abbrev pub has_effect : SideEffectLevel → Bool
has_effect effect_local = true
has_effect effect_remote = true
has_effect effect_destructive = true
has_effect _ = false

-- `validate_tool_metadata` raises nothing.
unfoldable pub is_valid : ToolMetadata → Bool
is_valid m =
    one_of m.output_visibility
      ("public" ∷ "local_api" ∷ "a2a" ∷ "ui" ∷ "internal" ∷ "trace_only" ∷ [])
    && one_of m.output_redaction_status ("clean" ∷ "redacted" ∷ "unsafe" ∷ "unknown" ∷ [])
    && ltb 0 m.output_max_chars
    && (no_texts m.artifact_kinds || m.produces_artifacts)
    && (not m.destructive || is_destructive m.side_effect_level)
    && not (m.destructive && m.read_only)
    && not (m.read_only && has_effect m.side_effect_level)
    && (not (one_of m.output_visibility ("public" ∷ "a2a" ∷ []))
        || one_of m.output_redaction_status ("clean" ∷ "redacted" ∷ []))

unfoldable pub validate_tool_metadata : ToolMetadata → Option ToolMetadata
validate_tool_metadata m = if is_valid m then some m else none

infixl 5 ◌>>=◌
unfoldable pub ◌>>=◌ : {A B : Type 0} → Option A → (A → Option B) → Option B
none >>= k = none
some a >>= k = k a

-- The flag after the approval policy has been read.
unfoldable pub settled_danger : ApprovalPolicy → Bool → Bool → Bool
settled_danger approval_required given dangerous = true
settled_danger auto given dangerous = if given then dangerous else false
settled_danger _ given dangerous = dangerous

unfoldable pub normalize_tool_metadata : Python → Fields → Option ToolMetadata
normalize_tool_metadata py values = do
  marked ← bool_value (or_default (get "dangerous" values) (bool false))
  read_only ← bool_value (or_default (get "read_only" values) (bool (not marked)))
  policy ← approval_policy_named (
      py.text_of (
        or_default (get "approval_policy" values)
          (str (approval_policy_value (if marked then approval_required else auto)))))
  source ← source_named (py.text_of (or_default (get "source" values) (str "builtin")))
  category ← category_named (py.text_of (or_default (get "category" values) (str "unknown")))
  scope ←
      execution_scope_named (py.text_of (or_default (get "execution_scope" values) (str "unknown")))
  effect ←
      side_effect_named (py.text_of (or_default (get "side_effect_level" values) (str "unknown")))
  destructive ← bool_value (or_default (get "destructive" values) (bool false))
  sensitive ← bool_value (or_default (get "credential_sensitive" values) (bool false))
  redaction ← bool_value (or_default (get "redaction_required" values) (bool false))
  max_chars ← positive_int_value py (or_default (get "output_max_chars" values) (py.number 1000))
  artifacts ← bool_value (or_default (get "produces_artifacts" values) (bool false))
  kinds ← string_tuple py (or_default (get "artifact_kinds" values) (arr nil))
  validate_tool_metadata (record {
    source = source;
    category = category;
    execution_scope = scope;
    read_only = read_only;
    side_effect_level = effect;
    approval_policy = policy;
    destructive = destructive;
    credential_sensitive = sensitive;
    argument_policy = or_default (get "argument_policy" values) null;
    output_visibility = py.text_of (or_default (get "output_visibility" values) (str "internal"));
    output_redaction_status =
        py.text_of (or_default (get "output_redaction_status" values) (str "unknown"));
    redaction_required = redaction;
    output_max_chars = max_chars;
    produces_artifacts = artifacts;
    artifact_kinds = kinds;
    dangerous = settled_danger policy (is_some (get "dangerous" values)) marked;
  })

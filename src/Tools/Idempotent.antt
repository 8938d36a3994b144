-- ===== src/Tools/Idempotent.antt =====
-- vermay/tool_metadata.py: metadata that was normalised, written and read again.
use mathlib.Core.Path.{subst}
use vermay_agent.Prelude.{
  ℕ, String, ◌≡◌, refl, Bool, true, false, ◌&&◌, some, is_some, List, [], ◌∷◌, ltb, truthy, arith,
  Bool-cases, Option-cases, inl, inr,
}
use vermay_agent.Json.{Json, null, arr, Items, nil, cons, Fields, get}
use vermay_agent.Tools.{
  Python, ToolSource, builtin, source_mcp, source_unknown, ToolCategory, filesystem, logs,
  kubernetes, shell, weather, category_mcp, category_unknown, ExecutionScope, scope_local,
  scope_remote, external_network, scope_mcp, scope_unknown, SideEffectLevel, effect_none,
  effect_local, effect_remote, effect_destructive, effect_unknown, ApprovalPolicy, auto,
  approval_required, argument_sensitive, deny, source_value, category_value, execution_scope_value,
  side_effect_value, approval_policy_value, member_named, source_named, category_named,
  execution_scope_named, side_effect_named, approval_policy_named, ToolMetadata, strings,
  to_metadata, or_default, bool_value, positive_int_value, texts_of, string_tuple, is_valid,
  validate_tool_metadata, settled_danger, normalize_tool_metadata, ◌>>=◌,
}
use vermay_agent.Tools.Steps.{Makes, Makes-bind, validated_same}

source_kept : (x : ToolSource) → source_named (source_value x) ≡ some x
unfolding member_named
source_kept builtin = refl
source_kept source_mcp = refl
source_kept source_unknown = refl

category_kept : (x : ToolCategory) → category_named (category_value x) ≡ some x
unfolding member_named
category_kept filesystem = refl
category_kept logs = refl
category_kept kubernetes = refl
category_kept shell = refl
category_kept weather = refl
category_kept category_mcp = refl
category_kept category_unknown = refl

execution_scope_kept :
    (x : ExecutionScope) → execution_scope_named (execution_scope_value x) ≡ some x
unfolding member_named
execution_scope_kept scope_local = refl
execution_scope_kept scope_remote = refl
execution_scope_kept external_network = refl
execution_scope_kept scope_mcp = refl
execution_scope_kept scope_unknown = refl

side_effect_kept : (x : SideEffectLevel) → side_effect_named (side_effect_value x) ≡ some x
unfolding member_named
side_effect_kept effect_none = refl
side_effect_kept effect_local = refl
side_effect_kept effect_remote = refl
side_effect_kept effect_destructive = refl
side_effect_kept effect_unknown = refl

approval_policy_kept :
    (x : ApprovalPolicy) → approval_policy_named (approval_policy_value x) ≡ some x
unfolding member_named
approval_policy_kept auto = refl
approval_policy_kept approval_required = refl
approval_policy_kept argument_sensitive = refl
approval_policy_kept deny = refl

abbrev all_given : List String → Bool
all_given [] = true
all_given (s ∷ rest) = truthy s && all_given rest

texts_kept :
    (py : Python) (kinds : List String)
    → all_given kinds ≡ true
    → texts_of py (strings kinds) ≡ some kinds
unfolding texts_of strings
texts_kept py [] h = refl
texts_kept py (s ∷ rest) h =
    ground (arith, py.text_of_str s, texts_kept py rest (ground (arith, h)), h)

number_kept : (py : Python) (n : ℕ) → ltb 0 n ≡ true → positive_int_value py (py.number n) ≡ some n
unfolding positive_int_value
number_kept py n h = rw (py.number_no_bool n, py.int_of_number n, h) refl

-- What normalised metadata has.
record Normal (m : ToolMetadata) : Type 0 where
  valid : is_valid m ≡ true
  positive : ltb 0 m.output_max_chars ≡ true
  kinds : all_given m.artifact_kinds ≡ true
  danger : settled_danger m.approval_policy true m.dangerous ≡ m.dangerous

read_back :
    (py : Python) (m : ToolMetadata)
    → Normal m
    → normalize_tool_metadata py (to_metadata py m) ≡ some m
unfolding normalize_tool_metadata ◌>>=◌ to_metadata get bool_value string_tuple
    validate_tool_metadata
read_back py m normal =
    rw
      (
        py.text_of_str (approval_policy_value m.approval_policy),
        approval_policy_kept m.approval_policy,
        py.text_of_str (source_value m.source),
        source_kept m.source,
        py.text_of_str (category_value m.category),
        category_kept m.category,
        py.text_of_str (execution_scope_value m.execution_scope),
        execution_scope_kept m.execution_scope,
        py.text_of_str (side_effect_value m.side_effect_level),
        side_effect_kept m.side_effect_level,
        number_kept py m.output_max_chars normal.positive,
        texts_kept py m.artifact_kinds normal.kinds,
        py.text_of_str m.output_visibility,
        py.text_of_str m.output_redaction_status,
        normal.danger,
        normal.valid,
      )
      refl

texts_given :
    (py : Python) (values : Items) (kinds : List String)
    → texts_of py values ≡ some kinds
    → all_given kinds ≡ true
unfolding texts_of
texts_given py nil kinds h = ground (arith, h)
texts_given py (cons v rest) kinds h = elim (Bool-cases (truthy (py.text_of v))) [
  | inr empty ↦ absurd (ground (arith, h, empty))
  | inl given ↦ elim (Option-cases (texts_of py rest)) [
    | inl bad ↦ absurd (ground (arith, h, given, bad))
    | inr (texts, later) ↦
        let tail = texts_given py rest texts later in
        let same : py.text_of v ∷ texts ≡ kinds = ground (arith, h, given, later) in
        subst (λ ks. all_given ks ≡ true) same (rw (given, tail) refl)
  ]
]

tuple_given :
    (py : Python) (value : Json) (kinds : List String)
    → string_tuple py value ≡ some kinds
    → all_given kinds ≡ true
unfolding string_tuple
tuple_given py null kinds h = ground (arith, h)
tuple_given py (arr values) kinds h = texts_given py values kinds h
tuple_given py value kinds h = absurd (ground (arith, h))

danger_settled :
    (policy : ApprovalPolicy) (given marked : Bool)
    → settled_danger policy true (settled_danger policy given marked)
      ≡ settled_danger policy given marked
unfolding settled_danger
danger_settled policy given marked = ground arith

and_right : (a b : Bool) → a && b ≡ true → b ≡ true
and_right true b h = h
and_right false b h = absurd (ground (arith, h))

and_left : (a b : Bool) → a && b ≡ true → a ≡ true
and_left true b h = refl
and_left false b h = absurd (ground (arith, h))

positive_of_valid : (d : ToolMetadata) → is_valid d ≡ true → ltb 0 d.output_max_chars ≡ true
unfolding is_valid
positive_of_valid d h =
    and_right _ _ (and_left _ _ (and_left _ _ (and_left _ _ (and_left _ _ (and_left _ _ h)))))

Normal-validated :
    (d m : ToolMetadata)
    → validate_tool_metadata d ≡ some m
    → all_given d.artifact_kinds ≡ true
    → settled_danger d.approval_policy true d.dangerous ≡ d.dangerous
    → Normal m
Normal-validated d m h kinds danger =
    let (same, fine) = validated_same d m h in
    subst Normal same
      (record { valid = fine; positive = positive_of_valid d fine; kinds = kinds; danger = danger })

Makes-normalize : (py : Python) (values : Fields) → Makes Normal (normalize_tool_metadata py values)
unfolding normalize_tool_metadata
Makes-normalize py values = Makes-bind _ _ (λ marked _. Makes-bind _ _ (λ read_only _.
    Makes-bind _ _ (λ policy _. Makes-bind _ _ (λ source _. Makes-bind _ _ (λ category _.
      Makes-bind _ _ (λ scope _. Makes-bind _ _ (λ effect _. Makes-bind _ _ (λ destructive _.
        Makes-bind _ _ (λ sensitive _. Makes-bind _ _ (λ redaction _. Makes-bind _ _ (λ max_chars _.
          Makes-bind _ _ (λ artifacts _. Makes-bind _ _ (λ kinds read. record {
            has = λ m made.
                Normal-validated _ m made
                  (tuple_given py (or_default (get "artifact_kinds" values) (arr nil)) kinds read)
                  (danger_settled policy (is_some (get "dangerous" values)) marked);
          })))))))))))))

-- Metadata that `normalize_tool_metadata` has accepted, from any mapping, is what it makes again of the
-- mapping that `to_metadata` writes.
pub normalize_tool_metadata-to_metadata :
    (py : Python) (values : Fields) (m : ToolMetadata)
    → normalize_tool_metadata py values ≡ some m
    → normalize_tool_metadata py (to_metadata py m) ≡ some m
normalize_tool_metadata-to_metadata py values m h =
    read_back py m ((Makes-normalize py values).has m h)

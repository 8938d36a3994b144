-- ===== src/Tools/Steps.antt =====
-- Chains of steps that make metadata, read from the result backwards.
use vermay_agent.Prelude.{◌≡◌, refl, true, Option, none, some, arith, Bool-cases, inl, inr}
use vermay_agent.Tools.{ToolMetadata, is_valid, validate_tool_metadata, ◌>>=◌}

-- What `o` makes, if it makes anything, has the property.
pub record Makes (P : ToolMetadata → Type 0) (o : Option ToolMetadata) : Type 0 where
  pub has : (m : ToolMetadata) → o ≡ some m → P m

pub Makes-bind :
    {A : Type 0} {P : ToolMetadata → Type 0} (o : Option A) (k : A → Option ToolMetadata)
    → ((a : A) → o ≡ some a → Makes P (k a))
    → Makes P (o >>= k)
unfolding ◌>>=◌
Makes-bind none k h = record { has = λ m e. absurd (ground (arith, e)) }
Makes-bind (some a) k h = h a refl

pub validated_same :
    (d m : ToolMetadata) → validate_tool_metadata d ≡ some m → (d ≡ m) × (is_valid d ≡ true)
unfolding validate_tool_metadata
validated_same d m h = elim (Bool-cases (is_valid d)) [
  | inl fine ↦ (ground (arith, h, fine), fine)
  | inr bad ↦ absurd (ground (arith, h, bad))
]

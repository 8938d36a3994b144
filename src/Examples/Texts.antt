-- ===== src/Examples/Texts.antt =====
-- Context sections on concrete texts.
use vermay_agent.Prelude.{◌≤◌, ◌≡◌, true, [], ◌∷◌, ℕ, zero, suc}
use vermay_agent.Sections.{Text, context_messages}
use vermay_agent.Sections.Bounds.{total, all_within, context_messages-within}

abbrev letters : ℕ → Text
letters zero = []
letters (suc n) = 97 ∷ letters n

context_messages-within_example :
    (total (context_messages 50 40 (letters 45 ∷ [] ∷ letters 30 ∷ letters 5 ∷ [])) ≤ 50)
    × (all_within 40 (context_messages 50 40 (letters 45 ∷ [] ∷ letters 30 ∷ letters 5 ∷ []))
        ≡ true)
context_messages-within_example =
    context_messages-within 50 40 (letters 45 ∷ [] ∷ letters 30 ∷ letters 5 ∷ [])

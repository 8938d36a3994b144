-- ===== src/Sections.antt =====
-- vermay/runtime_context.py (`RuntimeContextProvider`): the bounded sections that go before a prompt.
-- A text is the list of its code points. What the providers of prompts, skills, memory and
-- resources render is the argument `sections`, in the order of the calls of `append_section`.
pub mod Bounds
use vermay_agent.Prelude.{
  ℕ, zero, suc, ◌-◌, Bool, true, false, ◌||◌, List, [], ◌∷◌, ◌++◌, length, leb, if◌then◌else◌,
}

abbrev pub Text : Type 0
Text = List ℕ

-- `content[:n]`
unfoldable pub take : ℕ → Text → Text
take n [] = []
take zero (c ∷ cs) = []
take (suc n) (c ∷ cs) = c ∷ take n cs

-- `_TRUNCATION_SUFFIX`: a line feed and "[Context section truncated.]"
abbrev pub truncation_suffix : Text
truncation_suffix =
    10 ∷ 91 ∷ 67 ∷ 111 ∷ 110 ∷ 116 ∷ 101 ∷ 120 ∷ 116 ∷ 32 ∷ 115 ∷ 101 ∷ 99 ∷ 116 ∷ 105 ∷ 111 ∷ 110
    ∷ 32 ∷ 116 ∷ 114 ∷ 117 ∷ 110 ∷ 99 ∷ 97 ∷ 116 ∷ 101 ∷ 100 ∷ 46 ∷ 93 ∷ []

unfoldable pub truncate_context_section : Text → ℕ → Text
truncate_context_section content limit =
    if leb (length content) limit
    then content
    else if leb limit (length truncation_suffix)
    then take limit content
    else take (limit - length truncation_suffix) content ++ truncation_suffix

abbrev pub min : ℕ → ℕ → ℕ
min a b = if leb a b then a else b

abbrev pub no_text : Text → Bool
no_text [] = true
no_text _ = false

-- The messages so far, and the characters that remain.
pub record Budget : Type 0 where
  pub messages : List Text
  pub remaining : ℕ

unfoldable pub put_section : Text → Budget → Budget
put_section bounded b =
    if no_text bounded
    then b
    else record { messages = b.messages ++ bounded ∷ []; remaining = b.remaining - length bounded }

unfoldable pub append_section : ℕ → Text → Budget → Budget
append_section max_section content b =
    if no_text content || leb b.remaining 0
    then b
    else put_section (truncate_context_section content (min max_section b.remaining)) b

unfoldable pub append_sections : ℕ → List Text → Budget → Budget
append_sections max_section [] b = b
append_sections max_section (content ∷ sections) b =
    append_sections max_section sections (append_section max_section content b)

unfoldable pub context_messages : ℕ → ℕ → List Text → List Text
context_messages max_context max_section sections =
    (append_sections max_section sections
      (record { messages = []; remaining = max_context })).messages

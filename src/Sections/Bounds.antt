-- ===== src/Sections/Bounds.antt =====
-- The limits that the assembled context keeps.
use vermay_agent.Prelude.{
  ℕ, zero, suc, ◌+◌, ◌-◌, ◌≤◌, ◌≡◌, refl, Bool, true, false, List, [], ◌∷◌, ◌++◌, length,
  length-append, leb, if◌then◌else◌, arith, Bool-cases, inl, inr,
}
use vermay_agent.Sections.{
  Text, take, truncation_suffix, truncate_context_section, min, Budget, put_section, append_section,
  append_sections, context_messages,
}

length-take : (n : ℕ) (text : Text) → length (take n text) ≤ n
unfolding take
length-take n [] = omega arith
length-take zero (c ∷ cs) = omega arith
length-take (suc n) (c ∷ cs) = omega (arith, length-take n cs)

-- A section is cut to its limit, the mark that says so included.
length-truncate_context_section :
    (content : Text) (limit : ℕ) → length (truncate_context_section content limit) ≤ limit
unfolding truncate_context_section
length-truncate_context_section content limit = ground (
  arith,
  length-take limit content,
  length-take (limit - 29) content,
  length-append (take (limit - 29) content) truncation_suffix,
)

unfoldable pub total : List Text → ℕ
total [] = 0
total (text ∷ texts) = length text + total texts

total-append :
    (texts : List Text) (text : Text) → total (texts ++ text ∷ []) ≡ total texts + length text
unfolding total
total-append [] text = omega arith
total-append (x ∷ texts) text = omega (arith, total-append texts text)

-- Every message is within the limit of a section.
unfoldable pub all_within : ℕ → List Text → Bool
all_within limit [] = true
all_within limit (text ∷ texts) = if leb (length text) limit then all_within limit texts else false

all_within-append :
    (limit : ℕ) (texts : List Text) (text : Text)
    → all_within limit texts ≡ true
    → length text ≤ limit
    → all_within limit (texts ++ text ∷ []) ≡ true
unfolding all_within
all_within-append limit [] text h k = ground arith
all_within-append limit (x ∷ texts) text h k = ground (arith, all_within-append limit texts text)

-- What has been handed out and what remains add up to the limit of the whole.
record Within (max_context max_section : ℕ) (b : Budget) : Type 0 where
  budget : total b.messages + b.remaining ≡ max_context
  sections : all_within max_section b.messages ≡ true

put_section-Within :
    (max_context max_section : ℕ) (text : Text) (b : Budget)
    → length text ≤ max_section
    → length text ≤ b.remaining
    → Within max_context max_section b
    → Within max_context max_section (put_section text b)
unfolding put_section
put_section-Within max_context max_section [] b fits left w = w
put_section-Within max_context max_section (c ∷ cs) b fits left w = record {
  budget = omega (arith, left, w.budget, total-append b.messages (c ∷ cs));
  sections = all_within-append max_section b.messages (c ∷ cs) w.sections fits;
}

append_section-Within :
    (max_context max_section : ℕ) (content : Text) (b : Budget)
    → Within max_context max_section b
    → Within max_context max_section (append_section max_section content b)
unfolding append_section
append_section-Within max_context max_section [] b w = w
append_section-Within max_context max_section (c ∷ cs) b w =
    let limit = min max_section b.remaining in
    let cut = truncate_context_section (c ∷ cs) limit in
    let bound = length-truncate_context_section (c ∷ cs) limit in
    elim (Bool-cases (leb b.remaining 0)) [
      | inl spent ↦ rw spent w
      | inr left ↦ rw left (
          put_section-Within max_context max_section cut b (ground (arith, bound))
            (ground (arith, bound)) w)
    ]

append_sections-Within :
    (max_context max_section : ℕ) (sections : List Text) (b : Budget)
    → Within max_context max_section b
    → Within max_context max_section (append_sections max_section sections b)
unfolding append_sections
append_sections-Within max_context max_section [] b w = w
append_sections-Within max_context max_section (content ∷ sections) b w =
    append_sections-Within max_context max_section sections (append_section max_section content b)
      (append_section-Within max_context max_section content b w)

start_budget : (n : ℕ) → total [] + n ≡ n
unfolding total
start_budget n = omega arith

-- Whatever the providers render, the messages together have at most `max_context_characters`
-- characters and each has at most `max_section_characters`.
pub context_messages-within :
    (max_context max_section : ℕ) (sections : List Text)
    → (total (context_messages max_context max_section sections) ≤ max_context)
      × (all_within max_section (context_messages max_context max_section sections) ≡ true)
unfolding context_messages all_within
context_messages-within max_context max_section sections =
    let start : Budget = record { messages = []; remaining = max_context } in
    let w =
      append_sections-Within max_context max_section sections start
        (record { budget = start_budget max_context; sections = refl }) in
    (omega (arith, w.budget), w.sections)

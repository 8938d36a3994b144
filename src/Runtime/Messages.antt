-- ===== src/Runtime/Messages.antt =====
-- The messages of a run: whose tool calls are the latest, and which block of tool messages is last.
use mathlib.Core.List.{append-nil, append_assoc}
use vermay_agent.Prelude.{
  String, ◌≡◌, ◌∙◌, sym, refl, Bool, true, false, not, some, List, [], ◌∷◌, ◌++◌, map,
  if◌then◌else◌, arith,
}
use vermay_agent.Runtime.State.{Call, ToolMessage, Message, ai, tool, prompt, latest_calls, is_nil}
use vermay_agent.Runtime.LatestBlock.{last_block, latest_tool_messages-last_block}
use vermay_agent.Runtime.Nodes.{latest_tool_messages}

-- The last message is the model's, and it calls a tool.
unfoldable pub ends_with_calls : List Message → Bool
ends_with_calls [] = false
ends_with_calls (ai _ calls ∷ []) = not (is_nil calls)
ends_with_calls (tool _ ∷ []) = false
ends_with_calls (prompt _ ∷ []) = false
ends_with_calls (m ∷ (n ∷ ms)) = ends_with_calls (n ∷ ms)

pub latest_calls-append :
    (ms : List Message) (content : String) (calls : List Call)
    → latest_calls (ms ++ ai content calls ∷ []) ≡ some calls
unfolding latest_calls
latest_calls-append [] content calls = refl
latest_calls-append (m ∷ ms) content calls = rw (latest_calls-append ms content calls) refl

pub ends_with_calls-append :
    (ms : List Message) (content : String) (calls : List Call)
    → is_nil calls ≡ false
    → ends_with_calls (ms ++ ai content calls ∷ []) ≡ true
unfolding ends_with_calls
ends_with_calls-append [] content calls h = ground (arith, h)
ends_with_calls-append (m ∷ []) content calls h = ground (arith, h)
ends_with_calls-append (m ∷ (n ∷ ms)) content calls h =
    ends_with_calls-append (n ∷ ms) content calls h

last_block-open :
    (block results : List ToolMessage) → last_block (map tool results) block true ≡ block ++ results
unfolding last_block
last_block-open block [] = sym (append-nil block)
last_block-open block (r ∷ results) =
    last_block-open (block ++ r ∷ []) results ∙ append_assoc block (r ∷ []) results

last_block-results :
    (ms : List Message) (results block : List ToolMessage) (open_ : Bool) (r : ToolMessage)
    → ends_with_calls ms ≡ true
    → last_block (ms ++ map tool (r ∷ results)) block open_ ≡ r ∷ results
unfolding last_block ends_with_calls
last_block-results [] results block open_ r h = cc
last_block-results (ai _ calls ∷ []) results block open_ r h = last_block-open (r ∷ []) results
last_block-results (tool m ∷ []) results block open_ r h = cc
last_block-results (prompt _ ∷ []) results block open_ r h = cc
last_block-results (ai _ _ ∷ (n ∷ ms)) results block open_ r h =
    last_block-results (n ∷ ms) results block false r h
last_block-results (prompt _ ∷ (n ∷ ms)) results block open_ r h =
    last_block-results (n ∷ ms) results block false r h
last_block-results (tool m ∷ (n ∷ ms)) results block open_ r h =
    last_block-results (n ∷ ms) results (if open_ then block ++ m ∷ [] else m ∷ []) true r h

-- Results that follow the model's message are the ones that are found.
pub latest_results :
    (ms : List Message) (results : List ToolMessage) (r : ToolMessage)
    → ends_with_calls ms ≡ true
    → latest_tool_messages (ms ++ map tool (r ∷ results)) ≡ r ∷ results
latest_results ms results r h =
    latest_tool_messages-last_block (ms ++ map tool (r ∷ results))
    ∙ last_block-results ms results [] false r h

-- The model's message that ends the messages is the latest one.
pub latest_calls-ends :
    (ms : List Message)
    → ends_with_calls ms ≡ true
    → (c : Call) × (calls : List Call) × (latest_calls ms ≡ some (c ∷ calls))
unfolding latest_calls ends_with_calls
latest_calls-ends [] h = absurd (ground arith)
latest_calls-ends (ai _ [] ∷ []) h = absurd (ground arith)
latest_calls-ends (ai _ (c ∷ calls) ∷ []) h = (c, calls, refl)
latest_calls-ends (tool m ∷ []) h = absurd (ground arith)
latest_calls-ends (prompt _ ∷ []) h = absurd (ground arith)
latest_calls-ends (m ∷ (n ∷ ms)) h =
    let (c, calls, found) = latest_calls-ends (n ∷ ms) h in (c, calls, rw found refl)

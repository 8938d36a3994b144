-- ===== src/Runtime/LatestBlock.antt =====
-- vermay/langgraph_runtime/nodes.py: `_latest_tool_messages`, which reads the messages backwards, and the
-- last block of tool messages, read forwards.
use mathlib.Core.List.{
  reverse, reverse-cons, reverse-append, reverse-reverse, append-nil, append_assoc,
}
use vermay_agent.Prelude.{
  ◌≡◌, ◌∙◌, sym, ap, refl, Bool, true, false, List, [], ◌∷◌, ◌++◌, if◌then◌else◌,
}
use vermay_agent.Runtime.State.{ToolMessage, Message, ai, tool, prompt}
use vermay_agent.Runtime.Nodes.{no_messages, collect_tools, latest_tool_messages}

-- The last block of messages of tools; `open_` while a block lasts.
unfoldable pub last_block : List Message → List ToolMessage → Bool → List ToolMessage
last_block [] block open_ = block
last_block (tool m ∷ ms) block open_ =
    last_block ms (if open_ then block ++ m ∷ [] else m ∷ []) true
last_block (ai _ _ ∷ ms) block open_ = last_block ms block false
last_block (prompt _ ∷ ms) block open_ = last_block ms block false

-- The block so far, and whether it lasts.
abbrev Scan : Type 0
Scan = List ToolMessage × Bool

abbrev scan_one : Message → Scan → Scan
scan_one (tool m) (block, open_) = ((if open_ then block ++ m ∷ [] else m ∷ []), true)
scan_one (ai _ _) (block, open_) = (block, false)
scan_one (prompt _) (block, open_) = (block, false)

scan : List Message → Scan → Scan
scan [] state = state
scan (m ∷ ms) state = scan ms (scan_one m state)

last_block-scan :
    (ms : List Message) (block : List ToolMessage) (open_ : Bool)
    → last_block ms block open_ ≡ (scan ms (block, open_)).0
unfolding last_block scan
last_block-scan [] block open_ = refl
last_block-scan (tool m ∷ ms) block open_ =
    last_block-scan ms (if open_ then block ++ m ∷ [] else m ∷ []) true
last_block-scan (ai _ _ ∷ ms) block open_ = last_block-scan ms block false
last_block-scan (prompt _ ∷ ms) block open_ = last_block-scan ms block false

scan-append :
    (ms : List Message) (m : Message) (state : Scan)
    → scan (ms ++ m ∷ []) state ≡ scan_one m (scan ms state)
unfolding scan
scan-append [] m state = refl
scan-append (n ∷ ms) m state = scan-append ms m (scan_one n state)

-- The scan of reversed messages, from the start.
scanned : List Message → Scan
scanned rs = scan (reverse rs) ([], false)

scanned-cons : (m : Message) (rs : List Message) → scanned (m ∷ rs) ≡ scan_one m (scanned rs)
unfolding scanned
scanned-cons m rs =
    ap (λ ms. scan ms ([], false)) (reverse-cons m rs) ∙ scan-append (reverse rs) m ([], false)

-- What the backwards loop still adds to a block that it has begun.
abbrev still : Scan → List ToolMessage
still (block, true) = reverse block
still (block, false) = []

still_tool : (m : ToolMessage) (state : Scan) → m ∷ still state ≡ still (scan_one (tool m) state)
still_tool m (block, true) = sym (reverse-append block (m ∷ []))
still_tool m (block, false) = refl

begun : (found : List ToolMessage) (m : ToolMessage) → no_messages (found ++ m ∷ []) ≡ false
begun [] m = refl
begun (f ∷ found) m = refl

collect_begun :
    (rs : List Message) (found : List ToolMessage)
    → no_messages found ≡ false
    → collect_tools rs found ≡ found ++ still (scanned rs)
unfolding collect_tools scanned scan
collect_begun [] found h = sym (append-nil found)
collect_begun (tool m ∷ rs) found h =
    collect_begun rs (found ++ m ∷ []) (begun found m)
    ∙ append_assoc found (m ∷ []) (still (scanned rs))
    ∙ ap (λ more. found ++ more)
        (still_tool m (scanned rs) ∙ ap still (sym (scanned-cons (tool m) rs)))
collect_begun (ai content calls ∷ rs) found h =
    rw h (
      sym (append-nil found)
      ∙ ap (λ s. found ++ still s) (sym (scanned-cons (ai content calls) rs)))
collect_begun (prompt text ∷ rs) found h =
    rw h (sym (append-nil found) ∙ ap (λ s. found ++ still s) (sym (scanned-cons (prompt text) rs)))

collect_all : (rs : List Message) → collect_tools rs [] ≡ reverse (scanned rs).0
unfolding collect_tools scanned scan
collect_all [] = refl
collect_all (tool m ∷ rs) =
    collect_begun rs (m ∷ []) refl
    ∙ still_tool m (scanned rs)
    ∙ ap (λ s. reverse s.0) (sym (scanned-cons (tool m) rs))
collect_all (ai content calls ∷ rs) =
    collect_all rs ∙ ap (λ s. reverse s.0) (sym (scanned-cons (ai content calls) rs))
collect_all (prompt text ∷ rs) =
    collect_all rs ∙ ap (λ s. reverse s.0) (sym (scanned-cons (prompt text) rs))

-- `_latest_tool_messages`, which reads the messages backwards and stops before the first message of
-- another kind that it meets after a tool message, finds the last block of adjacent tool messages, in
-- their order.
pub latest_tool_messages-last_block :
    (messages : List Message) → latest_tool_messages messages ≡ last_block messages [] false
unfolding latest_tool_messages scanned
latest_tool_messages-last_block messages =
    ap reverse (collect_all (reverse messages))
    ∙ reverse-reverse (scanned (reverse messages)).0
    ∙ ap (λ ms. (scan ms ([], false)).0) (reverse-reverse messages)
    ∙ sym (last_block-scan messages [] false)

-- ===== src/Tools/Held.antt =====
-- vermay/permission.py and vermay/langgraph_runtime: a dangerous tool in a run that the policy gates.
use mathlib.Core.Path.{subst}
use vermay_agent.Prelude.{
  ℕ, ◌+◌, String, ◌≡◌, true, false, not, ◌||◌, Option, none, some, List, ◌∷◌, ◌++◌, map, select,
}
use vermay_agent.Json.{bool, Fields, get}
use vermay_agent.Runtime.Policy.{ExecutionPolicy, is_policy}
use vermay_agent.Runtime.State.{
  AgentState, Call, Message, Decision, check_permission, approval_required, latest_calls,
  calls_or_none,
}
use vermay_agent.Runtime.Nodes.{Input, status_is, gate_decision}
use vermay_agent.Runtime.Graph.{at, run, step}
use vermay_agent.Runtime.Budget.{Holds, AnswersCalls}
use vermay_agent.Runtime.Bounds.{initial, Holds-initial_run, fresh_at_check}
use vermay_agent.Runtime.Gated.{runs_tools, all_approved, Guarded-check}
use vermay_agent.Tools.{Python, ToolMetadata, normalize_tool_metadata}
use vermay_agent.Tools.Permission.{gate_of, gate_of-dangerous}

-- The decisions that wait for an answer, of those on the calls of the model in a state.
abbrev pub waiting_decisions : Input → (String → Option ToolMetadata) → AgentState → List Decision
waiting_decisions i registry st =
    select (status_is approval_required)
      (map (gate_decision i (gate_of registry)) (calls_or_none (latest_calls st.messages)))

-- In a run of the graph from its start, for a policy that passes its checks, when the permission check
-- is reached, the gate there asks the permission policy, and one of the model's calls is of a tool
-- that the registry knows by metadata normalised from a mapping with `dangerous` set and no approval
-- policy: the check never leads to the tools, and the node after it leads there only if each decision
-- that waits has been answered with an approval.
pub dangerous_held :
    (py : Python) (values : Fields) (m : ToolMetadata) (registry : String → Option ToolMetadata)
    (p : ExecutionPolicy) (messages : List Message) (started : ℕ) (world : ℕ → Input) (fuel : ℕ)
    (st : AgentState) (before after : List Call) (c : Call)
    → normalize_tool_metadata py values ≡ some m
    → get "dangerous" values ≡ some (bool true)
    → get "approval_policy" values ≡ none
    → registry c.name ≡ some m
    → is_policy p ≡ true
    → ((k : ℕ) → AnswersCalls (world k))
    → run fuel world 0 (initial messages p started) ≡ at check_permission st
    → (world fuel).gate ≡ some (gate_of registry)
    → calls_or_none (latest_calls st.messages) ≡ before ++ c ∷ after
    → (runs_tools (step (world fuel) (at check_permission st)) ≡ false)
      × (not (runs_tools (step (world (fuel + 1)) (step (world fuel) (at check_permission st))))
            || all_approved
                (waiting_decisions (world fuel) registry st)
                (world (fuel + 1)).approvals
          ≡ true)
dangerous_held py values m registry p messages started world fuel st before after c made danger
      absent known valid answers reached gated split =
    let holds : Holds p (at check_permission st) =
      subst (Holds p) reached (Holds-initial_run p messages started world valid answers fuel) in
    Guarded-check (world fuel) (world (fuel + 1)) st (gate_of registry) before after c
      (fresh_at_check p st holds) split gated
      (gate_of-dangerous py values m registry c made danger absent known)

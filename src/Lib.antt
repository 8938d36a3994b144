-- ===== src/Lib.antt =====
-- vermay-agent: the durable control plane of its Tasks.
--
-- A Task is one unit of work of the agent. The core (vermay/main_agent/core.py) takes commands,
-- the store (vermay/main_agent/store.py, with vermay/main_agent/models.py and
-- vermay/main_agent/store_mappers.py) keeps every fact in SQLite, workers claim queued commands
-- and hand their results to the outcome recorder (vermay/main_agent/task_outcomes.py), and a tool
-- with side effects passes the ledger (vermay/main_agent/invocation_ledger.py) before and after
-- it runs. Each change of a Task's status goes through vermay/main_agent/lifecycle.py.
--
-- - Prelude: the library's names, Boolean tests, lists and texts; Prelude.Table models a table by
--   its rows in order of insertion, with SELECT, INSERT, UPDATE and DELETE by a text key.
-- - Storage: `execute`, `transaction` and `register_after_commit` of vermay/storage.py over any data.
-- - Exec: a call as a function from the store to a result and a store. Each `raise` is a
--   constructor of `Error`. `transaction` takes back the writes of a call that raises, as the
--   outermost scope of `Storage.transaction` (vermay/storage.py) does; no modelled caller catches
--   an error inside a transaction, so an inner scope may do the same.
-- - Lifecycle: the two transition tables, `validate_local_task_transition`,
--   `accepts_remote_proxy_snapshot` and `lifecycle_event_type_for_status`.
-- - Json, Command: JSON values, and the queued worker commands with their JSON column
--   (`queued_task_execution_payload_to_dict`, `queued_task_execution_payload_from_dict`).
-- - Store: the tables as a record of lists. Store.Tasks has transitions and events, Store.Messages
--   messages and artifacts, Store.Queue pending continuations and queued commands,
--   Store.Invocations the tool invocations; each function has the name of its method of
--   `MainAgentStore`.
-- - Outcomes: `TaskOutcomeRecorder` for local results, with the projections of
--   vermay/main_agent/task_result_projection.py; Outcomes.Results has `record_local_result`,
--   Outcomes.Endings any sequence of recorder calls.
-- - Core: `commit_cancellation` of `_cancel_task`, and `_reconcile_startup`; Core.Continuations has
--   `_resolve_approval` and `_submit_task_input`, which wake the worker after their commit
--   (`_start_committed_local_task`).
-- - Ledger: the methods of `MainAgentToolInvocationLedger`; Ledger.Redaction has
--   `_redact_value`.
-- - Sections: `context_messages` and `_truncate_context_section` of vermay/runtime_context.py, over
--   texts as lists of code points.
-- - Runtime: the graph that runs one Task (vermay/langgraph_runtime). Runtime.Policy and
--   Runtime.Checkpoint have execution.py, Runtime.State the state and the routes (state.py,
--   routing.py), Runtime.Nodes each node as a function from the state and what it reads from outside
--   (nodes.py, observations.py), Runtime.Graph the edges and the run (graph.py). Runtime.Budget
--   has the invariant of each node, Runtime.Spending counts what a run asks of the model and of the
--   tools, Runtime.Gated follows a call that the gate holds, Runtime.Halting has the measure of a
--   position.
-- - Tools: `normalize_tool_metadata`, `validate_tool_metadata` and `to_metadata` of
--   vermay/tool_metadata.py; Tools.Permission has `PermissionPolicy.check` of vermay/permission.py,
--   Tools.Held joins it to the graph.
-- - Ledger.Wrapper: `tool_call_wrapper` of vermay/langgraph_runtime/nodes.py, over the ledger.
-- - Examples: concrete stores, runs and calls.
--
-- Each loop of the modelled code runs over a list of rows and is structural recursion, so no fuel
-- is needed, but for two. `show_nat`, Python's `str` of a number, has the number itself as fuel. A run
-- of the graph has as fuel the number of nodes that it may enter; 6 * max_loop_steps + 6 is enough,
-- since a loop enters six nodes at most.
--
-- Arguments stand for what is not read here: new ids (`uuid4`), digests (`sha256` over
-- `json.dumps`), `str.casefold`, what vermay/errors.py reads off an exception, whether a worker is
-- active and what its `wake` does: to the store and with which exception after a continuation, and
-- at startup its answer alone, as a `wake` that writes nothing before it. Columns of time are left out. Rows stand in the order of their
-- creation, as `created_at` orders them.
--
-- Not modelled: the creation of Tasks and message ingress, remote agents and their delegations,
-- retries of the core,
-- the HTTP and A2A interfaces, model clients, MCP, tools, the web application, and SQLite itself
-- with its locks and threads.
pub mod Prelude
pub mod Storage
pub mod Exec
pub mod Lifecycle
pub mod Json
pub mod Command
pub mod Store
pub mod Ledger
pub mod Outcomes
pub mod Core
pub mod Sections
pub mod Runtime
pub mod Tools
pub mod Examples

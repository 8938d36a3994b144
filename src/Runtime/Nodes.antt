-- ===== src/Runtime/Nodes.antt =====
-- vermay/langgraph_runtime/nodes.py: what each node of the graph does to the state. Progress, traces
-- and the ledger's cancellations are left out. `Input` holds what a node reads from outside.
mod Reading
mod Model
mod Permission
mod Answers
mod Observed
unfoldable pub use Reading.*
unfoldable pub use Model.*
unfoldable pub use Permission.*
unfoldable pub use Answers.*
unfoldable pub use Observed.*

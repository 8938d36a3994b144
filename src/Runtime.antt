-- ===== src/Runtime.antt =====
-- vermay/langgraph_runtime: the bounded loop of model calls, permission checks and tool calls.
pub mod Policy
pub mod Checkpoint
pub mod State
pub mod Nodes
pub mod Graph
pub mod Asking
pub mod LatestBlock
pub mod Messages
pub mod Budget
pub mod Spending
pub mod Bounds
pub mod Gated
pub mod Halting

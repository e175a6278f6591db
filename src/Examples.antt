-- ===== src/Examples.antt =====
-- A small graph, and what the theorems say of it.
pub mod Data
pub mod Signer
pub mod Graphs
pub mod Changes
pub mod Plans
pub mod Agents
pub mod Live
pub mod Stores
pub mod Ports
pub mod Sessions
pub mod Handled
pub mod Approvals

-- ===== src/Workflow.antt =====
-- The workflow of one certificate (internal/controller/certificatejob_controller.go): the graph of
-- job nodes, their phases, what may run next, and what a failure skips.
pub mod Nodes
pub mod Phase
pub mod Runnable
pub mod Ready
pub mod OwnNodes
pub mod InOrder
pub mod Failure
pub mod Descendants
pub mod Graph
pub mod Acyclic

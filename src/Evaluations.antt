-- ===== src/Evaluations.antt =====
-- src/ai_agent/evaluations: datasets, evaluation runs and the release gate.
pub mod Rows
pub mod Gate
pub mod Suite
pub mod Datasets
pub mod Policies
pub mod Execution
pub mod Completion
pub mod Cases
pub mod Executor
pub mod Ending
pub mod Verdicts
pub mod Replay
pub mod Snapshots
pub mod Lifecycle

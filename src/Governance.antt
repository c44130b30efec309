-- ===== src/Governance.antt =====
-- src/ai_agent/governance: quotas and the retention of audit records.
pub mod Redis
pub mod Keys
pub mod Scripts
pub mod Quota
pub mod Retention

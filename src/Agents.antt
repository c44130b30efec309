-- ===== src/Agents.antt =====
-- src/ai_agent/agents/control.py: managed Agents, their versions and releases.
pub mod Rows
pub mod Config
pub mod Drafts
pub mod Release
pub mod Resolve
pub mod History
pub mod Evidence
pub mod Budget
pub mod Model
pub mod Single
pub mod Rounds

-- ===== src/Audit.antt =====
-- src/ai_agent/audit/service.py: audit records.
pub mod Redaction
pub mod Integrity
pub mod Verify
use aiagent.Prelude.{ℕ, Option, String}
use aiagent.Json.{Fields}

-- The keyword arguments of `AuditService.record`; a UUID is the number that stands for it.
pub record AuditRequest : Type 0 where
  pub organization_id : Option ℕ
  pub actor_user_id : Option ℕ
  pub action : String
  pub resource_type : String
  pub resource_id : Option ℕ
  pub trace_id : Option ℕ
  pub details : Fields

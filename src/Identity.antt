-- ===== src/Identity.antt =====
-- src/ai_agent/identity/service.py: users, organizations, members and their roles.
pub mod Rows
pub mod Permissions
pub mod Access
pub mod Members
pub mod Administrators
pub mod Roles
pub mod Organizations
pub mod Founding
pub mod Upsert
pub mod Revocation
pub mod Local

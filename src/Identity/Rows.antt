-- ===== src/Identity/Rows.antt =====
-- The tables of identity/service.py (persistence/models.py); a UUID is a natural number.
use aiagent.Prelude.{ℕ, List, String, Option, Bool, find, ◌==◌}
use aiagent.Audit.{AuditRequest}

pub record User : Type 0 where
  pub id : ℕ
  pub issuer : String
  pub subject : String
  pub display_name : String
  pub email : Option String
  pub is_active : Bool

pub record Organization : Type 0 where
  pub id : ℕ
  pub name : String

pub record OrganizationMember : Type 0 where
  pub id : ℕ
  pub organization_id : ℕ
  pub user_id : ℕ

pub record Role : Type 0 where
  pub id : ℕ
  pub organization_id : ℕ
  pub code : String
  pub display_name : String

pub record RolePermission : Type 0 where
  pub role_id : ℕ
  pub permission_code : String

pub record MemberRole : Type 0 where
  pub member_id : ℕ
  pub role_id : ℕ

-- `permissions` holds the rows of the table of that name, a code and its description.
pub record Tables : Type 0 where
  pub users : List User
  pub organizations : List Organization
  pub members : List OrganizationMember
  pub permissions : List (String × String)
  pub roles : List Role
  pub role_permissions : List RolePermission
  pub member_roles : List MemberRole
  pub audit : List AuditRequest

-- `session.get(User, user_id)`.
abbrev pub find_user : ℕ → Tables → Option User
find_user user_id db = find (λ u. u.id == user_id) db.users

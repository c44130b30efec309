-- ===== src/Tests/Members.antt =====
-- Members and roles of identity/service.py in a small organization.
use aiagent.Prelude.{
  refl, ℕ, ◌≤◌, All, String, ◌∷◌, ◌≡◌, none, some, true, [], arith, str_eq, List, if◌then◌else◌,
  find, IsIn,
}
use aiagent.Identity.Rows.{Tables, User, OrganizationMember, MemberRole, Role, find_user}
use aiagent.Errors.{Attempt, authorization_error, returns, after, found, raises, require, conflict}
use aiagent.Identity.Members.{remove_member, set_member_roles, count_distinct, admin_count}
use aiagent.Identity.Access.{access, OrganizationAccess, is_active_user}
use aiagent.Identity.Organizations.{NewIds, create_organization}
use aiagent.Identity.Permissions.{member_manage}
use aiagent.Identity.Administrators.{remove_member-admin_count}
use aiagent.Identity.Founding.{create_organization-access}
use aiagent.Identity.Roles.{set_member_roles-admin_count}
use aiagent.Identity.Revocation.{remove_member-access, access_sound, Grants}
use aiagent.Identity.Local.{
  Passwords, verify_password, hash_password, login, LocalCredential, login-credential,
}

abbrev user : ℕ → User
user id = record {
  id = id;
  issuer = "local";
  subject = "s";
  display_name = "n";
  email = none;
  is_active = true;
}

abbrev row : ℕ → ℕ → OrganizationMember
row id user_id = record { id = id; organization_id = 1; user_id = user_id }

abbrev role : ℕ → String → Role
role id code = record { id = id; organization_id = 1; code = code; display_name = code }

abbrev grant : ℕ → ℕ → MemberRole
grant member_id role_id = record { member_id = member_id; role_id = role_id }

-- Two administrators: the users 2 and 3, with the rows 20 and 30.
abbrev tables : Tables
tables = record {
  users = user 2 ∷ user 3 ∷ [];
  organizations = record { id = 1; name = "acme" } ∷ [];
  members = row 20 2 ∷ row 30 3 ∷ [];
  permissions = [];
  roles = role 5 "organization_admin" ∷ role 6 "member" ∷ [];
  role_permissions = record { role_id = 5; permission_code = member_manage } ∷ [];
  member_roles = grant 20 5 ∷ grant 30 5 ∷ [];
  audit = [];
}

abbrev tables_of : Attempt Tables → Tables
tables_of (returns t) = t
tables_of (raises _) = tables

removed : remove_member 2 1 30 tables ≡ returns (tables_of (remove_member 2 1 30 tables))
unfolding remove_member access after found require count_distinct
removed = refl

assigned :
    set_member_roles 2 1 30 ("member" ∷ []) tables
    ≡ returns (tables_of (set_member_roles 2 1 30 ("member" ∷ []) tables))
unfolding set_member_roles access after found require count_distinct
assigned = refl

one_admin : 1 ≤ admin_count 1 tables
unfolding count_distinct
one_admin = omega arith

-- The last administrator cannot be removed.
last_stays :
    remove_member 2 1 20 (tables_of (remove_member 2 1 30 tables))
    ≡ raises (conflict "The organization must retain at least one administrator.")
unfolding remove_member access after found require count_distinct
last_stays = refl

remove_member-admin_count_example : 1 ≤ admin_count 1 (tables_of (remove_member 2 1 30 tables))
remove_member-admin_count_example = remove_member-admin_count 2 1 30 tables removed one_admin

set_member_roles-admin_count_example :
    1 ≤ admin_count 1 (tables_of (set_member_roles 2 1 30 ("member" ∷ []) tables))
set_member_roles-admin_count_example =
    set_member_roles-admin_count 2 1 30 ("member" ∷ []) tables assigned one_admin

only_row : All (λ m. m.organization_id ≡ 1 → m.user_id ≡ 3 → m.id ≡ 30) tables.members
only_row = ground arith

remove_member-access_example :
    access 3 1 none (tables_of (remove_member 2 1 30 tables))
    ≡ raises (authorization_error "Organization access denied.")
remove_member-access_example = remove_member-access 2 1 30 3 none tables only_row removed

abbrev access_2 : OrganizationAccess
access_2 = record {
  organization = record { id = 1; name = "acme" };
  member = row 20 2;
  permissions = member_manage ∷ [];
}

granted : access 2 1 (some member_manage) tables ≡ returns access_2
unfolding access found require
granted = refl

access_sound_example :
    (is_active_user 2 tables ≡ true)
    × IsIn (row 20 2) tables.members
    × ((row 20 2).organization_id ≡ 1)
    × ((row 20 2).user_id ≡ 2)
    × Grants 20 1 member_manage tables
access_sound_example = access_sound 2 1 member_manage tables {a = access_2} granted refl

denied :
    access 9 1 (some member_manage) tables
    ≡ raises (authorization_error "Organization access denied.")
unfolding access found require
denied = refl

abbrev ids : NewIds
ids = record { organization = 7; member = 70; admin = 71; standard = 72 }

create_organization-access_example :
    let made = create_organization ids 3 "umbrella" tables in
    ((a : OrganizationAccess) × (access 3 7 (some "audit:view") made.1 ≡ returns a)
      × (a.organization ≡ made.0)
      × (a.member.id ≡ 70))
    × (1 ≤ admin_count 7 made.1)
create_organization-access_example =
    create_organization-access ids 3 "umbrella" "audit:view" tables refl refl

-- Passwords whose digest is the password, as long as every text is said to be.
abbrev plain : Passwords
plain = record {
  scrypt_hex = λ password salt. password;
  is_hex = λ s. true;
  len = λ s. if str_eq s "salt" then 32 else 64;
  joined = λ version salt digest. digest;
  split = λ s. "scrypt-v1" ∷ "salt" ∷ s ∷ [];
}

verifies : verify_password plain "pw" (hash_password plain "pw" "salt") ≡ true
unfolding verify_password hash_password
verifies = refl

parts : plain.split (hash_password plain "pw" "salt") ≡ "scrypt-v1" ∷ "salt" ∷ "pw" ∷ []
unfolding hash_password
parts = refl

abbrev credentials : List LocalCredential
credentials = record { email = "a@acme"; user_id = 3; password_hash = "pw" } ∷ []

logs_in : (login plain "dummy" "a@acme" "pw" credentials tables).0 ≡ returns (user 3)
unfolding login require found verify_password hash_password
logs_in = refl

login-credential_example :
    (c : LocalCredential) × (find (λ c. str_eq c.email "a@acme") credentials ≡ some c)
    × (verify_password plain "pw" c.password_hash ≡ true)
    × (find_user c.user_id tables ≡ some (user 3))
    × ((user 3).is_active ≡ true)
login-credential_example =
    login-credential plain "dummy" "a@acme" "pw" credentials tables {u = user 3} logs_in

-- ===== src/Identity/Access.antt =====
-- `IdentityService.access` and the methods that read users (identity/service.py).
use aiagent.Identity.Rows.{
  Organization, OrganizationMember, Tables, Role, User, MemberRole, find_user,
}
use aiagent.Prelude.{
  ℕ, Option, String, List, find, Bool, if◌then◌else◌, map, str_eq, any, ◌==◌, keep, true, some,
  ◌&&◌, none, ◌||◌, ◌∷◌, update,
}
use aiagent.Errors.{Attempt, authorization_error, resource_not_found, found, require, returns}
use aiagent.Identity.Permissions.{tool_permission_by_system, agent_use}

pub record OrganizationAccess : Type 0 where
  pub organization : Organization
  pub member : OrganizationMember
  pub permissions : List String

abbrev pub is_active_user : ℕ → Tables → Bool
is_active_user user_id db = any (λ u. (u.id == user_id) && u.is_active) db.users

-- The membership that the join of `access` selects; (organization_id, user_id) is unique, so there is
-- one at most.
abbrev pub membership : ℕ → ℕ → Tables → Option OrganizationMember
membership user_id organization_id db =
    if is_active_user user_id db
    then find (λ m. (m.organization_id == organization_id) && (m.user_id == user_id)) db.members
    else none

-- The member has a role of the organization with the id.
abbrev pub has_role : ℕ → ℕ → List Role → List MemberRole → ℕ → Bool
has_role member_id organization_id roles grants role_id =
    any (λ g. (g.member_id == member_id) && (g.role_id == role_id)) grants
    && any (λ r. (r.id == role_id) && (r.organization_id == organization_id)) roles

-- The codes that the roles of a member give; the set's order and repetitions do not matter.
abbrev pub permissions_of : ℕ → ℕ → Tables → List String
permissions_of member_id organization_id db =
    map (λ p. p.permission_code)
      (keep (λ p. has_role member_id organization_id db.roles db.member_roles p.role_id)
        db.role_permissions)

-- `if required_permission and required_permission not in permissions`.
abbrev pub is_permitted : Option String → List String → Bool
is_permitted none permissions = true
is_permitted (some code) permissions = str_eq code "" || any (λ p. str_eq p code) permissions

unfoldable pub access : ℕ → ℕ → Option String → Tables → Attempt OrganizationAccess
access user_id organization_id required_permission db =
    let denied = authorization_error "Organization access denied." in
    found (find (λ o. o.id == organization_id) db.organizations) denied λ organization.
      found (membership user_id organization_id db) denied λ member.
        let permissions = permissions_of member.id organization_id db in
        require (is_permitted required_permission permissions)
          (authorization_error "Required platform permission is missing.")
          (returns
            (record { organization = organization; member = member; permissions = permissions }))

-- The permission for a tool of a system; `lower` is `str.lower`.
abbrev tool_permission : (String → String) → String → String
tool_permission lower system_code =
    elim (find (λ (e : String × String). str_eq e.0 (lower system_code))
      tool_permission_by_system) [ none ↦ agent_use | some entry ↦ entry.1 ]

unfoldable pub require_tool_access :
    (String → String) → ℕ → ℕ → String → Tables → Attempt OrganizationAccess
require_tool_access lower user_id organization_id system_code db =
    access user_id organization_id (some (tool_permission lower system_code)) db

unfoldable pub get_user : ℕ → Tables → Attempt User
get_user user_id db =
    let unavailable = resource_not_found "Authenticated platform user is unavailable." in
    found (find_user user_id db) unavailable
      λ user. require user.is_active unavailable (returns user)

-- `fresh` is the id of a new row.
unfoldable pub upsert_oidc_user :
    ℕ → String → String → String → Option String → Tables → User × Tables
upsert_oidc_user fresh issuer subject display_name email db =
    let same = λ (u : User). str_eq u.issuer issuer && str_eq u.subject subject in
    elim (find same db.users) [
      | none ↦
          let user : User = record {
            id = fresh;
            issuer = issuer;
            subject = subject;
            display_name = display_name;
            email = email;
            is_active = true;
          } in
          (user, record db { users = user ∷ db.users })
      | some user ↦
          let user' : User = record user { display_name = display_name; email = email } in
          (user', record db { users = update (λ u. u.id == user.id) (λ _. user') db.users })
    ]

-- ===== src/Identity/Organizations.antt =====
-- `create_organization_in_session` of identity/service.py.
use aiagent.Prelude.{ℕ, List, String, ◌∷◌, map, if◌then◌else◌, any, str_eq, [], some, none, ◌++◌}
use aiagent.Identity.Rows.{RolePermission, Tables, Organization, OrganizationMember, Role}
use aiagent.Identity.Permissions.{permission_definitions, admin_role, member_role, member_codes}
use aiagent.Audit.{AuditRequest}
use aiagent.Json.{field, str, end}

-- The ids of the rows that the method adds.
pub record NewIds : Type 0 where
  pub organization : ℕ
  pub member : ℕ
  pub admin : ℕ
  pub standard : ℕ

-- `if session.get(Permission, code) is None: session.add(...)`, for each definition.
abbrev pub add_permissions :
    List (String × String) → List (String × String) → List (String × String)
add_permissions [] permissions = permissions
add_permissions (definition ∷ definitions) permissions = add_permissions definitions (
    if any (λ (p : String × String). str_eq p.0 (definition.0)) permissions
    then permissions
    else definition ∷ permissions)

abbrev pub give : ℕ → List String → List RolePermission
give role_id codes = map (λ c. record { role_id = role_id; permission_code = c }) codes

abbrev pub defined_codes : List String
defined_codes = map (λ (d : String × String). d.0) permission_definitions

unfoldable pub create_organization : NewIds → ℕ → String → Tables → Organization × Tables
create_organization ids user_id name db =
    let organization : Organization = record { id = ids.organization; name = name } in
    let member : OrganizationMember = record {
      id = ids.member;
      organization_id = ids.organization;
      user_id = user_id;
    } in
    let admin : Role = record {
      id = ids.admin;
      organization_id = ids.organization;
      code = admin_role;
      display_name = "Organization administrator";
    } in
    let standard : Role = record {
      id = ids.standard;
      organization_id = ids.organization;
      code = member_role;
      display_name = "Member";
    } in
    let entry : AuditRequest = record {
      organization_id = some ids.organization;
      actor_user_id = some user_id;
      action = "organization.created";
      resource_type = "organization";
      resource_id = some ids.organization;
      trace_id = none;
      details = field "name" (str name) end;
    } in
    (
      organization,
      record db {
        organizations = organization ∷ db.organizations;
        members = member ∷ db.members;
        permissions = add_permissions permission_definitions db.permissions;
        roles = admin ∷ standard ∷ db.roles;
        role_permissions =
            give ids.admin defined_codes ++ (give ids.standard member_codes ++ db.role_permissions);
        member_roles = record { member_id = ids.member; role_id = ids.admin } ∷ db.member_roles;
        audit = entry ∷ db.audit;
      },
    )

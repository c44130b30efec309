-- ===== src/Identity/Members.antt =====
-- The methods of identity/service.py that change the members of an organization.
use aiagent.Prelude.{
  ℕ, List, ◌∷◌, String, Bool, map, if◌then◌else◌, Option, keep, any, not, ◌==◌, find, some, str_eq,
  ◌&&◌, suc, none, [], leb, length, ◌++◌,
}
use aiagent.Identity.Rows.{Role, Tables, MemberRole, OrganizationMember, find_user}
use aiagent.Json.{Fields, Items, nil, cons, str, field, num, arr, end}
use aiagent.Errors.{Attempt, after, found, require, resource_not_found, conflict, returns}
use aiagent.Audit.{AuditRequest}
use aiagent.Identity.Access.{access}
use aiagent.Identity.Permissions.{member_manage, admin_role, member_role}

-- Some role of an organization with the code stands behind a grant.
abbrev pub grants_admin_in : ℕ → List Role → MemberRole → Bool
grants_admin_in organization_id roles grant =
    any
      (λ r.
        (r.id == grant.role_id)
        && ((r.organization_id == organization_id) && str_eq r.code admin_role))
      roles

abbrev pub grants_admin : List Role → MemberRole → Bool
grants_admin roles grant = any (λ r. (r.id == grant.role_id) && str_eq r.code admin_role) roles

-- The members with the administrator's role in an organization.
abbrev pub admins : ℕ → List Role → List MemberRole → List ℕ
admins organization_id roles grants =
    map (λ g. g.member_id) (keep (grants_admin_in organization_id roles) grants)

-- `count(distinct(...))`.
unfoldable pub count_distinct : List ℕ → ℕ
count_distinct [] = 0
count_distinct (x ∷ xs) =
    let rest = count_distinct xs in if any (λ y. y == x) xs then rest else suc rest

abbrev pub admin_count : ℕ → Tables → ℕ
admin_count organization_id db = count_distinct (admins organization_id db.roles db.member_roles)

-- `member_is_admin` and `current_admin`: no matter in which organization.
abbrev pub member_is_admin : ℕ → Tables → Bool
member_is_admin member_id db =
    any (λ g. (g.member_id == member_id) && grants_admin db.roles g) db.member_roles

abbrev pub find_member : ℕ → ℕ → Tables → Option OrganizationMember
find_member member_id organization_id db =
    find (λ m. (m.id == member_id) && (m.organization_id == organization_id)) db.members

-- `delete(MemberRole).where(MemberRole.member_id == member_id)`.
abbrev pub without_grants : ℕ → List MemberRole → List MemberRole
without_grants member_id grants = keep (λ g. not (g.member_id == member_id)) grants

abbrev pub member_audit : ℕ → ℕ → String → ℕ → Fields → AuditRequest
member_audit actor_id organization_id action member_id details = record {
  organization_id = some organization_id;
  actor_user_id = some actor_id;
  action = action;
  resource_type = "organization_member";
  resource_id = some member_id;
  trace_id = none;
  details = details;
}

-- `fresh` is the id of the new row.
unfoldable pub add_member : ℕ → ℕ → ℕ → ℕ → Tables → Attempt (OrganizationMember × Tables)
add_member fresh actor_id organization_id user_id db =
    after (access actor_id organization_id (some member_manage) db) λ _.
      found (find_user user_id db) (resource_not_found "Platform user not found.") λ user.
        require user.is_active (resource_not_found "Platform user is not active.") (
          require
            (not (
              any (λ m. (m.organization_id == organization_id) && (m.user_id == user_id))
                db.members))
            (conflict "User is already an organization member.")
            (found
              (find (λ r. (r.organization_id == organization_id) && str_eq r.code member_role)
                db.roles)
              (conflict "Organization member role is unavailable.")
              λ role.
                let member : OrganizationMember = record {
                  id = fresh;
                  organization_id = organization_id;
                  user_id = user_id;
                } in
                returns (
                  member,
                  record db {
                    members = member ∷ db.members;
                    member_roles =
                        record { member_id = fresh; role_id = role.id } ∷ db.member_roles;
                    audit =
                        member_audit actor_id organization_id "organization.member_added" fresh
                          (field "user_id" (num user_id) end)
                        ∷ db.audit;
                  },
                )))

unfoldable pub remove_member : ℕ → ℕ → ℕ → Tables → Attempt Tables
remove_member actor_id organization_id member_id db =
    after (access actor_id organization_id (some member_manage) db) λ _.
      found (find_member member_id organization_id db)
        (resource_not_found "Organization member not found.")
        λ member.
          require (not (member_is_admin member_id db && (admin_count organization_id db == 1)))
            (conflict "The organization must retain at least one administrator.")
            (returns (record db {
              members = keep (λ m. not (m.id == member_id)) db.members;
              member_roles = without_grants member_id db.member_roles;
              audit =
                  member_audit actor_id organization_id "organization.member_removed" member_id
                    (field "user_id" (num member.user_id) end)
                  ∷ db.audit;
            }))

-- `{role.code for role in roles} == role_codes`.
abbrev pub covers : List Role → List String → Bool
covers roles codes =
    not (any (λ c. not (any (λ r. str_eq r.code c) roles)) codes)
    && not (any (λ r. not (any (λ c. str_eq c r.code) codes)) roles)

abbrev pub grants_for : ℕ → List Role → List MemberRole
grants_for member_id roles = map (λ r. record { member_id = member_id; role_id = r.id }) roles

abbrev items_of : List String → Items
items_of [] = nil
items_of (c ∷ cs) = cons (str c) (items_of cs)

-- The set `role_codes` is the sorted list of its members.
unfoldable pub set_member_roles : ℕ → ℕ → ℕ → List String → Tables → Attempt Tables
set_member_roles actor_id organization_id member_id role_codes db =
    after (access actor_id organization_id (some member_manage) db) λ _.
      require (leb 1 (length role_codes)) (conflict "At least one role is required.") (
        found (find_member member_id organization_id db)
          (resource_not_found "Organization member not found.")
          λ member.
            let inactive = resource_not_found "Platform user is not active." in
            found (find_user member.user_id db) inactive λ user. require user.is_active inactive (
              let roles =
                keep
                  (λ (r : Role).
                    (r.organization_id == organization_id) && any (λ c. str_eq c r.code) role_codes)
                  db.roles in
              require (covers roles role_codes)
                (resource_not_found "One or more organization roles do not exist.")
                (require
                  (not (
                    member_is_admin member_id db
                    && (not (any (λ c. str_eq c admin_role) role_codes)
                        && (admin_count organization_id db == 1))))
                  (conflict "The organization must retain at least one administrator.")
                  (returns (record db {
                    member_roles =
                        grants_for member_id roles ++ without_grants member_id db.member_roles;
                    audit =
                        member_audit actor_id organization_id "organization.member_roles_updated"
                          member_id (field "roles" (arr (items_of role_codes)) end)
                        ∷ db.audit;
                  })))))

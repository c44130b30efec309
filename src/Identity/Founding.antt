-- ===== src/Identity/Founding.antt =====
-- A new organization of identity/service.py, and access to it.
use aiagent.Prelude.{
  ℕ, Bool, String, List, ◌≡◌, true, any, str_eq, map, keep, some, ◌++◌, ◌∷◌, ◌≤◌, arith, [],
  ==_refl, refl, find, ◌==◌, ◌&&◌, ◌||◌,
}
use aiagent.Identity.Organizations.{create_organization, NewIds, defined_codes, give}
use aiagent.Identity.Access.{access, is_active_user, OrganizationAccess, has_role, permissions_of}
use aiagent.Errors.{found, require, returns}
use aiagent.Identity.Rows.{RolePermission, Tables, Organization, OrganizationMember}
use aiagent.Identity.Members.{admin_count, admins}
use aiagent.Identity.Permissions.{member_codes}
use aiagent.Identity.Roles.{count_distinct-any}

-- A code that the first list of rights gives to a role of the member is a permission of the member.
any-permissions :
    (has : ℕ → Bool) (role : ℕ) (code : String) (codes : List String) (others : List RolePermission)
    → has role ≡ true
    → any (λ c. str_eq c code) codes ≡ true
    → any
        (λ p. str_eq p code)
        (map
          (λ (p : RolePermission). p.permission_code)
          (keep (λ (p : RolePermission). has p.role_id) (give role codes ++ others)))
      ≡ true
any-permissions has role code [] others h k = cc
any-permissions has role code (c ∷ codes) others h k =
    rw h (ground (arith, any-permissions has role code codes others h))

find-first :
    {A : Type 0} (p : A → Bool) (x : A) (xs : List A) → p x ≡ true → find p (x ∷ xs) ≡ some x
find-first p x xs h = rw h refl

or_true : (b : Bool) → (b || true) ≡ true
or_true b = ground arith

-- Access is granted to what its three queries find.
access-finds :
    (user_id organization_id : ℕ) (code : String) (db : Tables) (o : Organization)
    (m : OrganizationMember)
    → find (λ r. r.id == organization_id) db.organizations ≡ some o
    → is_active_user user_id db ≡ true
    → find (λ r. (r.organization_id == organization_id) && (r.user_id == user_id)) db.members
      ≡ some m
    → any (λ p. str_eq p code) (permissions_of m.id organization_id db) ≡ true
    → access user_id organization_id (some code) db
      ≡ returns (record {
        organization = o;
        member = m;
        permissions = permissions_of m.id organization_id db;
      })
unfolding access found require
access-finds user_id organization_id code db o m org active row held =
    rw (org, active, row, held) (rw (or_true (str_eq code "")) refl)

-- The active user who creates an organization has access to it at once, with every permission that
-- the service defines, and the organization has an administrator.
pub create_organization-access :
    (ids : NewIds) (user_id : ℕ) (name code : String) (db : Tables)
    → is_active_user user_id db ≡ true
    → any (λ c. str_eq c code) defined_codes ≡ true
    → let made = create_organization ids user_id name db in
      ((a : OrganizationAccess) × (access user_id ids.organization (some code) made.1 ≡ returns a)
        × (a.organization ≡ made.0)
        × (a.member.id ≡ ids.member))
      × (1 ≤ admin_count ids.organization made.1)
unfolding create_organization
create_organization-access ids user_id name code db active defined =
    let made = (create_organization ids user_id name db).1 in
    let o : Organization = record { id = ids.organization; name = name } in
    let m : OrganizationMember = record {
      id = ids.member;
      organization_id = ids.organization;
      user_id = user_id;
    } in
    let has = has_role ids.member ids.organization made.roles made.member_roles in
    let given =
      any-permissions has ids.admin code defined_codes
        (give ids.standard member_codes ++ db.role_permissions) (simp (==_refl) refl) defined in
    let org_found =
      find-first (λ (r : Organization). r.id == ids.organization) o db.organizations
        (==_refl ids.organization) in
    let member_found =
      find-first
        (λ (r : OrganizationMember).
          (r.organization_id == ids.organization) && (r.user_id == user_id))
        m db.members (rw (==_refl ids.organization, ==_refl user_id) refl) in
    (
      (
        record {
          organization = o;
          member = m;
          permissions = permissions_of ids.member ids.organization made;
        },
        access-finds user_id ids.organization code made o m org_found active member_found given,
        refl,
        refl,
      ),
      count_distinct-any (λ y. y == ids.member)
          (admins ids.organization made.roles made.member_roles) (simp (==_refl) refl),
    )

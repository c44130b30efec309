-- ===== src/Identity/Revocation.antt =====
-- Access to an organization, before and after `remove_member` (identity/service.py).
use aiagent.Prelude.{
  ℕ, List, Option, String, Bool, All, find, ◌≡◌, ◌==◌, keep, none, some, ◌&&◌, not, arith, str_eq,
  ◌∷◌, refl, true, false, [], Option-cases, Bool-cases, any, inl, inr, ap, find-All, sym, subst,
  IsIn, map, any-IsIn, own_rows,
}
use aiagent.Identity.Access.{access, membership, OrganizationAccess, is_active_user, permissions_of}
use aiagent.Identity.Members.{remove_member, add_member, set_member_roles}
use aiagent.Identity.Rows.{OrganizationMember, Tables, RolePermission, MemberRole, Role}
use aiagent.Errors.{
  found, after, returns, ServiceError, raises, authorization_error, after-returns, found-returns,
  require-returns, returns_injective,
}
use aiagent.Identity.Permissions.{member_manage}

abbrev is_row : ℕ → ℕ → OrganizationMember → Bool
is_row user_id organization_id m = (m.organization_id == organization_id) && (m.user_id == user_id)

find-keep-none :
    (u o i : ℕ) (members : List OrganizationMember)
    → All (λ m. m.organization_id ≡ o → m.user_id ≡ u → m.id ≡ i) members
    → find (is_row u o) (keep (λ m. not (m.id == i)) members) ≡ none
find-keep-none u o i [] h = refl
find-keep-none u o i (m ∷ members) h = ground (arith, h.0, find-keep-none u o i members h.1)

membership-none :
    (u o : ℕ) (db : Tables) → find (is_row u o) db.members ≡ none → membership u o db ≡ none
membership-none u o db h = rw h (ground arith)

access-no_row :
    (u o : ℕ) (code : Option String) (db : Tables)
    → membership u o db ≡ none
    → access u o code db ≡ raises (authorization_error "Organization access denied.")
unfolding access found
access-no_row u o code db h = elim (Option-cases (find (λ r. r.id == o) db.organizations)) [
  | inl missing ↦ rw missing refl
  | inr (r, present) ↦ rw (present, h) refl
]

remove_member-members :
    (actor o i : ℕ) (db : Tables) {db' : Tables}
    → remove_member actor o i db ≡ returns db'
    → db'.members ≡ keep (λ m. not (m.id == i)) db.members
unfolding remove_member
remove_member-members actor o i db {db'} e =
    let (_, _, e1) = after-returns _ _ e in
    let (_, _, e2) = found-returns _ _ _ e1 in
    let (_, e3) = require-returns _ _ _ e2 in ap (λ t. t.members) (sym (returns_injective e3))

-- After `remove_member` returns, the user of the removed row has no access to the organization, with
-- or without a required permission, if the user had no second row there.
pub remove_member-access :
    (actor o i u : ℕ) (required : Option String) (db : Tables) {db' : Tables}
    → All (λ m. m.organization_id ≡ o → m.user_id ≡ u → m.id ≡ i) db.members
    → remove_member actor o i db ≡ returns db'
    → access u o required db' ≡ raises (authorization_error "Organization access denied.")
remove_member-access actor o i u required db {db'} unique e = access-no_row u o required db' (
    membership-none u o db'
      (rw (remove_member-members actor o i db e) (find-keep-none u o i db.members unique)))

-- When access with the permission to manage members is refused, each of the three methods that
-- change members raises the same error.
pub unmanaged-refused :
    (fresh actor o u i : ℕ) (codes : List String) (db : Tables) {error : ServiceError}
    → access actor o (some member_manage) db ≡ raises error
    → (add_member fresh actor o u db ≡ raises error)
      × (remove_member actor o i db ≡ raises error)
      × (set_member_roles actor o i codes db ≡ raises error)
unfolding add_member remove_member set_member_roles after
unmanaged-refused fresh actor o u i codes db e = rw e (refl, refl, refl)

membership_row :
    (u o : ℕ) (db : Tables) {m : OrganizationMember}
    → membership u o db ≡ some m
    → (is_active_user u db ≡ true) × IsIn m db.members × (m.organization_id ≡ o) × (m.user_id ≡ u)
membership_row u o db {m} e = elim (Bool-cases (is_active_user u db)) [
  | inl active ↦
      let row : find (is_row u o) db.members ≡ some m = rw active at e in
      let held =
        find-All (λ n. IsIn n db.members) (is_row u o) db.members {a = m} (own_rows db.members)
          row in
      (active, held.0, ground (arith, held.1), ground (arith, held.1))
  | inr idle ↦ let none_here : none ≡ some m = rw idle at e in ground arith
]

any-map-keep :
    {A B : Type 0} (q : B → Bool) (f : A → B) (p : A → Bool) (xs : List A)
    → any q (map f (keep p xs)) ≡ true
    → (x : A) × IsIn x xs × (p x ≡ true) × (q (f x) ≡ true)
any-map-keep q f p [] e = cc
any-map-keep {A} {B} q f p (x ∷ xs) e =
    let later : any q (map f (keep p xs)) ≡ true
        → (y : A) × IsIn y (x ∷ xs) × (p y ≡ true) × (q (f y) ≡ true) =
      λ rest. let (y, h, kept, good) = any-map-keep q f p xs rest in (y, inr h, kept, good) in
    elim (Bool-cases (p x)) [
      | inr no_x ↦ later (rw no_x at e)
      | inl yes_x ↦
          let e' : any q (f x ∷ map f (keep p xs)) ≡ true = rw yes_x at e in
          elim (Bool-cases (q (f x))) [
            | inl good ↦ (x, inl refl, yes_x, good)
            | inr bad ↦ later (rw bad at e')
          ]
    ]

-- Rows of the three tables of roles that give a member a permission in an organization.
pub record Grants (member_id organization_id : ℕ) (code : String) (db : Tables) : Type 0 where
  pub permission : RolePermission
  pub grant : MemberRole
  pub role : Role
  pub permission_listed : IsIn permission db.role_permissions
  pub grant_listed : IsIn grant db.member_roles
  pub role_listed : IsIn role db.roles
  pub carries : str_eq permission.permission_code code ≡ true
  pub given : grant.member_id ≡ member_id
  pub granted : grant.role_id ≡ role.id
  pub role_of : permission.role_id ≡ role.id
  pub organization : role.organization_id ≡ organization_id

permissions_of-Grants :
    (i o : ℕ) (code : String) (db : Tables)
    → any (λ p. str_eq p code) (permissions_of i o db) ≡ true
    → Grants i o code db
permissions_of-Grants i o code db e =
    let (p, listed, has, carries) = any-map-keep _ _ _ db.role_permissions e in
    let (g, g_listed, given) =
      any-IsIn (λ g. (g.member_id == i) && (g.role_id == p.role_id)) db.member_roles
        (ground (arith, has)) in
    let (r, r_listed, owned) =
      any-IsIn (λ r. (r.id == p.role_id) && (r.organization_id == o)) db.roles
        (ground (arith, has)) in
    record {
      permission = p;
      grant = g;
      role = r;
      permission_listed = listed;
      grant_listed = g_listed;
      role_listed = r_listed;
      carries = carries;
      given = ground (arith, given);
      granted = ground (arith, given, owned);
      role_of = ground (arith, owned);
      organization = ground (arith, owned);
    }

-- Who has access to an organization with a required permission, not the empty one, is an active
-- user and has a row there in the table of members; a role of that organization in the table of
-- roles is given to that row and carries the permission.
pub access_sound :
    (u o : ℕ) (code : String) (db : Tables) {a : OrganizationAccess}
    → access u o (some code) db ≡ returns a
    → str_eq code "" ≡ false
    → (is_active_user u db ≡ true)
      × IsIn a.member db.members
      × (a.member.organization_id ≡ o)
      × (a.member.user_id ≡ u)
      × Grants a.member.id o code db
unfolding access
access_sound u o code db {a} e named =
    let (_, _, e1) = found-returns _ _ _ e in
    let (m, row, e2) = found-returns _ _ _ e1 in
    let (held, e3) = require-returns _ _ _ e2 in
    let same : m ≡ a.member = ap (λ (x : OrganizationAccess). x.member) (returns_injective e3) in
    let r = membership_row u o db row in
    subst
      (λ (n : OrganizationMember).
        (is_active_user u db ≡ true)
        × IsIn n db.members
        × (n.organization_id ≡ o)
        × (n.user_id ≡ u)
        × Grants n.id o code db)
      same (r.0, r.1, r.2, r.3, permissions_of-Grants m.id o code db (ground arith))

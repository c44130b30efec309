-- ===== src/Identity/Roles.antt =====
-- Administrators of an organization and `set_member_roles` (identity/service.py).
use text.Mathlib.TextEquality.{eq_iff}
use aiagent.Identity.Members.{
  count_distinct, admins, grants_admin_in, grants_for, set_member_roles, covers, member_is_admin,
  admin_count, without_grants,
}
use aiagent.Prelude.{
  ℕ, List, Bool, ◌≤◌, any, ◌++◌, String, ◌==◌, All, ◌≡◌, arith, not, ◌∷◌, true, [], str_eq, ==_refl,
  refl, false, All-map, Bool-cases, inl, subst, inr, if_both, map, ◌&&◌, sym, &&_parts, keep,
  All-keep, ap,
}
use aiagent.Identity.Rows.{Role, MemberRole, Tables}
use aiagent.Identity.Permissions.{admin_role}
use aiagent.Errors.{returns, after-returns, require-returns, found-returns, returns_injective}
use aiagent.Identity.Administrators.{not-true, dropped_admins}

pub count_distinct-any : (p : ℕ → Bool) (xs : List ℕ) → any p xs ≡ true → 1 ≤ count_distinct xs
unfolding count_distinct
count_distinct-any p [] h = cc
count_distinct-any p (x ∷ xs) h = ground (arith, count_distinct-any (λ y. y == x) xs)

count_distinct-append-le : (xs ys : List ℕ) → count_distinct ys ≤ count_distinct (xs ++ ys)
unfolding count_distinct
count_distinct-append-le [] ys = omega arith
count_distinct-append-le (x ∷ xs) ys = ground (arith, count_distinct-append-le xs ys)

admins-append :
    (o : ℕ) (roles : List Role) (gs hs : List MemberRole)
    → admins o roles (gs ++ hs) ≡ admins o roles gs ++ admins o roles hs
admins-append o roles [] hs = refl
admins-append o roles (g ∷ gs) hs = ground (arith, admins-append o roles gs hs)

any-append_left : (p : ℕ → Bool) (xs ys : List ℕ) → any p xs ≡ true → any p (xs ++ ys) ≡ true
any-append_left p [] ys h = cc
any-append_left p (x ∷ xs) ys h = ground (arith, any-append_left p xs ys)

-- A code of the set has a role.
covered_admin :
    (roles : List Role) (codes : List String)
    → any (λ c. not (any (λ r. str_eq r.code c) roles)) codes ≡ false
    → any (λ c. str_eq c admin_role) codes ≡ true
    → any (λ r. str_eq r.code admin_role) roles ≡ true
covered_admin roles [] h k = cc
covered_admin roles (c ∷ codes) h k = elim (Bool-cases (str_eq c admin_role)) [
  | inl this ↦
      subst (λ d. any (λ r. str_eq r.code d) roles ≡ true) ((eq_iff c admin_role).0 this)
        (ground arith)
  | inr other ↦ covered_admin roles codes (ground arith) (ground arith)
]

-- A role of the organization with the administrator's code makes an administrator of whom it is given.
abbrev Admits : ℕ → ℕ → List Role → Role → Type 0
Admits o i roles r =
    (r.organization_id == o) ≡ true
    → str_eq r.code admin_role ≡ true
    → grants_admin_in o roles (record { member_id = i; role_id = r.id }) ≡ true

roles-Admits : (o i : ℕ) (roles : List Role) → All (Admits o i roles) roles
roles-Admits o i [] = tt
roles-Admits o i (r ∷ roles) = (
  λ h k. ground (arith, ==_refl r.id),
  All-map (Admits o i roles) (Admits o i (r ∷ roles)) (λ x f h k. ground (arith, f h k)) roles
      (roles-Admits o i roles),
)

granted_admin :
    (o i : ℕ) (roles chosen : List Role)
    → All (λ r. Admits o i roles r × ((r.organization_id == o) ≡ true)) chosen
    → any (λ r. str_eq r.code admin_role) chosen ≡ true
    → any (λ y. y == i) (admins o roles (grants_for i chosen)) ≡ true
granted_admin o i roles [] h k = cc
granted_admin o i roles (r ∷ chosen) h k = elim (Bool-cases (str_eq r.code admin_role)) [
  | inl this ↦ rw (h.0.0 h.0.1 this) (rw (==_refl i) refl)
  | inr other ↦
      let rest = granted_admin o i roles chosen h.1 (ground arith) in
      if_both (λ gs. any (λ y. y == i) (map (λ g. g.member_id) gs) ≡ true)
        (grants_admin_in o roles (record { member_id = i; role_id = r.id })) _ _
        (λ _. ground (arith, rest)) (λ _. rest)
]

-- What `set_member_roles` leaves, when it returns.
record Assigned (o i : ℕ) (codes : List String) (db db' : Tables) : Type 0 where
  chosen : List Role
  among : All (λ r. Admits o i db.roles r × ((r.organization_id == o) ≡ true)) chosen
  covered : covers chosen codes ≡ true
  guard :
      (member_is_admin i db
        && (not (any (λ c. str_eq c admin_role) codes) && (admin_count o db == 1)))
      ≡ false
  same : db'.roles ≡ db.roles
  grants : db'.member_roles ≡ grants_for i chosen ++ without_grants i db.member_roles

set_member_roles-Assigned :
    (actor o i : ℕ) (codes : List String) (db : Tables) {db' : Tables}
    → set_member_roles actor o i codes db ≡ returns db'
    → Assigned o i codes db db'
unfolding set_member_roles
set_member_roles-Assigned actor o i codes db {db'} e =
    let (_, _, e1) = after-returns _ _ e in
    let (_, e2) = require-returns _ _ _ e1 in
    let (_, _, e3) = found-returns _ _ _ e2 in
    let (_, _, e4) = found-returns _ _ _ e3 in
    let (_, e5) = require-returns _ _ _ e4 in
    let (covered, e6) = require-returns _ _ _ e5 in
    let (guard, e7) = require-returns _ _ _ e6 in
    let same = sym (returns_injective e7) in
    let test = λ (r : Role). (r.organization_id == o) && any (λ c. str_eq c r.code) codes in
    record {
      chosen = keep test db.roles;
      among =
          All-map _ _ (λ r f. (f.0, (&&_parts _ _ f.1).0)) (keep test db.roles)
            (All-keep (Admits o i db.roles) test db.roles (roles-Admits o i db.roles));
      covered = covered;
      guard = not-true _ guard;
      same = ap (λ t. t.roles) same;
      grants = ap (λ t. t.member_roles) same;
    }

-- An organization with an administrator still has one after a `set_member_roles` that returns.
pub set_member_roles-admin_count :
    (actor o i : ℕ) (codes : List String) (db : Tables) {db' : Tables}
    → set_member_roles actor o i codes db ≡ returns db'
    → 1 ≤ admin_count o db
    → 1 ≤ admin_count o db'
set_member_roles-admin_count actor o i codes db {db'} e h =
    let a = set_member_roles-Assigned actor o i codes db e in
    rw (a.same, a.grants)
      (rw (admins-append o db.roles (grants_for i a.chosen) (without_grants i db.member_roles))
        (elim (Bool-cases (any (λ c. str_eq c admin_role) codes)) [
          | inl admin ↦
              let code =
                covered_admin a.chosen codes (not-true _ (&&_parts _ _ a.covered).0) admin in
              count_distinct-any (λ y. y == i) _
                (any-append_left (λ y. y == i) (admins o db.roles (grants_for i a.chosen))
                  (admins o db.roles (without_grants i db.member_roles))
                  (granted_admin o i db.roles a.chosen a.among code))
          | inr plain ↦
              let guard : (member_is_admin i db && (admin_count o db == 1)) ≡ false =
                rw plain at (a.guard) in
              let left = dropped_admins o i db h guard in
              let more =
                count_distinct-append-le (admins o db.roles (grants_for i a.chosen))
                  (admins o db.roles (without_grants i db.member_roles)) in
              omega (arith, left, more)
        ]))

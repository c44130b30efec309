-- ===== src/Identity/Administrators.antt =====
-- Administrators of an organization and `remove_member` (identity/service.py).
use aiagent.Prelude.{
  ℕ, Bool, List, not, keep, ◌==◌, ◌≤◌, ◌≡◌, false, ◌+◌, any, true, ◌∷◌, if◌then◌else◌, ◌&&◌, arith,
  [], Bool-cases, refl, inl, inr, ap, sym,
}
use aiagent.Identity.Members.{
  count_distinct, remove_member, admins, grants_admin_in, admin_count, without_grants, grants_admin,
  member_is_admin,
}
use aiagent.Identity.Rows.{MemberRole, Tables, Role}
use aiagent.Errors.{returns, after-returns, found-returns, require-returns, returns_injective}

abbrev drop_id : ℕ → List ℕ → List ℕ
drop_id i xs = keep (λ x. not (x == i)) xs

any-drop_id :
    (i x : ℕ) (xs : List ℕ)
    → (x == i) ≡ false
    → any (λ y. y == x) (drop_id i xs) ≡ any (λ y. y == x) xs
any-drop_id i x [] h = refl
any-drop_id i x (y ∷ ys) h = ground (arith, any-drop_id i x ys h)

-- Without one value a list has at most one distinct value less.
count_distinct-drop_id :
    (i : ℕ) (xs : List ℕ)
    → count_distinct xs ≤ count_distinct (drop_id i xs) + (if any (λ y. y == i) xs then 1 else 0)
unfolding count_distinct
count_distinct-drop_id i [] = omega arith
count_distinct-drop_id i (x ∷ xs) = ground (arith, count_distinct-drop_id i xs, any-drop_id i x xs)

-- The grants that stay are those of the others.
admins-without_grants :
    (o i : ℕ) (roles : List Role) (grants : List MemberRole)
    → admins o roles (without_grants i grants) ≡ drop_id i (admins o roles grants)
admins-without_grants o i roles [] = refl
admins-without_grants o i roles (g ∷ grants) =
    ground (arith, admins-without_grants o i roles grants)

-- An administrator of the organization is one at all.
admin_here :
    (o : ℕ) (g : MemberRole) (roles : List Role)
    → grants_admin_in o roles g ≡ true
    → grants_admin roles g ≡ true
admin_here o g [] h = cc
admin_here o g (r ∷ roles) h = ground (arith, admin_here o g roles)

not_admin :
    (o i : ℕ) (roles : List Role) (grants : List MemberRole)
    → any (λ g. (g.member_id == i) && grants_admin roles g) grants ≡ false
    → any (λ y. y == i) (admins o roles grants) ≡ false
not_admin o i roles [] h = refl
not_admin o i roles (g ∷ grants) h =
    ground (arith, admin_here o g roles, not_admin o i roles grants)

-- Dropping a member's grants leaves an administrator, if another one is counted or the member is none.
pub dropped_admins :
    (o i : ℕ) (db : Tables)
    → 1 ≤ admin_count o db
    → (member_is_admin i db && (admin_count o db == 1)) ≡ false
    → 1 ≤ count_distinct (admins o db.roles (without_grants i db.member_roles))
dropped_admins o i db h guard =
    let few = count_distinct-drop_id i (admins o db.roles db.member_roles) in
    rw (admins-without_grants o i db.roles db.member_roles)
      (elim (Bool-cases (member_is_admin i db)) [
        | inl admin ↦ ground (arith, few)
        | inr other ↦
            let none_here = not_admin o i db.roles db.member_roles other in
            let few' : count_distinct (admins o db.roles db.member_roles)
                ≤ count_distinct (drop_id i (admins o db.roles db.member_roles)) + 0 =
              rw none_here at few in
            omega (arith, few', h)
      ])

pub not-true : (b : Bool) → not b ≡ true → b ≡ false
not-true b h = ground arith

-- What `remove_member` leaves, when it returns.
remove_member-returns :
    (actor o i : ℕ) (db : Tables) {db' : Tables}
    → remove_member actor o i db ≡ returns db'
    → ((member_is_admin i db && (admin_count o db == 1)) ≡ false)
      × (db'.roles ≡ db.roles)
      × (db'.member_roles ≡ without_grants i db.member_roles)
unfolding remove_member
remove_member-returns actor o i db {db'} e =
    let (_, _, e1) = after-returns _ _ e in
    let (_, _, e2) = found-returns _ _ _ e1 in
    let (kept, e3) = require-returns _ _ _ e2 in
    (
      not-true _ kept,
      ap (λ t. t.roles) (sym (returns_injective e3)),
      ap (λ t. t.member_roles) (sym (returns_injective e3)),
    )

-- An organization with an administrator still has one after a `remove_member` that returns.
pub remove_member-admin_count :
    (actor o i : ℕ) (db : Tables) {db' : Tables}
    → remove_member actor o i db ≡ returns db'
    → 1 ≤ admin_count o db
    → 1 ≤ admin_count o db'
remove_member-admin_count actor o i db {db'} e h =
    let (guard, same, grants) = remove_member-returns actor o i db e in
    rw (same, grants) (dropped_admins o i db h guard)

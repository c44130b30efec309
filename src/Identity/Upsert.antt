-- ===== src/Identity/Upsert.antt =====
-- Users that sign in again (identity/service.py).
use text.Mathlib.TextPositions.{eq_refl}
use aiagent.Prelude.{
  Bool, List, ℕ, length, find, String, update, ◌≡◌, Option, ◌∷◌, some, ap, true, str_eq, suc, ◌==◌,
  ◌&&◌, [], Bool-cases, Option-cases, refl, inl, arith, inr, ==_refl, find-All, All-unit, ◌∙◌,
}
use aiagent.Identity.Rows.{User, Tables}
use aiagent.Identity.Access.{upsert_oidc_user}

length-update :
    {A : Type 0} (p : A → Bool) (f : A → A) (xs : List A) → length (update p f xs) ≡ length xs
length-update p f [] = refl
length-update p f (x ∷ xs) = ap suc (length-update p f xs)

find-update_same :
    (p : User → Bool) (w user : User) (users : List User)
    → find p users ≡ some user
    → p w ≡ true
    → find p (update (λ u. u.id == user.id) (λ _. w) users) ≡ some w
find-update_same p w user [] e h = cc
find-update_same p w user (x ∷ users) e h = elim (Bool-cases (p x)) [
  | inl yes_x ↦ let same : x ≡ user = ground arith in ground (arith, ==_refl user.id)
  | inr no_x ↦ ground (arith, find-update_same p w user users)
]

-- A user who signs in again, with the same issuer and subject, keeps the id and the row, and the row
-- has the newer name and address.
pub upsert_oidc_user-again :
    (fresh later : ℕ) (issuer subject name name' : String) (email email' : Option String)
    (db : Tables)
    → let first = upsert_oidc_user fresh issuer subject name email db in
      let second = upsert_oidc_user later issuer subject name' email' first.1 in
      (second.0 ≡ record first.0 { display_name = name'; email = email' })
      × (length second.1.users ≡ length first.1.users)
unfolding upsert_oidc_user
upsert_oidc_user-again fresh later issuer subject name name' email email' db =
    let same = λ (u : User). str_eq u.issuer issuer && str_eq u.subject subject in
    elim (Option-cases (find same db.users)) [
      | inl new ↦
          rw (new, upsert_oidc_user)
            (rw (eq_refl issuer, eq_refl subject)
              (
                refl,
                length-update (λ u. u.id == fresh) (λ _. _) _ ∙ rw (new, upsert_oidc_user) refl,
              ))
      | inr (user, old) ↦
          let w : User = record user { display_name = name; email = email } in
          let kept =
            (find-All (λ _. Unit {0}) same db.users {a = user} (All-unit db.users) old).1 in
          rw (old, upsert_oidc_user)
            (rw (find-update_same same w user db.users old kept) (
              refl,
              length-update (λ u. u.id == user.id) (λ _. _) _ ∙ rw (old, upsert_oidc_user) refl,
            ))
    ]

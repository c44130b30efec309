-- ===== src/Identity/Local.antt =====
-- Local passwords and `LocalAuthService.login` (identity/local.py). The dummy hash, drawn once when
-- the service starts, is an argument.
use text.Mathlib.TextPositions.{eq_refl}
use aiagent.Prelude.{
  String, Option, Bool, ℕ, str_eq, List, some, ◌≡◌, ◌&&◌, false, true, ◌==◌, none, find, ◌∷◌,
  if◌then◌else◌, [], arith, &&_parts, Option-cases, inl, inr, Bool-cases, refl, ◌∙◌, ap, subst,
}
use aiagent.Errors.{
  require, found, Attempt, returns, authentication_error, require-returns, raises, found-returns,
  returns_injective,
}
use aiagent.Identity.Rows.{Tables, User, find_user}
use aiagent.Audit.{AuditRequest}
use aiagent.Json.{field, str, end}

-- What the code takes from Python: scrypt with its parameters, `bytes.fromhex` as a test, `len`, the
-- text of the three parts joined by "$", and `split("$")`.
pub record Passwords : Type 0 where
  pub scrypt_hex : String → String → String
  pub is_hex : String → Bool
  pub len : String → ℕ
  pub joined : String → String → String → String
  pub split : String → List String

-- The row of `LocalCredential`.
pub record LocalCredential : Type 0 where
  pub email : String
  pub user_id : ℕ
  pub password_hash : String

abbrev pub stored_hash : String → Option LocalCredential → String
stored_hash dummy none = dummy
stored_hash dummy (some credential) = credential.password_hash

abbrev pub user_of : Option LocalCredential → Tables → Option User
user_of none db = none
user_of (some credential) db = find_user credential.user_id db

abbrev pub is_active : Option User → Bool
is_active none = false
is_active (some user) = user.is_active

abbrev pub login_audit : Bool → Option User → AuditRequest
login_audit allowed user = record {
  organization_id = none;
  actor_user_id = elim user [ none ↦ none | some u ↦ some u.id ];
  action = if allowed then "auth.login" else "auth.login_failed";
  resource_type = "session";
  resource_id = none;
  trace_id = none;
  details = field "source" (str "local") end;
}

module _ (p : Passwords) where
  -- `salt` is the one given, or the fresh one that the source draws for an empty one.
  unfoldable pub hash_password : String → String → String
  hash_password password salt = p.joined "scrypt-v1" salt (p.scrypt_hex password salt)

  abbrev pub has_form : String → String → String → Bool
  has_form version salt digest =
      str_eq version "scrypt-v1"
      && ((p.len salt == 32) && ((p.len digest == 64) && (p.is_hex salt && p.is_hex digest)))

  -- The test on the three parts; any other number of parts raises the `ValueError` that is caught.
  abbrev pub matches : String → String → List String → Bool
  matches password stored (version ∷ salt ∷ digest ∷ []) =
      has_form version salt digest && str_eq (hash_password password salt) stored
  matches password stored _ = false

  unfoldable pub verify_password : String → String → Bool
  verify_password password stored = matches password stored (p.split stored)

  -- The record is written in a transaction that is over when the error is raised, so the tables come
  -- back with both.
  unfoldable pub login :
      String → String → String → List LocalCredential → Tables → Attempt User × Tables
  login dummy email password credentials db =
      let credential = find (λ c. str_eq c.email email) credentials in
      let user = user_of credential db in
      let allowed = verify_password password (stored_hash dummy credential) && is_active user in
      (
        require allowed (authentication_error "邮箱或密码错误.")
            (found user (authentication_error "邮箱或密码错误.") returns),
        record db { audit = login_audit allowed user ∷ db.audit },
      )

  -- The hash of a password verifies it, where the parts have their lengths and are hexadecimal, and
  -- splitting a joined text gives its parts.
  pub verify_password-hash_password :
      (password salt : String)
      → has_form "scrypt-v1" salt (p.scrypt_hex password salt) ≡ true
      → p.split (hash_password password salt) ≡ "scrypt-v1" ∷ salt ∷ p.scrypt_hex password salt ∷ []
      → verify_password password (hash_password password salt) ≡ true
  unfolding verify_password
  verify_password-hash_password password salt form parts =
      rw parts (ground (arith, form, eq_refl (hash_password password salt)))

  none_not_some : {A : Type 0} {a : A} → none ≡ some a → ⊥
  none_not_some e = cc

  -- A login that returns found a credential with the email, whose hash verifies the password, and
  -- returns its user, who is active.
  pub login-credential :
      (dummy email password : String) (credentials : List LocalCredential) (db : Tables) {u : User}
      → (login dummy email password credentials db).0 ≡ returns u
      → (c : LocalCredential) × (find (λ c. str_eq c.email email) credentials ≡ some c)
        × (verify_password password c.password_hash ≡ true)
        × (find_user c.user_id db ≡ some u)
        × (u.is_active ≡ true)
  unfolding login
  login-credential dummy email password credentials db {u} e =
      let credential = find (λ c. str_eq c.email email) credentials in
      let (allowed, e1) = require-returns _ _ _ e in
      let (user, row, e2) = found-returns _ _ _ e1 in
      let same : user ≡ u = returns_injective e2 in
      let (valid, active) =
        &&_parts (verify_password password (stored_hash dummy credential))
          (is_active (user_of credential db)) allowed in
      elim (Option-cases credential) [
        | inl unknown ↦
            let gone : none ≡ some user = rw unknown at row in absurd (none_not_some gone)
        | inr (c, h) ↦
            let row' : find_user c.user_id db ≡ some user = rw h at row in
            let valid' : verify_password password c.password_hash ≡ true = rw h at valid in
            let active' : is_active (some user) ≡ true = rw (h, row') at active in
            (
              c,
              h,
              valid',
              row' ∙ ap some same,
              subst (λ (x : User). x.is_active ≡ true) same active',
            )
      ]

  login_audit-tells :
      (valid : Bool) (user : Option User)
      → let error = authentication_error "邮箱或密码错误." in
        let allowed = valid && is_active user in
        let r = require allowed error (found user error returns) in
        let entry = login_audit allowed user in
        (((u : User) × (r ≡ returns u)) → entry.action ≡ "auth.login")
        × (r ≡ raises error → entry.action ≡ "auth.login_failed")
  unfolding require found
  login_audit-tells false user = (λ e. ground (arith, e.1), λ e. refl)
  login_audit-tells true none = (λ e. ground (arith, e.1), λ e. refl)
  login_audit-tells true (some user) = elim (Bool-cases user.is_active) [
    | inl active ↦ rw active (λ e. refl, λ e. ground (arith, e))
    | inr idle ↦ rw idle (λ e. ground (arith, e.1), λ e. refl)
  ]

  -- Every login adds one audit record and changes no other table; its action tells whether the login
  -- returned a user.
  pub login-audit :
      (dummy email password : String) (credentials : List LocalCredential) (db : Tables)
      → let r = login dummy email password credentials db in
        (entry : AuditRequest) × (r.1 ≡ record db { audit = entry ∷ db.audit })
        × (((u : User) × (r.0 ≡ returns u)) → entry.action ≡ "auth.login")
        × (r.0 ≡ raises (authentication_error "邮箱或密码错误.") → entry.action ≡ "auth.login_failed")
  unfolding login require found
  login-audit dummy email password credentials db =
      let credential = find (λ c. str_eq c.email email) credentials in
      let user = user_of credential db in
      let valid = verify_password password (stored_hash dummy credential) in
      let told = login_audit-tells valid user in
      (login_audit (valid && is_active user) user, refl, told.0, told.1)

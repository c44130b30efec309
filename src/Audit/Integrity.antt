-- ===== src/Audit/Integrity.antt =====
-- `AuditService.record` of audit/service.py, and how `verify` judges one record.
use aiagent.Prelude.{
  ℕ, Option, String, some, if◌then◌else◌, str_eq, none, ◌≡◌, not, false, opt_is, arith, Bool-cases,
  Option-cases, inl, inr, refl, true, ◌∙◌, Bool, ap, subst,
}
use aiagent.Audit.Redaction.{Texts, sanitize_details}
use aiagent.Json.{Fields, Json, obj, null, field, str, end}
use aiagent.Audit.{AuditRequest}
use text.Mathlib.TextPositions.{eq_refl}
use aiagent.Errors.{some_injective}

pub record AuditLog : Type 0 where
  pub id : ℕ
  pub organization_id : Option ℕ
  pub actor_user_id : Option ℕ
  pub action : String
  pub resource_type : String
  pub resource_id : Option String
  pub trace_id : Option ℕ
  pub details : Fields
  pub integrity_hash : Option String
  pub integrity_key_id : Option String
  pub created_at : ℕ

-- What the code takes from Python: `str(uuid)`, `datetime.isoformat` in UTC, `json.dumps` with sorted
-- keys, and the hexadecimal HMAC-SHA256 of a text under a key.
pub record Encoders : Type 0 where
  pub uuid_text : ℕ → String
  pub isoformat : ℕ → String
  pub dumps : Json → String
  pub hmac_sha256 : String → String → String

pub record AuditService : Type 0 where
  pub signing_key : Option String
  pub key_id : String

-- `__init__`: an empty key is none.
unfoldable pub new_service : Option String → String → AuditService
new_service none key_id = record { signing_key = none; key_id = "" }
new_service (some key) key_id = record {
  signing_key = if str_eq key "" then none else some key;
  key_id = if str_eq key "" then "" else key_id;
}

abbrev opt_json : {A : Type 0} → (A → String) → Option A → Json
opt_json text none = null
opt_json text (some a) = str (text a)

pub data Verdict : Type 0 where
  valid unsigned key_mismatch invalid : Verdict

module _ (c : Encoders) (t : Texts) where
  abbrev pub canonical_payload : AuditLog → String
  canonical_payload log = c.dumps (
      obj (
        field "action" (str log.action) (
          field "actor_user_id" (opt_json c.uuid_text log.actor_user_id) (
            field "created_at" (str (c.isoformat log.created_at)) (
              field "details" (obj log.details) (
                field "id" (str (c.uuid_text log.id)) (
                  field "integrity_key_id" (opt_json (λ s. s) log.integrity_key_id) (
                    field "organization_id" (opt_json c.uuid_text log.organization_id) (
                      field "resource_id" (opt_json (λ s. s) log.resource_id) (
                        field "resource_type" (str log.resource_type)
                          (field "trace_id" (opt_json c.uuid_text log.trace_id) end)))))))))))

  abbrev pub sign : String → AuditLog → String
  sign key log = c.hmac_sha256 key (canonical_payload log)

  -- `self._key_id or None`.
  abbrev text_or_none : String → Option String
  text_or_none text = if str_eq text "" then none else some text

  abbrev signed : Option String → AuditLog → AuditLog
  signed none log = log
  signed (some key) log = record log { integrity_hash = some (sign key log) }

  abbrev unsigned_entry : String → ℕ → ℕ → Option String → AuditRequest → Fields → AuditLog
  unsigned_entry key_id id now resource_id request details = record {
    id = id;
    organization_id = request.organization_id;
    actor_user_id = request.actor_user_id;
    action = request.action;
    resource_type = request.resource_type;
    resource_id = resource_id;
    trace_id = request.trace_id;
    details = details;
    integrity_hash = none;
    integrity_key_id = text_or_none key_id;
    created_at = now;
  }

  -- A new record, with its id, its time and its resource's text; none stands for the `TypeError`.
  unfoldable pub record_entry :
      AuditService → ℕ → ℕ → Option String → AuditRequest → Option AuditLog
  record_entry service id now resource_id request = elim (sanitize_details t request.details) [
    | none ↦ none
    | some details ↦ some (
        signed service.signing_key
          (unsigned_entry service.key_id id now resource_id request details))
  ]

  -- The tests of the loop of `verify` on one record; `None` is no text.
  abbrev judged : AuditService → AuditLog → String → Verdict
  judged service log hash = elim service.signing_key [
    | none ↦ key_mismatch
    | some key ↦
        if not (opt_is str_eq log.integrity_key_id service.key_id)
        then key_mismatch
        else if str_eq hash (sign key log)
        then valid
        else invalid
  ]

  unfoldable pub judge : AuditService → AuditLog → Verdict
  judge service log = elim log.integrity_hash [
    | none ↦ unsigned
    | some hash ↦ if str_eq hash "" then unsigned else judged service log hash
  ]

  hashed_verdict :
      (key key_id hash : String) (log : AuditLog)
      → log.integrity_hash ≡ some hash
      → str_eq hash "" ≡ false
      → str_eq hash (sign key log) ≡ true
      → judge (record { signing_key = some key; key_id = key_id }) log
        ≡ (if opt_is str_eq log.integrity_key_id key_id then valid else key_mismatch)
  unfolding judge
  hashed_verdict key key_id hash log h real good = rw (h, judge) (rw (real, good) (swapped _))
    where
      swapped :
          (b : Bool) → (if not b then key_mismatch else valid) ≡ (if b then valid else key_mismatch)
      swapped true = refl
      swapped false = refl

  id_matches :
      (key_id : String) → opt_is str_eq (text_or_none key_id) key_id ≡ not (str_eq key_id "")
  id_matches key_id = ground (arith, eq_refl key_id)

  -- A record under the id of a service with a key, signed by it.
  signed_verdict :
      ((key text : String) → str_eq (c.hmac_sha256 key text) "" ≡ false)
      → (key key_id : String) (log : AuditLog) → log.integrity_key_id ≡ text_or_none key_id
      → judge (record { signing_key = some key; key_id = key_id }) (signed (some key) log)
        ≡ (if not (str_eq key_id "") then valid else key_mismatch)
  signed_verdict hex key key_id log same =
      hashed_verdict key key_id (sign key log) (signed (some key) log) refl
        (hex key (canonical_payload log)) (eq_refl (sign key log))
      ∙ ap (λ o. if opt_is str_eq o key_id then valid else key_mismatch) same
      ∙ ap (λ b. if b then valid else key_mismatch) (id_matches key_id)

  -- How a service judges a record that it has made itself: without a key it is unsigned; with a key
  -- and an id for it, valid; with a key and an empty id, a mismatch of keys. The text of an HMAC is
  -- never empty.
  pub judge-record_entry :
      ((key text : String) → str_eq (c.hmac_sha256 key text) "" ≡ false)
      → (signing_key : Option String) (key_id : String) (id now : ℕ) (resource : Option String)
        (request : AuditRequest) {log : AuditLog}
      → let service = new_service signing_key key_id in
        record_entry service id now resource request ≡ some log
        → judge service log ≡ elim service.signing_key [
          | none ↦ unsigned
          | some key ↦ if not (str_eq key_id "") then valid else key_mismatch
        ]
  unfolding record_entry judge new_service
  judge-record_entry hex none key_id id now resource request {log} e =
      elim (Option-cases (sanitize_details t request.details)) [
        | inl failed ↦ ground arith
        | inr (details, h) ↦
            let made : some _ ≡ some log = rw (h, record_entry) at e in
            let hash : log.integrity_hash ≡ none = ground arith in rw (hash, judge) refl
      ]
  judge-record_entry hex (some key) key_id id now resource request {log} e =
      elim (Option-cases (sanitize_details t request.details)) [
        | inl failed ↦ ground arith
        | inr (details, h) ↦ elim (Bool-cases (str_eq key "")) [
          | inl blank ↦
              let made : some _ ≡ some log = rw (h, record_entry) at e in
              let plain : some _ ≡ some log = rw blank at made in
              let hash : log.integrity_hash ≡ none = ground arith in
              rw blank (rw (hash, judge) refl)
          | inr real ↦
              let made : some _ ≡ some log = rw (h, record_entry) at e in
              let plain : some
                    (signed (some key) (unsigned_entry key_id id now resource request details))
                  ≡ some log =
                rw real at made in
              rw real (
                subst
                  (λ l.
                    judge (record { signing_key = some key; key_id = key_id }) l
                    ≡ (if not (str_eq key_id "") then valid else key_mismatch))
                  (some_injective plain)
                  (signed_verdict hex key key_id
                    (unsigned_entry key_id id now resource request details) refl))
        ]
      ]

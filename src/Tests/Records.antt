-- ===== src/Tests/Records.antt =====
-- Audit records of audit/service.py, with simple stand-ins for what the code takes from Python.
use aiagent.Prelude.{
  refl, String, str_eq, some, ◌≡◌, none, false, ◌∷◌, if◌then◌else◌, [], not, length, keep, List,
  ◌*◌, true, ◌-◌,
}
use aiagent.Audit.Redaction.{
  Texts, sanitize_details, is_sensitive, sanitize, is_url_key, FieldsRedacted,
  sanitize_details-FieldsRedacted,
}
use aiagent.Audit.Integrity.{
  Encoders, AuditService, AuditLog, record_entry, judge, new_service, unsigned, valid, key_mismatch,
  judge-record_entry,
}
use aiagent.Json.{Fields, field, obj, str, end, num}
use aiagent.Audit.{AuditRequest}
use aiagent.Governance.Retention.{
  prune, count_by_organization, add_to_group, is_old, sum_deleted, prune-matched,
}
use aiagent.Governance.Quota.{day_length}

-- Texts that are compared whole.
abbrev texts : Texts
texts = record {
  lower = λ s. s;
  replace = λ s old new. s;
  contains = λ s part. str_eq s part;
  endswith = λ s suffix. str_eq s suffix;
  urlsplit = λ s. ("https", s, "");
  urlunsplit = λ scheme netloc path. netloc;
}

abbrev encoders : Encoders
encoders = record {
  uuid_text = λ n. "u";
  isoformat = λ n. "t";
  dumps = λ j. "d";
  hmac_sha256 = λ key text. "h";
}

abbrev details : Fields
details = field "outer" (obj (field "token" (str "abc") end)) (field "n" (num 3) end)

abbrev request : AuditRequest
request = record {
  organization_id = some 1;
  actor_user_id = none;
  action = "a";
  resource_type = "r";
  resource_id = none;
  trace_id = none;
  details = details;
}

redacts :
    sanitize_details texts details
    ≡ some (field "outer" (obj (field "token" (str "[REDACTED]") end)) (field "n" (num 3) end))
unfolding sanitize_details sanitize is_sensitive is_url_key
redacts = refl

empty-plain : is_sensitive texts "" ≡ false
unfolding is_sensitive
empty-plain = refl

sanitize_details-FieldsRedacted_example :
    (fields : Fields) × (sanitize_details texts details ≡ some fields) × FieldsRedacted texts fields
sanitize_details-FieldsRedacted_example = sanitize_details-FieldsRedacted texts details empty-plain

abbrev service : AuditService
service = record { signing_key = some "key"; key_id = "v1" }

abbrev entry : AuditLog
entry = record {
  id = 4;
  organization_id = some 1;
  actor_user_id = none;
  action = "a";
  resource_type = "r";
  resource_id = none;
  trace_id = none;
  details = field "outer" (obj (field "token" (str "[REDACTED]") end)) (field "n" (num 3) end);
  integrity_hash = some "h";
  integrity_key_id = some "v1";
  created_at = 50;
}

makes_entry :
    record_entry encoders texts (new_service (some "key") "v1") 4 50 none request ≡ some entry
unfolding record_entry new_service sanitize_details sanitize is_sensitive is_url_key
makes_entry = refl

hex : (key text : String) → str_eq (encoders.hmac_sha256 key text) "" ≡ false
hex key text = refl

judge-record_entry_example :
    judge encoders texts (new_service (some "key") "v1") entry
    ≡ elim (new_service (some "key") "v1").signing_key [
      | none ↦ unsigned
      | some key ↦ if not (str_eq "v1" "") then valid else key_mismatch
    ]
judge-record_entry_example =
    judge-record_entry encoders texts hex (some "key") "v1" 4 50 none request {log = entry}
      makes_entry

-- Two records of organization 1, one of none; days are counted from the first instant.
abbrev logs : List AuditLog
logs =
    entry
    ∷ record entry { created_at = 60; organization_id = none }
    ∷ record entry { created_at = 3 * day_length }
    ∷ []

pruned_logs :
    let r = prune (λ n. "t") 1 true (3 * day_length) logs in
    (r.0.matched ≡ 2) × (r.1 ≡ record entry { created_at = 3 * day_length } ∷ []) × (length r.2 ≡ 2)
unfolding prune count_by_organization add_to_group
pruned_logs = (refl, refl, refl)

prune-matched_example :
    let r = prune (λ n. "t") 1 true (3 * day_length) logs in
    let old = is_old (3 * day_length - 1 * day_length) in
    (r.0.matched ≡ length (keep old logs))
    × (true ≡ false → (r.1 ≡ logs) × (r.2 ≡ []))
    × (true ≡ true → (r.1 ≡ keep (λ log. not (old log)) logs) × (sum_deleted r.2 ≡ r.0.matched))
prune-matched_example = prune-matched (λ n. "t") 1 true (3 * day_length) logs

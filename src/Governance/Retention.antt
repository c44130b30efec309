-- ===== src/Governance/Retention.antt =====
-- `AuditRetentionService.prune` of governance/retention.py. An instant is a number of microseconds; a
-- cutoff before the first instant, which raises in the source, is the first instant here.
use aiagent.Prelude.{
  ℕ, List, Option, Bool, ◌∷◌, String, ◌≡◌, not, if◌then◌else◌, [], ◌+◌, ltb, none, ◌-◌, suc, length,
  map, is_some, ◌*◌, arith, ◌∙◌, keep, ap, some, refl, opt_is, ◌||◌, false, ◌==◌, true,
}
use aiagent.Audit.{AuditRequest}
use aiagent.Audit.Integrity.{AuditLog}
use aiagent.Json.{field, num, str, end}
use aiagent.Governance.Quota.{day_length}

pub record RetentionResult : Type 0 where
  pub cutoff : ℕ
  pub matched : ℕ
  pub executed : Bool

-- The number of records of each organization.
abbrev pub Groups : Type 0
Groups = List (Option ℕ × ℕ)

abbrev pub same_group : Option ℕ → Option ℕ → Bool
same_group none b = not (is_some b)
same_group (some a) b = opt_is (λ x y. x == y) b a

unfoldable pub add_to_group : Option ℕ → Groups → Groups
add_to_group organization [] = (organization, 1) ∷ []
add_to_group organization (group ∷ groups) =
    let rest = add_to_group organization groups in
    if same_group organization group.0 then (group.0, group.1 + 1) ∷ groups else group ∷ rest

-- `group_by(AuditLog.organization_id)` with `func.count(AuditLog.id)`.
unfoldable pub count_by_organization : List AuditLog → Groups
count_by_organization [] = []
count_by_organization (log ∷ logs) = add_to_group log.organization_id (count_by_organization logs)

abbrev pub sum_counts : Groups → ℕ
sum_counts [] = 0
sum_counts (group ∷ groups) = group.1 + sum_counts groups

abbrev pub is_old : ℕ → AuditLog → Bool
is_old cutoff log = ltb log.created_at cutoff

abbrev pub retention_request : (ℕ → String) → ℕ → ℕ → Option ℕ × ℕ → AuditRequest
retention_request isoformat retention_days cutoff group = record {
  organization_id = group.0;
  actor_user_id = none;
  action = "governance.audit_retention_executed";
  resource_type = "audit_log";
  resource_id = none;
  trace_id = none;
  details =
      field "retention_days" (num retention_days)
        (field "cutoff" (str (isoformat cutoff)) (field "deleted" (num (group.1)) end));
}

-- The records that stay, and the requests to record what was deleted, one for each organization.
unfoldable pub prune :
    (ℕ → String)
    → ℕ
    → Bool
    → ℕ
    → List AuditLog
    → RetentionResult × List AuditLog × List AuditRequest
prune isoformat retention_days execute now logs =
    let cutoff = now - retention_days * day_length in
    let counts = count_by_organization (keep (is_old cutoff) logs) in
    let matched = sum_counts counts in
    if not execute || (matched == 0)
    then (record { cutoff = cutoff; matched = matched; executed = execute }, logs, [])
    else (
      record { cutoff = cutoff; matched = matched; executed = true },
      keep (λ log. not (is_old cutoff log)) logs,
      map (retention_request isoformat retention_days cutoff) counts,
    )

-- What a request says was deleted.
abbrev pub deleted_of : AuditRequest → ℕ
deleted_of request = elim request.details [
  | field _ _ (field _ _ (field _ (num n) end)) ↦ n
  | _ ↦ 0
]

abbrev pub sum_deleted : List AuditRequest → ℕ
sum_deleted [] = 0
sum_deleted (request ∷ requests) = deleted_of request + sum_deleted requests

sum_counts-add_to_group :
    (organization : Option ℕ) (groups : Groups)
    → sum_counts (add_to_group organization groups) ≡ suc (sum_counts groups)
unfolding add_to_group
sum_counts-add_to_group organization [] = refl
sum_counts-add_to_group organization (group ∷ groups) =
    ground (arith, sum_counts-add_to_group organization groups)

sum_counts-count_by_organization :
    (logs : List AuditLog) → sum_counts (count_by_organization logs) ≡ length logs
unfolding count_by_organization
sum_counts-count_by_organization [] = refl
sum_counts-count_by_organization (log ∷ logs) =
    sum_counts-add_to_group log.organization_id (count_by_organization logs)
    ∙ ap suc (sum_counts-count_by_organization logs)

keep-not :
    (p : AuditLog → Bool) (logs : List AuditLog)
    → length (keep p logs) ≡ 0
    → keep (λ log. not (p log)) logs ≡ logs
keep-not p [] h = refl
keep-not p (log ∷ logs) h = ground (arith, keep-not p logs)

sum_deleted-requests :
    (isoformat : ℕ → String) (days cutoff : ℕ) (groups : Groups)
    → sum_deleted (map (retention_request isoformat days cutoff) groups) ≡ sum_counts groups
sum_deleted-requests isoformat days cutoff [] = refl
sum_deleted-requests isoformat days cutoff (group ∷ groups) =
    ap (λ n. group.1 + n) (sum_deleted-requests isoformat days cutoff groups)

-- A run counts the records older than the cutoff. A dry run leaves all records and asks for no new
-- one. An executed run leaves exactly the records that are not older, and what its requests say was
-- deleted adds up to the count.
pub prune-matched :
    (isoformat : ℕ → String) (days : ℕ) (execute : Bool) (now : ℕ) (logs : List AuditLog)
    → let r = prune isoformat days execute now logs in
      let old = is_old (now - days * day_length) in
      (r.0.matched ≡ length (keep old logs))
      × (execute ≡ false → (r.1 ≡ logs) × (r.2 ≡ []))
      × (execute ≡ true
          → (r.1 ≡ keep (λ log. not (old log)) logs) × (sum_deleted r.2 ≡ r.0.matched))
unfolding prune
prune-matched isoformat days execute now logs =
    let cutoff = now - days * day_length in
    let old = keep (is_old cutoff) logs in
    let total = sum_counts-count_by_organization old in
    let asked = sum_deleted-requests isoformat days cutoff (count_by_organization old) in
    let all = keep-not (is_old cutoff) logs in ground (arith, total, asked, all)

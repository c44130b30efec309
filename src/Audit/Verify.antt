-- ===== src/Audit/Verify.antt =====
-- `AuditService.verify` of audit/service.py.
use aiagent.Audit.Integrity.{
  AuditLog, AuditService, Encoders, Verdict, judge, valid, unsigned, key_mismatch, invalid,
}
use aiagent.Prelude.{
  none, some, ℕ, ◌+◌, Option, Bool, List, true, opt_is, ◌∷◌, keep, ◌≡◌, some, ◌==◌, [], length,
  ◌&&◌, arith, leb, refl, ltb,
}
use aiagent.Audit.Redaction.{Texts}

-- `if argument is not None: query = query.where(...)`.
abbrev pub unless_none : (ℕ → Bool) → Option ℕ → Bool
unless_none p none = true
unless_none p (some n) = p n

-- `AuditVerificationResult`.
pub record Tally : Type 0 where
  pub checked : ℕ
  pub valid_logs : ℕ
  pub unsigned_logs : ℕ
  pub mismatches : ℕ
  pub invalid_logs : ℕ

unfoldable pub count : Verdict → Tally → Tally
count valid r = record r { checked = r.checked + 1; valid_logs = r.valid_logs + 1 }
count unsigned r = record r { checked = r.checked + 1; unsigned_logs = r.unsigned_logs + 1 }
count key_mismatch r = record r { checked = r.checked + 1; mismatches = r.mismatches + 1 }
count invalid r = record r { checked = r.checked + 1; invalid_logs = r.invalid_logs + 1 }

abbrev pub selected : Option ℕ → Option ℕ → Option ℕ → AuditLog → Bool
selected organization after_time before_time log =
    unless_none (λ o. opt_is (λ x y. x == y) log.organization_id o) organization
    && (unless_none (λ a. leb a log.created_at) after_time
        && unless_none (λ b. ltb log.created_at b) before_time)

module _ (c : Encoders) (t : Texts) where
  unfoldable pub tally : AuditService → List AuditLog → Tally
  tally service [] = record {
    checked = 0;
    valid_logs = 0;
    unsigned_logs = 0;
    mismatches = 0;
    invalid_logs = 0;
  }
  tally service (log ∷ logs) = count (judge c t service log) (tally service logs)

  unfoldable pub verify : AuditService → Option ℕ → Option ℕ → Option ℕ → List AuditLog → Tally
  verify service organization after_time before_time logs =
      tally service (keep (selected organization after_time before_time) logs)

  tally-sum :
      (service : AuditService) (logs : List AuditLog)
      → let r = tally service logs in
        (r.checked ≡ length logs)
        × (r.checked ≡ r.valid_logs + r.unsigned_logs + r.mismatches + r.invalid_logs)
  unfolding tally count
  tally-sum service [] = (refl, refl)
  tally-sum service (log ∷ logs) = ground (arith, tally-sum service logs)

  -- `verify` checks exactly the records that its arguments select, and counts each of them under one
  -- of the four verdicts.
  pub verify-sum :
      (service : AuditService) (organization after_time before_time : Option ℕ)
      (logs : List AuditLog)
      → let r = verify service organization after_time before_time logs in
        (r.checked ≡ length (keep (selected organization after_time before_time) logs))
        × (r.checked ≡ r.valid_logs + r.unsigned_logs + r.mismatches + r.invalid_logs)
  unfolding verify
  verify-sum service organization after_time before_time logs =
      tally-sum service (keep (selected organization after_time before_time) logs)

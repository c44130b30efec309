-- ===== src/Evaluations/Snapshots.antt =====
-- The versions of a dataset are read back as they were validated (evaluations/service.py).
use aiagent.Evaluations.Suite.{
  SuiteToolkit, EvaluationSuite, EvaluationCaseSpec, validate_key, normalize_question,
  validate_tools, validate_case, validate_cases, new_suite, has_length, case_key, model_validate,
  EvaluationService, validate_suite, digest,
}
use aiagent.Agents.Config.{tool_name, is_unique}
use aiagent.Identity.Administrators.{not-true}
use text.Mathlib.TextPositions.{eq_refl}
use aiagent.Errors.{
  returns, after-returns, require-returns, returns_injective, require_known, after_known, found,
  found-returns,
}
use aiagent.Prelude.{
  [], String, List, ◌≡◌, ◌≤◌, true, not, map, length, subst, str_eq, ap, ◌∷◌, ◌∙◌, false, sym,
  arith, suc, leb, some, any, refl, ℕ, ==_refl, find, ◌==◌, ◌&&◌,
}
use aiagent.Evaluations.Datasets.{verified_version, create_dataset_version, find_dataset_version}
use aiagent.Evaluations.Rows.{EvaluationDatasetVersion, Db}
use aiagent.Identity.Rows.{Tables}
use aiagent.Json.{Json}

-- What the code relies on: how `str.strip` and `len` act, the lengths that the pattern of a key admits,
-- and that Pydantic parses what it has dumped.
pub record ToolkitLaws (k : SuiteToolkit) : Type 0 where
  pub strip_strip : (x : String) → k.strip (k.strip x) ≡ k.strip x
  pub strip_shorter : (x : String) → k.len (k.strip x) ≤ k.len x
  pub len_positive : (x : String) → str_eq x "" ≡ false → 1 ≤ k.len x
  pub key_length : (x : String) → k.fullmatch case_key x ≡ true → has_length k 1 100 x ≡ true
  pub parse_dump : (suite : EvaluationSuite) → k.parse (k.model_dump suite) ≡ some suite

module _ (k : SuiteToolkit) (laws : ToolkitLaws k) where
  validate_key-again :
      (x : String) {y : String} → validate_key k x ≡ returns y → validate_key k y ≡ returns y
  unfolding validate_key
  validate_key-again x {y} e =
      let (_, e1) = require-returns _ _ _ e in
      let (matches, e2) = require-returns _ _ _ e1 in
      let same : k.strip x ≡ y = returns_injective e2 in
      let good : k.fullmatch case_key y ≡ true =
        subst (λ z. k.fullmatch case_key z ≡ true) same matches in
      let fixed : k.strip y ≡ y = ap k.strip (sym same) ∙ (laws.strip_strip x ∙ same) in
      require_known _ _ _ (laws.key_length y good)
      ∙ (require_known _ _ _ (ap (k.fullmatch case_key) fixed ∙ good) ∙ ap returns fixed)

  normalize_question-again :
      (x : String) {y : String}
      → normalize_question k x ≡ returns y
      → normalize_question k y ≡ returns y
  unfolding normalize_question
  normalize_question-again x {y} e =
      let (long, e1) = require-returns _ _ _ e in
      let (given, e2) = require-returns _ _ _ e1 in
      let same : k.strip x ≡ y = returns_injective e2 in
      let good : not (str_eq y "") ≡ true = subst (λ z. not (str_eq z "") ≡ true) same given in
      let fixed : k.strip y ≡ y = ap k.strip (sym same) ∙ (laws.strip_strip x ∙ same) in
      let shorter : k.len y ≤ k.len x =
        subst (λ z. k.len z ≤ k.len x) same (laws.strip_shorter x) in
      let size : has_length k 1 4000 y ≡ true =
        ground (arith, long, shorter, laws.len_positive y (not-true _ good)) in
      require_known _ _ _ size
      ∙ (require_known _ _ _ (ap (λ z. not (str_eq z "")) fixed ∙ good) ∙ ap returns fixed)

  map-strip-strip : (xs : List String) → map k.strip (map k.strip xs) ≡ map k.strip xs
  map-strip-strip [] = refl
  map-strip-strip (x ∷ xs) = rw (laws.strip_strip x, map-strip-strip xs) refl

  length-map-strip : (xs : List String) → length (map k.strip xs) ≡ length xs
  length-map-strip [] = refl
  length-map-strip (x ∷ xs) = ground (arith, length-map-strip xs)

  validate_tools-again :
      (xs : List String) {ys : List String}
      → validate_tools k xs ≡ returns ys
      → validate_tools k ys ≡ returns ys
  unfolding validate_tools
  validate_tools-again xs {ys} e =
      let (few, e1) = require-returns _ _ _ e in
      let (matched, e2) = require-returns _ _ _ e1 in
      let (unique, e3) = require-returns _ _ _ e2 in
      let same : map k.strip xs ≡ ys = returns_injective e3 in
      let fixed : map k.strip ys ≡ ys = ap (map k.strip) (sym same) ∙ (map-strip-strip xs ∙ same) in
      let few' : leb (length ys) 20 ≡ true =
        ap (λ z. leb (length z) 20) (sym same) ∙ (ap (λ n. leb n 20) (length-map-strip xs) ∙ few) in
      require_known _ _ _ few'
      ∙ (require_known _ _ _ (
            ap (λ z. not (any (λ item. not (k.fullmatch tool_name item)) z)) (fixed ∙ sym same)
            ∙ matched)
          ∙ (require_known _ _ _ (ap is_unique (fixed ∙ sym same) ∙ unique) ∙ ap returns fixed))

  validate_case-again :
      (c : EvaluationCaseSpec) {d : EvaluationCaseSpec}
      → validate_case k c ≡ returns d
      → validate_case k d ≡ returns d
  unfolding validate_case
  validate_case-again c {d} e =
      let (key, e1, f1) = after-returns _ _ e in
      let (question, e2, f2) = after-returns _ _ f1 in
      let (tools, e3, f3) = after-returns _ _ f2 in
      let (sensible, f4) = require-returns _ _ _ f3 in
      let same = returns_injective f4 in
      subst (λ (z : EvaluationCaseSpec). validate_case k z ≡ returns z) same
        (after_known _ _ (validate_key-again c.key e1)
          ∙ (after_known _ _ (normalize_question-again c.question e2)
              ∙ (after_known _ _ (validate_tools-again c.expected_tools e3)
                  ∙ require_known _ _ _ sensible)))

  validate_cases-again :
      (cs : List EvaluationCaseSpec) {ds : List EvaluationCaseSpec}
      → validate_cases k cs ≡ returns ds
      → (validate_cases k ds ≡ returns ds) × (length ds ≡ length cs)
  unfolding validate_cases
  validate_cases-again [] {ds} e =
      subst (λ z. (validate_cases k z ≡ returns z) × (length z ≡ 0)) (returns_injective e)
        (refl, refl)
  validate_cases-again (c ∷ cs) {ds} e =
      let (d, e1, f1) = after-returns _ _ e in
      let (rest, e2, f2) = after-returns _ _ f1 in
      let (again, size) = validate_cases-again cs e2 in
      subst (λ z. (validate_cases k z ≡ returns z) × (length z ≡ suc (length cs)))
        (returns_injective f2)
        (after_known _ _ (validate_case-again c e1) ∙ after_known _ _ again, ap suc size)

  -- A suite that was validated is valid, and validation changes it no more.
  pub new_suite-again :
      (raw : EvaluationSuite) {suite : EvaluationSuite}
      → new_suite k raw ≡ returns suite
      → new_suite k suite ≡ returns suite
  unfolding new_suite
  new_suite-again raw {suite} e =
      let (some_case, e1) = require-returns _ _ _ e in
      let (cases, e2, f2) = after-returns _ _ e1 in
      let (unique, f3) = require-returns _ _ _ f2 in
      let (again, size) = validate_cases-again raw.cases e2 in
      subst (λ (z : EvaluationSuite). new_suite k z ≡ returns z) (returns_injective f3)
        (require_known _ _ _ (ap (leb 1) size ∙ some_case)
          ∙ (after_known _ _ again ∙ require_known _ _ _ unique))

  model_validate-model_dump :
      (raw : EvaluationSuite) {suite : EvaluationSuite}
      → new_suite k raw ≡ returns suite
      → model_validate k (k.model_dump suite) ≡ returns suite
  unfolding model_validate found
  model_validate-model_dump raw {suite} e = rw (laws.parse_dump suite) (new_suite-again raw e)

module _ (s : EvaluationService) (laws : ToolkitLaws s.tools) where
  verified_version-version :
      (version : EvaluationDatasetVersion) (raw suite : EvaluationSuite) (o : ℕ) (db : Db)
      → find_dataset_version o version.id db ≡ some version
      → version.cases_snapshot ≡ s.tools.model_dump suite
      → version.cases_digest ≡ digest s.tools (s.tools.model_dump suite)
      → new_suite s.tools raw ≡ returns suite
      → verified_version s o version.id db ≡ returns (version, suite)
  unfolding verified_version found
  verified_version-version version raw suite o db row snapshot sum valid =
      let parsed : model_validate s.tools version.cases_snapshot ≡ returns suite =
        ap (model_validate s.tools) snapshot ∙ model_validate-model_dump s.tools laws raw valid in
      rw row (
        after_known _ _ parsed
        ∙ require_known _ _ _ (
            ap (λ z. str_eq z (digest s.tools (s.tools.model_dump suite))) sum
            ∙ eq_refl (digest s.tools (s.tools.model_dump suite))))

  model_validate-new_suite :
      (value : Json) {suite : EvaluationSuite}
      → model_validate s.tools value ≡ returns suite
      → (raw : EvaluationSuite) × (s.tools.parse value ≡ some raw)
        × (new_suite s.tools raw ≡ returns suite)
  unfolding model_validate
  model_validate-new_suite value {suite} h = found-returns _ _ _ h

  first_row :
      (v : EvaluationDatasetVersion) (vs : List EvaluationDatasetVersion)
      → find (λ w. (w.id == v.id) && (w.organization_id == v.organization_id)) (v ∷ vs) ≡ some v
  first_row v vs = ground (arith, ==_refl v.id, ==_refl v.organization_id)

  -- Under the laws of the text functions and of Pydantic: a version of a dataset that was created is read
  -- back, with the digest that it has and a suite that its snapshot is the dump of, within the limit of
  -- cases.
  pub verified_version-create_dataset_version :
      (who : Tables) (fresh actor o d revision : ℕ) (db : Db) {version : EvaluationDatasetVersion}
      {db' : Db}
      → create_dataset_version s who fresh actor o d revision db ≡ returns (version, db')
      → (suite : EvaluationSuite) × (verified_version s o version.id db' ≡ returns (version, suite))
        × (version.cases_snapshot ≡ s.tools.model_dump suite)
        × (length suite.cases ≤ s.max_cases_per_dataset)
  unfolding create_dataset_version validate_suite
  verified_version-create_dataset_version who fresh actor o d revision db {version} {db'} e =
      let (_, _, e1) = after-returns _ _ e in
      let (_, _, e2) = found-returns _ _ _ e1 in
      let (draft, _, e3) = found-returns _ _ _ e2 in
      let (_, e4) = require-returns _ _ _ e3 in
      let (suite, valid, e5) = after-returns _ _ e4 in
      let (few, e6) = require-returns _ _ _ e5 in
      let (_, e7) = require-returns _ _ _ e6 in
      let made = returns_injective e7 in
      let (raw, _, fresh_valid) = model_validate-new_suite draft.cases valid in
      (
        suite,
        subst
            (λ (y : EvaluationDatasetVersion × Db).
              verified_version s o y.0.id y.1 ≡ returns (y.0, suite))
            made
            (verified_version-version _ raw suite o _ (first_row _ db.dataset_versions) refl refl
              fresh_valid),
        sym (ap (λ (y : EvaluationDatasetVersion × Db). y.0.cases_snapshot) made),
        ground (arith, few),
      )

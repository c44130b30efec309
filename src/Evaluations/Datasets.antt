-- ===== src/Evaluations/Datasets.antt =====
-- The datasets of evaluations/service.py: `create_dataset`, `update_draft`, `create_dataset_version` and
-- `_dataset_version`. `who` has the tables that the check of access reads, `fresh` is a new row's id.
use aiagent.Evaluations.Suite.{
  EvaluationService, EvaluationSuite, dataset_code, validate_suite, model_validate, digest,
}
use aiagent.Evaluations.Rows.{
  EvaluationDataset, EvaluationDatasetDraft, EvaluationDatasetVersion, EvaluationDatasetStatus, Db,
  is_active_dataset, add_entry, user_audit,
}
use aiagent.Identity.Rows.{Tables}
use aiagent.Identity.Access.{access}
use aiagent.Errors.{
  ServiceError, Attempt, after, require, found, conflict, returns, resource_not_found,
  configuration_error,
}
use aiagent.Prelude.{
  String, ℕ, Option, Bool, some, find, first_by, str_eq, ◌==◌, not, ltb, ◌+◌, false, ◌&&◌, any,
  none, keep, length, ◌∷◌, update,
}
use aiagent.Json.{field, str, num, end}

abbrev pub dataset_write : String
dataset_write = "eval:dataset:write"

-- The constraint whose violation is an `IntegrityError`.
abbrev pub has_code : ℕ → String → EvaluationDataset → Bool
has_code organization_id code dataset =
    (dataset.organization_id == organization_id) && str_eq dataset.code code

unfoldable pub create_dataset :
    EvaluationService
    → Tables
    → ℕ
    → ℕ
    → ℕ
    → String
    → String
    → String
    → EvaluationSuite
    → Db
    → Attempt (EvaluationDataset × EvaluationDatasetDraft × Db)
create_dataset s who fresh actor_id organization_id code display_name description suite db =
    after (access actor_id organization_id (some dataset_write) who) λ _. validate_suite s suite (
      let normalized_code = s.tools.lower (s.tools.strip code) in
      require (s.tools.fullmatch dataset_code normalized_code)
        (conflict "Evaluation dataset code must use lowercase letters, digits, and hyphens.")
        (require (not (str_eq (s.tools.strip display_name) ""))
          (conflict "Evaluation dataset display name must not be blank.")
          (let dataset : EvaluationDataset = record {
            id = fresh;
            organization_id = organization_id;
            code = normalized_code;
            display_name = s.tools.strip display_name;
            description = s.tools.strip description;
            status = EvaluationDatasetStatus.active;
            created_by = actor_id;
          } in
            let draft : EvaluationDatasetDraft = record {
              dataset_id = fresh;
              organization_id = organization_id;
              revision = 1;
              cases = s.tools.model_dump suite;
              updated_by = actor_id;
            } in
            require (not (any (has_code organization_id normalized_code) db.datasets))
              (conflict "Evaluation dataset code already exists.")
              (returns (
                dataset,
                draft,
                add_entry
                    (user_audit organization_id actor_id "evaluation.dataset_created"
                      "evaluation_dataset" (some fresh) none
                      (field "code" (str normalized_code)
                        (field "cases" (num (length suite.cases)) end)))
                    (record db {
                      datasets = dataset ∷ db.datasets;
                      dataset_drafts = draft ∷ db.dataset_drafts;
                    }),
              )))))

abbrev pub is_draft_of : ℕ → ℕ → EvaluationDatasetDraft → Bool
is_draft_of organization_id dataset_id draft =
    (draft.dataset_id == dataset_id) && (draft.organization_id == organization_id)

abbrev draft_missing : ServiceError
draft_missing = resource_not_found "Evaluation dataset draft not found."

abbrev draft_stale : ServiceError
draft_stale = conflict "Evaluation dataset draft revision is stale."

unfoldable pub update_draft :
    EvaluationService
    → Tables
    → ℕ
    → ℕ
    → ℕ
    → ℕ
    → EvaluationSuite
    → Db
    → Attempt (EvaluationDatasetDraft × Db)
update_draft s who actor_id organization_id dataset_id expected_revision suite db =
    after (access actor_id organization_id (some dataset_write) who) λ _. validate_suite s suite (
      found (find (is_draft_of organization_id dataset_id) db.dataset_drafts) draft_missing λ draft.
        require (draft.revision == expected_revision) draft_stale (
          let draft' : EvaluationDatasetDraft = record draft {
            cases = s.tools.model_dump suite;
            revision = draft.revision + 1;
            updated_by = actor_id;
          } in
          returns (
            draft',
            add_entry
                (user_audit organization_id actor_id "evaluation.dataset_draft_updated"
                  "evaluation_dataset" (some dataset_id) none
                  (field "revision" (num draft'.revision)
                    (field "cases" (num (length suite.cases)) end)))
                (record db {
                  dataset_drafts =
                      update (is_draft_of organization_id dataset_id) (λ _. draft')
                        db.dataset_drafts;
                }),
          )))

-- `_active_dataset`.
abbrev pub active_dataset : ℕ → ℕ → Db → Option EvaluationDataset
active_dataset organization_id dataset_id db =
    find
      (λ d.
        (d.id == dataset_id)
        && ((d.organization_id == organization_id) && is_active_dataset d.status))
      db.datasets

abbrev pub latest_version : ℕ → Db → Option EvaluationDatasetVersion
latest_version dataset_id db =
    first_by (λ a b. ltb b.version_number a.version_number)
      (keep (λ v. v.dataset_id == dataset_id) db.dataset_versions)

abbrev pub next_number : Option EvaluationDatasetVersion → ℕ
next_number none = 1
next_number (some latest) = latest.version_number + 1

abbrev pub is_unchanged : Option EvaluationDatasetVersion → String → Bool
is_unchanged none digest = false
is_unchanged (some latest) digest = str_eq latest.cases_digest digest

unfoldable pub create_dataset_version :
    EvaluationService → Tables → ℕ → ℕ → ℕ → ℕ → ℕ → Db → Attempt (EvaluationDatasetVersion × Db)
create_dataset_version s who fresh actor_id organization_id dataset_id expected_revision db =
    after (access actor_id organization_id (some dataset_write) who) λ _.
      found (active_dataset organization_id dataset_id db)
        (resource_not_found "Evaluation dataset not found.")
        λ dataset.
          found (find (is_draft_of organization_id dataset.id) db.dataset_drafts) draft_missing
            λ draft. require (draft.revision == expected_revision) draft_stale (
              after (model_validate s.tools draft.cases) λ suite. validate_suite s suite (
                let snapshot = s.tools.model_dump suite in
                let latest = latest_version dataset_id db in
                require (not (is_unchanged latest (digest s.tools snapshot)))
                  (conflict "Evaluation dataset draft is unchanged from the latest version.")
                  (let version : EvaluationDatasetVersion = record {
                    id = fresh;
                    dataset_id = dataset_id;
                    organization_id = organization_id;
                    version_number = next_number latest;
                    cases_snapshot = snapshot;
                    cases_digest = digest s.tools snapshot;
                    created_by = actor_id;
                  } in
                    returns (
                      version,
                      add_entry
                          (user_audit organization_id actor_id "evaluation.dataset_version_created"
                            "evaluation_dataset_version" (some fresh) none
                            (field "dataset_id" (num dataset_id) (
                              field "version" (num version.version_number)
                                (field "cases_digest" (str version.cases_digest) end))))
                          (record db { dataset_versions = version ∷ db.dataset_versions }),
                    ))))

abbrev pub find_dataset_version : ℕ → ℕ → Db → Option EvaluationDatasetVersion
find_dataset_version organization_id version_id db =
    find (λ v. (v.id == version_id) && (v.organization_id == organization_id)) db.dataset_versions

-- `_dataset_version` with `verify=True`, as it always is; the suite is what the callers read of the
-- version again.
unfoldable pub verified_version :
    EvaluationService → ℕ → ℕ → Db → Attempt (EvaluationDatasetVersion × EvaluationSuite)
verified_version s organization_id version_id db =
    found (find_dataset_version organization_id version_id db)
      (resource_not_found "Evaluation dataset version not found.")
      λ version. after (model_validate s.tools version.cases_snapshot) λ suite.
        require (str_eq version.cases_digest (digest s.tools (s.tools.model_dump suite)))
          (configuration_error "Stored evaluation dataset version integrity check failed.")
          (returns (version, suite))

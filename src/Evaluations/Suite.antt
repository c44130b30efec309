-- ===== src/Evaluations/Suite.antt =====
-- `EvaluationSuite` and its cases (evaluations/service.py): the validators, the limit and the digests.
use aiagent.Prelude.{
  ℕ, String, List, Bool, Option, leb, map, ◌&&◌, length, not, ◌∷◌, str_eq, any, [],
}
use aiagent.Json.{Json, obj, field, num, str, bool, end}
use aiagent.Errors.{Attempt, require, after, returns, found, validation_error, conflict}
use aiagent.Agents.Rows.{Environment, env_value}
use aiagent.Agents.Config.{is_unique, tool_name}

pub data Severity : Type 0 where
  quality critical : Severity

pub record EvaluationCaseSpec : Type 0 where
  pub key : String
  pub question : String
  pub expected_tools : List String
  pub requires_citation : Bool
  pub expects_denial : Bool
  pub severity : Severity

-- `schema_version` has one value and is left out.
pub record EvaluationSuite : Type 0 where
  pub cases : List EvaluationCaseSpec

-- What the service takes from libraries: the length of a text, `str.lower`, `str.strip`,
-- `re.fullmatch` of a pattern on a text, Pydantic's `model_dump` of a suite and its parsing of a JSON
-- value into the fields, before the validators of the source, `json.dumps` with sorted keys, and the
-- hexadecimal SHA-256 of a text.
pub record SuiteToolkit : Type 0 where
  pub len : String → ℕ
  pub lower : String → String
  pub strip : String → String
  pub fullmatch : String → String → Bool
  pub model_dump : EvaluationSuite → Json
  pub parse : Json → Option EvaluationSuite
  pub dumps : Json → String
  pub sha256 : String → String

-- The fields that `EvaluationService.__init__` sets.
pub record EvaluationService : Type 0 where
  pub tools : SuiteToolkit
  pub environment : Environment
  pub max_cases_per_dataset : ℕ

abbrev pub dataset_code : String
dataset_code = "^[a-z][a-z0-9-]{1,99}$"

abbrev pub case_key : String
case_key = "^[A-Za-z0-9_.:-]{1,100}$"

module _ (k : SuiteToolkit) where
  -- `Field(min_length=..., max_length=...)` of a text.
  abbrev pub has_length : ℕ → ℕ → String → Bool
  has_length low high text = leb low (k.len text) && leb (k.len text) high

  unfoldable pub validate_key : String → Attempt String
  validate_key value = require (has_length 1 100 value) (validation_error "key") (
      let normalized = k.strip value in
      require (k.fullmatch case_key normalized)
        (validation_error "Evaluation case key contains an invalid value.") (returns normalized))

  unfoldable pub normalize_question : String → Attempt String
  normalize_question value = require (has_length 1 4000 value) (validation_error "question") (
      let normalized = k.strip value in
      require (not (str_eq normalized ""))
        (validation_error "Evaluation question must not be blank.") (returns normalized))

  unfoldable pub validate_tools : List String → Attempt (List String)
  validate_tools value = require (leb (length value) 20) (validation_error "expected_tools") (
      let normalized = map k.strip value in
      require (not (any (λ item. not (k.fullmatch tool_name item)) normalized))
        (validation_error "Evaluation expected Tool names contain an invalid value.")
        (require (is_unique normalized)
          (validation_error "Evaluation expected Tool names must be unique.") (returns normalized)))

  -- The validators of one case, in the order of its fields; Pydantic gathers the errors of all fields,
  -- here the first is raised.
  unfoldable pub validate_case : EvaluationCaseSpec → Attempt EvaluationCaseSpec
  validate_case c = after (validate_key c.key) λ key.
      after (normalize_question c.question) λ question.
        after (validate_tools c.expected_tools) λ tools.
          require (not (c.expects_denial && c.requires_citation))
            (validation_error "A denial case cannot require a Citation.")
            (returns (record c { key = key; question = question; expected_tools = tools }))

  unfoldable pub validate_cases : List EvaluationCaseSpec → Attempt (List EvaluationCaseSpec)
  validate_cases [] = returns []
  validate_cases (c ∷ cs) =
      after (validate_case c) λ d. after (validate_cases cs) λ ds. returns (d ∷ ds)

  abbrev pub case_keys : List EvaluationCaseSpec → List String
  case_keys cases = map (λ c. c.key) cases

  unfoldable pub new_suite : EvaluationSuite → Attempt EvaluationSuite
  new_suite raw = require (leb 1 (length raw.cases)) (validation_error "cases") (
      after (validate_cases raw.cases) λ cases.
        require (is_unique (case_keys cases))
          (validation_error "Evaluation case keys must be unique.")
          (returns (record { cases = cases })))

  -- `EvaluationSuite.model_validate`.
  unfoldable pub model_validate : Json → Attempt EvaluationSuite
  model_validate value = found (k.parse value) (validation_error "suite") new_suite

  unfoldable pub digest : Json → String
  digest value = k.sha256 (k.dumps value)

  -- Rates are in millionths.
  unfoldable pub policy_digest : ℕ → Environment → ℕ → ℕ → ℕ → ℕ → Bool → String
  policy_digest agent_id environment dataset_version_id revision min_pass_rate max_critical_failures
        is_enabled =
      digest (
        obj (
          field "agent_id" (num agent_id) (
            field "environment" (str (env_value environment)) (
              field "dataset_version_id" (num dataset_version_id) (
                field "revision" (num revision) (
                  field "min_pass_rate" (num min_pass_rate) (
                    field "max_critical_failures" (num max_critical_failures)
                      (field "is_enabled" (bool is_enabled) end))))))))

-- `_validate_suite`.
unfoldable pub validate_suite :
    {A : Type 0} → EvaluationService → EvaluationSuite → Attempt A → Attempt A
validate_suite s suite next =
    require (leb (length suite.cases) s.max_cases_per_dataset)
      (conflict "Evaluation dataset exceeds the configured case limit.") next

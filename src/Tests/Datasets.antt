-- ===== src/Tests/Datasets.antt =====
-- A dataset of evaluations/service.py whose suites are dumped as lists.
use aiagent.Tests.Evaluations.{tables, start, result_of}
use aiagent.Evaluations.Suite.{
  SuiteToolkit, EvaluationService, EvaluationSuite, EvaluationCaseSpec, Severity, quality, critical,
}
use aiagent.Evaluations.Suite.{
  validate_suite, model_validate, new_suite, validate_cases, validate_case, validate_key,
  normalize_question, validate_tools, digest,
}
use aiagent.Evaluations.Datasets.{create_dataset_version, verified_version}
use aiagent.Evaluations.Rows.{Db, EvaluationDatasetVersion, EvaluationDatasetStatus}
use aiagent.Evaluations.Snapshots.{ToolkitLaws, verified_version-create_dataset_version}
use aiagent.Agents.Rows.{Environment}
use aiagent.Identity.Access.{access}
use aiagent.Errors.{returns, after, found, require}
use aiagent.Json.{Json, Items, nil, cons, str, bool, arr}
use aiagent.Prelude.{
  [], List, Bool, Option, true, ◌≡◌, arith, ◌∷◌, String, false, some, none, length, if◌then◌else◌,
  ap, refl, ◌≤◌,
}

abbrev dump_tools : List String → Items
dump_tools [] = nil
dump_tools (tool ∷ tools) = cons (str tool) (dump_tools tools)

abbrev is_critical : Severity → Bool
is_critical quality = false
is_critical critical = true

abbrev dump_case : EvaluationCaseSpec → Json
dump_case c = arr (
    cons (str c.key) (
      cons (str c.question) (
        cons (arr (dump_tools c.expected_tools)) (
          cons (bool c.requires_citation)
            (cons (bool c.expects_denial) (cons (bool (is_critical c.severity)) nil))))))

abbrev dump_cases : List EvaluationCaseSpec → Items
dump_cases [] = nil
dump_cases (c ∷ cs) = cons (dump_case c) (dump_cases cs)

abbrev parse_tools : Items → List String
parse_tools (cons (str tool) items) = tool ∷ parse_tools items
parse_tools _ = []

abbrev parse_case : Json → Option EvaluationCaseSpec
parse_case
      (arr (
        cons (str key) (
          cons
            (str question)
            (cons (arr tools) (cons (bool c) (cons (bool d) (cons (bool s) nil))))))) =
    some (record {
      key = key;
      question = question;
      expected_tools = parse_tools tools;
      requires_citation = c;
      expects_denial = d;
      severity = if s then critical else quality;
    })
parse_case _ = none

abbrev parse_cases : Items → Option (List EvaluationCaseSpec)
parse_cases nil = some []
parse_cases (cons item items) = elim (parse_case item) [
  | none ↦ none
  | some c ↦ elim (parse_cases items) [ none ↦ none | some cs ↦ some (c ∷ cs) ]
]

abbrev parse_suite : Json → Option EvaluationSuite
parse_suite (arr items) = elim (parse_cases items) [
  | none ↦ none
  | some cases ↦ some (record { cases = cases })
]
parse_suite _ = none

abbrev toolkit : SuiteToolkit
toolkit = record {
  len = λ _. 5;
  lower = λ text. text;
  strip = λ text. text;
  fullmatch = λ _ _. true;
  model_dump = λ suite. arr (dump_cases suite.cases);
  parse = parse_suite;
  dumps = λ _. "d";
  sha256 = λ text. text;
}

dump_tools-parse : (tools : List String) → parse_tools (dump_tools tools) ≡ tools
dump_tools-parse [] = refl
dump_tools-parse (tool ∷ tools) = ap (λ ts. tool ∷ ts) (dump_tools-parse tools)

dump_case-parse : (c : EvaluationCaseSpec) → parse_case (dump_case c) ≡ some c
dump_case-parse c = ground (arith, dump_tools-parse c.expected_tools)

dump_cases-parse : (cs : List EvaluationCaseSpec) → parse_cases (dump_cases cs) ≡ some cs
dump_cases-parse [] = refl
dump_cases-parse (c ∷ cs) = ground (arith, dump_case-parse c, dump_cases-parse cs)

toolkit_laws : ToolkitLaws toolkit
toolkit_laws = record {
  strip_strip = λ x. refl;
  strip_shorter = λ x. omega arith;
  len_positive = λ x h. omega arith;
  key_length = λ x h. refl;
  parse_dump = λ suite. ground (arith, dump_cases-parse suite.cases);
}

abbrev service : EvaluationService
service = record { tools = toolkit; environment = Environment.test; max_cases_per_dataset = 5 }

abbrev one_case : EvaluationSuite
one_case = record {
  cases =
      record {
        key = "a";
        question = "?";
        expected_tools = "find" ∷ [];
        requires_citation = true;
        expects_denial = false;
        severity = critical;
      }
      ∷ [];
}

abbrev drafted : Db
drafted = record start {
  datasets =
      record {
        id = 2;
        organization_id = 1;
        code = "golden";
        display_name = "Golden";
        description = "";
        status = EvaluationDatasetStatus.active;
        created_by = 2;
      }
      ∷ [];
  dataset_drafts =
      record {
        dataset_id = 2;
        organization_id = 1;
        revision = 1;
        cases = arr (dump_cases one_case.cases);
        updated_by = 2;
      }
      ∷ [];
}

abbrev first_version : EvaluationDatasetVersion
first_version = record {
  id = 30;
  dataset_id = 2;
  organization_id = 1;
  version_number = 1;
  cases_snapshot = arr (dump_cases one_case.cases);
  cases_digest = "d";
  created_by = 2;
}

unfoldable versioned : Db
unfolding create_dataset_version access after found require validate_suite model_validate new_suite
    validate_cases validate_case validate_key normalize_question validate_tools digest
versioned =
    (result_of (first_version, start) (create_dataset_version service tables 30 2 1 2 1 drafted)).1

creates_version :
    create_dataset_version service tables 30 2 1 2 1 drafted ≡ returns (first_version, versioned)
unfolding versioned create_dataset_version access after found require validate_suite model_validate
    new_suite validate_cases validate_case validate_key normalize_question validate_tools digest
creates_version = refl

verified_version-create_dataset_version_example :
    (suite : EvaluationSuite) × (verified_version service 1 30 versioned
      ≡ returns (first_version, suite))
    × (first_version.cases_snapshot ≡ toolkit.model_dump suite)
    × (length suite.cases ≤ 5)
verified_version-create_dataset_version_example =
    verified_version-create_dataset_version service toolkit_laws tables 30 2 1 2 1 drafted
      creates_version

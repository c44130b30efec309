-- ===== src/Agents/Config.antt =====
-- `AgentVersionConfig` of agents/control.py, with the limits of config.py. Durations are microseconds,
-- costs micros.
use aiagent.Prelude.{ℕ, String, List, Bool, Option, true, leb, ◌∷◌, map, ◌&&◌, not, any, str_eq, []}
use aiagent.Json.{Json}
use aiagent.Errors.{ServiceError, Attempt, conflict, require, validation_error, returns}
use aiagent.Agents.Rows.{Environment}

pub record RunLimitSettings : Type 0 where
  pub max_question_characters : ℕ
  pub max_model_rounds : ℕ
  pub max_tool_calls : ℕ
  pub max_run_seconds : ℕ
  pub max_input_tokens : ℕ
  pub max_output_tokens : ℕ
  pub max_cost_usd : ℕ

pub data CitationPolicy : Type 0 where
  optional required_if_tools_used : CitationPolicy

-- The fields with one value only, `schema_version`, `model_policy_ref` and `security_policy_ref`, are
-- left out.
pub record AgentVersionConfig : Type 0 where
  pub system_prompt : String
  pub allowed_tools : List String
  pub limits : RunLimitSettings
  pub citation_policy : CitationPolicy

-- What the services take from libraries: `str.lower`, `str.strip`, `re.fullmatch` of a pattern on a
-- text, Pydantic's `model_dump` and `model_validate` of a configuration, `json.dumps` with sorted
-- keys, and the hexadecimal SHA-256 of a text.
pub record Toolkit : Type 0 where
  pub lower : String → String
  pub strip : String → String
  pub fullmatch : String → String → Bool
  pub model_dump : AgentVersionConfig → Json
  pub model_validate : Json → Option AgentVersionConfig
  pub dumps : Json → String
  pub sha256 : String → String

-- The lists of tool names that the validator admits have no name twice.
abbrev pub is_unique : List String → Bool
is_unique [] = true
is_unique (x ∷ xs) = not (any (λ y. str_eq y x) xs) && is_unique xs

abbrev pub agent_code : String
agent_code = "^[a-z][a-z0-9-]{1,99}$"

abbrev pub tool_name : String
tool_name = "^[A-Za-z0-9_.:-]{1,200}$"

module _ (k : Toolkit) where
  unfoldable pub normalize_prompt : String → Attempt String
  normalize_prompt value =
      let normalized = k.strip value in
      require (not (str_eq normalized ""))
        (validation_error "Agent system prompt must not be blank.") (returns normalized)

  unfoldable pub validate_allowed_tools : List String → Attempt (List String)
  validate_allowed_tools value =
      let normalized = map k.strip value in
      require (not (any (λ item. not (k.fullmatch tool_name item)) normalized))
        (validation_error "Agent Tool names contain an invalid value.")
        (require (is_unique normalized) (validation_error "Agent Tool names must be unique.")
          (returns normalized))

  unfoldable pub config_digest : Json → String
  config_digest snapshot = k.sha256 (k.dumps snapshot)

-- `_validate_limits`: no field is above the platform's.
unfoldable pub within_limits : RunLimitSettings → RunLimitSettings → Bool
within_limits platform limits =
    leb limits.max_question_characters platform.max_question_characters
    && (leb limits.max_model_rounds platform.max_model_rounds
        && (leb limits.max_tool_calls platform.max_tool_calls
            && (leb limits.max_run_seconds platform.max_run_seconds
                && (leb limits.max_input_tokens platform.max_input_tokens
                    && (leb limits.max_output_tokens platform.max_output_tokens
                        && leb limits.max_cost_usd platform.max_cost_usd)))))

abbrev pub limits_error : ServiceError
limits_error = conflict "Agent limits cannot exceed platform hard limits."

pub data AgentControlMode : Type 0 where
  legacy managed_optional managed_required : AgentControlMode

pub data EvaluationGateMode : Type 0 where
  off advisory required : EvaluationGateMode

-- The fields that `AgentControlService.__init__` sets; `evaluations` tells whether the service of that
-- name was given.
pub record AgentControlService : Type 0 where
  pub tools : Toolkit
  pub platform_limits : RunLimitSettings
  pub default_config : AgentVersionConfig
  pub mode : AgentControlMode
  pub environment : Environment
  pub evaluation_gate_mode : EvaluationGateMode
  pub evaluations : Bool

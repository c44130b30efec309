-- ===== src/Mcp/Gateway.antt =====
-- `McpGateway.call` of mcp/gateway.py, with the limiter and the circuit breaker in memory. The catalog, the
-- JSON schemas and the client of the server are parameters, and what a server answers is an argument. The
-- semaphore only makes calls wait; the time of one call is one instant.
pub mod Call
use aiagent.Mcp.RateLimiter.{Events}
use aiagent.Mcp.CircuitBreaker.{Breaker}
use aiagent.Agents.Model.{ToolResult, Citation}
use aiagent.Json.{Json, Items, Fields, obj, arr, field, bool, cons, null, num, str, nil, end}
use aiagent.Prelude.{
  String, ℕ, Option, List, none, Bool, ◌∷◌, false, any, some, ltb, if◌then◌else◌, [], leb, str_eq,
  true,
}

-- The errors that a call tells apart.
pub data GatewayError : Type 0 where
  gateway_timeout protocol_validation rate_limit_exceeded circuit_open : GatewayError
  authorization mcp_connection other_error : GatewayError

-- What the code takes from Python: `str.lower`, `replace(_, "")` of a part, `in` on texts, the length of
-- a text and of its bytes, `json.dumps` without and with
-- blanks, hexadecimal SHA-256, and the texts of keys and numbers.
pub record GatewayTexts : Type 0 where
  pub lower : String → String
  pub without : String → String → String
  pub contains : String → String → Bool
  pub len : String → ℕ
  pub byte_len : String → ℕ
  pub dumps : Json → String
  pub dumps_spaced : Json → String
  pub sha256 : String → String
  pub show : ℕ → String
  pub key : ℕ → ℕ → String
  pub user_key : String → ℕ → String

-- A tool that the catalog resolved, with the columns of its server; durations are microseconds.
pub record ResolvedTool : Type 0 where
  pub tool_name : String
  pub input_schema : Json
  pub output_schema : Option Json
  pub server_id : ℕ
  pub server_code : String
  pub system_code : String
  pub rate_limit_per_minute : ℕ
  pub response_size_limit : ℕ
  pub circuit_breaker_threshold : ℕ
  pub circuit_breaker_recovery : ℕ

pub record RunContext : Type 0 where
  pub organization_id : ℕ
  pub user_id : ℕ
  pub trace_id : String
  pub deadline : Option ℕ

-- `CallToolResult`, its parts already as JSON values.
pub record RawResult : Type 0 where
  pub structured_content : Option Json
  pub content : Items
  pub is_error : Bool

pub data Answer : Type 0 where
  answers : RawResult → Answer
  errs : GatewayError → Answer

-- The state of the gateway: the audit records that were asked for, newest first, as status and error.
pub record Gateway : Type 0 where
  pub events : Events
  pub breaker : Breaker
  pub audit : List (String × Option String)

pub data Outcome : Type 0 where
  gives : ToolResult → Outcome
  fails : GatewayError → Outcome

abbrev pub sensitive_names : List String
sensitive_names =
    "accesstoken" ∷ "refreshtoken" ∷ "clientsecret" ∷ "token" ∷ "credential" ∷ "authorization"
    ∷ "password" ∷ "secret" ∷ "cookie" ∷ []

abbrev pub denial_markers : List String
denial_markers = "forbidden" ∷ "unauthorized" ∷ "access denied" ∷ "permission denied" ∷ []

abbrev pub has_expired : ℕ → RunContext → Bool
has_expired now context = elim context.deadline [ none ↦ false | some d ↦ leb d now ]

-- `arguments.get(key)`.
abbrev pub get : String → Fields → Option Json
get key end = none
get key (field k value fields) = if str_eq k key then some value else get key fields

module _ (t : GatewayTexts) where
  abbrev pub is_secret : String → Bool
  is_secret key = any (λ part. t.contains (t.without (t.lower key) "_") part) sensitive_names

  -- `_sanitize`.
  unfoldable mutual
    pub sanitize_result : Json → Json
    sanitize_result (obj fields) = obj (sanitize_entries fields)
    sanitize_result (arr items) = arr (sanitize_list items)
    sanitize_result null = null
    sanitize_result (bool b) = bool b
    sanitize_result (num n) = num n
    sanitize_result (str text) = str text

    pub sanitize_entries : Fields → Fields
    sanitize_entries end = end
    sanitize_entries (field key value fields) =
        let inner = sanitize_result value in
        field key (if is_secret key then str "[REDACTED]" else inner) (sanitize_entries fields)

    pub sanitize_list : Items → Items
    sanitize_list nil = nil
    sanitize_list (cons item items) = cons (sanitize_result item) (sanitize_list items)

  -- `_resource_id`, for one key: a text or a number that is not too long; in Python the Booleans are
  -- numbers.
  abbrev pub short_text : Option Json → Option String
  short_text (some (str text)) = if leb (t.len text) 300 then some text else none
  short_text (some (num n)) = if leb (t.len (t.show n)) 300 then some (t.show n) else none
  short_text (some (bool b)) = some (if b then "True" else "False")
  short_text _ = none

  abbrev pub resource_id : Fields → Option String
  resource_id arguments = elim (short_text (get "dataset_id" arguments)) [
    | some id ↦ some id
    | none ↦ short_text (get "resource_id" arguments)
  ]

  abbrev pub payload_of : RawResult → Json
  payload_of raw = elim raw.structured_content [ none ↦ arr raw.content | some value ↦ value ]

  -- `_result` after the check of the schema: what is too long is replaced by its digest.
  abbrev pub is_too_long : ResolvedTool → RawResult → Bool
  is_too_long tool raw = ltb tool.response_size_limit (t.byte_len (t.dumps (payload_of raw)))

  abbrev pub digest_of : RawResult → Json
  digest_of raw = obj (
      field "truncated" (bool true)
        (field "sha256" (str (t.sha256 (t.dumps (payload_of raw)))) end))

  abbrev pub shown : ResolvedTool → RawResult → Json
  shown tool raw = if is_too_long tool raw then digest_of raw else sanitize_result (payload_of raw)

  abbrev pub listed : Json → Json
  listed (arr items) = arr items
  listed value = arr (cons value nil)

  abbrev pub opt_text : Option String → Json
  opt_text none = null
  opt_text (some text) = str text

  abbrev pub citation_for : ℕ → RunContext → ResolvedTool → Fields → Bool → Citation
  citation_for now context tool arguments truncated = record {
    server_code = tool.server_code;
    partial = truncated;
    json = obj (
        field "source_system" (str tool.system_code) (
          field "server_code" (str tool.server_code) (
            field "tool_name" (str tool.tool_name) (
              field "queried_at" (num now) (
                field "trace_id" (str context.trace_id) (
                  field "resource_id" (opt_text (resource_id arguments))
                    (field "partial" (bool truncated) end)))))));
  }

  unfoldable pub tool_result : ℕ → RunContext → ResolvedTool → Fields → RawResult → ToolResult
  tool_result now context tool arguments raw =
      let truncated = is_too_long tool raw in
      let citation = citation_for now context tool arguments truncated in
      record {
        is_error = raw.is_error;
        structured_content = elim raw.structured_content [
          | none ↦ none
          | some _ ↦ some (shown tool raw)
        ];
        content = elim raw.structured_content [
          | none ↦ listed (shown tool raw)
          | some _ ↦ if truncated then arr nil else arr raw.content
        ];
        truncated = truncated;
        citation = some citation;
        citations = citation ∷ [];
        duration_ms = some 0;
      }

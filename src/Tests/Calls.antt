-- ===== src/Tests/Calls.antt =====
-- A call of a tool through mcp/gateway.py that times out.
use aiagent.Mcp.Gateway.{GatewayTexts, ResolvedTool, RunContext, Gateway, Answer, gateway_timeout}
use aiagent.Mcp.Gateway.Call.{Catalog, call, Accounted, call-Accounted}
use aiagent.Json.{Json, Fields}
use aiagent.Prelude.{[], false, none, inl, some, refl, true}

abbrev texts : GatewayTexts
texts = record {
  lower = λ text. text;
  without = λ text _. text;
  contains = λ _ _. false;
  len = λ _. 3;
  byte_len = λ _. 3;
  dumps = λ _. "json";
  dumps_spaced = λ _. "json";
  sha256 = λ text. text;
  show = λ _. "1";
  key = λ _ _. "1:4";
  user_key = λ key _. key;
}

abbrev tool : ResolvedTool
tool = record {
  tool_name = "find";
  input_schema = Json.null;
  output_schema = none;
  server_id = 4;
  server_code = "erp";
  system_code = "erp";
  rate_limit_per_minute = 5;
  response_size_limit = 100;
  circuit_breaker_threshold = 2;
  circuit_breaker_recovery = 30;
}

abbrev catalog : Catalog
catalog = record { resolve_tool = λ _ _. inl tool; is_valid = λ _ _. true }

abbrev context : RunContext
context = record { organization_id = 1; user_id = 2; trace_id = "t"; deadline = some 50 }

-- One failure so far.
abbrev gateway : Gateway
gateway = record {
  events = λ _. [];
  breaker = record { failures = λ _. 1; opened_until = λ _. 0 };
  audit = [];
}

call-Accounted_example :
    Accounted texts catalog "1:4" 1 []
      (call texts catalog 10 context "find" Fields.end (Answer.errs gateway_timeout) gateway).0
      (call texts catalog 10 context "find" Fields.end (Answer.errs gateway_timeout) gateway).1
call-Accounted_example =
    call-Accounted texts catalog 10 context "find" Fields.end (Answer.errs gateway_timeout) gateway
      refl refl

-- ===== src/Agents/Rounds.antt =====
-- What a run of agents/single_agent.py does at most, however it ends.
pub mod Calls
pub mod Bounds
pub mod Results
use aiagent.Agents.Model.{
  Trace, Traced, Effect, streamed, sent, called, and_then, Provider, ModelMessage, ModelStreamEvent,
  Reply, send, consume, stream_model, real_delta, no_reply, finished_reply, ToolDefinition,
  ToolGateway, ModelToolCall,
}
use aiagent.Errors.{ServiceError, returns, raises, some_injective}
use aiagent.Prelude.{
  [], Bool, ℕ, Option, ◌≡◌, true, length, List, refl, false, keep, String, some, All, ◌∷◌, any,
  none, ◌∙◌, Option-cases, str_eq, inl, inr, arith, ◌≤◌, All-map, ap, All-unit, Bool-cases,
  All-keep, ◌+◌, subst,
}
use aiagent.Agents.Single.{RunOptions, definition_named, allowed, call_tools, Loop}

abbrev pub is_call : Effect → Bool
is_call (called name) = true
is_call _ = false

abbrev pub is_round : Effect → Bool
is_round (streamed limit) = true
is_round _ = false

abbrev pub call_count : Trace → ℕ
call_count trace = length (keep is_call trace)

abbrev pub round_count : Trace → ℕ
round_count trace = length (keep is_round trace)

-- A call is of a tool on the allowlist, where there is one.
abbrev pub is_listed : Option (List String) → String → Bool
is_listed none name = true
is_listed (some names) name = any (λ n. str_eq n name) names

abbrev pub Listed : Option (List String) → Effect → Type 0
Listed names (called name) = is_listed names name ≡ true
Listed names _ = Unit

pub and_then-trace :
    {A B : Type 0} (P : Trace → Type 0) (r : Traced A) (next : A → Trace → Traced B)
    → P r.1
    → ((a : A) → r.0 ≡ returns a → P (next a r.1).1)
    → P (and_then r next).1
and_then-trace P (returns a, trace) next h k = k a refl
and_then-trace P (raises error, trace) next h k = h

-- Nothing but deltas was added.
abbrev pub Quiet : Option (List String) → Trace → Trace → Type 0
Quiet names old new =
    (call_count new ≡ call_count old)
    × (round_count new ≡ round_count old)
    × (All (Listed names) old → All (Listed names) new)

module _ (names : Option (List String)) (p : Provider) where
  send-Quiet :
      (delta : Option String) (reply : Reply) (trace : Trace)
      → Quiet names trace (send p delta reply trace).1
  send-Quiet none reply trace = (refl, refl, λ h. h)
  send-Quiet (some delta) reply trace =
      and_then-trace (Quiet names trace) (p.on_delta trace delta, sent delta ∷ trace) _
        (refl, refl, λ h. (tt, h)) (λ _ _. (refl, refl, λ h. (tt, h)))

  consume-Quiet :
      (events : List ModelStreamEvent) (error : Option ServiceError) (reply : Reply) (trace : Trace)
      → Quiet names trace (consume p events error reply trace).1
  unfolding consume
  consume-Quiet [] none reply trace = (refl, refl, λ h. h)
  consume-Quiet [] (some error) reply trace = (refl, refl, λ h. h)
  consume-Quiet (event ∷ events) error reply trace =
      let sent_one = send p (real_delta event.delta) reply trace in
      let first = send-Quiet (real_delta event.delta) reply trace in
      and_then-trace (Quiet names trace) sent_one _ first (λ reply' _.
        let rest = consume-Quiet events error _ sent_one.1 in
        (rest.0 ∙ first.0, rest.1 ∙ first.1, λ h. rest.2 (first.2 h)))

  -- A round of the model is one, and calls no tool.
  pub stream_model-trace :
      (messages : List ModelMessage) (limit : ℕ) (trace : Trace)
      → Quiet names (streamed limit ∷ trace) (stream_model p messages limit trace).1
  unfolding stream_model
  stream_model-trace messages limit trace =
      let events = p.stream trace messages limit in
      let q = consume-Quiet events.0 events.1 no_reply (streamed limit ∷ trace) in
      and_then-trace (Quiet names (streamed limit ∷ trace)) _ (finished_reply p) q
        (λ reply _. kept reply (consume p events.0 events.1 no_reply (streamed limit ∷ trace)).1 q)
    where
      kept :
          (reply : Reply) (new : Trace)
          → Quiet names (streamed limit ∷ trace) new
          → Quiet names (streamed limit ∷ trace) (finished_reply p reply new).1
      kept reply new q = elim (Option-cases reply.usage) [
        | inl h ↦ rw h q
        | inr (usage, h) ↦ rw h q
      ]

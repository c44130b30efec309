-- ===== src/Agents/Rounds/Calls.antt =====
-- The calls of tools in a round (agents/single_agent.py): which they are, and how many.
use aiagent.Agents.Rounds.{call_count, round_count, is_listed, Listed, and_then-trace, inr, inl}
use aiagent.Agents.Model.{
  Trace, Traced, ToolDefinition, ToolResult, ToolGateway, ModelToolCall, Provider, and_then, called,
}
use aiagent.Agents.Single.{RunOptions, Loop, allowed, definition_named, call_tools, after_call}
use aiagent.Errors.{returns, raises, returns_injective, some_injective}
use text.Mathlib.TextEquality.{eq_iff}
use aiagent.Prelude.{
  [], ◌≡◌, String, Option, ℕ, List, arith, All, ◌≤◌, ◌+◌, refl, some, true, length, ◌∷◌,
  Option-cases, All-map, All-unit, ◌∙◌, All-keep, subst, ap, any, Bool-cases, str_eq, length-append,
  none, sym,
}

pub and_then-returns :
    {A B : Type 0} (r : Traced A) (next : A → Trace → Traced B) {b : B}
    → (and_then r next).0 ≡ returns b
    → (a : A) × (r.0 ≡ returns a)
      × ((next a r.1).0 ≡ returns b)
      × ((and_then r next).1 ≡ (next a r.1).1)
and_then-returns (returns a, trace) next e = (a, refl, e, refl)
and_then-returns (raises error, trace) next e = ground arith

-- What `call` can be asked for.
definition_named-All :
    (P : ToolDefinition → Type 0) (name : String) (definitions : List ToolDefinition)
    {d : ToolDefinition}
    → All P definitions
    → definition_named definitions name ≡ some d
    → P d × (d.name ≡ name)
definition_named-All P name [] {d} h e = ground arith
definition_named-All P name (x ∷ definitions) {d} h e =
    elim (Option-cases (definition_named definitions name)) [
      | inr (later, k) ↦
          let same : later ≡ d = some_injective (rw k at e) in
          definition_named-All P name definitions {d = d} h.1 (k ∙ ap some same)
      | inl k ↦ elim (Bool-cases (str_eq x.name name)) [
        | inl yes_x ↦
            let same : x ≡ d = some_injective (rw (k, yes_x) at e) in
            subst (λ (y : ToolDefinition). P y × (y.name ≡ name)) same (h.0, (eq_iff _ _).0 yes_x)
        | inr no_x ↦ ground (arith, (rw (k, no_x) at e))
      ]
    ]

allowed-All :
    (names : Option (List String)) (definitions : List ToolDefinition)
    → All (λ d. is_listed names d.name ≡ true) (allowed names definitions)
allowed-All none definitions = All-map _ _ (λ _ _. refl) definitions (All-unit definitions)
allowed-All (some names) definitions =
    All-map _ _ (λ _ k. k.1) _
      (All-keep (λ _. Unit {0}) (λ d. any (λ n. str_eq n d.name) names) definitions
        (All-unit definitions))

-- What a run has done at most.
abbrev pub Within : ℕ → ℕ → Option (List String) → Trace → Type 0
Within calls model_rounds names trace =
    (call_count trace ≤ calls) × (round_count trace ≤ model_rounds) × All (Listed names) trace

module _ (p : Provider) (o : RunOptions) (gateway : ToolGateway)
    (listed : List ToolDefinition) where
  abbrev definitions : List ToolDefinition
  definitions = allowed o.tool_allowlist listed

  pub call_tools-Within :
      (most : ℕ) (calls : List ModelToolCall) (loop : Loop) (trace : Trace)
      → call_count trace + length calls ≤ o.max_tool_calls
      → round_count trace ≤ most
      → All (Listed o.tool_allowlist) trace
      → Within o.max_tool_calls most o.tool_allowlist
          (call_tools p o gateway definitions calls loop trace).1
  unfolding call_tools
  call_tools-Within most [] loop trace h k l = (omega (arith, h), k, l)
  call_tools-Within most (call ∷ calls) loop trace h k l =
      elim (Option-cases (definition_named definitions call.name)) [
        | inl missing ↦ rw (missing, call_tools) (omega (arith, h), k, l)
        | inr (d, e) ↦
            let (listed_d, same) =
              definition_named-All (λ d. is_listed o.tool_allowlist d.name ≡ true) call.name
                definitions (allowed-All o.tool_allowlist listed) e in
            let good : is_listed o.tool_allowlist call.name ≡ true =
              subst (λ n. is_listed o.tool_allowlist n ≡ true) same listed_d in
            rw (e, call_tools)
              (and_then-trace (Within o.max_tool_calls most o.tool_allowlist)
                (gateway.call trace call.name call.arguments, called call.name ∷ trace) _
                (omega (arith, h), k, (good, l))
                (λ result _.
                  call_tools-Within most calls _ (called call.name ∷ trace) (omega (arith, h)) k
                    (good, l)))
      ]

  -- What the calls of a round leave, when all of them return.
  abbrev pub Counted : List ModelToolCall → Loop → Trace → Loop → Trace → Type 0
  Counted calls loop trace loop' trace' =
      (call_count trace' ≡ call_count trace + length calls)
      × (loop'.calls_used ≡ loop.calls_used + length calls)
      × (length loop'.invocations ≡ length loop.invocations + length calls)
      × (round_count trace' ≡ round_count trace)
      × (loop'.usage ≡ loop.usage)

  pub call_tools-Counted :
      (calls : List ModelToolCall) (loop : Loop) (trace : Trace) {loop' : Loop}
      → (call_tools p o gateway definitions calls loop trace).0 ≡ returns loop'
      → Counted calls loop trace loop' (call_tools p o gateway definitions calls loop trace).1
  unfolding call_tools
  call_tools-Counted [] loop trace {loop'} e = ground (arith, (returns_injective e))
  call_tools-Counted (call ∷ calls) loop trace {loop'} e =
      elim (Option-cases (definition_named definitions call.name)) [
        | inl missing ↦ ground (arith, (rw (missing, call_tools) at e))
        | inr (d, h) ↦
            let r : Traced ToolResult =
              (gateway.call trace call.name call.arguments, called call.name ∷ trace) in
            let next : ToolResult → Trace → Traced Loop = λ result new.
              call_tools p o gateway definitions calls (after_call p o call d result loop) new in
            let e1 : (and_then r next).0 ≡ returns loop' = rw (h, call_tools) at e in
            let (result, _, e2, left) = and_then-returns r next e1 in
            let rest = call_tools-Counted calls (after_call p o call d result loop) r.1 e2 in
            let counted : Counted (call ∷ calls) loop trace loop' (next result r.1).1 = (
              omega (arith, rest.0),
              omega (arith, rest.1),
              rest.2
                  ∙ (ap (λ n. n + length calls) (length-append loop.invocations _) ∙ omega arith),
              rest.3,
              rest.4,
            ) in
            rw (h, call_tools) (subst (Counted (call ∷ calls) loop trace loop') (sym left) counted)
      ]

-- ===== src/Evaluations/Verdicts.antt =====
-- What a case of evaluations/executor.py that passes shows.
use text.Mathlib.TextEquality.{eq_iff}
use aiagent.Evaluations.Cases.{
  kept_result, EvaluationExecutor, execute_case, answer_case, verdict, same_set, unique_names,
  within_case_limits, is_denial, case_attempt, judge_case, lacks_citation, has_partial, used_tools,
  includes, called_tools, case_budget,
}
use aiagent.Evaluations.Suite.{EvaluationCaseSpec}
use aiagent.Evaluations.Completion.{EvaluationCaseOutcome}
use aiagent.Agents.Model.{AgentResult, Trace, Traced}
use aiagent.Agents.Single.{is_empty}
use aiagent.Agents.Config.{AgentVersionConfig}
use aiagent.Errors.{
  ServiceError, Attempt, returns, raises, authorization_error, authentication_error, conflict,
  resource_not_found, configuration_error, validation_error, model_provider_error, run_limit_error,
  require-returns, require,
}
use aiagent.Prelude.{
  ◌≡◌, Bool, ℕ, true, List, String, arith, Option, false, refl, ◌&&◌, any, ◌⊎◌, Bool-cases, inl,
  sym, inr, none, ap, true-false, ◌∙◌, some, subst, str_eq, ◌∷◌, ◌≤◌, is_some, keep, [], not,
}
use aiagent.Agents.Budget.{usage_cost}

is_denial-message :
    (x : EvaluationExecutor) (error : ServiceError)
    → is_denial x error ≡ true
    → (message : String) × (error ≡ authorization_error message)
is_denial-message x (authorization_error m) h = (m, refl)
is_denial-message x (authentication_error m) h = ground arith
is_denial-message x (conflict m) h = ground arith
is_denial-message x (resource_not_found m) h = ground arith
is_denial-message x (configuration_error m) h = ground arith
is_denial-message x (validation_error m) h = ground arith
is_denial-message x (model_provider_error m) h = ground arith
is_denial-message x (run_limit_error m) h = ground arith

-- The name is among the names.
abbrev pub has_name : String → List String → Bool
has_name name names = any (λ n. str_eq n name) names

same_texts : (a b c : String) → str_eq a b ≡ true → str_eq a c ≡ true → str_eq b c ≡ true
same_texts a b c h k = subst (λ t. str_eq t c ≡ true) ((eq_iff a b).0 h) k

has_name-keep :
    (name n : String) (names : List String)
    → str_eq n name ≡ false
    → has_name name (keep (λ m. not (str_eq m n)) names) ≡ has_name name names
has_name-keep name n [] ne = refl
has_name-keep name n (m ∷ names) ne =
    let rest = has_name-keep name n names ne in
    elim (Bool-cases (str_eq m n)) [
      | inr other ↦ rw (other, rest) refl
      | inl same ↦ elim (Bool-cases (str_eq m name)) [
        | inl found ↦ absurd (true-false (sym (same_texts m n name same found) ∙ ne))
        | inr absent ↦ rw (same, absent) rest
      ]
    ]

has_name-unique_names :
    (name : String) (names : List String) → has_name name (unique_names names) ≡ has_name name names
has_name-unique_names name [] = refl
has_name-unique_names name (n ∷ names) = elim (Bool-cases (str_eq n name)) [
  | inl here ↦ rw here refl
  | inr away ↦
      rw (away, has_name-keep name n (unique_names names) away) (has_name-unique_names name names)
]

includes-has_name :
    (name : String) (xs ys : List String)
    → includes xs ys ≡ true
    → has_name name ys ≡ true
    → has_name name xs ≡ true
includes-has_name name xs [] h k = absurd (true-false (sym k))
includes-has_name name xs (y ∷ ys) h k = elim (Bool-cases (str_eq y name)) [
  | inl here ↦ subst (λ t. has_name t xs ≡ true) ((eq_iff y name).0 here) (ground (arith, h))
  | inr away ↦
      let later : has_name name ys ≡ true = rw away at k in
      includes-has_name name xs ys (ground (arith, h)) later
]

both_ways : (a b : Bool) → (a ≡ true → b ≡ true) → (b ≡ true → a ≡ true) → a ≡ b
both_ways true b f g = sym (f refl)
both_ways false true f g = g refl
both_ways false false f g = refl

-- Equal sets of names have the same names.
same_set-has_name :
    (name : String) (calls expected : List String)
    → same_set (unique_names calls) (unique_names expected) ≡ true
    → has_name name calls ≡ has_name name expected
same_set-has_name name calls expected h =
    let a = unique_names calls in
    let b = unique_names expected in
    let same : has_name name a ≡ has_name name b =
      both_ways _ _ (includes-has_name name b a (ground (arith, h)))
        (includes-has_name name a b (ground (arith, h))) in
    sym (has_name-unique_names name calls) ∙ same ∙ has_name-unique_names name expected

module _ (x : EvaluationExecutor) (case : EvaluationCaseSpec) where
  verdict-parts :
      (denied : Bool) (tools : List String) (result : Option AgentResult)
      → (verdict x case denied tools result).0 ≡ true
      → (same_set tools (unique_names case.expected_tools) ≡ true)
        × (denied ≡ case.expects_denial)
        × (case.expects_denial ≡ false
            → ((case.requires_citation && lacks_citation x result) ≡ false)
              × (has_partial x result ≡ false))
  unfolding verdict
  verdict-parts denied tools result h =
      (ground (arith, h), ground (arith, h), λ e. (ground (arith, h), ground (arith, h)))

  Attempt-cases :
      {A : Type 0} (a : Attempt A)
      → ((b : A) × (a ≡ returns b)) ⊎ ((error : ServiceError) × (a ≡ raises error))
  Attempt-cases (returns b) = inl (b, refl)
  Attempt-cases (raises error) = inr (error, refl)

  module _ (duration : ℕ) (config : AgentVersionConfig) where
    -- What a case that passes has shown, from how its run ended.
    abbrev pub Shown : Traced AgentResult → EvaluationCaseOutcome → Type 0
    Shown (answered, trace) o =
        (same_set o.used_tools (unique_names case.expected_tools) ≡ true)
        × (is_some x.gateway ≡ true
            → (name : String)
            → has_name name (called_tools trace) ≡ has_name name case.expected_tools)
        × (case.expects_denial ≡ true
            → (message : String) × (answered ≡ raises (authorization_error message)))
        × (case.expects_denial ≡ false
            → (result : AgentResult) × (answered ≡ returns result)
              × (result.usage.input_tokens ≤ config.limits.max_input_tokens)
              × (result.usage.output_tokens ≤ config.limits.max_output_tokens)
              × (x.floats.gt (usage_cost result.usage (case_budget x config))
                    (x.of_micros config.limits.max_cost_usd)
                  ≡ false)
              × (case.requires_citation ≡ true → is_empty result.citations ≡ false)
              × (any (λ c. c.partial) result.citations ≡ false))

    within_case_limits-parts :
        (result : AgentResult) {r : AgentResult}
        → within_case_limits x config result ≡ returns r
        → (result.usage.input_tokens ≤ config.limits.max_input_tokens)
          × (result.usage.output_tokens ≤ config.limits.max_output_tokens)
          × (x.floats.gt
                (usage_cost result.usage (case_budget x config))
                (x.of_micros config.limits.max_cost_usd)
              ≡ false)
    within_case_limits-parts result {r} e =
        let (input, e1) = require-returns _ _ _ e in
        let (output, e2) = require-returns _ _ _ e1 in
        let (cost, e3) = require-returns _ _ _ e2 in
        (ground (arith, input), ground (arith, output), ground (arith, cost))

    -- The expected tools were called.
    tools_called :
        (result : Option AgentResult) (trace : Trace)
        → same_set (used_tools x result trace) (unique_names case.expected_tools) ≡ true
        → is_some x.gateway ≡ true
        → (name : String) → has_name name (called_tools trace) ≡ has_name name case.expected_tools
    tools_called result trace same connected name =
        same_set-has_name name (called_tools trace) case.expected_tools (rw connected at same)

    within_case_limits-error :
        (result : AgentResult) {error : ServiceError}
        → within_case_limits x config result ≡ raises error
        → is_denial x error ≡ false
    unfolding require
    within_case_limits-error result {error} e = ground arith

    judge_case-Shown :
        (answered : Attempt AgentResult) (trace : Trace)
        → (judge_case x duration case
            (case_attempt x config answered).0
            (case_attempt x config answered).1
            trace).passed
          ≡ true
        → Shown
            (answered, trace)
            (judge_case x duration case
              (case_attempt x config answered).0
              (case_attempt x config answered).1
              trace)
    judge_case-Shown (raises error) trace h = elim (Bool-cases (is_denial x error)) [
      | inl d ↦
          let tools = used_tools x none trace in
          let h1 : (verdict x case true tools none).0 ≡ true = rw (d, judge_case) at h in
          let (same, denied, _) = verdict-parts true tools none h1 in
          let (message, is_message) = is_denial-message x error d in
          rw (d, judge_case)
            (
              same,
              tools_called none trace same,
              λ _. (message, ap raises is_message),
              λ e. absurd (true-false (denied ∙ e)),
            )
      | inr d ↦ absurd (true-false (sym (rw (d, judge_case) at h)))
    ]
    judge_case-Shown (returns result) trace h =
        let judged : Option AgentResult × Option ServiceError → EvaluationCaseOutcome =
          λ a. judge_case x duration case a.0 a.1 trace in
        elim (Attempt-cases (within_case_limits x config result)) [
          | inl (r, e) ↦
              let kept : case_attempt x config (returns result) ≡ (some result, none) =
                ap (kept_result x result) e in
              let tools = used_tools x (some result) trace in
              let h1 : (verdict x case false tools (some result)).0 ≡ true =
                subst (λ a. (judged a).passed ≡ true) kept h in
              let (same, denied, rest) = verdict-parts false tools (some result) h1 in
              let limits = within_case_limits-parts result e in
              subst (λ a. Shown (returns result, trace) (judged a)) (sym kept)
                (
                  same,
                  tools_called (some result) trace same,
                  λ k. absurd (true-false (sym (denied ∙ k))),
                  λ k. (
                    result,
                    refl,
                    limits.0,
                    limits.1,
                    limits.2,
                    (λ c. ground (arith, c, (rest k).0)),
                    (rest k).1,
                  ),
                )
          | inr (error, e) ↦
              let kept : case_attempt x config (returns result) ≡ (some result, some error) =
                ap (kept_result x result) e in
              let h1 : (judged (some result, some error)).passed ≡ true =
                subst (λ a. (judged a).passed ≡ true) kept h in
              absurd (true-false (sym (rw (within_case_limits-error result e, judge_case) at h1)))
        ]

  -- What a case that passes shows. The tools recorded in the outcome are exactly the expected ones, and
  -- with a gateway so are the tools that its run called; a case that expects a denial was denied; another
  -- one returned a result whose tokens and cost are at most the limits of the configuration, with a
  -- citation if the case requires one, and with none that is partial.
  pub execute_case-Shown :
      (duration : ℕ) (trace_id : String) (config : AgentVersionConfig)
      → (execute_case x duration trace_id config case).passed ≡ true
      → Shown duration config
          (answer_case x trace_id config case)
          (execute_case x duration trace_id config case)
  unfolding execute_case
  execute_case-Shown duration trace_id config h =
      let answered = answer_case x trace_id config case in
      judge_case-Shown duration config answered.0 answered.1 h

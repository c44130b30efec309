-- ===== src/Agents/Budget.antt =====
-- The budget of an Agent run: `AgentUsageBudget` of agents/single_agent.py and what checks it. Costs and
-- prices are Python's floats, which round; a number stands for each, and their arithmetic is a parameter.
use aiagent.Errors.{
  Attempt, require, run_limit_error, returns, require-returns, returns_injective, raises,
}
use aiagent.Prelude.{
  ℕ, ◌+◌, leb, if◌then◌else◌, ltb, ◌≤◌, ◌≡◌, ◌-◌, arith, min, Bool-cases, true, inl, subst, inr,
  Bool, not, ◌⊎◌, refl,
}

pub record ModelUsageResult : Type 0 where
  pub input_tokens : ℕ
  pub output_tokens : ℕ

-- Python's arithmetic on floats: `of_int` is what an integer becomes beside a float, `to_int` is `int`,
-- with 0 for what is negative, and `gt` is `>`.
pub record Floats : Type 0 where
  pub of_int : ℕ → ℕ
  pub to_int : ℕ → ℕ
  pub add : ℕ → ℕ → ℕ
  pub sub : ℕ → ℕ → ℕ
  pub mul : ℕ → ℕ → ℕ
  pub div : ℕ → ℕ → ℕ
  pub gt : ℕ → ℕ → Bool

-- The floats come with their arithmetic.
pub record AgentUsageBudget : Type 0 where
  pub floats : Floats
  pub max_input_tokens : ℕ
  pub max_output_tokens : ℕ
  pub max_cost_usd : ℕ
  pub input_price_per_million_tokens : ℕ
  pub output_price_per_million_tokens : ℕ

abbrev pub add_usage : ModelUsageResult → ModelUsageResult → ModelUsageResult
add_usage a b = record {
  input_tokens = a.input_tokens + b.input_tokens;
  output_tokens = a.output_tokens + b.output_tokens;
}

abbrev token_cost : Floats → ℕ → ℕ → ℕ
token_cost f tokens price = f.mul (f.of_int tokens) price

-- `_usage_cost`.
abbrev pub usage_cost : ModelUsageResult → AgentUsageBudget → ℕ
usage_cost usage budget =
    let f = budget.floats in
    f.div
      (f.add (token_cost f usage.input_tokens budget.input_price_per_million_tokens)
        (token_cost f usage.output_tokens budget.output_price_per_million_tokens))
      (f.of_int 1000000)

-- The cost is at most the limit, as floats.
abbrev pub is_affordable : ModelUsageResult → AgentUsageBudget → Bool
is_affordable usage budget = not (budget.floats.gt (usage_cost usage budget) budget.max_cost_usd)

-- `_check_actual_usage`.
unfoldable pub check_actual_usage : ModelUsageResult → AgentUsageBudget → Attempt ModelUsageResult
check_actual_usage usage budget =
    require (leb usage.input_tokens budget.max_input_tokens)
      (run_limit_error "Agent exceeded the cumulative input Token limit.")
      (require (leb usage.output_tokens budget.max_output_tokens)
        (run_limit_error "Agent exceeded the cumulative output Token limit.")
        (require (is_affordable usage budget)
          (run_limit_error "Agent exceeded the cumulative cost limit.") (returns usage)))

-- `remaining_cost` and `input_cost`.
abbrev remaining_cost : ModelUsageResult → AgentUsageBudget → ℕ
remaining_cost usage budget = budget.floats.sub budget.max_cost_usd (usage_cost usage budget)

abbrev input_cost : ℕ → AgentUsageBudget → ℕ
input_cost estimated_input budget =
    let f = budget.floats in
    f.div (token_cost f estimated_input budget.input_price_per_million_tokens) (f.of_int 1000000)

-- The output tokens that the money left after the input pays for.
abbrev pub affordable_output : ModelUsageResult → AgentUsageBudget → ℕ → ℕ → ℕ
affordable_output usage budget estimated_input remaining_output =
    let f = budget.floats in
    if f.gt budget.output_price_per_million_tokens (f.of_int 0)
    then f.to_int (
        f.div
          (f.mul (f.sub (remaining_cost usage budget) (input_cost estimated_input budget))
            (f.of_int 1000000))
          budget.output_price_per_million_tokens)
    else remaining_output

-- `_round_output_limit`, from the estimate of the input of the round.
unfoldable pub round_output_limit : ℕ → ModelUsageResult → AgentUsageBudget → Attempt ℕ
round_output_limit estimated_input usage budget =
    require (leb (usage.input_tokens + estimated_input) budget.max_input_tokens)
      (run_limit_error "Agent input Token budget is exhausted before the next round.")
      (require (ltb usage.output_tokens budget.max_output_tokens)
        (run_limit_error "Agent output Token budget is exhausted before the next round.")
        (let remaining_output = budget.max_output_tokens - usage.output_tokens in
          require
            (not
              (budget.floats.gt (input_cost estimated_input budget) (remaining_cost usage budget)))
            (run_limit_error "Agent cost budget is exhausted before the next round.")
            (let output_limit =
                min remaining_output
                  (affordable_output usage budget estimated_input remaining_output) in
              require (ltb 0 output_limit)
                (run_limit_error "Agent cost budget cannot fund the next model round.")
                (returns output_limit))))

-- What the limit of a round leaves room for.
pub record HasRoom (estimated_input : ℕ) (usage : ModelUsageResult) (budget : AgentUsageBudget)
    (limit : ℕ) : Type 0 where
  pub input : usage.input_tokens + estimated_input ≤ budget.max_input_tokens
  pub output : usage.output_tokens + limit ≤ budget.max_output_tokens
  pub positive : 1 ≤ limit

round_output_limit-HasRoom :
    (estimated_input : ℕ) (usage : ModelUsageResult) (budget : AgentUsageBudget) {limit : ℕ}
    → round_output_limit estimated_input usage budget ≡ returns limit
    → HasRoom estimated_input usage budget limit
unfolding round_output_limit
round_output_limit-HasRoom estimated_input usage budget {limit} e =
    let (input, e1) = require-returns _ _ _ e in
    let (output, e2) = require-returns _ _ _ e1 in
    let (money, e3) = require-returns _ _ _ e2 in
    let (some_output, e4) = require-returns _ _ _ e3 in
    let rest = budget.max_output_tokens - usage.output_tokens in
    let l : min rest (affordable_output usage budget estimated_input rest) ≡ limit =
      returns_injective e4 in
    record {
      input = ground (arith, input);
      output =
          subst (λ n. usage.output_tokens + n ≤ budget.max_output_tokens) l
            (within _ _ (affordable_output usage budget estimated_input rest) output);
      positive = subst (λ n. 1 ≤ n) l (positive_of _ some_output);
    }
  where
    within : (a b c : ℕ) → ltb a b ≡ true → a + min (b - a) c ≤ b
    within a b c h = ground arith

    positive_of : (n : ℕ) → ltb 0 n ≡ true → 1 ≤ n
    positive_of n h = ground arith

-- A model that reads no more than was estimated and writes no more than the limit of the round keeps to
-- the budget of tokens: when `_round_output_limit` returns a limit, it is at least one token, and the
-- usage after such a round passes `_check_actual_usage`, or its cost, as floats round it, is above the
-- limit and the check raises the error for the cost.
pub check_actual_usage-round_output_limit :
    (estimated_input : ℕ) (usage round : ModelUsageResult) (budget : AgentUsageBudget) {limit : ℕ}
    → round_output_limit estimated_input usage budget ≡ returns limit
    → round.input_tokens ≤ estimated_input
    → round.output_tokens ≤ limit
    → let after = add_usage usage round in
      (1 ≤ limit)
      × ((check_actual_usage after budget ≡ returns after)
          ⊎ ((budget.floats.gt (usage_cost after budget) budget.max_cost_usd ≡ true)
              × (check_actual_usage after budget
                  ≡ raises (run_limit_error "Agent exceeded the cumulative cost limit."))))
unfolding check_actual_usage require
check_actual_usage-round_output_limit estimated_input usage round budget {limit} e i o =
    let room = round_output_limit-HasRoom estimated_input usage budget e in
    let after = add_usage usage round in
    let reads : leb (usage.input_tokens + round.input_tokens) budget.max_input_tokens ≡ true =
      ground (arith, room.input, i) in
    let writes : leb (usage.output_tokens + round.output_tokens) budget.max_output_tokens ≡ true =
      ground (arith, room.output, o) in
    elim (Bool-cases (budget.floats.gt (usage_cost after budget) budget.max_cost_usd)) [
      | inl over ↦ (room.positive, inr (over, rw (reads, writes, over) refl))
      | inr under ↦ (room.positive, inl (rw (reads, writes, under) refl))
    ]

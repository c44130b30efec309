-- ===== src/Agents/History/Defaults.antt =====
-- The default Agent of an organization (agents/control.py) in every history.
use aiagent.Prelude.{
  ℕ, List, Bool, length, ◌∷◌, ◌≤◌, any, map, ◌==◌, All, ◌≡◌, ◌&&◌, keep, ◌≢◌, false, arith,
  Bool-cases, [], not, refl, subst, ap,
}
use aiagent.Evaluations.Rows.{Db}
use aiagent.Agents.Rows.{AgentDefinition}
use aiagent.Agents.History.{
  Step, Reach, creates, next, inl, create_agent-tables, here, updates, inr, update_draft-Same,
  versions, create_version-tables, defaults, set_default-tables, releases, release-cases, others,
}
use aiagent.Agents.Drafts.{chosen, cleared}
use aiagent.Agents.History.Deployments.{new_deployment-Deployed}

abbrev pub is_default_of : ℕ → AgentDefinition → Bool
is_default_of o agent = (agent.organization_id == o) && agent.is_default

abbrev pub default_count : ℕ → List AgentDefinition → ℕ
default_count o agents = length (keep (is_default_of o) agents)

-- No two rows have one id.
abbrev pub AreDistinct : List AgentDefinition → Type 0
AreDistinct [] = Unit
AreDistinct (a ∷ agents) = All (λ b. b.id ≢ a.id) agents × AreDistinct agents

-- The tables keep the two constraints.
pub record DefaultsOk (db : Db) : Type 0 where
  pub distinct : AreDistinct db.agents
  pub single : (o : ℕ) → default_count o db.agents ≤ 1

no_defaults :
    (o : ℕ) (agents : List AgentDefinition)
    → any (λ a. a.organization_id == o) agents ≡ false
    → default_count o agents ≡ 0
no_defaults o [] h = refl
no_defaults o (a ∷ agents) h = ground (arith, no_defaults o agents)

abbrev moved : ℕ → ℕ → List AgentDefinition → List AgentDefinition
moved o a agents = map (chosen o a) (map (cleared o a) agents)

moved-elsewhere :
    (o a p : ℕ) (agents : List AgentDefinition)
    → (p == o) ≡ false
    → default_count p (moved o a agents) ≡ default_count p agents
moved-elsewhere o a p [] h = refl
moved-elsewhere o a p (x ∷ agents) h = ground (arith, moved-elsewhere o a p agents h)

moved_none :
    (o a : ℕ) (agents : List AgentDefinition)
    → All (λ b. b.id ≢ a) agents
    → default_count o (moved o a agents) ≡ 0
moved_none o a [] h = refl
moved_none o a (x ∷ agents) h = ground (arith, h.0, moved_none o a agents h.1)

moved_one :
    (o a : ℕ) (agents : List AgentDefinition)
    → AreDistinct agents
    → default_count o (moved o a agents) ≤ 1
moved_one o a [] h = omega arith
moved_one o a (x ∷ agents) h = elim (Bool-cases (x.id == a)) [
  | inl this ↦
      let same : x.id ≡ a = ground arith in
      let rest = moved_none o a agents (subst (λ i. All (λ b. b.id ≢ i) agents) same h.0) in
      ground (arith, rest)
  | inr other ↦ ground (arith, moved_one o a agents h.1)
]

moved-ids :
    (o a i : ℕ) (agents : List AgentDefinition)
    → All (λ b. b.id ≢ i) agents
    → All (λ b. b.id ≢ i) (moved o a agents)
moved-ids o a i [] h = tt
moved-ids o a i (x ∷ agents) h = (ground (arith, h.0), moved-ids o a i agents h.1)

moved-AreDistinct :
    (o a : ℕ) (agents : List AgentDefinition) → AreDistinct agents → AreDistinct (moved o a agents)
moved-AreDistinct o a [] h = tt
moved-AreDistinct o a (x ∷ agents) h = (
  subst (λ i. All (λ b. b.id ≢ i) (moved o a agents)) (kept x) (moved-ids o a x.id agents h.0),
  moved-AreDistinct o a agents h.1,
)
  where
    kept : (x : AgentDefinition) → x.id ≡ (chosen o a (cleared o a x)).id
    kept x = ground arith

moved-DefaultsOk :
    (o a : ℕ) (db db' : Db) → db'.agents ≡ moved o a db.agents → DefaultsOk db → DefaultsOk db'
moved-DefaultsOk o a db db' e h = record {
  distinct = rw e (moved-AreDistinct o a db.agents h.distinct);
  single = λ p. rw e (elim (Bool-cases (p == o)) [
    | inl same ↦
        let e' : o ≡ p = ground arith in
        subst (λ q. default_count q (moved o a db.agents) ≤ 1) e'
          (moved_one o a db.agents h.distinct)
    | inr other ↦ rw (moved-elsewhere o a p db.agents other) (h.single p)
  ]);
}

added-DefaultsOk :
    (agent : AgentDefinition) (db db' : Db)
    → db'.agents ≡ agent ∷ db.agents
    → All (λ b. b.id ≢ agent.id) db.agents
    → agent.is_default ≡ not (any (λ a. a.organization_id == agent.organization_id) db.agents)
    → DefaultsOk db
    → DefaultsOk db'
added-DefaultsOk agent db db' e new default h = record {
  distinct = rw e (new, h.distinct);
  single = λ p. rw e (
      ground (
        arith,
        h.single p,
        default,
        no_defaults agent.organization_id db.agents,
        no_defaults p db.agents,
      ));
}

same-DefaultsOk : (db db' : Db) → db'.agents ≡ db.agents → DefaultsOk db → DefaultsOk db'
same-DefaultsOk db db' e h = record { distinct = rw e h.distinct; single = λ p. rw e (h.single p) }

Step-DefaultsOk : (db db' : Db) → Step db db' → DefaultsOk db → DefaultsOk db'
Step-DefaultsOk db db' (creates s who fresh actor o code name text config {agent} new e) h =
    let (id, _, org, default, rows, _, _, _) =
      create_agent-tables s who fresh actor o code name text config db e in
    added-DefaultsOk agent db db' rows (rw id new) (rw org default) h
Step-DefaultsOk db db' (updates s who actor o a revision config e) h =
    same-DefaultsOk db db' (update_draft-Same s who actor o a revision config db e).agents h
Step-DefaultsOk db db' (versions s who fresh actor o a revision new e) h =
    same-DefaultsOk db db' ((create_version-tables s who fresh actor o a revision db e).5) h
Step-DefaultsOk db db' (defaults who actor o a e) h =
    moved-DefaultsOk o a db db' ((set_default-tables who actor o a db e).1) h
Step-DefaultsOk db db' (releases s who fresh r before e) h =
    elim (release-cases s who fresh r before db e) [
      | inl same ↦ same-DefaultsOk db db' (ap (λ d. d.agents) same) h
      | inr (reason, _, _, made) ↦
          same-DefaultsOk db db' (new_deployment-Deployed s r fresh reason db made).agents h
    ]
Step-DefaultsOk db db' (others _ same _ _ _) h = same-DefaultsOk db db' same h

-- From tables that do so: in every history no two agents have one id, and every organization has at
-- most one default agent.
pub Reach-DefaultsOk : {db db' : Db} → DefaultsOk db → Reach db db' → DefaultsOk db'
Reach-DefaultsOk h here = h
Reach-DefaultsOk h (next {d} {e} r s) = Step-DefaultsOk d e s (Reach-DefaultsOk h r)

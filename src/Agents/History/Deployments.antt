-- ===== src/Agents/History/Deployments.antt =====
-- The deployments of agents/control.py as a view of the log of releases.
use aiagent.Prelude.{
  ℕ, Option, some, List, Bool, none, ◌≡◌, ◌==◌, ◌∷◌, true, refl, ◌+◌, ◌&&◌, if◌then◌else◌, arith,
  find, [], false, subst, Bool-cases, ==_refl, String, inl, find-All, inr, All-unit,
  find-update_self, find-update_other, ap, ◌∙◌,
}
use aiagent.Evaluations.Rows.{Db}
use aiagent.Agents.Rows.{
  Environment, AgentRelease, AgentDeployment, env_eq, development, test, production,
}
use aiagent.Agents.Config.{AgentControlService}
use aiagent.Agents.Release.{
  find_deployment, ReleaseRequest, generation_of, deployed, is_deployment, new_deployment,
}
use aiagent.Errors.{returns, require-returns, returns_injective, found-returns, after-returns}
use aiagent.Agents.History.{
  Step, Reach, creates, next, create_agent-tables, here, updates, update_draft-Same, versions,
  create_version-tables, defaults, set_default-tables, releases, release-cases, others,
}

-- The abstract state that a log of releases, newest first, stands for: what is deployed of an agent in
-- an environment, and how often it was changed.
abbrev pub is_release : ℕ → ℕ → Environment → AgentRelease → Bool
is_release o a e release =
    (release.organization_id == o) && ((release.agent_id == a) && env_eq release.environment e)

abbrev pub changes : Option (ℕ × ℕ) → ℕ
changes none = 0
changes (some state) = state.1

unfoldable pub logged : ℕ → ℕ → Environment → List AgentRelease → Option (ℕ × ℕ)
logged o a e [] = none
logged o a e (latest ∷ older) =
    let rest = logged o a e older in
    if is_release o a e latest then some (latest.version_id, changes rest + 1) else rest

-- The same state, read off the table of deployments.
abbrev pub state_of : Option AgentDeployment → Option (ℕ × ℕ)
state_of none = none
state_of (some d) = some (d.version_id, d.generation)

abbrev pub Refines : Db → Type 0
Refines db =
    (o a : ℕ) (e : Environment) → state_of (find_deployment o a e db) ≡ logged o a e db.releases

env_eq-path : (d e : Environment) → env_eq d e ≡ true → d ≡ e
env_eq-path d e h = ground arith

env_eq_refl : (e : Environment) → env_eq e e ≡ true
env_eq_refl development = refl
env_eq_refl test = refl
env_eq_refl production = refl

generation-changes : (d : Option AgentDeployment) → generation_of d ≡ changes (state_of d)
generation-changes none = refl
generation-changes (some d) = refl

module _ (s : AgentControlService) (r : ReleaseRequest) where
  abbrev mine : AgentDeployment → Bool
  mine = is_deployment r.organization_id r.agent_id s.environment

  -- What the release leaves of the table of deployments.
  abbrev IsDeployed : Option AgentDeployment → Db → AgentDeployment → List AgentDeployment → Type 0
  IsDeployed old db d table =
      (d.organization_id ≡ r.organization_id)
      × (d.agent_id ≡ r.agent_id)
      × (d.environment ≡ s.environment)
      × (d.version_id ≡ r.version_id)
      × (d.generation ≡ generation_of old + 1)
      × (find mine table ≡ some d)
      × ((p : AgentDeployment → Bool)
          → p d ≡ false
          → ((x : AgentDeployment) → mine x ≡ true → p x ≡ false)
          → find p table ≡ find p db.deployments)

  mine-key :
      (d : AgentDeployment)
      → mine d ≡ true
      → (d.organization_id ≡ r.organization_id)
        × (d.agent_id ≡ r.agent_id)
        × (d.environment ≡ s.environment)
  mine-key d h = ground (arith, env_eq-path d.environment s.environment)

  deployed-IsDeployed :
      (old : Option AgentDeployment) (db : Db) {d : AgentDeployment} {table : List AgentDeployment}
      → find_deployment r.organization_id r.agent_id s.environment db ≡ old
      → deployed s r old db ≡ returns (d, table)
      → IsDeployed old db d table
  unfolding deployed
  deployed-IsDeployed none db {d} {table} h e =
      let (_, e1) = require-returns _ _ _ e in
      subst (λ (x : AgentDeployment × List AgentDeployment). IsDeployed none db (x.0) (x.1))
        (returns_injective e1)
        (
          refl,
          refl,
          refl,
          refl,
          refl,
          rw (==_refl r.organization_id, ==_refl r.agent_id, env_eq_refl s.environment) refl,
          λ p other k. rw other refl,
        )
  deployed-IsDeployed (some old) db {d} {table} h e =
      let own =
        (find-All (λ _. Unit {0}) mine db.deployments {a = old} (All-unit db.deployments) h).1 in
      let (org, agent, env) = mine-key old own in
      subst (λ (x : AgentDeployment × List AgentDeployment). IsDeployed (some old) db (x.0) (x.1))
        (returns_injective e)
        (
          org,
          agent,
          env,
          refl,
          refl,
          find-update_self mine _ db.deployments {a = old} h own,
          λ p other k. find-update_other p mine _ db.deployments other k,
        )

  -- What a new deployment leaves of the four tables.
  pub record Deployed (db : Db) (made : AgentRelease) (d : AgentDeployment) (db' : Db)
      : Type 0 where
    pub agents : db'.agents ≡ db.agents
    pub versions : db'.versions ≡ db.versions
    pub releases : db'.releases ≡ made ∷ db.releases
    pub made_organization : made.organization_id ≡ r.organization_id
    pub made_agent : made.agent_id ≡ r.agent_id
    pub made_version : made.version_id ≡ r.version_id
    pub made_environment : made.environment ≡ s.environment
    pub table :
        IsDeployed
          (find_deployment r.organization_id r.agent_id s.environment db)
          db
          d
          db'.deployments

  pub new_deployment-Deployed :
      (fresh : ℕ) (reason : String) (db : Db) {made : AgentRelease} {d : AgentDeployment} {db' : Db}
      → new_deployment s fresh r reason db ≡ returns (made, d, db')
      → Deployed db made d db'
  unfolding new_deployment
  new_deployment-Deployed fresh reason db {made} {d} {db'} e =
      let (_, _, e1) = found-returns _ _ _ e in
      let (gate, _, e2) = after-returns _ _ e1 in
      let (_, e3) = require-returns _ _ _ e2 in
      let (_, e4) = require-returns _ _ _ e3 in
      let (_, e5) = require-returns _ _ _ e4 in
      let (result, writes, e6) = after-returns _ _ e5 in
      let (_, e7) = require-returns _ _ _ e6 in
      let t =
        deployed-IsDeployed (find_deployment r.organization_id r.agent_id s.environment db) db
          {d = result.0} {table = result.1} refl writes in
      subst (λ (x : AgentRelease × AgentDeployment × Db). Deployed db (x.0) (x.1) (x.2))
        (returns_injective e7)
        (record {
          agents = refl;
          versions = refl;
          releases = refl;
          made_organization = refl;
          made_agent = refl;
          made_version = refl;
          made_environment = refl;
          table = t;
        })

  is_release-mine :
      (o a : ℕ) (e : Environment) (made : AgentRelease)
      → made.organization_id ≡ r.organization_id
      → made.agent_id ≡ r.agent_id
      → made.environment ≡ s.environment
      → is_release o a e made ≡ true
      → (r.organization_id ≡ o) × (r.agent_id ≡ a) × (s.environment ≡ e)
  is_release-mine o a e made h k l same = ground (arith, env_eq-path made.environment e)

  -- The key of the release.
  Deployed-own :
      (db : Db) {made : AgentRelease} {d : AgentDeployment} {db' : Db}
      → Deployed db made d db'
      → Refines db
      → state_of (find_deployment r.organization_id r.agent_id s.environment db')
        ≡ some (
          made.version_id,
          changes (logged r.organization_id r.agent_id s.environment db.releases) + 1,
        )
  Deployed-own db {made} {d} {db'} t h =
      let (_, _, _, version, generation, own, _) = t.table in
      let old = find_deployment r.organization_id r.agent_id s.environment db in
      rw own (
        rw (version, t.made_version)
          (ap (λ n. some (r.version_id, n))
            (generation
              ∙ ap (λ n. n + 1)
                  (generation-changes old
                    ∙ ap changes (h r.organization_id r.agent_id s.environment)))))

  -- A new deployment keeps the view.
  Deployed-Refines :
      (db : Db) {made : AgentRelease} {d : AgentDeployment} {db' : Db}
      → Deployed db made d db'
      → Refines db
      → Refines db'
  unfolding logged
  Deployed-Refines db {made} {d} {db'} t h o a e =
      let (org, agent, env, _, _, _, rest) = t.table in
      let Keyed = λ (o' a' : ℕ) (e' : Environment).
        state_of (find_deployment o' a' e' db')
        ≡ some (made.version_id, changes (logged o' a' e' db.releases) + 1) in
      rw (t.releases) (elim (Bool-cases (is_release o a e made)) [
        | inl yes_key ↦
            let (eo, ea, ee) =
              is_release-mine o a e made t.made_organization t.made_agent t.made_environment
                yes_key in
            rw yes_key (
              subst (λ o'. Keyed o' a e) eo
                (subst (λ a'. Keyed r.organization_id a' e) ea
                  (subst (λ e'. Keyed r.organization_id r.agent_id e') ee (Deployed-own db t h))))
        | inr no_key ↦
            let other : ((r.organization_id == o) && ((r.agent_id == a) && env_eq s.environment e))
                ≡ false =
              rw (t.made_organization, t.made_agent, t.made_environment) at no_key in
            let same =
              rest (is_deployment o a e) (rw (org, agent, env) other)
                (λ x m. let (xo, xa, xe) = mine-key x m in rw (xo, xa, xe) other) in
            rw no_key (ap state_of same ∙ h o a e)
      ])

-- The tables that the view reads, moved along.
Refines-same :
    (db db' : Db)
    → db'.deployments ≡ db.deployments
    → db'.releases ≡ db.releases
    → Refines db
    → Refines db'
Refines-same db db' h k f o a e = rw (h, k) (f o a e)

Step-Refines : (db db' : Db) → Step db db' → Refines db → Refines db'
Step-Refines db db' (creates s who fresh actor o code name text config new e) f =
    let t = create_agent-tables s who fresh actor o code name text config db e in
    Refines-same db db' (t.6) (t.7) f
Step-Refines db db' (updates s who actor o a revision config e) f =
    let t = update_draft-Same s who actor o a revision config db e in
    Refines-same db db' t.deployments t.releases f
Step-Refines db db' (versions s who fresh actor o a revision new e) f =
    let t = create_version-tables s who fresh actor o a revision db e in
    Refines-same db db' (t.6) (t.7) f
Step-Refines db db' (defaults who actor o a e) f =
    let t = set_default-tables who actor o a db e in Refines-same db db' (t.3) (t.4) f
Step-Refines db db' (releases s who fresh r before e) f =
    elim (release-cases s who fresh r before db e) [
      | inl same ↦ Refines-same db db' (ap (λ d. d.deployments) same) (ap (λ d. d.releases) same) f
      | inr (reason, _, _, made) ↦
          Deployed-Refines s r db (new_deployment-Deployed s r fresh reason db made) f
    ]
Step-Refines db db' (others _ _ _ d r) f = Refines-same db db' d r f

-- The deployments implement the log of releases: from tables where they do, in every history, what is
-- deployed of an agent of an organization in an environment is the version of the newest release for
-- it there, at a generation that is the number of those releases, and nothing if there is none.
pub Reach-Refines : {db db' : Db} → Refines db → Reach db db' → Refines db'
Reach-Refines f here = f
Reach-Refines f (next {d} {e} r s) = Step-Refines d e s (Reach-Refines f r)

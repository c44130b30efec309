-- ===== src/Agents/History/Versions.antt =====
-- The versions of agents/control.py in every history, and the configuration of a Run.
use text.Mathlib.TextPositions.{eq_refl}
use text.Mathlib.TextEquality.{eq_iff}
use aiagent.Prelude.{
  ℕ, ◌≡◌, some, ◌≢◌, Option-cases, ◌∷◌, arith, find-All, All-unit, ◌==◌, ◌&&◌, sym, ◌∙◌, ap, subst,
  Option, find, none, str_eq, Bool-cases, true, refl,
}
use aiagent.Agents.Config.{AgentControlService, config_digest, within_limits}
use aiagent.Evaluations.Rows.{Db, find_version}
use aiagent.Agents.Rows.{AgentVersion, AgentDefinition}
use aiagent.Agents.Resolve.{
  ResolvedAgent, deployed_version, resolved, resolve_for_run, run_version, is_candidate,
  load_run_config, is_legacy,
}
use aiagent.Agents.History.{
  Step, Reach, creates, next, create_agent-tables, here, updates, inl, update_draft-Same, inr,
  versions, create_version-tables, defaults, set_default-tables, releases, release-cases, others,
}
use aiagent.Errors.{
  returns, some_injective, found-returns, require-returns, found, returns_injective, require, after,
  after-returns,
}
use aiagent.Agents.Release.{find_deployment}
use aiagent.Agents.History.Deployments.{new_deployment-Deployed}

find_version-kept :
    (o a v : ℕ) (db db' : Db) {version made : AgentVersion}
    → find_version o a v db ≡ some version
    → made.id ≢ version.id
    → version.id ≡ v
    → db'.versions ≡ made ∷ db.versions
    → find_version o a v db' ≡ some version
find_version-kept o a v db db' {version} {made} h new same rows = rw rows (ground (arith, new, h))

same_versions :
    (o a v : ℕ) (db db' : Db) {version : AgentVersion}
    → db'.versions ≡ db.versions
    → find_version o a v db ≡ some version
    → find_version o a v db' ≡ some version
same_versions o a v db db' same h = rw same h

Step-find_version :
    (o a v : ℕ) (db db' : Db) {version : AgentVersion}
    → Step db db'
    → find_version o a v db ≡ some version
    → find_version o a v db' ≡ some version
Step-find_version o a v db db' {version} (creates s who fresh actor o' code name text config new e)
      h =
    same_versions o a v db db'
      ((create_agent-tables s who fresh actor o' code name text config db e).5) h
Step-find_version o a v db db' {version} (updates s who actor o' a' revision config e) h =
    same_versions o a v db db' (update_draft-Same s who actor o' a' revision config db e).versions h
Step-find_version o a v db db' {version} (versions s who fresh actor o' a' revision new e) h =
    let t = create_version-tables s who fresh actor o' a' revision db e in
    let p = λ (x : AgentVersion). (x.id == v) && ((x.agent_id == a) && (x.organization_id == o)) in
    let row = find-All (λ x. x.id ≢ fresh) p db.versions {a = version} new h in
    find_version-kept o a v db db' h (λ same. row.0 (sym same ∙ t.0)) (ground (arith, row.1)) (t.4)
Step-find_version o a v db db' {version} (defaults who actor o' a' e) h =
    same_versions o a v db db' ((set_default-tables who actor o' a' db e).2) h
Step-find_version o a v db db' {version} (releases s who fresh r before e) h =
    elim (release-cases s who fresh r before db e) [
      | inl same ↦ same_versions o a v db db' (ap (λ d. d.versions) same) h
      | inr (reason, _, _, made) ↦
          same_versions o a v db db' (new_deployment-Deployed s r fresh reason db made).versions h
    ]
Step-find_version o a v db db' (others _ _ same _ _) h = same_versions o a v db db' same h

Reach-find_version :
    (o a v : ℕ) {db db' : Db} {version : AgentVersion}
    → Reach db db'
    → find_version o a v db ≡ some version
    → find_version o a v db' ≡ some version
Reach-find_version o a v here h = h
Reach-find_version o a v (next {d} {e} r s) h =
    Step-find_version o a v d e s (Reach-find_version o a v r h)

-- What a resolution has found.
record Found (s : AgentControlService) (o : ℕ) (db : Db) (agent : ResolvedAgent) : Type 0 where
  version : AgentVersion
  row : find_version o agent.agent_id agent.version_id db ≡ some version
  digest : version.config_digest ≡ agent.config_digest
  valid : s.tools.model_validate version.config_snapshot ≡ some agent.config
  intact :
      str_eq (config_digest s.tools (s.tools.model_dump agent.config)) version.config_digest ≡ true
  limits : within_limits s.platform_limits agent.config.limits ≡ true

resolved-Found :
    (s : AgentControlService) (o agent_id : ℕ) (version : AgentVersion) (db : Db)
    {agent : ResolvedAgent}
    → resolved s agent_id version ≡ returns agent
    → find_version o agent_id version.id db ≡ some version
    → Found s o db agent
unfolding resolved
resolved-Found s o agent_id version db {agent} e h =
    let (config, valid, e1) = found-returns _ _ _ e in
    let (intact, e2) = require-returns _ _ _ e1 in
    let (limits, e3) = require-returns _ _ _ e2 in
    subst (Found s o db) (returns_injective e3) (record {
      version = version;
      row = h;
      digest = refl;
      valid = valid;
      intact = intact;
      limits = limits;
    })

deployed_version-find :
    (s : AgentControlService) (o : ℕ) (db : Db) (a : AgentDefinition) {version : AgentVersion}
    → deployed_version s o db a ≡ some version
    → find_version o a.id version.id db ≡ some version
deployed_version-find s o db a {version} e =
    elim (Option-cases (find_deployment o a.id s.environment db)) [
      | inl missing ↦ ground arith
      | inr (d, h) ↦
          let row : find_version o a.id d.version_id db ≡ some version =
            rw (h, deployed_version) at e in
          let held =
            (find-All (λ _. Unit {0}) _ db.versions {a = version} (All-unit db.versions) row).1 in
          let same : version.id ≡ d.version_id = ground (arith, held) in
          subst (λ i. find_version o a.id i db ≡ some version) (sym same) row
    ]

run_version-find :
    (s : AgentControlService) (o : ℕ) (requested : Option ℕ) (db : Db) {agent_id : ℕ}
    {version : AgentVersion}
    → run_version s o requested db ≡ some (agent_id, version)
    → find_version o agent_id version.id db ≡ some version
run_version-find s o requested db {agent_id} {version} e =
    elim (Option-cases (find (is_candidate s o requested db) db.agents)) [
      | inl missing ↦ ground arith
      | inr (a, h) ↦ elim (Option-cases (deployed_version s o db a)) [
        | inl missing ↦
            let gone : ◌≡◌ {A = Option (ℕ × AgentVersion)} none (some (agent_id, version)) =
              rw (h, run_version, missing) at e in
            ground arith
        | inr (v, k) ↦
            let made : some (a.id, v) ≡ some (agent_id, version) = rw (h, run_version, k) at e in
            let pair = some_injective made in
            subst (λ (x : ℕ × AgentVersion). find_version o (x.0) (x.1).id db ≡ some (x.1)) pair
              (deployed_version-find s o db a k)
      ]
    ]

resolve_for_run-Found :
    (s : AgentControlService) (o : ℕ) (requested : Option ℕ) (db : Db) {agent : ResolvedAgent}
    → resolve_for_run s o requested db ≡ returns (some agent)
    → Found s o db agent
unfolding resolve_for_run
resolve_for_run-Found s o requested db {agent} e = elim (Bool-cases (is_legacy s.mode)) [
  | inl old ↦
      let e1 : require _ _ (returns none) ≡ returns (some agent) = rw old at e in
      let e2 = (require-returns _ _ _ e1).1 in ground (arith, e2)
  | inr new ↦ elim (Option-cases (run_version s o requested db)) [
    | inl missing ↦
        let e1 : require _ _ (returns none) ≡ returns (some agent) = rw (new, missing) at e in
        let e2 = (require-returns _ _ _ e1).1 in ground (arith, e2)
    | inr (row, h) ↦
        let e1 : after (resolved s (row.0) (row.1)) (λ a. returns (some a)) ≡ returns (some agent) =
          rw (new, h) at e in
        let (a, made, e2) = after-returns _ _ e1 in
        subst (Found s o db) (some_injective (returns_injective e2))
          (resolved-Found s o (row.0) (row.1) db made (run_version-find s o requested db h))
  ]
]

load_run_config-Found :
    (s : AgentControlService) (o : ℕ) (db : Db) (agent : ResolvedAgent)
    → Found s o db agent
    → load_run_config s o agent.agent_id agent.version_id agent.config_digest db
      ≡ returns agent.config
unfolding load_run_config found require
load_run_config-Found s o db agent f =
    let same = (eq_iff _ _).0 f.intact in
    rw (f.row, f.digest)
      (rw (eq_refl agent.config_digest, f.valid)
        (rw (same, f.digest) (rw (eq_refl agent.config_digest, f.limits) refl)))

-- What `resolve_for_run` gives a Run, its version, digest and configuration, `load_run_config` reads
-- back at any later time, in the same service: in every history, the same configuration.
pub load_run_config-resolve_for_run :
    (s : AgentControlService) (o : ℕ) (requested : Option ℕ) {db db' : Db} {agent : ResolvedAgent}
    → resolve_for_run s o requested db ≡ returns (some agent)
    → Reach db db'
    → load_run_config s o agent.agent_id agent.version_id agent.config_digest db'
      ≡ returns agent.config
load_run_config-resolve_for_run s o requested {db} {db'} {agent} e r =
    let f = resolve_for_run-Found s o requested db e in
    load_run_config-Found s o db' agent (record {
      version = f.version;
      row = Reach-find_version o agent.agent_id agent.version_id r f.row;
      digest = f.digest;
      valid = f.valid;
      intact = f.intact;
      limits = f.limits;
    })

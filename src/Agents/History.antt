-- ===== src/Agents/History.antt =====
-- The histories of the tables of agents/control.py: calls of its methods that return, by any service
-- and any users, in any order, and what the other services do in between.
pub mod Defaults
pub mod Deployments
pub mod Versions
use aiagent.Evaluations.Rows.{Db, active_agent, agent_missing}
use aiagent.Agents.Drafts.{
  create_agent, update_draft, create_version, set_default, next_number, latest_version,
  is_unchanged, is_duplicate, chosen, cleared,
}
use aiagent.Agents.Release.{
  release, ReleaseRequest, release_guards, idempotent_release, new_deployment, or_existing,
}
use aiagent.Agents.Config.{AgentControlService, AgentVersionConfig}
use aiagent.Prelude.{
  ◌≡◌, ℕ, String, Option, is_some, All, any, true, ◌⊎◌, ◌≢◌, false, map, not, ◌∷◌, ◌==◌, none, sym,
  Option-cases, inr, ap, inl, subst, refl, ◌∙◌,
}
use aiagent.Identity.Rows.{Tables}
use aiagent.Agents.Rows.{AgentVersion, AgentDraft, AgentRelease, AgentDefinition, AgentDeployment}
use aiagent.Errors.{
  returns, after-returns, require-returns, found-returns, returns_injective, found, after,
}
use aiagent.Identity.Administrators.{not-true}

pub data Step (db : Db) : Db → Type 0 where
  creates :
      (s : AgentControlService) (who : Tables) (fresh actor o : ℕ) (code name text : String)
      (config : Option AgentVersionConfig) {agent : AgentDefinition} {draft : AgentDraft} {db' : Db}
      → All (λ a. a.id ≢ fresh) db.agents
      → create_agent s who fresh actor o code name text config db ≡ returns (agent, draft, db')
      → Step db db'
  updates :
      (s : AgentControlService) (who : Tables) (actor o a revision : ℕ)
      (config : AgentVersionConfig) {draft : AgentDraft} {db' : Db}
      → update_draft s who actor o a revision config db ≡ returns (draft, db')
      → Step db db'
  versions :
      (s : AgentControlService) (who : Tables) (fresh actor o a revision : ℕ)
      {version : AgentVersion} {db' : Db}
      → All (λ v. v.id ≢ fresh) db.versions
      → create_version s who fresh actor o a revision db ≡ returns (version, db')
      → Step db db'
  defaults :
      (who : Tables) (actor o a : ℕ) {db' : Db}
      → set_default who actor o a db ≡ returns db'
      → Step db db'
  releases :
      (s : AgentControlService) (who : Tables) (fresh : ℕ) (r : ReleaseRequest) (before : Db)
      {made : AgentRelease} {deployment : AgentDeployment} {db' : Db}
      → release s who fresh r before db ≡ returns (made, deployment, db')
      → Step db db'
  others :
      (db' : Db)
      → db'.agents ≡ db.agents
      → db'.versions ≡ db.versions
      → db'.deployments ≡ db.deployments
      → db'.releases ≡ db.releases
      → Step db db'

pub data Reach (db : Db) : Db → Type 0 where
  here : Reach db db
  next : {d e : Db} → Reach db d → Step d e → Reach db e

-- What the methods leave of the four tables when they return.
pub create_agent-tables :
    (s : AgentControlService) (who : Tables) (fresh actor o : ℕ) (code name text : String)
    (config : Option AgentVersionConfig) (db : Db) {agent : AgentDefinition} {draft : AgentDraft}
    {db' : Db}
    → create_agent s who fresh actor o code name text config db ≡ returns (agent, draft, db')
    → (agent.id ≡ fresh)
      × (any (is_duplicate agent) db.agents ≡ false)
      × (agent.organization_id ≡ o)
      × (agent.is_default ≡ not (any (λ a. a.organization_id == o) db.agents))
      × (db'.agents ≡ agent ∷ db.agents)
      × (db'.versions ≡ db.versions)
      × (db'.deployments ≡ db.deployments)
      × (db'.releases ≡ db.releases)
unfolding create_agent
create_agent-tables s who fresh actor o code name text config db {agent} {draft} {db'} e =
    let (_, _, e1) = after-returns _ _ e in
    let (_, e2) = require-returns _ _ _ e1 in
    let (_, e3) = require-returns _ _ _ e2 in
    let (unique, e4) = require-returns _ _ _ e3 in
    let made = sym (returns_injective e4) in
    let row : agent ≡ _ = ap (λ (x : AgentDefinition × AgentDraft × Db). x.0) made in
    let left : db' ≡ _ = ap (λ (x : AgentDefinition × AgentDraft × Db). x.2) made in
    (
      ap (λ a. a.id) row,
      subst (λ a. any (is_duplicate a) db.agents ≡ false) (sym row) (not-true _ unique),
      ap (λ a. a.organization_id) row,
      ap (λ a. a.is_default) row,
      ap (λ d. d.agents) left ∙ ap (λ a. a ∷ db.agents) (sym row),
      ap (λ d. d.versions) left,
      ap (λ d. d.deployments) left,
      ap (λ d. d.releases) left,
    )

-- The tables that a method does not write.
pub record Same (db db' : Db) : Type 0 where
  pub agents : db'.agents ≡ db.agents
  pub versions : db'.versions ≡ db.versions
  pub deployments : db'.deployments ≡ db.deployments
  pub releases : db'.releases ≡ db.releases

pub update_draft-Same :
    (s : AgentControlService) (who : Tables) (actor o a revision : ℕ) (config : AgentVersionConfig)
    (db : Db) {draft : AgentDraft} {db' : Db}
    → update_draft s who actor o a revision config db ≡ returns (draft, db')
    → Same db db'
unfolding update_draft
update_draft-Same s who actor o a revision config db {draft} {db'} e =
    let (_, _, e1) = after-returns _ _ e in
    let (_, e2) = require-returns _ _ _ e1 in
    let (_, _, e3) = found-returns _ _ _ e2 in
    let (_, e4) = require-returns _ _ _ e3 in
    let left : db' ≡ _ = ap (λ (x : AgentDraft × Db). x.1) (sym (returns_injective e4)) in
    record {
      agents = ap (λ d. d.agents) left;
      versions = ap (λ d. d.versions) left;
      deployments = ap (λ d. d.deployments) left;
      releases = ap (λ d. d.releases) left;
    }

pub create_version-tables :
    (s : AgentControlService) (who : Tables) (fresh actor o a revision : ℕ) (db : Db)
    {version : AgentVersion} {db' : Db}
    → create_version s who fresh actor o a revision db ≡ returns (version, db')
    → (version.id ≡ fresh)
      × (version.agent_id ≡ a)
      × (version.version_number ≡ next_number (latest_version a db))
      × (is_unchanged (latest_version a db) version.config_digest ≡ false)
      × (db'.versions ≡ version ∷ db.versions)
      × (db'.agents ≡ db.agents)
      × (db'.deployments ≡ db.deployments)
      × (db'.releases ≡ db.releases)
unfolding create_version
create_version-tables s who fresh actor o a revision db {version} {db'} e =
    let (_, _, e1) = after-returns _ _ e in
    let (_, _, e2) = found-returns _ _ _ e1 in
    let (_, _, e3) = found-returns _ _ _ e2 in
    let (_, e4) = require-returns _ _ _ e3 in
    let (_, _, e5) = found-returns _ _ _ e4 in
    let (_, e6) = require-returns _ _ _ e5 in
    let (changed, e7) = require-returns _ _ _ e6 in
    let made = sym (returns_injective e7) in
    let row : version ≡ _ = ap (λ (x : AgentVersion × Db). x.0) made in
    let left : db' ≡ _ = ap (λ (x : AgentVersion × Db). x.1) made in
    (
      ap (λ v. v.id) row,
      ap (λ v. v.agent_id) row,
      ap (λ v. v.version_number) row,
      subst (λ v. is_unchanged (latest_version a db) v.config_digest ≡ false) (sym row)
          (not-true _ changed),
      ap (λ d. d.versions) left ∙ ap (λ v. v ∷ db.versions) (sym row),
      ap (λ d. d.agents) left,
      ap (λ d. d.deployments) left,
      ap (λ d. d.releases) left,
    )

pub set_default-tables :
    (who : Tables) (actor o a : ℕ) (db : Db) {db' : Db}
    → set_default who actor o a db ≡ returns db'
    → (is_some (active_agent o a db) ≡ true)
      × (db'.agents ≡ map (chosen o a) (map (cleared o a) db.agents))
      × (db'.versions ≡ db.versions)
      × (db'.deployments ≡ db.deployments)
      × (db'.releases ≡ db.releases)
unfolding set_default
set_default-tables who actor o a db {db'} e =
    let (_, _, e1) = after-returns _ _ e in
    let (_, row, e2) = found-returns _ _ _ e1 in
    let left = sym (returns_injective e2) in
    (
      rw row refl,
      ap (λ d. d.agents) left,
      ap (λ d. d.versions) left,
      ap (λ d. d.deployments) left,
      ap (λ d. d.releases) left,
    )

-- A release that returns has found an earlier one and wrote nothing, or it made a new one.
pub release-cases :
    (s : AgentControlService) (who : Tables) (fresh : ℕ) (r : ReleaseRequest) (before db : Db)
    {made : AgentRelease} {deployment : AgentDeployment} {db' : Db}
    → release s who fresh r before db ≡ returns (made, deployment, db')
    → (db' ≡ db)
      ⊎ ((reason : String) × (release_guards s who r ≡ returns reason)
          × (idempotent_release s r reason db ≡ returns none)
          × (new_deployment s fresh r reason db ≡ returns (made, deployment, db')))
unfolding release
release-cases s who fresh r before db {made} {deployment} {db'} e =
    let (reason, guards, e1) = after-returns _ _ e in
    let (early, _, e2) = after-returns _ _ e1 in
    elim (Option-cases early) [
      | inr (x, h) ↦
          let e3 : returns (x.0, x.1, db) ≡ returns (made, deployment, db') = rw h at e2 in
          inl (sym (ap (λ (y : AgentRelease × AgentDeployment × Db). y.2) (returns_injective e3)))
      | inl h ↦
          let e3 : found (active_agent r.organization_id r.agent_id db) agent_missing (λ agent.
            after (idempotent_release s r reason db)
              (λ existing. or_existing existing db (new_deployment s fresh r reason db)))
              ≡ returns (made, deployment, db') =
            rw h at e2 in
          let (_, _, e4) = found-returns _ _ _ e3 in
          let (existing, look, e5) = after-returns _ _ e4 in
          elim (Option-cases existing) [
            | inr (x, k) ↦
                let e6 : returns (x.0, x.1, db) ≡ returns (made, deployment, db') = rw k at e5 in
                inl (
                  sym
                    (ap (λ (y : AgentRelease × AgentDeployment × Db). y.2) (returns_injective e6)))
            | inl k ↦ inr (reason, guards, look ∙ ap returns k, rw k at e5)
          ]
    ]

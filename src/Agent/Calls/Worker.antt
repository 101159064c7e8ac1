-- ===== src/Agent/Calls/Worker.antt =====
-- dao/agent/agent.go: the calls of a worker keep an ended generation ended.
use haruka_ai.Base.{
  ℕ, ◌≡◌, refl, List, [], ◌∷◌, Option, none, some, Str, Result, subst, ok, err, Exec, arith, ℤ,
}
use haruka_ai.Base.Keeps.{Keeps, Keeps-pure, Keeps-require, keeps_rules}
use haruka_ai.Agent.Model.{AgentStep, LoadedTask}
use haruka_ai.Agent.Platform.{Platform, Lawful}
use haruka_ai.Agent.Fence.{GormStore, Context, database}
use haruka_ai.Agent.Superseded.{Superseded}
use haruka_ai.Agent.Superseded.Rules.{
  Keeps-update_tasks, Keeps-update_steps, Keeps-create_steps, Keeps-delete_steps,
}
use haruka_ai.Agent.Columns.{PlainKeys}
use haruka_ai.Agent.Plan.{
  Updates, create_if_any, save_plan, create_steps_fenced, update_task_fenced, update_step_fenced,
}
use haruka_ai.Agent.Tasks.{
  Claim, claim_of, get_task_by_id, claim_task, after_claim, read_claim, renew_lease_fenced,
}
use haruka_ai.Agent.Review.{
  pause_for_review, mark_execution_unknown_fenced, mark_policy_review_fenced, Policy,
}
use haruka_ai.Agent.Checkpoint.{require_written, set_checkpoint}
use haruka_ai.Agent.Calls.Forward.{forward_rules, update_task_set-Forward}

module _ ⦃p : Platform⦄ (lawful : Lawful p) {id : Str} {v : ℕ} where
  Keeps-database : (store : GormStore) → Keeps (Superseded id v) (database store)
  unfolding database
  Keeps-database store = Keeps-require _ _

  pub get_task_by_id-Keeps :
      (store : GormStore) (task_id : Str) → Keeps (Superseded id v) (get_task_by_id store task_id)
  unfolding get_task_by_id
  get_task_by_id-Keeps store task_id = search (keeps_rules, Keeps-database)

  pub claim_of-Keeps :
      (m : Exec p.Db LoadedTask)
      → Keeps (Superseded id v) m
      → (d : p.Db) (r : Result (p.Db × LoadedTask)) → m d ≡ r
      → (d' : p.Db) (c : Claim) → claim_of d r ≡ ok (d', c)
      → Superseded id v d
      → Superseded id v d'
  unfolding claim_of
  claim_of-Keeps m km d (err e) q d' c h s = subst (Superseded id v) (ground arith) s
  claim_of-Keeps m km d (ok (d₁, t)) q d' c h s =
      subst (Superseded id v) (ground arith) (km.at d d₁ t q s)

  pub read_claim-Keeps :
      (store : GormStore) (task_id : Str) → Keeps (Superseded id v) (read_claim store task_id)
  unfolding read_claim
  read_claim-Keeps store task_id = record {
    at = λ d d' c h s.
        claim_of-Keeps (get_task_by_id store task_id) (get_task_by_id-Keeps store task_id) d
          (get_task_by_id store task_id d) refl d' c h s;
  }

  pub claim_task-Keeps :
      (store : GormStore) (task_id worker_id : Str) (lease : ℤ)
      → Keeps (Superseded id v) (claim_task store task_id worker_id lease)
  unfolding claim_task after_claim
  claim_task-Keeps store task_id worker_id lease =
      search
        (keeps_rules, forward_rules, Keeps-database, Keeps-update_tasks lawful, read_claim-Keeps)
        depth 9

  pub renew_lease_fenced-Keeps :
      (store : GormStore) (task_id : Str) (k : ℕ) (worker_id : Str) (lease : ℤ)
      → Keeps (Superseded id v) (renew_lease_fenced store task_id k worker_id lease)
  unfolding renew_lease_fenced
  renew_lease_fenced-Keeps store task_id k worker_id lease =
      search (keeps_rules, forward_rules, Keeps-database, Keeps-update_tasks lawful) depth 9

  pub create_if_any-Keeps : (l : List AgentStep) → Keeps (Superseded id v) (create_if_any l)
  unfolding create_if_any
  create_if_any-Keeps [] = Keeps-pure tt
  create_if_any-Keeps (s ∷ l) = Keeps-create_steps lawful (s ∷ l)

  pub save_plan-Keeps :
      (store : GormStore) (ctx : Context) (task_id : Str) (k : ℕ) (summary : Option Str)
      (steps : List AgentStep)
      → Keeps (Superseded id v) (save_plan store ctx task_id k summary steps)
  unfolding save_plan
  save_plan-Keeps store ctx task_id k summary steps =
      search
        (
          keeps_rules,
          forward_rules,
          Keeps-database,
          Keeps-update_tasks lawful,
          Keeps-update_steps lawful,
          Keeps-delete_steps lawful,
          create_if_any-Keeps,
        )
        depth 16

  pub create_steps_fenced-Keeps :
      (store : GormStore) (task_id : Str) (k : ℕ) (steps : List AgentStep)
      → Keeps (Superseded id v) (create_steps_fenced store task_id k steps)
  unfolding create_steps_fenced
  create_steps_fenced-Keeps store task_id k [] = search (keeps_rules, Keeps-database)
  create_steps_fenced-Keeps store task_id k (s ∷ steps) =
      search (keeps_rules, Keeps-database, Keeps-create_steps lawful) depth 12

  pub update_task_fenced-Keeps :
      (store : GormStore) (ctx : Context) (task_id : Str) (k : ℕ) (source : Updates p.Value)
      → PlainKeys source
      → Keeps (Superseded id v) (update_task_fenced store ctx task_id k source)
  unfolding update_task_fenced
  update_task_fenced-Keeps store ctx task_id k source plain =
      search
        (
          keeps_rules,
          Keeps-database,
          Keeps-update_tasks lawful,
          update_task_set-Forward lawful _ source plain,
        )
        depth 12

  pub update_step_fenced-Keeps :
      (store : GormStore) (ctx : Context) (task_id step_id : Str) (k : ℕ) (source : Updates p.Value)
      → Keeps (Superseded id v) (update_step_fenced store ctx task_id step_id k source)
  unfolding update_step_fenced
  update_step_fenced-Keeps store ctx task_id step_id k source =
      search (keeps_rules, Keeps-database, Keeps-update_steps lawful) depth 12

  pub pause_for_review-Keeps :
      (store : GormStore) (ctx : Context) (task_id step_id : Str) (k : ℕ) (m : Str)
      (set : AgentStep → AgentStep)
      → Keeps (Superseded id v) (pause_for_review store ctx task_id step_id k m set)
  unfolding pause_for_review
  pause_for_review-Keeps store ctx task_id step_id k m set =
      search
        (
          keeps_rules,
          forward_rules,
          Keeps-database,
          Keeps-update_tasks lawful,
          Keeps-update_steps lawful,
        )
        depth 16

  pub require_written-Keeps :
      (token : Option (Str × ℕ)) (n : ℕ)
      → Keeps (Superseded id v) (require_written {D = p.Db} token n)
  unfolding require_written
  require_written-Keeps none n = Keeps-require _ _
  require_written-Keeps (some t) n = Keeps-require _ _

  pub set_checkpoint-Keeps :
      (store : GormStore) (ctx : Context) (task_id : Str) (c : List ℕ)
      → Keeps (Superseded id v) (set_checkpoint store ctx task_id c)
  unfolding set_checkpoint
  set_checkpoint-Keeps store ctx task_id c =
      search
        (
          keeps_rules,
          forward_rules,
          Keeps-database,
          Keeps-update_tasks lawful,
          require_written-Keeps,
        )
        depth 12

  pub mark_execution_unknown_fenced-Keeps :
      (store : GormStore) (ctx : Context) (task_id step_id : Str) (k : ℕ) (m : Str)
      → Keeps (Superseded id v) (mark_execution_unknown_fenced store ctx task_id step_id k m)
  unfolding mark_execution_unknown_fenced
  mark_execution_unknown_fenced-Keeps store ctx task_id step_id k m =
      pause_for_review-Keeps store ctx task_id step_id k _ _

  pub mark_policy_review_fenced-Keeps :
      (store : GormStore) (ctx : Context) (task_id step_id : Str) (k : ℕ) (m : Str)
      (policy : Policy)
      → Keeps (Superseded id v) (mark_policy_review_fenced store ctx task_id step_id k m policy)
  unfolding mark_policy_review_fenced
  mark_policy_review_fenced-Keeps store ctx task_id step_id k m policy =
      pause_for_review-Keeps store ctx task_id step_id k _ _

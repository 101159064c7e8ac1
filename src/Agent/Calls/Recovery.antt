-- ===== src/Agent/Calls/Recovery.antt =====
-- dao/agent/agent.go: the recovery of stale tasks keeps an ended generation ended.
use haruka_ai.Base.{ℕ, refl, List, [], ◌∷◌, Str, arith}
use haruka_ai.Base.Keeps.{Keeps, Keeps-pure, Keeps-bind, keeps_rules}
use haruka_ai.Agent.Model.{AgentTask, AgentStep}
use haruka_ai.Agent.Platform.{Platform, Lawful}
use haruka_ai.Agent.Fence.{GormStore, Context}
use haruka_ai.Agent.Superseded.{Superseded}
use haruka_ai.Agent.Superseded.Rules.{Forward, Keeps-update_tasks, Keeps-update_steps}
use haruka_ai.Agent.Sweep.{recover_stale_tasks-keeps}
use haruka_ai.Agent.Recover.{
  Found, recover_task_set, recover_steps, found_next, recover_locked_task, recover_stale_tasks,
}

pub recover_task_set-Forward : (f : Found) (now : ℕ) → Forward (recover_task_set f now)
unfolding recover_task_set
recover_task_set-Forward f now = record { same_id = λ x. refl; not_back = λ x. omega arith }

module _ ⦃p : Platform⦄ (lawful : Lawful p) {id : Str} {v : ℕ} where
  recover_steps-Keeps :
      (task_id : Str) (now : ℕ) (l : List AgentStep) (f : Found)
      → Keeps (Superseded id v) (recover_steps task_id now f l)
  unfolding recover_steps
  recover_steps-Keeps task_id now [] f = Keeps-pure f
  recover_steps-Keeps task_id now (s ∷ l) f =
      Keeps-bind _ _ (Keeps-update_steps lawful _ _)
        (λ _. recover_steps-Keeps task_id now l (found_next f s))

  recover_locked_task-Keeps :
      (task : AgentTask) (now : ℕ) → Keeps (Superseded id v) (recover_locked_task task now)
  unfolding recover_locked_task
  recover_locked_task-Keeps task now =
      search (keeps_rules, recover_task_set-Forward, Keeps-update_tasks lawful, recover_steps-Keeps)
        depth 12

  pub recover_stale_tasks-Superseded :
      (store : GormStore) (ctx : Context) (before : ℕ) (d : p.Db)
      → Superseded id v d
      → Superseded id v (recover_stale_tasks store ctx before d).0
  recover_stale_tasks-Superseded store ctx before d s =
      recover_stale_tasks-keeps (Superseded id v) store before
        (λ c task x x' found e k. (recover_locked_task-Keeps task store.now).at x x' tt e k) ctx d s

-- ===== src/Agent/Consent.antt =====
-- dao/agent/agent.go: an uncertain step is not replayed without its owner's word.
use haruka_ai.Base.{ℕ, ◌≡◌, true, false, Memᴰ, Str, ok, arith, trim_space}
use haruka_ai.Base.Keeps.{Keeps-read, Keeps-require, Keeps-require_rows}
use haruka_ai.Base.Moves.{Moves, Moves-then, Moves-require, Moves-of-Keeps}
use haruka_ai.Agent.Model.{AgentTask, AgentStep, TaskStatus, StepStatus}
use haruka_ai.Agent.Platform.{Platform, Lawful}
use haruka_ai.Agent.Fence.{GormStore}
use haruka_ai.Agent.Resume.{
  resume_owned_task, task_can_resume, step_can_resume, that_step, that_task,
}
use haruka_ai.Agent.Ownership.{Stored, Stored-update_tasks, Stored-update_steps, Stored-database}

module _ ⦃p : Platform⦄ (user id : Str) where
  misses_review :
      (t : AgentTask) (status : TaskStatus) (k : ℕ)
      → task_can_resume status false ≡ true
      → t.status ≡ TaskStatus.requires_review
      → that_task user id status k t ≡ false
  unfolding that_task task_can_resume
  misses_review t status k r u = ground arith

  misses_unknown :
      (s : AgentStep) (sid : Str) (status : StepStatus)
      → step_can_resume status false ≡ true
      → s.status ≡ StepStatus.execution_unknown
      → that_step sid user id status s ≡ false
  unfolding that_step step_can_resume
  misses_unknown s sid status r u = ground arith

module _ ⦃p : Platform⦄ (lawful : Lawful p) {t : AgentTask} {s : AgentStep} where
  -- A resumption without `retryUnknown` that succeeds leaves every stored task that waits for a
  -- review and every stored step of unknown outcome as it is.
  pub resume_without_consent :
      (g : GormStore) (user_name id : Str) (d d' : p.Db)
      → t.status ≡ TaskStatus.requires_review
      → s.status ≡ StepStatus.execution_unknown
      → resume_owned_task g user_name id false d ≡ ok (d', tt)
      → Memᴰ t (p.tasks d)
      → Memᴰ s (p.steps d)
      → Memᴰ t (p.tasks d') × Memᴰ s (p.steps d')
  unfolding resume_owned_task
  resume_without_consent g user_name id d d' review unknown h mt ms =
      let kept = stays.at d d' tt h (record { task = mt; step = ms }) in (kept.task, kept.step)
    where
      stays : Moves (Stored t s) (Stored t s) (resume_owned_task g user_name id false)
      stays = Moves-then _ _ (Stored-database lawful g) λ _. Moves-then _ _ (Keeps-require _ _) λ _.
          Moves-then _ _ (Keeps-read _) λ task. Moves-require _ _ _ λ can.
            Moves-then _ _ (Keeps-read _) λ step. Moves-require _ _ _ λ step_can.
              Moves-then _ _
                (Stored-update_steps lawful _ _
                  (misses_unknown (trim_space user_name) id s step.id step.status step_can unknown))
                λ n. Moves-then _ _ (Keeps-require_rows n _) λ _.
                  Moves-then _ _
                    (Stored-update_tasks lawful _ _ (
                      misses_review (trim_space user_name) id t task.status task.run_version can
                        review))
                    λ m. Moves-of-Keeps _ (Keeps-require_rows m _) (λ x k. k)

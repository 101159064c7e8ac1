-- ===== src/Agent/Endings.antt =====
-- dao/agent/agent.go: the transitions that end a worker's generation of a task.
use haruka_ai.Base.{
  ℕ, ◌+◌, ◌≡◌, ◌≢◌, refl, Bool, true, false, ◌&&◌, List, [], ◌∷◌, Str, arith, All, All-mem,
  require_rows, Error, raise, ◌>>=◌,
}
use haruka_ai.Base.Keeps.{
  Keeps, Keeps-bind, Keeps-pure, Keeps-read, Keeps-require, Keeps-require_rows,
}
use haruka_ai.Base.Moves.{Moves, Moves-then, Moves-read, Moves-update, Moves-update_then}
use haruka_ai.Agent.Model.{AgentTask, AgentStep, TaskStatus}
use haruka_ai.Agent.Platform.{Platform, Lawful}
use haruka_ai.Agent.Fence.{GormStore, Context, database, active_lease_fenced}
use haruka_ai.Agent.Superseded.{Superseded, Current, is_task}
use haruka_ai.Agent.Superseded.Rules.{Forward, update_tasks-Superseded}
use haruka_ai.Agent.Calls.Forward.{
  review_set-Forward, decide_task_set-Forward, requeue_task-Forward, cancel_task-Forward,
}
use haruka_ai.Agent.Calls.Recovery.{recover_task_set-Forward}
use haruka_ai.Agent.Plan.{owned_by}
use haruka_ai.Agent.Review.{pause_for_review, review_set, decide, decide_task_set}
use haruka_ai.Agent.Resume.{
  resume_owned_task, requeue_task, that_task, cancel_owned_task, cancel_by_status, cancel_active,
  cancel_task, cancel_steps,
}
use haruka_ai.Agent.Recover.{
  Found, recover_locked_task, recover_steps, found_next, recover_task_set, same_run,
}

review_bumps :
    (now : ℕ) (c m : Str) (x : AgentTask) → (review_set now c m x).run_version ≡ x.run_version + 1
unfolding review_set
review_bumps now c m x = refl

requeue_bumps :
    (c : Str) (now : ℕ) (x : AgentTask) → (requeue_task c now x).run_version ≡ x.run_version + 1
unfolding requeue_task
requeue_bumps c now x = refl

reject_bumps :
    (c : Str) (now : ℕ) (x : AgentTask)
    → (decide_task_set false c now x).run_version ≡ x.run_version + 1
unfolding decide_task_set
reject_bumps c now x = refl

cancel_bumps :
    (u : Bool) (now : ℕ) (x : AgentTask) → (cancel_task u now x).run_version ≡ x.run_version + 1
unfolding cancel_task
cancel_bumps u now x = refl

recover_bumps :
    (f : Found) (now : ℕ) (x : AgentTask)
    → (recover_task_set f now x).run_version ≡ x.run_version + 1
unfolding recover_task_set
recover_bumps f now x = refl

module _ ⦃p : Platform⦄ where
  -- A task of one row, of run version `v`, that is not yet cancelled.
  pub record Live (id : Str) (v : ℕ) (d : p.Db) : Type 0 where
    pub current : Current id v d
    pub uncancelled : All (λ r. is_task id r ≡ true → r.status ≢ TaskStatus.cancelled) (p.tasks d)

  that_task-is_task :
      (user id : Str) (s : TaskStatus) (k : ℕ) (x : AgentTask)
      → that_task user id s k x ≡ true
      → is_task id x ≡ true
  unfolding that_task owned_by
  that_task-is_task user id s k x h = ground arith

  same_run-is_task : (task x : AgentTask) → same_run task x ≡ true → is_task task.id x ≡ true
  unfolding same_run
  same_run-is_task task x h = ground arith

  fenced-is_task :
      (ctx : Context) (id : Str) (k now : ℕ) (b : AgentTask → Bool) (x : AgentTask)
      → (active_lease_fenced ctx id k now x && b x) ≡ true
      → is_task id x ≡ true
  unfolding active_lease_fenced
  fenced-is_task ctx id k now b x h = ground arith

  owned-is_task :
      (user id : Str) (b : AgentTask → Bool) (x : AgentTask)
      → (owned_by user id x && b x) ≡ true
      → is_task id x ≡ true
  unfolding owned_by
  owned-is_task user id b x h = ground arith

  owned_by-is_task :
      (user id : Str) (x : AgentTask) → owned_by user id x ≡ true → is_task id x ≡ true
  unfolding owned_by
  owned_by-is_task user id x h = ground arith

module _ ⦃p : Platform⦄ (lawful : Lawful p) {id : Str} {v : ℕ} where
  Live-tasks : (d d' : p.Db) → p.tasks d' ≡ p.tasks d → Live id v d → Live id v d'
  Live-tasks d d' e s = record {
    current = record { one_row = rw e s.current.one_row; at_version = rw e s.current.at_version };
    uncancelled = rw e s.uncancelled;
  }

  pub Keeps-database : (store : GormStore) → Keeps (Live id v) (database store)
  unfolding database
  Keeps-database store = Keeps-require _ _

  Live-update_steps :
      (w : AgentStep → Bool) (f : AgentStep → AgentStep) → Keeps (Live id v) (p.update_steps w f)
  Live-update_steps w f = record {
    at = λ d d' n h s. Live-tasks d d' (lawful.update_steps_rows w f d d' n h).1 s;
  }

  -- The update that ends the generation.
  ending_update :
      (w : AgentTask → Bool) (f : AgentTask → AgentTask) (e : Error)
      → Forward f
      → ((x : AgentTask) → w x ≡ true → is_task id x ≡ true)
      → ((x : AgentTask) → (f x).run_version ≡ x.run_version + 1)
      → Moves (Live id v) (Superseded id v) (p.update_tasks w f >>= λ n. require_rows n e)
  ending_update w f e fw hits bumps =
      Moves-update _ e
        (λ d d' n h pos s. update_tasks-Superseded lawful w f fw hits bumps d d' n h pos s.current)

  pub pause_for_review-Superseded :
      (g : GormStore) (ctx : Context) (s : Str) (k : ℕ) (m : Str) (set : AgentStep → AgentStep)
      → Moves (Live id v) (Superseded id v) (pause_for_review g ctx id s k m set)
  unfolding pause_for_review
  pause_for_review-Superseded g ctx s k m set = Moves-then _ _ (Keeps-database g) λ _.
      Moves-then _ _ (Keeps-require _ _) λ _. Moves-then _ _ (Keeps-read _) λ task.
        Moves-then _ _ (Live-update_steps _ _) λ _. Moves-then _ _ (Keeps-require_rows _ _) λ _.
          ending_update _ _ _ (review_set-Forward g.now s m) (fenced-is_task ctx id k g.now _)
            (review_bumps g.now s m)

  pub resume_owned_task-Superseded :
      (g : GormStore) (user : Str) (retry : Bool)
      → Moves (Live id v) (Superseded id v) (resume_owned_task g user id retry)
  unfolding resume_owned_task
  resume_owned_task-Superseded g user retry = Moves-then _ _ (Keeps-database g) λ _.
      Moves-then _ _ (Keeps-require _ _) λ _. Moves-then _ _ (Keeps-read _) λ task.
        Moves-then _ _ (Keeps-require _ _) λ _. Moves-then _ _ (Keeps-read _) λ step.
          Moves-then _ _ (Keeps-require _ _) λ _. Moves-then _ _ (Live-update_steps _ _) λ _.
            Moves-then _ _ (Keeps-require_rows _ _) λ _.
              ending_update _ _ _ (requeue_task-Forward _ g.now) (that_task-is_task _ id _ _)
                (requeue_bumps _ g.now)

  pub reject-Superseded :
      (g : GormStore) (user s reason digest : Str)
      → Moves (Live id v) (Superseded id v) (decide g user id s false reason digest)
  unfolding decide
  reject-Superseded g user s reason digest = Moves-then _ _ (Keeps-require _ _) λ _.
      Moves-then _ _ (Keeps-read _) λ task. Moves-then _ _ (Keeps-require _ _) λ _.
        Moves-then _ _ (Live-update_steps _ _) λ _. Moves-then _ _ (Keeps-require_rows _ _) λ _.
          Moves-update_then _ _ _
            (λ d d' n h pos l.
              update_tasks-Superseded lawful _ _ (decide_task_set-Forward false s g.now)
                (owned-is_task user id _) (reject_bumps s g.now) d d' n h pos l.current)
            (Keeps-read _)

  Live-cancel_steps :
      (user : Str) (now : ℕ) (l : List AgentStep) (u : Bool)
      → Keeps (Live id v) (cancel_steps user id now u l)
  unfolding cancel_steps
  Live-cancel_steps user now [] u = Keeps-pure u
  Live-cancel_steps user now (s ∷ l) u =
      Keeps-bind _ _ (Live-update_steps _ _) (λ _. Live-cancel_steps user now l _)

  cancel_active-Superseded :
      (g : GormStore) (user : Str) (task : AgentTask)
      → Moves (Live id v) (Superseded id v) (cancel_active g user id task)
  unfolding cancel_active
  cancel_active-Superseded g user task = Moves-then _ _ (Keeps-read _) λ l.
      Moves-then _ _ (Live-cancel_steps user g.now l false) λ u.
        ending_update _ _ _ (cancel_task-Forward u g.now) (that_task-is_task user id _ _)
          (cancel_bumps u g.now)

  cancel_by_status-Superseded :
      (s : TaskStatus) (g : GormStore) (user : Str) (task : AgentTask)
      → s ≢ TaskStatus.cancelled
      → Moves (Live id v) (Superseded id v) (cancel_by_status s g user id task)
  unfolding cancel_by_status raise
  cancel_by_status-Superseded TaskStatus.cancelled g user task h = absurd (h refl)
  cancel_by_status-Superseded TaskStatus.succeeded g user task h = record { at = λ d d' a e l. cc }
  cancel_by_status-Superseded TaskStatus.rejected g user task h = record { at = λ d d' a e l. cc }
  cancel_by_status-Superseded _ g user task h = cancel_active-Superseded g user task

  pub cancel_owned_task-Superseded :
      (g : GormStore) (user : Str)
      → Moves (Live id v) (Superseded id v) (cancel_owned_task g user id)
  unfolding cancel_owned_task
  cancel_owned_task-Superseded g user = Moves-then _ _ (Keeps-database g) λ _.
      Moves-then _ _ (Keeps-require _ _) λ _.
        Moves-read _ (λ t. t.status ≢ TaskStatus.cancelled) _
          (λ d t l h.
            let (owned, m) = lawful.first_task_found _ d t h in
            All-mem (λ r. is_task id r ≡ true → r.status ≢ TaskStatus.cancelled) (p.tasks d)
              l.uncancelled m (owned_by-is_task _ id t owned))
          (λ t live. cancel_by_status-Superseded t.status g _ t live)

  Live-recover_steps :
      (now : ℕ) (l : List AgentStep) (f : Found) → Keeps (Live id v) (recover_steps id now f l)
  unfolding recover_steps
  Live-recover_steps now [] f = Keeps-pure f
  Live-recover_steps now (s ∷ l) f =
      Keeps-bind _ _ (Live-update_steps _ _) (λ _. Live-recover_steps now l (found_next f s))

  pub recover_locked_task-Superseded :
      (task : AgentTask) (now : ℕ)
      → Moves (Live id v) (Superseded id v) (recover_locked_task (record task { id = id }) now)
  unfolding recover_locked_task
  recover_locked_task-Superseded task now = Moves-then _ _ (Keeps-read _) λ l.
      Moves-then _ _ (Live-recover_steps now l _) λ f.
        ending_update _ _ _ (recover_task_set-Forward f now)
          (same_run-is_task (record task { id = id })) (recover_bumps f now)

-- ===== src/Agent/Retired.antt =====
-- dao/agent/agent.go: cancellation, resumption, rejection, the pauses for review and the recovery
-- shut a worker out for good.
use haruka_ai.Base.{
  ℕ, ◌≤◌, ◌<◌, ◌≡◌, refl, Bool, false, List, Str, codes, some, ok, Exec, pure, ◌>>=◌, is_empty, All,
}
use haruka_ai.Base.Keeps.{Keeps-pure, Keeps-require}
use haruka_ai.Base.Moves.{Moves, Moves-then, Moves-first}
use haruka_ai.Agent.Model.{AgentTask}
use haruka_ai.Agent.Platform.{Platform, Lawful}
use haruka_ai.Agent.Fence.{GormStore, Context}
use haruka_ai.Agent.Superseded.{Superseded}
use haruka_ai.Agent.Calls.{Call, PlainCall, perform_all, perform_all-Superseded}
use haruka_ai.Agent.Fencing.{FencedWrite, fenced_write, stale_write_fails}
use haruka_ai.Agent.Endings.{
  Live, Keeps-database, pause_for_review-Superseded, resume_owned_task-Superseded,
  reject-Superseded, cancel_owned_task-Superseded, recover_locked_task-Superseded,
}
use haruka_ai.Agent.Review.{
  Policy, mark_execution_unknown_fenced, mark_policy_review_fenced, update_owned_step_decision,
  by_decision, parse_decision,
}
use haruka_ai.Agent.Resume.{resume_owned_task, cancel_owned_task}
use haruka_ai.Agent.Recover.{recover_locked_task}

-- The transitions that take a task away from the worker that runs it.
pub data Ending : Type 0 where
  cancel : Str → Ending
  resume : Str → Bool → Ending
  reject : Str → Str → Str → Str → Ending
  mark_unknown : Context → Str → ℕ → Str → Ending
  review_policy : Context → Str → ℕ → Str → Policy → Ending
  recover : AgentTask → ℕ → Ending

parse_rejected : (lower : ℕ → ℕ) → parse_decision lower (codes "rejected") ≡ some false
unfolding parse_decision
parse_rejected lower = refl

module _ ⦃p : Platform⦄ where
  unfoldable pub end_generation : GormStore → Str → Ending → Exec p.Db (Unit {0})
  end_generation g id (cancel user) = cancel_owned_task g user id
  end_generation g id (resume user retry) = resume_owned_task g user id retry
  end_generation g id (reject user step reason digest) =
      update_owned_step_decision g user id step (codes "rejected") reason digest >>= λ _. pure tt
  end_generation g id (mark_unknown ctx step k message) =
      mark_execution_unknown_fenced g ctx id step k message
  end_generation g id (review_policy ctx step k message policy) =
      mark_policy_review_fenced g ctx id step k message policy
  end_generation g id (recover task now) = recover_locked_task (record task { id = id }) now

module _ ⦃p : Platform⦄ (lawful : Lawful p) {id : Str} {v : ℕ} where
  rejection-Superseded :
      (g : GormStore) (user s reason digest : Str)
      → Moves
          (Live id v)
          (Superseded id v)
          (update_owned_step_decision g user id s (codes "rejected") reason digest)
  unfolding update_owned_step_decision by_decision
  rejection-Superseded g user s reason digest =
      rw (parse_rejected p.lower_table, by_decision)
        (Moves-then _ _ (Keeps-database lawful g)
          λ _. Moves-then _ _ (Keeps-require _ _) λ _. reject-Superseded lawful g _ s _ _)

  end_generation-Superseded :
      (g : GormStore) (e : Ending) → Moves (Live id v) (Superseded id v) (end_generation g id e)
  unfolding end_generation
  end_generation-Superseded g (cancel user) = cancel_owned_task-Superseded lawful g user
  end_generation-Superseded g (resume user retry) = resume_owned_task-Superseded lawful g user retry
  end_generation-Superseded g (reject user s reason digest) =
      Moves-first _ _ (rejection-Superseded g user s reason digest) (λ _. Keeps-pure tt)
  end_generation-Superseded g (mark_unknown ctx s k m) =
      unfold mark_execution_unknown_fenced in pause_for_review-Superseded lawful g ctx s k _ _
  end_generation-Superseded g (review_policy ctx s k m policy) =
      unfold mark_policy_review_fenced in pause_for_review-Superseded lawful g ctx s k _ _
  end_generation-Superseded g (recover task now) = recover_locked_task-Superseded lawful task now

  -- Where the task `id` has one row, at run version `v` and not cancelled, and a cancellation, a
  -- resumption, a rejection, a pause for review or a recovery of it succeeds, then after any
  -- further calls, whose maps of updates have keys without dots and backticks, no write of a worker
  -- that holds the run version `k`, 0 < k ≤ v, succeeds:
  -- neither lease renewal, plan, steps, updates, pauses nor checkpoint.
  pub retired_worker_fenced :
      (g g' : GormStore) (e : Ending) (ctx : Context) (k : ℕ) (worker : Str) (x : FencedWrite)
      (cs : List (GormStore × Call)) (d d₁ d₂ : p.Db)
      → All (λ c. PlainCall c.1) cs
      → is_empty id ≡ false
      → 0 < k
      → k ≤ v
      → Live id v d
      → end_generation g id e d ≡ ok (d₁, tt)
      → ¬ (fenced_write g' ctx id k worker x (perform_all cs d₁) ≡ ok (d₂, tt))
  retired_worker_fenced g g' e ctx k worker x cs d d₁ d₂ plain named pos le live ended =
      stale_write_fails lawful g' ctx k worker x (perform_all cs d₁) d₂ le named pos (
        perform_all-Superseded lawful cs d₁ plain
          ((end_generation-Superseded g e).at d d₁ tt ended live))

-- ===== src/Agent/Calls.antt =====
-- dao/agent/agent.go: the calls that change the store, as one type, and their sequences. A call
-- that fails leaves the database as it was; the recovery commits task by task.
pub mod Forward
pub mod Worker
pub mod Owner
pub mod Recovery
use haruka_ai.Base.{ℕ, ◌≡◌, refl, Bool, List, [], ◌∷◌, Option, Str, ℤ, Result, ok, err, Exec, All}
use haruka_ai.Base.Keeps.{Keeps}
use haruka_ai.Agent.Model.{AgentTask, AgentStep}
use haruka_ai.Agent.Platform.{Platform, Lawful}
use haruka_ai.Agent.Fence.{GormStore, Context}
use haruka_ai.Agent.Superseded.{Superseded}
use haruka_ai.Agent.Columns.{PlainKeys}
use haruka_ai.Agent.Plan.{
  Updates, save_plan, create_steps_fenced, update_task_fenced, update_step_fenced,
  update_owned_task,
}
use haruka_ai.Agent.Tasks.{create_task_with_initial_step, claim_task, renew_lease_fenced}
use haruka_ai.Agent.Review.{
  Policy, mark_execution_unknown_fenced, mark_policy_review_fenced, update_owned_step_decision,
}
use haruka_ai.Agent.Resume.{resume_owned_task, cancel_owned_task}
use haruka_ai.Agent.Recover.{recover_stale_tasks}
use haruka_ai.Agent.Checkpoint.{set_checkpoint}
use Worker.{
  claim_task-Keeps, renew_lease_fenced-Keeps, save_plan-Keeps, create_steps_fenced-Keeps,
  update_task_fenced-Keeps, update_step_fenced-Keeps, mark_execution_unknown_fenced-Keeps,
  mark_policy_review_fenced-Keeps, set_checkpoint-Keeps,
}
use Owner.{
  create_task_with_initial_step-Keeps, update_owned_task-Keeps, update_owned_step_decision-Keeps,
  resume_owned_task-Keeps, cancel_owned_task-Keeps,
}
use Recovery.{recover_stale_tasks-Superseded}

module _ ⦃p : Platform⦄ where
  pub data Call : Type 0 where
    create : Option AgentTask → Option AgentStep → Call
    claim : Str → Str → ℤ → Call
    renew : Str → ℕ → Str → ℤ → Call
    plan : Context → Str → ℕ → Option Str → List AgentStep → Call
    add_steps : Str → ℕ → List AgentStep → Call
    update_task : Context → Str → ℕ → Updates p.Value → Call
    update_step : Context → Str → Str → ℕ → Updates p.Value → Call
    update_owned : Str → Str → Updates p.Value → Call
    mark_unknown : Context → Str → Str → ℕ → Str → Call
    review_policy : Context → Str → Str → ℕ → Str → Policy → Call
    decide : Str → Str → Str → Str → Str → Str → Call
    resume : Str → Str → Bool → Call
    cancel : Str → Str → Call
    recover : Context → ℕ → Call
    checkpoint : Context → Str → List ℕ → Call

  -- The keys of the maps that a call takes have no dot and no backtick.
  abbrev pub PlainCall : Call → Type 0
  PlainCall (update_task ctx id k u) = PlainKeys u
  PlainCall (update_owned user id u) = PlainKeys u
  PlainCall c = Unit

  abbrev pub commit : {A : Type 0} → p.Db → Result (p.Db × A) → p.Db
  commit d (ok (d', a)) = d'
  commit d (err e) = d

  -- The database after a call; each call comes with the store and its clock.
  unfoldable pub perform : GormStore → Call → p.Db → p.Db
  perform g (create t s) d = commit d (create_task_with_initial_step g t s d)
  perform g (claim id w l) d = commit d (claim_task g id w l d)
  perform g (renew id k w l) d = commit d (renew_lease_fenced g id k w l d)
  perform g (plan ctx id k m l) d = commit d (save_plan g ctx id k m l d)
  perform g (add_steps id k l) d = commit d (create_steps_fenced g id k l d)
  perform g (update_task ctx id k u) d = commit d (update_task_fenced g ctx id k u d)
  perform g (update_step ctx id s k u) d = commit d (update_step_fenced g ctx id s k u d)
  perform g (update_owned user id u) d = commit d (update_owned_task g user id u d)
  perform g (mark_unknown ctx id s k m) d =
      commit d (mark_execution_unknown_fenced g ctx id s k m d)
  perform g (review_policy ctx id s k m q) d =
      commit d (mark_policy_review_fenced g ctx id s k m q d)
  perform g (decide user id s a r h) d = commit d (update_owned_step_decision g user id s a r h d)
  perform g (resume user id b) d = commit d (resume_owned_task g user id b d)
  perform g (cancel user id) d = commit d (cancel_owned_task g user id d)
  perform g (recover ctx before) d = (recover_stale_tasks g ctx before d).0
  perform g (checkpoint ctx id c) d = commit d (set_checkpoint g ctx id c d)

  unfoldable pub perform_all : List (GormStore × Call) → p.Db → p.Db
  perform_all [] d = d
  perform_all ((g, c) ∷ cs) d = perform_all cs (perform g c d)

module _ ⦃p : Platform⦄ (lawful : Lawful p) {id : Str} {v : ℕ} where
  commit-Keeps :
      {A : Type 0} (d : p.Db) (m : Exec p.Db A)
      → Keeps (Superseded id v) m
      → Superseded id v d
      → Superseded id v (commit d (m d))
  commit-Keeps {A} d m km s = by_result (m d) refl
    where
      by_result : (r : Result (p.Db × A)) → m d ≡ r → Superseded id v (commit d r)
      by_result (ok (d', a)) e = km.at d d' a e s
      by_result (err x) e = s

  perform-Superseded :
      (g : GormStore) (c : Call) (d : p.Db)
      → PlainCall c
      → Superseded id v d
      → Superseded id v (perform g c d)
  unfolding perform
  perform-Superseded g (create t s) d plain =
      commit-Keeps d _ (create_task_with_initial_step-Keeps lawful g t s)
  perform-Superseded g (claim i w l) d plain = commit-Keeps d _ (claim_task-Keeps lawful g i w l)
  perform-Superseded g (renew i k w l) d plain =
      commit-Keeps d _ (renew_lease_fenced-Keeps lawful g i k w l)
  perform-Superseded g (plan ctx i k m l) d plain =
      commit-Keeps d _ (save_plan-Keeps lawful g ctx i k m l)
  perform-Superseded g (add_steps i k l) d plain =
      commit-Keeps d _ (create_steps_fenced-Keeps lawful g i k l)
  perform-Superseded g (update_task ctx i k u) d plain =
      commit-Keeps d _ (update_task_fenced-Keeps lawful g ctx i k u plain)
  perform-Superseded g (update_step ctx i s k u) d plain =
      commit-Keeps d _ (update_step_fenced-Keeps lawful g ctx i s k u)
  perform-Superseded g (update_owned user i u) d plain =
      commit-Keeps d _ (update_owned_task-Keeps lawful g user i u plain)
  perform-Superseded g (mark_unknown ctx i s k m) d plain =
      commit-Keeps d _ (mark_execution_unknown_fenced-Keeps lawful g ctx i s k m)
  perform-Superseded g (review_policy ctx i s k m q) d plain =
      commit-Keeps d _ (mark_policy_review_fenced-Keeps lawful g ctx i s k m q)
  perform-Superseded g (decide user i s a r h) d plain =
      commit-Keeps d _ (update_owned_step_decision-Keeps lawful g user i s a r h)
  perform-Superseded g (resume user i b) d plain =
      commit-Keeps d _ (resume_owned_task-Keeps lawful g user i b)
  perform-Superseded g (cancel user i) d plain =
      commit-Keeps d _ (cancel_owned_task-Keeps lawful g user i)
  perform-Superseded g (recover ctx before) d plain =
      recover_stale_tasks-Superseded lawful g ctx before d
  perform-Superseded g (checkpoint ctx i c) d plain =
      commit-Keeps d _ (set_checkpoint-Keeps lawful g ctx i c)

  -- An ended generation stays ended, whatever calls with plain keys follow.
  pub perform_all-Superseded :
      (cs : List (GormStore × Call)) (d : p.Db)
      → All (λ c. PlainCall c.1) cs
      → Superseded id v d
      → Superseded id v (perform_all cs d)
  unfolding perform_all
  perform_all-Superseded [] d plain s = s
  perform_all-Superseded ((g, c) ∷ cs) d (plain, plains) s =
      perform_all-Superseded cs (perform g c d) plains (perform-Superseded g c d plain s)

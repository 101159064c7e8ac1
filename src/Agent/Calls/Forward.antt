-- ===== src/Agent/Calls/Forward.antt =====
-- dao/agent/agent.go: what the statements write into a task keeps its identifier and turns no run
-- version back.
use haruka_ai.Base.{ℕ, refl, Bool, true, false, List, Option, Str, arith}
use haruka_ai.Agent.Platform.{Platform, Lawful}
use haruka_ai.Agent.Superseded.Rules.{Forward}
use haruka_ai.Agent.Columns.{PlainKeys, update_task_set-TaskKept}
use haruka_ai.Agent.Plan.{
  Updates, update_task_set, sanitized_updates, immutable_task_columns, save_plan_set,
}
use haruka_ai.Agent.Tasks.{claim_set, renew_set}
use haruka_ai.Agent.Review.{review_set, decide_task_set}
use haruka_ai.Agent.Resume.{requeue_task, cancel_task}
use haruka_ai.Agent.Checkpoint.{checkpoint_set}

pub claim_set-Forward : (w : Str) (now until : ℕ) → Forward (claim_set w now until)
unfolding claim_set
claim_set-Forward w now until = record { same_id = λ x. refl; not_back = λ x. omega arith }

pub renew_set-Forward : (now until : ℕ) → Forward (renew_set now until)
unfolding renew_set
renew_set-Forward now until = record { same_id = λ x. refl; not_back = λ x. omega arith }

pub save_plan_set-Forward : (now : ℕ) (c : Str) (s : Option Str) → Forward (save_plan_set now c s)
unfolding save_plan_set
save_plan_set-Forward now c s = record { same_id = λ x. refl; not_back = λ x. omega arith }

pub review_set-Forward : (now : ℕ) (c m : Str) → Forward (review_set now c m)
unfolding review_set
review_set-Forward now c m = record { same_id = λ x. refl; not_back = λ x. omega arith }

pub decide_task_set-Forward : (a : Bool) (c : Str) (now : ℕ) → Forward (decide_task_set a c now)
unfolding decide_task_set
decide_task_set-Forward true c now = record { same_id = λ x. refl; not_back = λ x. omega arith }
decide_task_set-Forward false c now = record { same_id = λ x. refl; not_back = λ x. omega arith }

pub requeue_task-Forward : (c : Str) (now : ℕ) → Forward (requeue_task c now)
unfolding requeue_task
requeue_task-Forward c now = record { same_id = λ x. refl; not_back = λ x. omega arith }

pub cancel_task-Forward : (u : Bool) (now : ℕ) → Forward (cancel_task u now)
unfolding cancel_task
cancel_task-Forward u now = record { same_id = λ x. refl; not_back = λ x. omega arith }

pub checkpoint_set-Forward : (now : ℕ) (c : List ℕ) → Forward (checkpoint_set now c)
unfolding checkpoint_set
checkpoint_set-Forward now c = record { same_id = λ x. refl; not_back = λ x. omega arith }

pub ruleset forward_rules = (
  claim_set-Forward, renew_set-Forward, save_plan_set-Forward, review_set-Forward,
  decide_task_set-Forward, requeue_task-Forward, cancel_task-Forward, checkpoint_set-Forward,
)

module _ ⦃p : Platform⦄ (lawful : Lawful p) where
  pub update_task_set-Forward :
      (now : ℕ) (source : Updates p.Value)
      → PlainKeys source
      → Forward
          (update_task_set now (sanitized_updates p.lower_table source immutable_task_columns))
  update_task_set-Forward now source plain = record {
    same_id = λ x. (update_task_set-TaskKept lawful now source x plain).id;
    not_back = λ x. omega (arith, (update_task_set-TaskKept lawful now source x plain).run_version);
  }

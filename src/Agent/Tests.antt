-- ===== src/Agent/Tests.antt =====
-- Runs of the agent store in memory: endings, owners, decisions and claims, with the theorems at
-- concrete tables.
use haruka_ai.Base.{◌≡◌, refl, [], ◌∷◌, none, some, codes, pos as int, ok, arith}
use haruka_ai.Agent.Model.{TaskStatus, StepStatus}
use haruka_ai.Agent.Fence.{GormStore}
use haruka_ai.Agent.Memory.{Tables, memory, memory-Lawful}
use haruka_ai.Agent.Calls.{Call, perform_all}
use haruka_ai.Agent.Fencing.{FencedWrite, fenced_write}
use haruka_ai.Agent.Retired.{Ending, end_generation, retired_worker_fenced}
use haruka_ai.Base.{List, Str, Result, err, Memᴰ, true, false}
use haruka_ai.Agent.Model.{AgentTask, AgentStep, ApprovalDecision}
use haruka_ai.Agent.Ownership.{OwnedCall, owned_call, owned_call_isolated}
use haruka_ai.Agent.Review.{update_owned_step_decision}
use haruka_ai.Agent.Approval.{Decided, update_owned_step_decision-Decided}
use haruka_ai.Agent.Resume.{resume_owned_task}
use haruka_ai.Agent.Consent.{resume_without_consent}
use haruka_ai.Agent.Tasks.{Claim, claim_task, lost}
use haruka_ai.Agent.Claiming.{claim_task_exclusive}
use haruka_ai.Agent.Fixture.{
  left_by, agent_code, store, context, ann, task_id, worker, running_task, running_step, running,
  running-Live,
}

-- What cancelling leaves behind.
abbrev cancelled : Tables
cancelled = record {
  task_rows =
      record running_task {
        status = TaskStatus.cancelled;
        run_version = 2;
        lease_owner = [];
        lease_until = none;
        heartbeat_at = none;
        finished_at = some 1000;
        error_message =
            codes
              "task was cancelled while a non-idempotent tool was running; its outcome may be unknown";
        updated_at = 1000;
      }
      ∷ [];
  step_rows =
      record running_step {
        status = StepStatus.execution_unknown;
        finished_at = some 1000;
        error_message = codes "tool execution outcome is unknown after cancellation";
        updated_at = 1000;
      }
      ∷ [];
}

cancel-running : end_generation store task_id (Ending.cancel ann) running ≡ ok (cancelled, tt)
unfolding agent_code
cancel-running = refl

abbrev later_calls : List (GormStore × Call)
later_calls =
    (store, Call.update_owned ann task_id ((codes "goal", codes "another") ∷ []))
    ∷ (store, Call.claim task_id (codes "w2") (int 5))
    ∷ []

-- After the cancellation, an update by the owner and another claim of the task, the worker's answer is
-- refused.
retired_worker_fenced_example : ¬ (
    fenced_write store context task_id 1 worker
      (FencedWrite.update_task ((codes "final_answer", codes "done") ∷ []))
      (perform_all later_calls cancelled)
    ≡ ok (cancelled, tt))
unfolding agent_code
retired_worker_fenced_example =
    retired_worker_fenced memory-Lawful store store (Ending.cancel ann) context 1 worker
      (FencedWrite.update_task ((codes "final_answer", codes "done") ∷ [])) later_calls running
      cancelled cancelled ((refl, tt), (tt, tt)) refl (omega arith) (omega arith) running-Live
      cancel-running

abbrev bob : Str
bob = codes "bob"

abbrev bobs_task : AgentTask
bobs_task = record running_task { id = codes "t2"; user_name = bob }

abbrev two_owners : Tables
two_owners = record { task_rows = running_task ∷ bobs_task ∷ []; step_rows = running_step ∷ [] }

abbrev bob_cancelled : Tables
bob_cancelled = left_by (owned_call store bob (codes "t2") OwnedCall.cancel two_owners)

bob_cancels : owned_call store bob (codes "t2") OwnedCall.cancel two_owners ≡ ok (bob_cancelled, tt)
unfolding agent_code owned_call
bob_cancels = refl

owned_call_isolated_example :
    Memᴰ running_task bob_cancelled.task_rows × Memᴰ running_step bob_cancelled.step_rows
unfolding agent_code
owned_call_isolated_example =
    owned_call_isolated memory-Lawful store bob (codes "t2") OwnedCall.cancel two_owners
      bob_cancelled refl refl refl refl bob_cancels (Memᴰ.head refl) (Memᴰ.head refl)

-- Ann's task waits for her decision on the step.
abbrev awaiting : Tables
awaiting = record {
  task_rows = record running_task { status = TaskStatus.waiting_approval } ∷ [];
  step_rows =
      record running_step {
        status = StepStatus.waiting_approval;
        approval_decision = ApprovalDecision.pending;
      }
      ∷ [];
}

abbrev decided : Result (Tables × AgentStep)
decided =
    update_owned_step_decision store ann task_id (codes "s1") (codes "Approved ") (codes "ok")
      (codes "ab12") awaiting

abbrev decided_step : AgentStep
decided_step = record running_step {
  status = StepStatus.approved;
  approval_decision = ApprovalDecision.approved;
  approval_reason = codes "ok";
  approval_decided_at = some 1000;
  updated_at = 1000;
}

ann_decides : decided ≡ ok (left_by decided, decided_step)
unfolding agent_code
ann_decides = refl

update_owned_step_decision-Decided_example :
    Decided true ann task_id
      (codes "s1")
      (codes "ab12")
      (codes "ok")
      1000
      awaiting
      (left_by decided)
unfolding agent_code
update_owned_step_decision-Decided_example =
    update_owned_step_decision-Decided memory-Lawful store ann task_id (codes "s1")
      (codes "Approved ") (codes "ok") (codes "ab12") true awaiting (left_by decided) decided_step
      refl ann_decides

-- One task of Ann's failed, and another waits for her review.
abbrev to_resume : Tables
to_resume = record {
  task_rows =
      record running_task {
        id = codes "t2";
        status = TaskStatus.failed;
        current_step_id = codes "s2";
      }
      ∷ record running_task { status = TaskStatus.requires_review }
      ∷ [];
  step_rows =
      record running_step { id = codes "s2"; task_id = codes "t2"; status = StepStatus.failed }
      ∷ record running_step { status = StepStatus.execution_unknown }
      ∷ [];
}

abbrev resumed : Tables
resumed = left_by (resume_owned_task store ann (codes "t2") false to_resume)

ann_resumes : resume_owned_task store ann (codes "t2") false to_resume ≡ ok (resumed, tt)
unfolding agent_code
ann_resumes = refl

resume_without_consent_example :
    Memᴰ (record running_task { status = TaskStatus.requires_review }) resumed.task_rows
    × Memᴰ (record running_step { status = StepStatus.execution_unknown }) resumed.step_rows
resume_without_consent_example =
    resume_without_consent memory-Lawful store ann (codes "t2") to_resume resumed refl refl
      ann_resumes (Memᴰ.tail (Memᴰ.head refl)) (Memᴰ.tail (Memᴰ.head refl))

-- Two workers claim one pending task.
abbrev pending : Tables
pending = record {
  task_rows = record running_task { status = TaskStatus.pending } ∷ [];
  step_rows = running_step ∷ [];
}

abbrev first_claim : Tables
first_claim = left_by (claim_task store task_id worker (int 5) pending)

abbrev claim_given : Result (Tables × Claim) → Claim
claim_given (ok (d, c)) = c
claim_given (err e) = lost

abbrev first_given : Claim
first_given = claim_given (claim_task store task_id worker (int 5) pending)

first_claims : claim_task store task_id worker (int 5) pending ≡ ok (first_claim, first_given)
unfolding agent_code
first_claims = refl

second_claims : claim_task store task_id (codes "w2") (int 5) first_claim ≡ ok (first_claim, lost)
unfolding agent_code
second_claims = refl

claim_task_exclusive_example : (lost ≡ lost) × (first_claim.task_rows ≡ first_claim.task_rows)
claim_task_exclusive_example =
    claim_task_exclusive memory-Lawful store store task_id worker (codes "w2") (int 5) (int 5)
      pending first_claim first_claim first_given lost first_claims second_claims

-- ===== src/Agent/Recover.antt =====
-- dao/agent/agent.go: the recovery of tasks that their worker abandoned.
use haruka_ai.Base.{
  ℕ, zero, suc, ◌+◌, ◌==◌, ltb, if◌then◌else◌, Bool, true, false, not, ◌&&◌, ◌||◌, List, [], ◌∷◌,
  Option, none, some, Str, codes, is_empty, Result, ok, err, Exec, pure, ◌>>=◌, ◌>>◌, require_rows,
  read, length, Error, database_unavailable, invalid_input, conflict, record_not_found,
  context_done,
}
use haruka_ai.Agent.Model.{
  AgentTask, AgentStep, TaskStatus, StepStatus, task_status_eq, step_status_eq,
}
use haruka_ai.Agent.Platform.{Platform, least_recently_updated}
use haruka_ai.Agent.Fence.{GormStore, Context}
use haruka_ai.Agent.Tasks.{lease_renewable}
use haruka_ai.Agent.Plan.{step_of}
use haruka_ai.Agent.Resume.{step_can_replay_after_crash, requeue_step}

abbrev pub recover_stale_batch_size : ℕ
recover_stale_batch_size = 50

abbrev pub recover_stale_max_rounds : ℕ
recover_stale_max_rounds = 20

-- `column < ?`, which is not true of NULL.
abbrev pub is_before : Option ℕ → ℕ → Bool
is_before none now = false
is_before (some t) now = ltb t now

abbrev pub or_else : Option ℕ → Option ℕ → Option ℕ
or_else none b = b
or_else (some a) b = some a

unfoldable pub lapsed : Option ℕ → AgentTask → ℕ → ℕ → Bool
lapsed (some until) t now before = ltb until now
lapsed none t now before =
    is_before (or_else t.heartbeat_at (or_else t.started_at (some t.updated_at))) before

unfoldable pub is_stale : ℕ → ℕ → AgentTask → Bool
unfolding lapsed lease_renewable
is_stale now before t = lease_renewable t.status && lapsed t.lease_until t now before

unfoldable pub interrupted_set : ℕ → AgentStep → AgentStep
interrupted_set now s = record s {
  status = StepStatus.execution_unknown;
  finished_at = some now;
  error_message = codes "tool execution outcome is unknown after worker interruption";
  updated_at = now;
}

-- One turn of the loop over the running steps: what is done to the step's row.
unfoldable pub recover_step_set : ℕ → AgentStep → AgentStep → AgentStep
unfolding requeue_step interrupted_set step_can_replay_after_crash
recover_step_set now step row =
    if step_can_replay_after_crash step then requeue_step now row else interrupted_set now row

-- `currentStepID` and `unsafeFound`
pub record Found : Type 0 where
  pub current_step_id : Str
  pub unsafe : Bool

unfoldable pub found_next : Found → AgentStep → Found
unfolding step_can_replay_after_crash is_empty
found_next found step =
    let current = if is_empty found.current_step_id then step.id else found.current_step_id in
    if step_can_replay_after_crash step
    then record { current_step_id = current; unsafe = found.unsafe }
    else record { current_step_id = step.id; unsafe = true }

unfoldable pub recover_task_set : Found → ℕ → AgentTask → AgentTask
recover_task_set found now t = record t {
  status = if found.unsafe then TaskStatus.requires_review else TaskStatus.pending;
  current_step_id = found.current_step_id;
  run_version = t.run_version + 1;
  checkpoint = [];
  checkpoint_version = t.checkpoint_version + 1;
  lease_owner = [];
  lease_until = none;
  heartbeat_at = none;
  error_message =
      if found.unsafe
      then codes "a non-idempotent tool may have executed; manual review is required"
      else [];
  updated_at = now;
}

-- What a batch has done: the tasks that it moved, the first error, and whether the context ended it.
pub record Progress : Type 0 where
  pub recovered : ℕ
  pub first_err : Option Error
  pub aborted : Bool

-- `errors.Is(err, ErrConflict)` is no failure, and only the first is kept.
unfoldable pub note_error : Option Error → Error → Option Error
note_error (some first) e = some first
note_error none conflict = none
note_error none e = some e

unfoldable pub first_or : Option Error → Error → Error
first_or (some first) e = first
first_or none e = e

module _ ⦃p : Platform⦄ where
  unfoldable pub running_step : Str → Str → AgentStep → Bool
  running_step step_id task_id s =
      step_of step_id task_id s && step_status_eq s.status StepStatus.running

  unfoldable pub recover_steps : Str → ℕ → Found → List AgentStep → Exec p.Db Found
  recover_steps task_id now found [] = pure found
  recover_steps task_id now found (step ∷ steps) =
      p.update_steps (running_step step.id task_id) (recover_step_set now step)
      >> recover_steps task_id now (found_next found step) steps

  unfoldable pub same_run : AgentTask → AgentTask → Bool
  same_run task t =
      p.same t.id task.id
      && task_status_eq t.status task.status
      && t.run_version == task.run_version

  unfoldable pub recover_locked_task : AgentTask → ℕ → Exec p.Db (Unit {0})
  recover_locked_task task now = do
    running ←
        read (
          p.find_steps
            (λ s. p.same s.task_id task.id && step_status_eq s.status StepStatus.running))
    found ←
        recover_steps task.id now
          (record { current_step_id = task.current_step_id; unsafe = false }) running
    affected ← p.update_tasks (same_run task) (recover_task_set found now)
    require_rows affected conflict

  -- The transaction of one candidate; `false` where the row is gone, recovered or locked.
  unfoldable pub recover_if_locked : ℕ → Result AgentTask → Exec p.Db Bool
  recover_if_locked now (err record_not_found) = pure false
  recover_if_locked now (err e) = λ d. err e
  recover_if_locked now (ok task) = recover_locked_task task now >> pure true

  unfoldable pub recover_candidate : ℕ → ℕ → AgentTask → Exec p.Db Bool
  recover_candidate now before candidate d =
      recover_if_locked now
        (p.first_unlocked_task (λ t. is_stale now before t && p.same t.id candidate.id) d) d

  -- A failed transaction leaves the database as it was.
  unfoldable pub after_candidate : p.Db → Progress → Result (p.Db × Bool) → p.Db × Progress
  after_candidate d progress (err e) =
      (d, record progress { first_err = note_error progress.first_err e })
  after_candidate d progress (ok (d', false)) = (d', progress)
  after_candidate d progress (ok (d', true)) =
      (d', record progress { recovered = progress.recovered + 1 })

  unfoldable pub recover_candidates :
      (ℕ → Bool) → ℕ → ℕ → ℕ → List AgentTask → p.Db → Progress → p.Db × Progress
  recover_candidates done now before index [] d progress = (d, progress)
  recover_candidates done now before index (c ∷ cs) d progress =
      let next = after_candidate d progress (recover_candidate now before c d) in
      let rest = recover_candidates done now before (index + 1) cs next.0 next.1 in
      if done index then (d, record progress { aborted = true }) else rest

  -- The end of a round: go on only after a full batch that moved something.
  unfoldable pub next_round : ℕ → p.Db × Progress → p.Db × Option Error → p.Db × Option Error
  next_round size (d, progress) rest =
      if progress.aborted
      then (d, some context_done)
      else (if progress.recovered == 0 || ltb size recover_stale_batch_size
          then (d, progress.first_err)
          else rest)

  -- The body of a round, given the scan's result and the rounds that follow.
  unfoldable pub after_scan :
      ℕ
      → Context
      → ℕ
      → ℕ
      → Option Error
      → p.Db
      → (Option Error → p.Db → p.Db × Option Error)
      → Result (List AgentTask)
      → p.Db × Option Error
  after_scan round ctx now before first_err d further (err e) = (d, some (first_or first_err e))
  after_scan round ctx now before first_err d further (ok []) = (d, first_err)
  after_scan round ctx now before first_err d further (ok (c ∷ cs)) =
      let batch =
        recover_candidates (ctx.done round) now before 0 (c ∷ cs) d
          (record { recovered = 0; first_err = first_err; aborted = false }) in
      let rest = further batch.1.first_err batch.0 in next_round (length (c ∷ cs)) batch rest

  -- `for round := 0; round < recoverStaleMaxRounds; round++`, by the rounds that are left.
  unfoldable pub recover_rounds :
      ℕ → ℕ → Context → ℕ → ℕ → Option Error → p.Db → p.Db × Option Error
  recover_rounds zero round ctx now before first_err d = (d, first_err)
  recover_rounds (suc left) round ctx now before first_err d =
      after_scan round ctx now before first_err d (recover_rounds left (round + 1) ctx now before)
        (p.find_tasks (is_stale now before) least_recently_updated 0 recover_stale_batch_size d)

  -- `before` is a time, 0 the zero time. What a round has committed stays, whatever the error.
  unfoldable pub recover_stale_tasks : GormStore → Context → ℕ → p.Db → p.Db × Option Error
  recover_stale_tasks store ctx before d =
      if not store.connected
      then (d, some database_unavailable)
      else (if before == 0
          then (d, some invalid_input)
          else recover_rounds recover_stale_max_rounds 0 ctx store.now before none d)

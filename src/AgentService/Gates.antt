-- ===== src/AgentService/Gates.antt =====
-- service/agent/graph.go: approvalNode and finalizeNode as scripts.
use haruka_ai.Base.{
  ℕ, ◌+◌, if◌then◌else◌, Bool, true, false, Str, codes, trim_space, is_blank, List, [], ◌∷◌, Option,
  none, some,
}
use haruka_ai.Agent.Model.{
  AgentTask, AgentStep, TaskStatus, StepStatus, StepKind, ApprovalDecision, step_status_eq,
  LoadedTask,
}
use haruka_ai.Agent.Plan.{Updates}
use haruka_ai.AgentService.Script.{
  Cell, nothing, characters, count, moment, step_state, task_state, update_step, update_task,
  ApprovalInterrupt, task_stopped, conflict, store_error, model_error, no_answer, goes_on,
  fails_with, interrupts, Script, ends, get_task, writes, generate,
}
use haruka_ai.AgentService.Redact.{Secrets, truncate_runes, redact_text}
use haruka_ai.AgentService.Nodes.{
  Surroundings, max_arguments_preview_runes, run_version_from_context, current_tool_step,
  fail_tool_step,
}
use haruka_ai.McpSchema.Json.{Library}

abbrev pub max_final_answer_runes : ℕ
max_final_answer_runes = 24000

unfoldable pub approval_interrupt : AgentTask → AgentStep → ApprovalInterrupt
unfolding truncate_runes
approval_interrupt task step = record {
  task_id = task.id;
  step_id = step.id;
  tool_name = step.tool_name;
  risk = step.risk_level;
  arguments_digest = step.arguments_digest;
  arguments_preview = truncate_runes step.arguments_preview max_arguments_preview_runes;
}

unfoldable pub waiting_task : AgentStep → Updates Cell
waiting_task step =
    (codes "status", task_state TaskStatus.waiting_approval)
    ∷ (codes "current_step_id", characters step.id)
    ∷ (codes "lease_owner", characters [])
    ∷ (codes "lease_until", nothing)
    ∷ (codes "heartbeat_at", nothing)
    ∷ []

module _ (task : AgentTask) (step : AgentStep) where
  unfoldable pub after_waiting : Option Str → Script
  unfolding approval_interrupt
  after_waiting (some e) = ends (fails_with (store_error e))
  after_waiting none = ends (interrupts (approval_interrupt task step))

  unfoldable pub wait_for_approval : ℕ → Option Str → Script
  unfolding after_waiting waiting_task
  wait_for_approval version (some e) = ends (fails_with (store_error e))
  wait_for_approval version none =
      writes (update_task task.id version (waiting_task step)) after_waiting

  -- The step is marked as waiting, unless it is.
  unfoldable pub ask_version : Bool → Option ℕ → Script
  unfolding wait_for_approval
  ask_version waiting none = ends (fails_with conflict)
  ask_version true (some version) = wait_for_approval version none
  ask_version false (some version) =
      writes
        (update_step task.id step.id version
          ((codes "status", step_state StepStatus.waiting_approval) ∷ []))
        (wait_for_approval version)

  unfoldable pub ask_decision : Option ℕ → ApprovalDecision → Script
  unfolding ask_version run_version_from_context
  ask_decision version ApprovalDecision.approved = ends goes_on
  ask_decision version ApprovalDecision.rejected = ends (fails_with task_stopped)
  ask_decision version _ =
      ask_version (step_status_eq step.status StepStatus.waiting_approval)
        (run_version_from_context version)

  unfoldable pub ask_if_required : Option ℕ → Bool → Script
  unfolding ask_decision
  ask_if_required version false = ends goes_on
  ask_if_required version true = ask_decision version step.approval_decision

unfoldable pub approval_step : Option ℕ → AgentTask → Option AgentStep → Script
unfolding ask_if_required
approval_step version task none = ends (fails_with conflict)
approval_step version task (some step) = ask_if_required task step version step.requires_approval

unfoldable pub approval_task : Option ℕ → Option LoadedTask → Script
unfolding approval_step current_tool_step
approval_task version none = ends (fails_with (store_error []))
approval_task version (some loaded) = approval_step version loaded.task (current_tool_step loaded)

unfoldable pub approval_node : Option ℕ → Str → Script
unfolding approval_task
approval_node version task_id = get_task task_id (approval_task version)

unfoldable pub is_final : StepKind → Bool
is_final StepKind.final = true
is_final _ = false

-- `findStepByKind` for the final step.
unfoldable pub find_final : List AgentStep → Option AgentStep
unfolding is_final
find_final [] = none
find_final (step ∷ steps) =
    let rest = find_final steps in if is_final step.kind then some step else rest

module _ ⦃lib : Library⦄ ⦃secrets : Secrets⦄ ⦃s : Surroundings⦄ (prompt : LoadedTask → Str) where
  module _ (task : AgentTask) (step : AgentStep) (version : ℕ) where
    unfoldable pub after_final_task : Option Str → Script
    after_final_task (some e) = ends (fails_with (store_error e))
    after_final_task none = ends goes_on

    unfoldable pub after_final_step : Str → Option Str → Script
    unfolding after_final_task
    after_final_step answer (some e) = ends (fails_with (store_error e))
    after_final_step answer none =
        writes
          (update_task task.id version (
            (codes "status", task_state TaskStatus.succeeded)
            ∷ (codes "current_step_id", characters step.id)
            ∷ (codes "final_answer", characters answer)
            ∷ (codes "finished_at", moment s.finished)
            ∷ (codes "lease_owner", characters [])
            ∷ (codes "lease_until", nothing)
            ∷ (codes "heartbeat_at", nothing)
            ∷ (codes "error_message", characters [])
            ∷ []))
          after_final_task

    unfoldable pub final_answer : Str → Script
    unfolding after_final_step redact_text truncate_runes trim_space
    final_answer content =
        let answer = truncate_runes (redact_text (trim_space content)) max_final_answer_runes in
        writes
          (update_step task.id step.id version (
            (codes "status", step_state StepStatus.succeeded)
            ∷ (codes "result_summary", characters answer)
            ∷ (codes "finished_at", moment s.finished)
            ∷ (codes "error_message", characters [])
            ∷ []))
          (after_final_step answer)

    -- The model's answer: none for an error; a response of nil has no content.
    unfoldable pub after_model : Option Str → Script
    unfolding fail_tool_step final_answer is_blank
    after_model none = fail_tool_step task step version model_error
    after_model (some content) =
        if is_blank content
        then fail_tool_step task step version no_answer
        else final_answer content

    unfoldable pub after_final_running : Str → Option Str → Script
    unfolding after_model
    after_final_running question (some e) = ends (fails_with (store_error e))
    after_final_running question none = generate question after_model

    unfoldable pub start_final : Str → Script
    unfolding after_final_running
    start_final question =
        writes
          (update_step task.id step.id version (
            (codes "status", step_state StepStatus.running)
            ∷ (codes "attempts", count (step.attempts + 1))
            ∷ (codes "started_at", moment s.started)
            ∷ []))
          (after_final_running question)

  unfoldable pub final_step : LoadedTask → Option ℕ → Option AgentStep → Script
  unfolding start_final
  final_step loaded none step = ends (fails_with conflict)
  final_step loaded (some version) none = ends (fails_with conflict)
  final_step loaded (some version) (some step) =
      start_final loaded.task step version (prompt loaded)

  unfoldable pub final_status : TaskStatus → LoadedTask → Option ℕ → Script
  unfolding final_step find_final run_version_from_context
  final_status TaskStatus.cancelled loaded version = ends (fails_with task_stopped)
  final_status TaskStatus.rejected loaded version = ends (fails_with task_stopped)
  final_status _ loaded version =
      final_step loaded (run_version_from_context version) (find_final loaded.loaded_steps)

  unfoldable pub final_task : Option ℕ → Option LoadedTask → Script
  unfolding final_status
  final_task version none = ends (fails_with (store_error []))
  final_task version (some loaded) = final_status loaded.task.status loaded version

  unfoldable pub finalize_node : Option ℕ → Str → Script
  unfolding final_task
  finalize_node version task_id = get_task task_id (final_task version)

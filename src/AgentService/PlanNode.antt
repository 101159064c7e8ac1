-- ===== src/AgentService/PlanNode.antt =====
-- service/agent/graph.go: planNode as a script. The prompt is an argument, and
-- a response of nil has no content, which is as little a plan.
use haruka_ai.Base.{ℕ, ◌+◌, if◌then◌else◌, Str, codes, List, [], ◌∷◌, Option, none, some}
use haruka_ai.Agent.Model.{AgentStep, TaskStatus, StepStatus, is_plan, LoadedTask}
use haruka_ai.AgentService.Route.{plan_already_saved, task_terminal}
use haruka_ai.AgentService.Script.{
  characters, count, moment, step_state, task_state, update_step, update_task, save_plan,
  task_stopped, conflict, store_error, no_tools, model_error, invalid_plan, goes_on, fails_with,
  Script, ends, get_task, writes, list_tools, generate,
}
use haruka_ai.AgentService.Redact.{Secrets}
use haruka_ai.AgentService.Nodes.{Surroundings, run_version_from_context}
use haruka_ai.AgentService.Planner.{PlanDocument, PlanDecoder, parse_plan_json, materialize_plan}
use haruka_ai.McpHub.Model.{ToolDefinition}
use haruka_ai.McpSchema.Json.{Library}

-- `findStepByKind` for the planning step.
unfoldable pub find_plan : List AgentStep → Option AgentStep
find_plan [] = none
find_plan (step ∷ steps) =
    let rest = find_plan steps in if is_plan step.kind then some step else rest

module _ ⦃lib : Library⦄ ⦃secrets : Secrets⦄ ⦃s : Surroundings⦄ ⦃d : PlanDecoder⦄
    (prompt : LoadedTask → List ToolDefinition → Str) (loaded : LoadedTask) (version : ℕ) where
  unfoldable pub after_saved : Option Str → Script
  after_saved none = ends goes_on
  after_saved (some e) = ends (fails_with (store_error e))

  unfoldable pub after_materialized : Str → Option (List AgentStep) → Script
  unfolding after_saved
  after_materialized summary none = ends (fails_with invalid_plan)
  after_materialized summary (some steps) =
      writes (save_plan loaded.task.id version summary steps) after_saved

  unfoldable pub after_parsed : List ToolDefinition → Option PlanDocument → Script
  unfolding after_materialized materialize_plan
  after_parsed tools none = ends (fails_with invalid_plan)
  after_parsed tools (some plan) =
      after_materialized plan.summary (materialize_plan loaded.task tools plan)

  unfoldable pub after_response : List ToolDefinition → Option Str → Script
  unfolding after_parsed parse_plan_json
  after_response tools none = ends (fails_with model_error)
  after_response tools (some content) = after_parsed tools (parse_plan_json content)

  unfoldable pub after_discovery : Option (List ToolDefinition) → Script
  unfolding after_response
  after_discovery none = ends (fails_with no_tools)
  after_discovery (some tools) = generate (prompt loaded tools) (after_response tools)

  unfoldable pub after_step_planning : Option Str → Script
  unfolding after_discovery
  after_step_planning (some e) = ends (fails_with (store_error e))
  after_step_planning none = list_tools after_discovery

  unfoldable pub after_task_planning : AgentStep → Option Str → Script
  unfolding after_step_planning
  after_task_planning step (some e) = ends (fails_with (store_error e))
  after_task_planning step none =
      writes
        (update_step loaded.task.id step.id version (
          (codes "status", step_state StepStatus.running)
          ∷ (codes "attempts", count (step.attempts + 1))
          ∷ (codes "started_at", moment s.started)
          ∷ []))
        after_step_planning

  unfoldable pub start_planning : Option AgentStep → Script
  unfolding after_task_planning
  start_planning none = ends (fails_with conflict)
  start_planning (some step) =
      writes
        (update_task loaded.task.id version (
          (codes "status", task_state TaskStatus.planning)
          ∷ (codes "current_step_id", characters step.id)
          ∷ []))
        (after_task_planning step)

module _ ⦃lib : Library⦄ ⦃secrets : Secrets⦄ ⦃s : Surroundings⦄ ⦃d : PlanDecoder⦄
    (prompt : LoadedTask → List ToolDefinition → Str) (version : Option ℕ) where
  unfoldable pub plan_version : LoadedTask → Option ℕ → Script
  unfolding start_planning find_plan
  plan_version loaded none = ends (fails_with conflict)
  plan_version loaded (some v) = start_planning prompt loaded v (find_plan loaded.loaded_steps)

  unfoldable pub plan_task : Option LoadedTask → Script
  unfolding plan_version task_terminal plan_already_saved run_version_from_context
  plan_task none = ends (fails_with (store_error []))
  plan_task (some loaded) =
      if task_terminal loaded.task.status
      then ends (fails_with task_stopped)
      else (if plan_already_saved loaded.loaded_steps
          then ends goes_on
          else plan_version loaded (run_version_from_context version))

  unfoldable pub plan_node : Str → Script
  unfolding plan_task
  plan_node task_id = get_task task_id plan_task

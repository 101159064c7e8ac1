-- ===== src/AgentService/Authorised.antt =====
-- service/agent/graph.go: the nodes, whatever is answered to their calls.
use haruka_ai.Base.{
  ◌≡◌, refl, Bool-cases, inl, inr, Bool, true, false, is_blank, Str, List, [], ◌∷◌, Option, none,
  some, ℕ, arith,
}
use haruka_ai.Agent.Model.{AgentTask, AgentStep, TaskStatus, ApprovalDecision, LoadedTask}
use haruka_ai.AgentService.Script.{model_error, no_answer}
use haruka_ai.AgentService.Redact.{Secrets}
use haruka_ai.AgentService.Nodes.{Surroundings, tool_node}
use haruka_ai.AgentService.Gates.{
  after_waiting, wait_for_approval, ask_version, ask_decision, ask_if_required, approval_step,
  approval_task, approval_node, after_final_task, after_final_step, final_answer, after_model,
  after_final_running, start_final, final_step, final_status, final_task, finalize_node,
}
use haruka_ai.AgentService.Justify.{Event, got_task, called, Always, Justified, Careful, Ruled}
use haruka_ai.AgentService.Aftermath.{fail_tool_step-Ruled}
use haruka_ai.AgentService.Authority.{tool_node-Ruled}
use haruka_ai.McpSchema.Json.{Library}

module _ ⦃lib : Library⦄ ⦃secrets : Secrets⦄ ⦃s : Surroundings⦄ where
  module _ (task : AgentTask) (step : AgentStep) where
    after_waiting-Ruled :
        (past : List Event) (a : Option Str) → Ruled past (after_waiting task step a)
    unfolding after_waiting
    after_waiting-Ruled past none = tt
    after_waiting-Ruled past (some e) = tt

    wait_for_approval-Ruled :
        (past : List Event) (version : ℕ) (a : Option Str)
        → called past ≡ false
        → Ruled past (wait_for_approval task step version a)
    unfolding wait_for_approval
    wait_for_approval-Ruled past version none silent =
        (λ c f. absurd (ground (arith, silent, c)), λ a. after_waiting-Ruled _ a)
    wait_for_approval-Ruled past version (some e) silent = tt

    ask_version-Ruled :
        (past : List Event) (b : Bool) (v : Option ℕ)
        → called past ≡ false
        → Ruled past (ask_version task step b v)
    unfolding ask_version
    ask_version-Ruled past b none silent = tt
    ask_version-Ruled past true (some v) silent = wait_for_approval-Ruled past v none silent
    ask_version-Ruled past false (some v) silent =
        (λ c f. absurd (ground (arith, silent, c)), λ a. wait_for_approval-Ruled _ v a silent)

    ask_decision-Ruled :
        (past : List Event) (version : Option ℕ) (d : ApprovalDecision)
        → called past ≡ false
        → Ruled past (ask_decision task step version d)
    unfolding ask_decision
    ask_decision-Ruled past version ApprovalDecision.approved silent = tt
    ask_decision-Ruled past version ApprovalDecision.rejected silent = tt
    ask_decision-Ruled past version ApprovalDecision.pending silent =
        ask_version-Ruled past _ _ silent
    ask_decision-Ruled past version ApprovalDecision.undecided silent =
        ask_version-Ruled past _ _ silent

    ask_if_required-Ruled :
        (past : List Event) (version : Option ℕ) (b : Bool)
        → called past ≡ false
        → Ruled past (ask_if_required task step version b)
    unfolding ask_if_required
    ask_if_required-Ruled past version false silent = tt
    ask_if_required-Ruled past version true silent = ask_decision-Ruled past version _ silent

  approval_step-Ruled :
      (past : List Event) (version : Option ℕ) (task : AgentTask) (o : Option AgentStep)
      → called past ≡ false
      → Ruled past (approval_step version task o)
  unfolding approval_step
  approval_step-Ruled past version task none silent = tt
  approval_step-Ruled past version task (some step) silent =
      ask_if_required-Ruled task step past version _ silent

  approval_task-Ruled :
      (version : Option ℕ) (a : Option LoadedTask)
      → Ruled (got_task a ∷ []) (approval_task version a)
  unfolding approval_task
  approval_task-Ruled version none = tt
  approval_task-Ruled version (some loaded) = approval_step-Ruled _ version loaded.task _ refl

  module _ (prompt : LoadedTask → Str) where
    module _ (task : AgentTask) (step : AgentStep) (version : ℕ) where
      after_final_task-Ruled :
          (past : List Event) (a : Option Str)
          → Ruled past (after_final_task prompt task step version a)
      unfolding after_final_task
      after_final_task-Ruled past none = tt
      after_final_task-Ruled past (some e) = tt

      after_final_step-Ruled :
          (past : List Event) (answer : Str) (a : Option Str)
          → called past ≡ false
          → Ruled past (after_final_step prompt task step version answer a)
      unfolding after_final_step
      after_final_step-Ruled past answer (some e) silent = tt
      after_final_step-Ruled past answer none silent =
          (λ c f. absurd (ground (arith, silent, c)), λ a. after_final_task-Ruled _ a)

      after_model-Ruled :
          (past : List Event) (a : Option Str)
          → called past ≡ false
          → Ruled past (after_model prompt task step version a)
      after_model-Ruled past none silent =
          unfold after_model in fail_tool_step-Ruled task step version past model_error silent
      after_model-Ruled past (some content) silent = elim (Bool-cases (is_blank content)) [
        | inl blank ↦
            unfold after_model in
            rw blank (fail_tool_step-Ruled task step version past no_answer silent)
        | inr said ↦
            unfold after_model final_answer in
            rw said
              (λ c f. absurd (ground (arith, silent, c)), λ a. after_final_step-Ruled _ _ a silent)
      ]

      after_final_running-Ruled :
          (past : List Event) (question : Str) (a : Option Str)
          → called past ≡ false
          → Ruled past (after_final_running prompt task step version question a)
      unfolding after_final_running
      after_final_running-Ruled past question (some e) silent = tt
      after_final_running-Ruled past question none silent = λ a. after_model-Ruled _ a silent

      start_final-Ruled :
          (past : List Event) (question : Str)
          → called past ≡ false
          → Ruled past (start_final prompt task step version question)
      unfolding start_final
      start_final-Ruled past question silent = (
        λ c f. absurd (ground (arith, silent, c)),
        λ a. after_final_running-Ruled _ question a silent,
      )

    final_step-Ruled :
        (past : List Event) (loaded : LoadedTask) (v : Option ℕ) (o : Option AgentStep)
        → called past ≡ false
        → Ruled past (final_step prompt loaded v o)
    unfolding final_step
    final_step-Ruled past loaded none o silent = tt
    final_step-Ruled past loaded (some v) none silent = tt
    final_step-Ruled past loaded (some v) (some step) silent =
        start_final-Ruled loaded.task step v past (prompt loaded) silent

    final_status-Ruled :
        (past : List Event) (t : TaskStatus) (loaded : LoadedTask) (version : Option ℕ)
        → called past ≡ false
        → Ruled past (final_status prompt t loaded version)
    unfolding final_status
    final_status-Ruled past TaskStatus.cancelled loaded version silent = tt
    final_status-Ruled past TaskStatus.rejected loaded version silent = tt
    final_status-Ruled past _ loaded version silent = final_step-Ruled past loaded _ _ silent

    final_task-Ruled :
        (version : Option ℕ) (a : Option LoadedTask)
        → Ruled (got_task a ∷ []) (final_task prompt version a)
    unfolding final_task
    final_task-Ruled version none = tt
    final_task-Ruled version (some loaded) =
        final_status-Ruled _ loaded.task.status loaded version refl

    -- The nodes for a tool, an approval and the final answer, whatever is answered to their calls, and
    -- whatever prompt the last of them makes. A tool is called only as follows: the task was read, and
    -- its current step is a tool's that is approved if it requires an approval; the step was marked as
    -- running; its stored arguments, which are those of the call, have the digest recorded with them;
    -- and the tool is offered, takes the arguments and has the policy of the step. No tool was called
    -- before, and a step that requires an approval is called with the token that was issued for a
    -- challenge of this user, tool and arguments. After the call no write marks the step as failed,
    -- unless it is read-only or idempotent and not destructive.
    pub nodes-Ruled :
        (version : Option ℕ) (task_id : Str)
        → Always Justified Careful [] (tool_node version task_id)
          × Always Justified Careful [] (approval_node version task_id)
          × Always Justified Careful [] (finalize_node prompt version task_id)
    unfolding approval_node finalize_node
    nodes-Ruled version task_id = (
      tool_node-Ruled version task_id,
      λ a. approval_task-Ruled version a,
      λ a. final_task-Ruled version a,
    )

-- ===== src/AgentService/Aftermath.antt =====
-- service/agent/graph.go: the ends of the tool node, after a call of the tool and without one.
use haruka_ai.Base.{ℕ, ◌≡◌, inl, inr, false, Bool-cases, Str, List, Option, none, some, arith}
use haruka_ai.Agent.Model.{AgentTask, AgentStep}
use haruka_ai.AgentService.Route.{tool_replay_safe}
use haruka_ai.AgentService.Script.{
  Reply, call_error, no_invocation, no_result, error_result, replied, NodeError,
}
use haruka_ai.AgentService.Redact.{Secrets}
use haruka_ai.AgentService.Nodes.{
  Surroundings, fail_tool_step, fail_invoked_tool, require_policy_review, after_review_mark,
  after_task_written, after_step_written, after_reply, succeeded_step,
}
use haruka_ai.McpHub.Model.{ToolDefinition}
use haruka_ai.McpSchema.Json.{Library}
use haruka_ai.AgentService.Justify.{Event, called, working, Ruled}

module _ ⦃lib : Library⦄ ⦃secrets : Secrets⦄ ⦃s : Surroundings⦄ where
  module _ (task : AgentTask) (step : AgentStep) (version : ℕ) where
    -- A failure before a call.
    pub fail_tool_step-Ruled :
        (past : List Event) (cause : NodeError)
        → called past ≡ false
        → Ruled past (fail_tool_step task step version cause)
    unfolding fail_tool_step
    fail_tool_step-Ruled past cause quiet = (
      λ c f. absurd (ground (arith, quiet, c)),
      λ a. (λ c f. absurd (ground (arith, quiet, c)), λ a'. tt),
    )

    pub after_review_mark-Ruled :
        (past : List Event) (a : Option Str) → Ruled past (after_review_mark task step version a)
    unfolding after_review_mark
    after_review_mark-Ruled past none = tt
    after_review_mark-Ruled past (some e) = tt

    pub fail_invoked_tool-Ruled :
        (past : List Event) (cause : NodeError)
        → working past ≡ some (task, step)
        → Ruled past (fail_invoked_tool task step version cause)
    fail_invoked_tool-Ruled past cause w = elim (Bool-cases (tool_replay_safe step)) [
      | inl safe ↦
          unfold fail_invoked_tool fail_tool_step in
          rw safe (λ c f. (task, step, w, safe), λ a. (λ c f. absurd (ground (arith, f)), λ a'. tt))
      | inr unsafe ↦
          unfold fail_invoked_tool in
          rw unsafe (λ c f. absurd (ground (arith, f)), λ a. after_review_mark-Ruled _ a)
    ]

    pub require_policy_review-Ruled :
        (past : List Event) (definition : ToolDefinition)
        → Ruled past (require_policy_review task step version definition)
    require_policy_review-Ruled past definition =
        unfold require_policy_review in
        (λ c f. absurd (ground (arith, f)), λ a. after_review_mark-Ruled _ a)

    pub after_task_written-Ruled :
        (past : List Event) (a : Option Str) → Ruled past (after_task_written task step version a)
    unfolding after_task_written
    after_task_written-Ruled past none = tt
    after_task_written-Ruled past (some e) = tt

    pub after_step_written-Ruled :
        (past : List Event) (a : Option Str)
        → working past ≡ some (task, step)
        → Ruled past (after_step_written task step version a)
    unfolding after_step_written
    after_step_written-Ruled past (some e) w = fail_invoked_tool-Ruled past _ w
    after_step_written-Ruled past none w =
        (λ c f. absurd (ground (arith, f)), λ a. after_task_written-Ruled _ a)

    pub after_reply-Ruled :
        (past : List Event) (r : Reply)
        → working past ≡ some (task, step)
        → Ruled past (after_reply task step version r)
    unfolding after_reply succeeded_step
    after_reply-Ruled past (replied (some raw) request_id) w =
        (λ c f. absurd (ground (arith, f)), λ a. after_step_written-Ruled _ a w)
    after_reply-Ruled past (replied none request_id) w = fail_invoked_tool-Ruled past _ w
    after_reply-Ruled past (call_error e) w = fail_invoked_tool-Ruled past _ w
    after_reply-Ruled past no_invocation w = fail_invoked_tool-Ruled past _ w
    after_reply-Ruled past no_result w = fail_invoked_tool-Ruled past _ w
    after_reply-Ruled past error_result w = fail_invoked_tool-Ruled past _ w

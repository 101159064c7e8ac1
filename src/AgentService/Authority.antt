-- ===== src/AgentService/Authority.antt =====
-- service/agent/graph.go: a tool is called with authority only.
use haruka_ai.Base.{
  ℕ, ◌≡◌, refl, ap, inl, inr, if◌then◌else◌, Bool, true, false, not, ◌&&◌, Bool-cases, Str,
  trim_space, is_empty, List, [], ◌∷◌, Option, none, some, arith,
}
use haruka_ai.Agent.Model.{AgentTask, AgentStep, LoadedTask}
use haruka_ai.AgentService.Route.{is_approved, tool_policy_changed}
use haruka_ai.AgentService.Script
use haruka_ai.AgentService.Script.{
  Cell, step_state, Write, update_step, update_task, mark_execution_unknown, mark_policy_review,
  InvokeRequest, Reply, call_error, no_invocation, no_result, error_result, replied, NodeError,
  Outcome, Script, ends, get_task, writes, list_tools, create_approval, approve, invoke, generate,
}
use haruka_ai.AgentService.Redact.{Secrets}
use haruka_ai.AgentService.Nodes.{
  Surroundings, run_version_from_context, current_tool_step, definition_by_name, after_token,
  after_challenge, authorised, authorised_by, after_definition, after_tools, after_canonical,
  after_decoding, after_running, running_step, start_tool, tool_version, tool_step, tool_task,
  tool_node,
}
use haruka_ai.McpHub.Model.{ToolDefinition}
use haruka_ai.McpSchema.Json.{Json, Fields, object_or_empty, Library}
use haruka_ai.McpSchema.Tool.{as_map, validate_arguments}
use haruka_ai.AgentService.Justify.{
  Event, got_task, wrote, listed_tools, created_approval, approved, working, with_task, Intact,
  Checked, begun, Justified, Careful, Ruled,
}
use haruka_ai.AgentService.Justify.{Always}
use haruka_ai.AgentService.Aftermath.{
  fail_tool_step-Ruled, require_policy_review-Ruled, after_reply-Ruled,
}

module _ ⦃lib : Library⦄ ⦃secrets : Secrets⦄ ⦃s : Surroundings⦄ where
  module _ (loaded : LoadedTask) (step : AgentStep) (version : ℕ) (operation_id : Str)
      (current : current_tool_step loaded ≡ some step) where
    abbrev task : AgentTask
    task = loaded.task

    abbrev listed : List ToolDefinition → List Event
    listed offered = begun loaded step version operation_id offered

    begun-working : (offered : List ToolDefinition) → working (listed offered) ≡ some (task, step)
    begun-working offered = ap (with_task loaded.task) current

    module _ (offered : List ToolDefinition) (arguments : Fields)
        (checked : Checked step offered arguments) where
      challenged : Option Str → List Event
      challenged challenge =
          created_approval task.user_name step.tool_name arguments challenge ∷ listed offered

      after_token-Ruled :
          (challenge : Str) (a : Option Str)
          → step.requires_approval ≡ true
          → Ruled
              (approved task.user_name challenge a ∷ challenged (some challenge))
              (after_token task step version operation_id arguments a)
      unfolding after_token challenged
      after_token-Ruled challenge none needs =
          fail_tool_step-Ruled task step version
            (approved task.user_name challenge none ∷ challenged (some challenge))
            Script.no_approval refl
      after_token-Ruled challenge (some token) needs = (
        record {
          loaded = loaded;
          step = step;
          version = version;
          operation_id = operation_id;
          offered = offered;
          arguments = arguments;
          current = current;
          checked = checked;
          authority = inr (needs, challenge, token, refl, refl);
        },
        λ r. after_reply-Ruled task step version _ r (begun-working offered),
      )

      after_challenge-Ruled :
          (a : Option Str)
          → step.requires_approval ≡ true
          → Ruled (challenged a) (after_challenge task step version operation_id arguments a)
      unfolding after_challenge challenged
      after_challenge-Ruled none needs =
          fail_tool_step-Ruled task step version (challenged none) Script.no_challenge refl
      after_challenge-Ruled (some challenge) needs = λ a. after_token-Ruled challenge a needs

      authorised_by-Ruled :
          (b : Bool)
          → step.requires_approval ≡ b
          → Ruled (listed offered) (authorised_by task step version operation_id arguments b)
      unfolding authorised_by challenged
      authorised_by-Ruled true needs = λ a. after_challenge-Ruled a needs
      authorised_by-Ruled false free = (
        record {
          loaded = loaded;
          step = step;
          version = version;
          operation_id = operation_id;
          offered = offered;
          arguments = arguments;
          current = current;
          checked = checked;
          authority = inl (free, refl, refl);
        },
        λ r. after_reply-Ruled task step version _ r (begun-working offered),
      )

    module _ (consent : step.requires_approval ≡ true → is_approved step.approval_decision ≡ true)
        (arguments : Fields) (intact : Intact step arguments) where
      after_definition-Ruled :
          (offered : List ToolDefinition) (o : Option ToolDefinition)
          → definition_by_name offered step.tool_name ≡ o
          → Ruled (listed offered) (after_definition task step version operation_id arguments o)
      after_definition-Ruled offered none found =
          unfold after_definition in
          fail_tool_step-Ruled task step version (listed offered) Script.tool_gone refl
      after_definition-Ruled offered (some definition) found =
          elim (Bool-cases (validate_arguments definition.input_schema arguments)) [
            | inr invalid ↦
                unfold after_definition in
                rw invalid (
                  fail_tool_step-Ruled task step version (listed offered) Script.invalid_arguments
                    refl)
            | inl valid ↦ elim (Bool-cases (tool_policy_changed step definition)) [
              | inl changed ↦
                  unfold after_definition in
                  rw valid (
                    rw changed
                      (require_policy_review-Ruled task step version (listed offered) definition))
              | inr same ↦
                  unfold after_definition authorised in
                  rw valid (
                    rw same (
                      authorised_by-Ruled offered arguments
                        (record {
                          consent = consent;
                          intact = intact;
                          fits = (definition, found, valid, same);
                        })
                        step.requires_approval refl))
            ]
          ]

      after_tools-Ruled :
          (a : Option (List ToolDefinition))
          → Ruled
              (listed_tools a
                ∷ wrote
                    (update_step task.id step.id version
                      (running_step task step version operation_id))
                    none
                ∷ got_task (some loaded)
                ∷ [])
              (after_tools task step version operation_id arguments a)
      unfolding after_tools
      after_tools-Ruled none =
          fail_tool_step-Ruled task step version
            (listed_tools none
              ∷ wrote
                  (update_step task.id step.id version
                    (running_step task step version operation_id))
                  none
              ∷ got_task (some loaded)
              ∷ [])
            Script.no_tools refl
      after_tools-Ruled (some offered) =
          after_definition-Ruled offered (definition_by_name offered step.tool_name) refl

    -- The step is marked as running, and its stored arguments are taken.
    module _
        (consent : step.requires_approval ≡ true → is_approved step.approval_decision ≡ true) where
      marked : Option Str → List Event
      marked a =
          wrote (update_step task.id step.id version (running_step task step version operation_id))
            a
          ∷ got_task (some loaded)
          ∷ []

      after_canonical-Ruled :
          (root : Json) (rest : Str) (c : Option Str)
          → as_map (lib.decode step.tool_arguments_json) ≡ some (root, rest)
          → lib.marshal root ≡ c
          → Ruled
              (marked none)
              (after_canonical task step version operation_id (object_or_empty (some root)) c)
      unfolding marked
      after_canonical-Ruled root rest none d m =
          unfold after_canonical in
          fail_tool_step-Ruled task step version (marked none) Script.unencodable refl
      after_canonical-Ruled root rest (some canonical) d m =
          elim (Bool-cases
            (s.equal_fold (s.sha256_hex canonical) (trim_space step.arguments_digest))) [
              | inl same ↦
                  unfold after_canonical in
                  rw same (
                    after_tools-Ruled consent (object_or_empty (some root))
                      (root, rest, canonical, d, m, same, refl))
              | inr other ↦
                  unfold after_canonical in
                  rw other (
                    fail_tool_step-Ruled task step version (marked none) Script.digest_mismatch
                      refl)
            ]

      after_decoding-Ruled :
          (d : Option (Json × Str))
          → as_map (lib.decode step.tool_arguments_json) ≡ d
          → Ruled (marked none) (after_decoding task step version operation_id d)
      unfolding after_decoding marked
      after_decoding-Ruled none e =
          fail_tool_step-Ruled task step version (marked none) Script.undecodable refl
      after_decoding-Ruled (some (root, rest)) e =
          after_canonical-Ruled root rest (lib.marshal root) e refl

      after_running-Ruled :
          (a : Option Str) → Ruled (marked a) (after_running task step version operation_id a)
      unfolding after_running
      after_running-Ruled (some e) = tt
      after_running-Ruled none =
          after_decoding-Ruled (as_map (lib.decode step.tool_arguments_json)) refl

  start_tool-Ruled :
      (loaded : LoadedTask) (step : AgentStep) (version : ℕ)
      → current_tool_step loaded ≡ some step
      → (step.requires_approval ≡ true → is_approved step.approval_decision ≡ true)
      → Ruled (got_task (some loaded) ∷ []) (start_tool loaded.task step version)
  start_tool-Ruled loaded step version current consent =
      let operation_id = if is_empty step.operation_id then s.new_id else step.operation_id in
      unfold start_tool marked in
      (
        λ c f. absurd (ground (arith, c)),
        after_running-Ruled loaded step version operation_id current consent,
      )

  tool_version-Ruled :
      (v : Option ℕ) (version : Option ℕ) (loaded : LoadedTask) (step : AgentStep)
      → current_tool_step loaded ≡ some step
      → (step.requires_approval ≡ true → is_approved step.approval_decision ≡ true)
      → Ruled (got_task (some loaded) ∷ []) (tool_version version loaded.task step v)
  unfolding tool_version
  tool_version-Ruled none version loaded step current consent = tt
  tool_version-Ruled (some v) version loaded step current consent =
      start_tool-Ruled loaded step v current consent

  tool_step-Ruled :
      (version : Option ℕ) (loaded : LoadedTask) (o : Option AgentStep)
      → current_tool_step loaded ≡ o
      → Ruled (got_task (some loaded) ∷ []) (tool_step version loaded.task o)
  tool_step-Ruled version loaded none current = unfold tool_step in tt
  tool_step-Ruled version loaded (some step) current =
      elim (Bool-cases (step.requires_approval && not (is_approved step.approval_decision))) [
        | inl refused ↦ unfold tool_step in rw refused tt
        | inr allowed ↦
            unfold tool_step in
            rw allowed (
              tool_version-Ruled (run_version_from_context version) version loaded step current
                (λ needs. ground (arith, allowed, needs)))
      ]

  pub tool_node-Ruled :
      (version : Option ℕ) (task_id : Str) → Always Justified Careful [] (tool_node version task_id)
  unfolding tool_node
  tool_node-Ruled version task_id = λ a. read a
    where
      read : (a : Option LoadedTask) → Ruled (got_task a ∷ []) (tool_task version a)
      read none = unfold tool_task in tt
      read (some loaded) =
          unfold tool_task in tool_step-Ruled version loaded (current_tool_step loaded) refl

-- ===== src/Agent/Columns.antt =====
-- dao/agent/agent.go: what a caller's map of updates cannot reach once it is sanitized.
use haruka_ai.Base.{ℕ, ◌≡◌, refl, ap, ◌∙◌, true, inl, inr, List, [], ◌∷◌, Str, arith, Bool-cases}
use haruka_ai.Agent.Model.{AgentTask, AgentStep}
use haruka_ai.Agent.Platform.{Platform, Lawful, column_key, Reaches, is_plain}
use haruka_ai.Agent.Plan.{
  Updates, in_columns, keeps_column, sanitized_updates, immutable_task_columns, assign_task_columns,
  update_task_set,
}

-- A column on the list is reached by no key that is kept.
kept-ne :
    (lower : ℕ → ℕ) (immutable : List Str) (key column : Str)
    → keeps_column lower immutable key ≡ true
    → in_columns column immutable ≡ true
    → ¬ (column_key lower key ≡ column)
unfolding keeps_column
kept-ne lower immutable key column kept listed e =
    let found : in_columns (column_key lower key) immutable ≡ true =
      ap (λ c. in_columns c immutable) e ∙ listed in
    ground arith

kept-not-Reaches :
    (lower : ℕ → ℕ) (immutable : List Str) (key column field : Str)
    → keeps_column lower immutable key ≡ true
    → in_columns column immutable ≡ true
    → in_columns field immutable ≡ true
    → ¬ Reaches lower key column field
kept-not-Reaches lower immutable key column field kept c f (inl e) =
    kept-ne lower immutable key column kept c e
kept-not-Reaches lower immutable key column field kept c f (inr e) =
    kept-ne lower immutable key field kept f e

-- No key of a map of updates has a dot or a backtick.
abbrev pub PlainKeys : {V : Type 0} → Updates V → Type 0
PlainKeys [] = Unit
PlainKeys ((key, value) ∷ rest) = (is_plain key ≡ true) × PlainKeys rest

pub record TaskKept (t u : AgentTask) : Type 0 where
  pub id : u.id ≡ t.id
  pub user_name : u.user_name ≡ t.user_name
  pub run_version : u.run_version ≡ t.run_version

pub record StepKept (s u : AgentStep) : Type 0 where
  pub arguments_digest : u.arguments_digest ≡ s.arguments_digest
  pub tool_arguments_json : u.tool_arguments_json ≡ s.tool_arguments_json
  pub approval_decision : u.approval_decision ≡ s.approval_decision
  pub destructive : u.destructive ≡ s.destructive

module _ ⦃p : Platform⦄ (lawful : Lawful p) where
  assigned_task :
      (key : Str) (v : p.Value) (t : AgentTask)
      → is_plain key ≡ true
      → keeps_column p.lower_table immutable_task_columns key ≡ true
      → TaskKept t (p.assign_task key v t)
  unfolding in_columns
  assigned_task key v t plain kept = record {
    id = lawful.assign_task_id key v t plain (kept-ne _ immutable_task_columns key _ kept refl);
    user_name =
        lawful.assign_task_user_name key v t plain
          (kept-not-Reaches _ immutable_task_columns key _ _ kept refl refl);
    run_version =
        lawful.assign_task_run_version key v t plain
          (kept-not-Reaches _ immutable_task_columns key _ _ kept refl refl);
  }

  assigned_task_columns :
      (source : Updates p.Value) (t : AgentTask)
      → PlainKeys source
      → TaskKept t
          (assign_task_columns (sanitized_updates p.lower_table source immutable_task_columns) t)
  unfolding sanitized_updates assign_task_columns
  assigned_task_columns [] t plain = record { id = refl; user_name = refl; run_version = refl }
  assigned_task_columns ((key, v) ∷ rest) t (plain, plains) =
      elim (Bool-cases (keeps_column p.lower_table immutable_task_columns key)) [
        | inl kept ↦
            let one = assigned_task key v t plain kept in
            let others = assigned_task_columns rest (p.assign_task key v t) plains in
            rw kept (record {
              id = others.id ∙ one.id;
              user_name = others.user_name ∙ one.user_name;
              run_version = others.run_version ∙ one.run_version;
            })
        | inr dropped ↦ rw dropped (assigned_task_columns rest t plains)
      ]

  -- If no key of a map of updates has a dot or a backtick, the row that the sanitized map writes keeps
  -- the identity, the owner and the run version.
  pub update_task_set-TaskKept :
      (now : ℕ) (source : Updates p.Value) (t : AgentTask)
      → PlainKeys source
      → TaskKept t
          (update_task_set now (sanitized_updates p.lower_table source immutable_task_columns) t)
  unfolding update_task_set
  update_task_set-TaskKept now source t plain =
      let k = assigned_task_columns source t plain in
      record { id = k.id; user_name = k.user_name; run_version = k.run_version }

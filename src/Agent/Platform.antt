-- ===== src/Agent/Platform.antt =====
-- What dao/agent/agent.go takes from elsewhere: GORM over MySQL, google/uuid and Unicode's case
-- table. A statement is a test on rows (WHERE) with a new value of a row (SET), and may fail with
-- an error of the driver. The laws are those of the statements' documentation.
use haruka_ai.Base.{
  ℕ, zero, suc, ◌==◌, ◌&&◌, ◌≤◌, ◌≡◌, ◌⊎◌, Bool, true, not, List, [], ◌∷◌, ◌++◌, Memᴰ, Str, codes,
  trim_space, to_lower, Result, ok, Exec, count_if, select, map_where, All,
}
use haruka_ai.Agent.Model.{AgentTask, AgentStep}

-- created_at DESC, created_at ASC and updated_at ASC, each with the id behind it.
pub data TaskOrder : Type 0 where
  newest_first oldest_first least_recently_updated : TaskOrder

pub record Platform : Type 1 where
  pub Db : Type 0
  pub Value : Type 0
  pub tasks : Db → List AgentTask
  pub steps : Db → List AgentStep
  pub lower_table : ℕ → ℕ
  pub uuid : ℕ → Str
  -- `=` on text columns, which goes by the collation.
  pub same : Str → Str → Bool
  pub first_task : (AgentTask → Bool) → Db → Result AgentTask
  -- SKIP LOCKED: a row that another transaction holds is passed over.
  pub first_unlocked_task : (AgentTask → Bool) → Db → Result AgentTask
  -- With an offset and a limit.
  pub find_tasks : (AgentTask → Bool) → TaskOrder → ℕ → ℕ → Db → Result (List AgentTask)
  pub count_tasks : (AgentTask → Bool) → Db → Result ℕ
  pub update_tasks : (AgentTask → Bool) → (AgentTask → AgentTask) → Exec Db ℕ
  pub create_task : AgentTask → Exec Db (Unit {0})
  pub first_step : (AgentStep → Bool) → Db → Result AgentStep
  -- In the order of `sequence`, then of `created_at` and `id`.
  pub find_steps : (AgentStep → Bool) → Db → Result (List AgentStep)
  pub max_sequence : (AgentStep → Bool) → Db → Result ℕ
  pub update_steps : (AgentStep → Bool) → (AgentStep → AgentStep) → Exec Db ℕ
  pub create_steps : List AgentStep → Exec Db (Unit {0})
  pub delete_steps : (AgentStep → Bool) → Exec Db ℕ
  -- One entry of a map of updates: a column or field name, and its value.
  pub assign_task : Str → Value → AgentTask → AgentTask
  pub assign_step : Str → Value → AgentStep → AgentStep

-- The name that a key of a map of updates comes to, cases and surrounding spaces aside.
unfoldable pub column_key : (ℕ → ℕ) → Str → Str
unfolding to_lower trim_space
column_key lower key = to_lower lower (trim_space key)

-- GORM quotes a key that is no field's name, splits it at each dot and keeps backticks that it has:
-- such a key may name the table before the column.
abbrev pub is_plain : Str → Bool
is_plain [] = true
is_plain (c ∷ key) = not (c == 46) && not (c == 96) && is_plain key

-- A map of updates reaches a column by its name or by its field's, in any case, if its key is plain.
abbrev pub Reaches : (ℕ → ℕ) → Str → Str → Str → Type 0
Reaches lower key column field = (column_key lower key ≡ column) ⊎ (column_key lower key ≡ field)

abbrev pub time_or : ℕ → ℕ → ℕ
time_or now zero = now
time_or now (suc t) = suc t

-- A new row has the time of its creation where its timestamps are zero.
abbrev pub filled_task : ℕ → AgentTask → AgentTask
filled_task now t = record t {
  created_at = time_or now t.created_at;
  updated_at = time_or now t.updated_at;
}

abbrev pub filled_steps : ℕ → List AgentStep → List AgentStep
filled_steps now [] = []
filled_steps now (s ∷ l) =
    record s { created_at = time_or now s.created_at; updated_at = time_or now s.updated_at }
    ∷ filled_steps now l

-- What the development relies on.
pub record Lawful (p : Platform) : Type 0 where
  pub same_refl : (s : Str) → p.same s s ≡ true
  pub same_sym : (s t : Str) → p.same s t ≡ true → p.same t s ≡ true
  pub same_trans : (s t u : Str) → p.same s t ≡ true → p.same t u ≡ true → p.same s u ≡ true
  pub first_task_found :
      (w : AgentTask → Bool) (d : p.Db) (t : AgentTask)
      → p.first_task w d ≡ ok t
      → (w t ≡ true) × Memᴰ t (p.tasks d)
  pub first_unlocked_task_found :
      (w : AgentTask → Bool) (d : p.Db) (t : AgentTask)
      → p.first_unlocked_task w d ≡ ok t
      → (w t ≡ true) × Memᴰ t (p.tasks d)
  pub first_step_found :
      (w : AgentStep → Bool) (d : p.Db) (s : AgentStep)
      → p.first_step w d ≡ ok s
      → (w s ≡ true) × Memᴰ s (p.steps d)
  pub find_steps_sound :
      (w : AgentStep → Bool) (d : p.Db) (l : List AgentStep)
      → p.find_steps w d ≡ ok l
      → All (λ s. (w s ≡ true) × Memᴰ s (p.steps d)) l
  pub find_steps_complete :
      (w : AgentStep → Bool) (d : p.Db) (l : List AgentStep) (s : AgentStep)
      → p.find_steps w d ≡ ok l
      → Memᴰ s (p.steps d)
      → w s ≡ true
      → Memᴰ s l
  pub max_sequence_bound :
      (w : AgentStep → Bool) (d : p.Db) (n : ℕ) (s : AgentStep)
      → p.max_sequence w d ≡ ok n
      → Memᴰ s (p.steps d)
      → w s ≡ true
      → s.sequence ≤ n
  -- The rows that match are rewritten; the count of affected rows is at most theirs, and 0 only if
  -- nothing changed.
  pub update_tasks_rows :
      (w : AgentTask → Bool) (f : AgentTask → AgentTask) (d d' : p.Db) (n : ℕ)
      → p.update_tasks w f d ≡ ok (d', n)
      → (p.tasks d' ≡ map_where w f (p.tasks d))
        × (p.steps d' ≡ p.steps d)
        × (n ≤ count_if w (p.tasks d))
        × (n ≡ ℕ.zero → p.tasks d' ≡ p.tasks d)
  pub update_steps_rows :
      (w : AgentStep → Bool) (f : AgentStep → AgentStep) (d d' : p.Db) (n : ℕ)
      → p.update_steps w f d ≡ ok (d', n)
      → (p.steps d' ≡ map_where w f (p.steps d))
        × (p.tasks d' ≡ p.tasks d)
        × (n ≤ count_if w (p.steps d))
        × (n ≡ ℕ.zero → p.steps d' ≡ p.steps d)
  -- The primary key of the new row was free.
  pub create_task_rows :
      (t : AgentTask) (d d' : p.Db) (u : Unit {0})
      → p.create_task t d ≡ ok (d', u)
      → (now : ℕ) × (p.tasks d' ≡ p.tasks d ++ filled_task now t ∷ [])
        × (p.steps d' ≡ p.steps d)
        × (count_if (λ r. p.same r.id t.id) (p.tasks d) ≡ ℕ.zero)
  pub create_steps_rows :
      (l : List AgentStep) (d d' : p.Db) (u : Unit {0})
      → p.create_steps l d ≡ ok (d', u)
      → (now : ℕ) × (p.steps d' ≡ p.steps d ++ filled_steps now l) × (p.tasks d' ≡ p.tasks d)
  pub delete_steps_rows :
      (w : AgentStep → Bool) (d d' : p.Db) (n : ℕ)
      → p.delete_steps w d ≡ ok (d', n)
      → (p.steps d' ≡ select (λ s. not (w s)) (p.steps d)) × (p.tasks d' ≡ p.tasks d)
  -- An update of one column, by a plain key, leaves the others.
  pub assign_task_id :
      (key : Str) (v : p.Value) (t : AgentTask)
      → is_plain key ≡ true
      → ¬ (column_key p.lower_table key ≡ codes "id")
      → (p.assign_task key v t).id ≡ t.id
  pub assign_task_user_name :
      (key : Str) (v : p.Value) (t : AgentTask)
      → is_plain key ≡ true
      → ¬ Reaches p.lower_table key (codes "user_name") (codes "username")
      → (p.assign_task key v t).user_name ≡ t.user_name
  pub assign_task_run_version :
      (key : Str) (v : p.Value) (t : AgentTask)
      → is_plain key ≡ true
      → ¬ Reaches p.lower_table key (codes "run_version") (codes "runversion")
      → (p.assign_task key v t).run_version ≡ t.run_version
  pub assign_step_arguments_digest :
      (key : Str) (v : p.Value) (s : AgentStep)
      → is_plain key ≡ true
      → ¬ Reaches p.lower_table key (codes "arguments_digest") (codes "argumentsdigest")
      → (p.assign_step key v s).arguments_digest ≡ s.arguments_digest
  pub assign_step_tool_arguments_json :
      (key : Str) (v : p.Value) (s : AgentStep)
      → is_plain key ≡ true
      → ¬ Reaches p.lower_table key (codes "tool_arguments_json") (codes "toolargumentsjson")
      → (p.assign_step key v s).tool_arguments_json ≡ s.tool_arguments_json
  pub assign_step_approval_decision :
      (key : Str) (v : p.Value) (s : AgentStep)
      → is_plain key ≡ true
      → ¬ Reaches p.lower_table key (codes "approval_decision") (codes "approvaldecision")
      → (p.assign_step key v s).approval_decision ≡ s.approval_decision
  pub assign_step_destructive :
      (key : Str) (v : p.Value) (s : AgentStep)
      → is_plain key ≡ true
      → ¬ (column_key p.lower_table key ≡ codes "destructive")
      → (p.assign_step key v s).destructive ≡ s.destructive

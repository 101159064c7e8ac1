-- ===== src/Agent/RowTests.antt =====
-- Runs of the agent store in memory: recovery, checkpoints, updates and plans, with the theorems at
-- concrete tables.
use haruka_ai.Base.{◌≡◌, refl, [], ◌∷◌, some, codes, ok, arith}
use haruka_ai.Agent.Model.{StepStatus}
use haruka_ai.Agent.Memory.{Tables, memory, memory-Lawful}
use haruka_ai.Base.{str_eq, sym, ◌∙◌, Memᴰ, true, List, ℕ, ◌↔◌}
use haruka_ai.Agent.Model.{AgentTask, AgentStep}
use haruka_ai.Agent.Recover.{recover_locked_task}
use haruka_ai.Agent.Replay.{UniqueSteps, Replay, recover_locked_task-Replay}
use haruka_ai.Agent.Checkpoint.{
  get_checkpoint, set_checkpoint, encode_checkpoint_envelope, decode_checkpoint_envelope,
}
use haruka_ai.Agent.Envelope.{
  decode_checkpoint_envelope_iff, get_checkpoint-set_checkpoint, payload,
}
use haruka_ai.Agent.Plan.{sanitized_updates, update_task_set, immutable_task_columns}
use haruka_ai.Agent.Columns.{TaskKept, update_task_set-TaskKept}
use haruka_ai.Agent.Plan.{create_steps_fenced}
use haruka_ai.Agent.Recover.{recover_stale_tasks}
use haruka_ai.Agent.Planning.{Appended, create_steps_fenced-Appended}
use haruka_ai.Agent.Leased.{recover_stale_tasks-leased}
use haruka_ai.Agent.Fixture.{
  left_by, agent_code, store, context, task_id, running_task, running_step, running,
}

running-UniqueSteps : UniqueSteps running.step_rows
running-UniqueSteps a b (Memᴰ.head e) (Memᴰ.head e') h = e ∙ sym e'
running-UniqueSteps a b (Memᴰ.tail m) m' h = elim m [ ]
running-UniqueSteps a b (Memᴰ.head e) (Memᴰ.tail m') h = elim m' [ ]

abbrev recovered : Tables
recovered = left_by (recover_locked_task running_task 3000 running)

recovers : recover_locked_task running_task 3000 running ≡ ok (recovered, tt)
unfolding agent_code
recovers = refl

recover_locked_task-Replay_example : Replay running_task 3000 running recovered
recover_locked_task-Replay_example =
    recover_locked_task-Replay memory-Lawful running_task 3000 running recovered running-UniqueSteps
      recovers

abbrev seven : List ℕ
seven = 7 ∷ []

decode_checkpoint_envelope_iff_example :
    (decode_checkpoint_envelope (encode_checkpoint_envelope seven) ≡ some seven)
    ↔ ((encode_checkpoint_envelope seven ≡ encode_checkpoint_envelope seven) × ¬ (seven ≡ []))
decode_checkpoint_envelope_iff_example =
    decode_checkpoint_envelope_iff (encode_checkpoint_envelope seven) seven

abbrev saved : Tables
saved = left_by (set_checkpoint store context task_id seven running)

saves : set_checkpoint store context task_id seven running ≡ ok (saved, tt)
unfolding agent_code
saves = refl

reads_back : get_checkpoint store task_id saved ≡ ok (saved, some seven)
unfolding agent_code
reads_back = refl

get_checkpoint-set_checkpoint_example : some seven ≡ payload seven
unfolding agent_code
get_checkpoint-set_checkpoint_example =
    get_checkpoint-set_checkpoint memory-Lawful store store context task_id seven running saved
      saved (some seven) (omega arith) saves reads_back

-- A map that names the fencing token, in another case, beside a column that it may set.
update_task_set-TaskKept_example : TaskKept running_task (
    update_task_set 1000
      (sanitized_updates
        (λ c. c)
        ((codes " run_version", codes "9") ∷ (codes "final_answer", codes "done") ∷ [])
        immutable_task_columns)
      running_task)
update_task_set-TaskKept_example =
    update_task_set-TaskKept memory-Lawful 1000
      ((codes " run_version", codes "9") ∷ (codes "final_answer", codes "done") ∷ []) running_task
      (refl, (refl, tt))

-- The worker adds a step that claims to be approved.
abbrev forged : AgentStep
forged = record running_step { id = codes "s9"; status = StepStatus.approved }

abbrev extended : Tables
extended = left_by (create_steps_fenced store task_id 1 (forged ∷ []) running)

adds_step : create_steps_fenced store task_id 1 (forged ∷ []) running ≡ ok (extended, tt)
unfolding agent_code
adds_step = refl

create_steps_fenced-Appended_example :
    Appended task_id 1 (forged ∷ []) running.step_rows running extended
    × (extended.task_rows ≡ running.task_rows)
create_steps_fenced-Appended_example =
    create_steps_fenced-Appended memory-Lawful store task_id 1 (forged ∷ []) running extended
      adds_step

running_alone :
    (x : AgentTask)
    → Memᴰ x running.task_rows
    → str_eq x.id running_task.id ≡ true
    → x ≡ running_task
running_alone x (Memᴰ.head e) h = e
running_alone x (Memᴰ.tail m) h = elim m [ ]

-- The lease runs until 2000, and it is 1000.
recover_stale_tasks-leased_example :
    Memᴰ running_task (recover_stale_tasks store context 500 running).0.task_rows
    × Memᴰ running_step (recover_stale_tasks store context 500 running).0.step_rows
unfolding str_eq
recover_stale_tasks-leased_example =
    recover_stale_tasks-leased memory-Lawful running_task running_step refl store context 500 2000
      running refl (omega arith) running_alone (Memᴰ.head refl) (Memᴰ.head refl)

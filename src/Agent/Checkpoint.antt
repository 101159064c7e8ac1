-- ===== src/Agent/Checkpoint.antt =====
-- dao/agent/agent.go: the envelope of a checkpoint, and the checkpoint store of the graph.
use haruka_ai.Base.{
  ℕ, ◌+◌, ◌==◌, ltb, if◌then◌else◌, Bool, true, not, ◌&&◌, List, [], ◌∷◌, ◌++◌, Option, none, some,
  Str, codes, is_blank, is_empty, str_eq, strip_prefix, Exec, pure, ◌>>=◌, ◌>>◌, require, read,
  invalid_input, conflict, record_not_found,
}
use haruka_ai.Agent.Model.{AgentTask}
use haruka_ai.Agent.Platform.{Platform}
use haruka_ai.Agent.Fence.{GormStore, Context, database, fencing_token_from_context}

-- Bytes. The prefix is ASCII, so its bytes are its code points.
abbrev pub checkpoint_envelope_prefix : List ℕ
checkpoint_envelope_prefix = codes "gopherai_task_agent_v1" ++ 10 ∷ []

unfoldable pub encode_checkpoint_envelope : List ℕ → List ℕ
encode_checkpoint_envelope [] = []
encode_checkpoint_envelope (b ∷ bs) = checkpoint_envelope_prefix ++ b ∷ bs

unfoldable pub nonempty_payload : Option (List ℕ) → Option (List ℕ)
nonempty_payload none = none
nonempty_payload (some []) = none
nonempty_payload (some (b ∷ bs)) = some (b ∷ bs)

unfoldable pub decode_checkpoint_envelope : List ℕ → Option (List ℕ)
unfolding strip_prefix nonempty_payload
decode_checkpoint_envelope stored =
    nonempty_payload (strip_prefix checkpoint_envelope_prefix stored)

unfoldable pub checkpoint_set : ℕ → List ℕ → AgentTask → AgentTask
unfolding encode_checkpoint_envelope
checkpoint_set now checkpoint t = record t {
  checkpoint = encode_checkpoint_envelope checkpoint;
  checkpoint_version = t.checkpoint_version + 1;
  updated_at = now;
}

-- The run version that the context's token demands of the row.
unfoldable pub demands : Option (Str × ℕ) → ℕ → Bool
demands none run_version = true
demands (some (task_id, demanded)) run_version = run_version == demanded

-- A token for another task is a conflict.
unfoldable pub token_fits : Option (Str × ℕ) → Str → Bool
unfolding str_eq
token_fits none task_id = true
token_fits (some (token_task, demanded)) task_id = str_eq token_task task_id

unfoldable pub require_written : {D : Type 0} → Option (Str × ℕ) → ℕ → Exec D (Unit {0})
require_written none affected = require (ltb 0 affected) record_not_found
require_written (some token) affected = require (ltb 0 affected) conflict

module _ ⦃p : Platform⦄ where
  unfoldable pub get_checkpoint : GormStore → Str → Exec p.Db (Option (List ℕ))
  unfolding is_blank
  get_checkpoint store task_id = do
    database store
    require (not (is_blank task_id)) invalid_input
    task ← read (p.first_task (λ t. p.same t.id task_id))
    pure (if is_empty task.checkpoint then none else decode_checkpoint_envelope task.checkpoint)

  unfoldable pub checkpoint_where : Option (Str × ℕ) → Str → AgentTask → Bool
  unfolding demands
  checkpoint_where token task_id t = p.same t.id task_id && demands token t.run_version

  unfoldable pub set_checkpoint : GormStore → Context → Str → List ℕ → Exec p.Db (Unit {0})
  unfolding is_blank
  set_checkpoint store ctx task_id checkpoint = do
    database store
    require (not (is_blank task_id)) invalid_input
    let token = fencing_token_from_context ctx
    require (token_fits token task_id) conflict
    affected ← p.update_tasks (checkpoint_where token task_id) (checkpoint_set store.now checkpoint)
    require_written token affected

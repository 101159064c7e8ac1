-- ===== src/Agent/Fence.antt =====
-- dao/agent/agent.go: the store, the fencing token in the context, and the fence of a write.
use haruka_ai.Base.{
  ℕ, ◌==◌, ltb, if◌then◌else◌, Bool, true, false, not, ◌&&◌, ◌||◌, [], Option, none, some, Str,
  trim_space, is_empty, str_eq, Exec, require, database_unavailable,
}
use haruka_ai.Agent.Model.{AgentTask}
use haruka_ai.Agent.Platform.{Platform}

-- `connected` is false for a nil store or a nil database; `now` is what the call's clock reads.
pub record GormStore : Type 0 where
  pub connected : Bool
  pub now : ℕ

unfoldable pub database : {D : Type 0} → GormStore → Exec D (Unit {0})
database store = require store.connected database_unavailable

pub record FencingToken : Type 0 where
  pub task_id : Str
  pub run_version : ℕ
  pub worker_id : Str

-- The token that the context carries, and whether `ctx.Err()` is set when the recovery of stale
-- tasks asks for it before a candidate (of a round, by its index).
pub record Context : Type 0 where
  pub token : Option FencingToken
  pub done : ℕ → ℕ → Bool

unfoldable pub with_worker_fencing_token : Context → Str → ℕ → Str → Context
unfolding trim_space
with_worker_fencing_token ctx task_id run_version worker_id = record ctx {
  token =
      some
        (record { task_id = task_id; run_version = run_version; worker_id = trim_space worker_id });
}

unfoldable pub with_fencing_token : Context → Str → ℕ → Context
unfolding with_worker_fencing_token
with_fencing_token ctx task_id run_version = with_worker_fencing_token ctx task_id run_version []

unfoldable pub valid_token : FencingToken → Option FencingToken
unfolding is_empty
valid_token token = if is_empty token.task_id || token.run_version == 0 then none else some token

unfoldable pub worker_fencing_token_from_context : Context → Option FencingToken
unfolding valid_token
worker_fencing_token_from_context ctx = elim ctx.token [
  | none ↦ none
  | some token ↦ valid_token token
]

unfoldable pub fencing_token_from_context : Context → Option (Str × ℕ)
unfolding worker_fencing_token_from_context
fencing_token_from_context ctx = elim (worker_fencing_token_from_context ctx) [
  | none ↦ none
  | some token ↦ some (token.task_id, token.run_version)
]

unfoldable pub active_lease_fence_from_context : Context → Str → ℕ → Option Str
unfolding worker_fencing_token_from_context is_empty str_eq
active_lease_fence_from_context ctx task_id run_version =
    elim (worker_fencing_token_from_context ctx) [
      | none ↦ none
      | some token ↦
          if str_eq token.task_id task_id
            && token.run_version == run_version
            && not (is_empty token.worker_id)
          then some token.worker_id
          else none
    ]

-- `column > ?`, which is not true of NULL.
abbrev pub is_after : Option ℕ → ℕ → Bool
is_after none now = false
is_after (some until) now = ltb now until

module _ ⦃p : Platform⦄ where
  unfoldable pub lease_held : Option Str → ℕ → AgentTask → Bool
  lease_held none now t = true
  lease_held (some worker_id) now t = p.same t.lease_owner worker_id && is_after t.lease_until now

  unfoldable pub active_lease_fenced : Context → Str → ℕ → ℕ → AgentTask → Bool
  unfolding lease_held
  active_lease_fenced ctx task_id run_version now t =
      p.same t.id task_id
      && t.run_version == run_version
      && lease_held (active_lease_fence_from_context ctx task_id run_version) now t

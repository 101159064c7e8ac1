-- ===== src/Agent/Fencing.antt =====
-- dao/agent/agent.go: a worker whose generation of a task is over writes nothing more.
use haruka_ai.Base.{
  ℕ, ◌≤◌, ◌<◌, ◌≡◌, Bool, true, false, List, [], Option, some, Str, ok, Exec, arith, ℤ, is_empty,
  and-left, read, or_conflict, Error, ◌>>=◌, ◌>>◌, require, require_rows, ◌∷◌,
}
use haruka_ai.Base.Keeps.{
  Keeps, Keeps-require, Refuses, Refuses-first, Refuses-then, Refuses-read, Refuses-update,
  Refuses-require-false,
}
use haruka_ai.Agent.Model.{AgentTask, AgentStep}
use haruka_ai.Agent.Platform.{Platform, Lawful}
use haruka_ai.Agent.Fence.{
  GormStore, Context, with_worker_fencing_token, database, active_lease_fenced,
  fencing_token_from_context,
}
use haruka_ai.Agent.Superseded.{Superseded, is_task}
use haruka_ai.Agent.Superseded.Rules.{Superseded-no_rows, Superseded-no_row}
use haruka_ai.Agent.Plan.{
  Updates, save_plan, create_steps_fenced, update_task_fenced, update_step_fenced, same_generation,
}
use haruka_ai.Agent.Tasks.{renew_lease_fenced, renew_where}
use haruka_ai.Agent.Review.{
  Policy, pause_for_review, mark_execution_unknown_fenced, mark_policy_review_fenced,
  running_fenced,
}
use haruka_ai.Agent.Checkpoint.{set_checkpoint, checkpoint_where, require_written}

module _ ⦃p : Platform⦄ where
  -- What a worker writes under the run version of its claim.
  pub data FencedWrite : Type 0 where
    renew : ℤ → FencedWrite
    plan : Option Str → List AgentStep → FencedWrite
    add_steps : List AgentStep → FencedWrite
    update_task : Updates p.Value → FencedWrite
    update_step : Str → Updates p.Value → FencedWrite
    mark_unknown : Str → Str → FencedWrite
    review_policy : Str → Str → Policy → FencedWrite
    checkpoint : List ℕ → FencedWrite

  -- The call, with the worker's token in the context.
  unfoldable pub fenced_write :
      GormStore → Context → Str → ℕ → Str → FencedWrite → Exec p.Db (Unit {0})
  fenced_write g ctx id k w (renew l) = renew_lease_fenced g id k w l
  fenced_write g ctx id k w (plan m l) = save_plan g (with_worker_fencing_token ctx id k w) id k m l
  fenced_write g ctx id k w (add_steps l) = create_steps_fenced g id k l
  fenced_write g ctx id k w (update_task u) =
      update_task_fenced g (with_worker_fencing_token ctx id k w) id k u
  fenced_write g ctx id k w (update_step s u) =
      update_step_fenced g (with_worker_fencing_token ctx id k w) id s k u
  fenced_write g ctx id k w (mark_unknown s m) =
      mark_execution_unknown_fenced g (with_worker_fencing_token ctx id k w) id s k m
  fenced_write g ctx id k w (review_policy s m q) =
      mark_policy_review_fenced g (with_worker_fencing_token ctx id k w) id s k m q
  fenced_write g ctx id k w (checkpoint c) =
      set_checkpoint g (with_worker_fencing_token ctx id k w) id c

  active_lease_fenced-fenced :
      (ctx : Context) (id : Str) (k now : ℕ) (x : AgentTask)
      → active_lease_fenced ctx id k now x ≡ true
      → (is_task id x ≡ true) × (x.run_version ≡ k)
  unfolding active_lease_fenced
  active_lease_fenced-fenced ctx id k now x h = ground arith

  running_fenced-fenced :
      (ctx : Context) (id : Str) (k now : ℕ) (x : AgentTask)
      → running_fenced ctx id k now x ≡ true
      → (is_task id x ≡ true) × (x.run_version ≡ k)
  unfolding running_fenced
  running_fenced-fenced ctx id k now x h =
      active_lease_fenced-fenced ctx id k now x (and-left _ _ h)

  same_generation-fenced :
      (id : Str) (k : ℕ) (x : AgentTask)
      → same_generation id k x ≡ true
      → (is_task id x ≡ true) × (x.run_version ≡ k)
  unfolding same_generation
  same_generation-fenced id k x h = ground arith

  renew_where-fenced :
      (id : Str) (k : ℕ) (w : Str) (now : ℕ) (x : AgentTask)
      → renew_where id k w now x ≡ true
      → (is_task id x ≡ true) × (x.run_version ≡ k)
  unfolding renew_where
  renew_where-fenced id k w now x h = ground arith

  checkpoint_where-fenced :
      (id : Str) (k : ℕ) (x : AgentTask)
      → checkpoint_where (some (id, k)) id x ≡ true
      → (is_task id x ≡ true) × (x.run_version ≡ k)
  unfolding checkpoint_where
  checkpoint_where-fenced id k x h = ground arith

-- The token that a worker carries, as a checkpoint write reads it.
token_of_worker :
    (ctx : Context) (id : Str) (k : ℕ) (w : Str)
    → is_empty id ≡ false
    → 0 < k
    → fencing_token_from_context (with_worker_fencing_token ctx id k w) ≡ some (id, k)
unfolding fencing_token_from_context with_worker_fencing_token
token_of_worker ctx id k w named pos = ground arith

module _ ⦃p : Platform⦄ (lawful : Lawful p) {id : Str} {v : ℕ} where
  Keeps-database : (store : GormStore) → Keeps (Superseded id v) (database store)
  unfolding database
  Keeps-database store = Keeps-require _ _

  module _ (k : ℕ) (le : k ≤ v) (w : AgentTask → Bool)
      (fenced : (x : AgentTask) → w x ≡ true → (is_task id x ≡ true) × (x.run_version ≡ k)) where
    no_task : Refuses (Superseded id v) (read (λ d. or_conflict (p.first_task w d)))
    no_task =
        Refuses-read (p.first_task w) (λ d t s h. Superseded-no_row lawful w k d t fenced le s h)

    no_update :
        (f : AgentTask → AgentTask) (d d' : p.Db) (n : ℕ)
        → p.update_tasks w f d ≡ ok (d', n)
        → Superseded id v d
        → n ≡ 0
    no_update f d d' n h s = omega (
      arith,
      (lawful.update_tasks_rows w f d d' n h).2,
      Superseded-no_rows lawful w k d fenced le s,
    )

  -- A check of the input, then a fenced read or a fenced update.
  stale_read :
      {A B : Type 0} (g : GormStore) (b : Bool) (e : _) (m : Exec p.Db A) (f : A → Exec p.Db B)
      → Refuses (Superseded id v) m
      → Refuses (Superseded id v) (database g >> (require b e >> (m >>= f)))
  stale_read g b e m f rm =
      Refuses-then _ _ (Keeps-database g)
        (λ _. Refuses-then _ _ (Keeps-require b e) (λ _. Refuses-first m f rm))

  stale_update :
      (g : GormStore) (b : Bool) (e e' : Error) (m : Exec p.Db ℕ)
      → ((d d' : p.Db) (n : ℕ) → m d ≡ ok (d', n) → Superseded id v d → n ≡ 0)
      → Refuses (Superseded id v) (database g >> (require b e >> (m >>= λ n. require_rows n e')))
  stale_update g b e e' m none_left =
      Refuses-then _ _ (Keeps-database g)
        (λ _. Refuses-then _ _ (Keeps-require b e) (λ _. Refuses-update m e' none_left))

  stale_pause :
      (g : GormStore) (ctx : Context) (s : Str) (k : ℕ) (m : Str) (set : AgentStep → AgentStep)
      → k ≤ v
      → Refuses (Superseded id v) (pause_for_review g ctx id s k m set)
  unfolding pause_for_review
  stale_pause g ctx s k m set le =
      stale_read g _ _ _ _ (no_task k le _ (running_fenced-fenced ctx id k g.now))

  stale_create_steps :
      (g : GormStore) (k : ℕ) (l : List AgentStep)
      → k ≤ v
      → Refuses (Superseded id v) (create_steps_fenced g id k l)
  unfolding create_steps_fenced
  stale_create_steps g k [] le = Refuses-then _ _ (Keeps-database g) (λ _. Refuses-require-false _)
  stale_create_steps g k (x ∷ l) le =
      stale_read g _ _ _ _ (no_task k le _ (same_generation-fenced id k))

  stale_checkpoint :
      (g : GormStore) (ctx : Context) (k : ℕ) (w : Str) (c : List ℕ)
      → k ≤ v
      → is_empty id ≡ false
      → 0 < k
      → Refuses (Superseded id v) (set_checkpoint g (with_worker_fencing_token ctx id k w) id c)
  unfolding set_checkpoint
  stale_checkpoint g ctx k w c le named pos = rw (token_of_worker ctx id k w named pos) (
      Refuses-then _ _ (Keeps-database g) λ _. Refuses-then _ _ (Keeps-require _ _) λ _.
        Refuses-then _ _ (Keeps-require _ _) λ _.
          (unfold require_written require_rows in
            Refuses-update _ _ (no_update k le _ (checkpoint_where-fenced id k) _)))

  stale_write :
      (g : GormStore) (ctx : Context) (k : ℕ) (w : Str) (x : FencedWrite)
      → k ≤ v
      → is_empty id ≡ false
      → 0 < k
      → Refuses (Superseded id v) (fenced_write g ctx id k w x)
  unfolding fenced_write
  stale_write g ctx k w (renew l) le named pos =
      unfold renew_lease_fenced in
      stale_update g _ _ _ _ (no_update k le _ (renew_where-fenced id k w g.now) _)
  stale_write g ctx k w (plan m l) le named pos =
      unfold save_plan in
      stale_read g _ _ _ _ (no_task k le _ (active_lease_fenced-fenced _ id k g.now))
  stale_write g ctx k w (add_steps l) le named pos = stale_create_steps g k l le
  stale_write g ctx k w (update_task u) le named pos =
      unfold update_task_fenced in
      Refuses-then _ _ (Keeps-database g) λ _. Refuses-then _ _ (Keeps-require _ _) λ _.
        Refuses-then _ _ (Keeps-require _ _)
          λ _. Refuses-update _ _ (no_update k le _ (active_lease_fenced-fenced _ id k g.now) _)
  stale_write g ctx k w (update_step s u) le named pos =
      unfold update_step_fenced in
      Refuses-then _ _ (Keeps-database g) λ _. Refuses-then _ _ (Keeps-require _ _) λ _.
        Refuses-then _ _ (Keeps-require _ _)
          λ _. Refuses-first _ _ (no_task k le _ (active_lease_fenced-fenced _ id k g.now))
  stale_write g ctx k w (mark_unknown s m) le named pos =
      unfold mark_execution_unknown_fenced in stale_pause g _ s k _ _ le
  stale_write g ctx k w (review_policy s m q) le named pos =
      unfold mark_policy_review_fenced in stale_pause g _ s k _ _ le
  stale_write g ctx k w (checkpoint c) le named pos = stale_checkpoint g ctx k w c le named pos

  -- Where every generation of the task up to `v` is over, no write under a run version up to `v`
  -- succeeds.
  pub stale_write_fails :
      (g : GormStore) (ctx : Context) (k : ℕ) (w : Str) (x : FencedWrite) (d d' : p.Db)
      → k ≤ v
      → is_empty id ≡ false
      → 0 < k
      → Superseded id v d
      → ¬ (fenced_write g ctx id k w x d ≡ ok (d', tt))
  stale_write_fails g ctx k w x d d' le named pos s h =
      (stale_write g ctx k w x le named pos).never d d' tt h s

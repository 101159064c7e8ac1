-- ===== src/Agent/Sweep.antt =====
-- dao/agent/agent.go: what the recovery of one locked stale task keeps, the whole recovery keeps.
use haruka_ai.Base.{
  ℕ, zero, suc, ◌+◌, ◌≡◌, refl, subst, inl, inr, Bool, true, false, ◌&&◌, List, [], ◌∷◌, Option,
  none, Result, ok, err, record_not_found, pure, arith, Bool-cases,
}
use haruka_ai.Base.Moves.{>>=-eq-ok}
use haruka_ai.Agent.Model.{AgentTask}
use haruka_ai.Agent.Platform.{Platform}
use haruka_ai.Base.{Error}
use haruka_ai.Agent.Fence.{GormStore, Context}
use haruka_ai.Agent.Recover.{
  Progress, is_stale, recover_locked_task, recover_if_locked, recover_candidate, after_candidate,
  recover_candidates, next_round, after_scan, recover_rounds, recover_stale_tasks,
}

module _ ⦃p : Platform⦄ (K : p.Db → Type 0) (now before : ℕ)
    (locked : (c task : AgentTask) (d d' : p.Db)
      → p.first_unlocked_task (λ t. is_stale now before t && p.same t.id c.id) d ≡ ok task
      → recover_locked_task task now d ≡ ok (d', tt)
      → K d
      → K d') where
  recover_if_locked-keeps :
      (r : Result AgentTask) (d d' : p.Db) (b : Bool)
      → ((task : AgentTask) (d₁ : p.Db)
          → r ≡ ok task
          → recover_locked_task task now d ≡ ok (d₁, tt)
          → K d₁)
      → recover_if_locked now r d ≡ ok (d', b)
      → K d
      → K d'
  unfolding recover_if_locked pure
  recover_if_locked-keeps (err record_not_found) d d' b one h k =
      let same : d ≡ d' = ground arith in subst K same k
  recover_if_locked-keeps (err _) d d' b one h k = cc
  recover_if_locked-keeps (ok task) d d' b one h k =
      let (d₁, u, e, h₁) = >>=-eq-ok _ _ d d' b h in
      let same : d₁ ≡ d' = ground arith in subst K same (one task d₁ refl e)

  after_candidate-keeps :
      (d : p.Db) (progress : Progress) (r : Result (p.Db × Bool))
      → ((d' : p.Db) (b : Bool) → r ≡ ok (d', b) → K d')
      → K d
      → K (after_candidate d progress r).0
  unfolding after_candidate
  after_candidate-keeps d progress (err e) one k = k
  after_candidate-keeps d progress (ok (d', false)) one k = one d' false refl
  after_candidate-keeps d progress (ok (d', true)) one k = one d' true refl

  recover_candidate-keeps :
      (c : AgentTask) (d d' : p.Db) (b : Bool)
      → recover_candidate now before c d ≡ ok (d', b)
      → K d
      → K d'
  unfolding recover_candidate
  recover_candidate-keeps c d d' b h k =
      recover_if_locked-keeps _ d d' b (λ task d₁ found e. locked c task d d₁ found e k) h k

  recover_candidates-keeps :
      (done : ℕ → Bool) (index : ℕ) (cs : List AgentTask) (d : p.Db) (progress : Progress)
      → K d
      → K (recover_candidates done now before index cs d progress).0
  unfolding recover_candidates
  recover_candidates-keeps done index [] d progress k = k
  recover_candidates-keeps done index (c ∷ cs) d progress k = elim (Bool-cases (done index)) [
    | inl stop ↦ rw stop k
    | inr go ↦ rw go (
        recover_candidates-keeps done (index + 1) cs _ _ (
          after_candidate-keeps d progress (recover_candidate now before c d)
            (λ d' b h. recover_candidate-keeps c d d' b h k) k))
  ]

  next_round-keeps :
      (n : ℕ) (d : p.Db) (progress : Progress) (rest : p.Db × Option Error)
      → K d
      → K rest.0
      → K (next_round n (d, progress) rest).0
  unfolding next_round
  next_round-keeps n d progress rest k r = ground arith

  after_scan-keeps :
      (round : ℕ) (ctx : Context) (first_err : Option Error) (d : p.Db)
      (further : Option Error → p.Db → p.Db × Option Error) (r : Result (List AgentTask))
      → ((e : Option Error) (d' : p.Db) → K d' → K (further e d').0)
      → K d
      → K (after_scan round ctx now before first_err d further r).0
  unfolding after_scan
  after_scan-keeps round ctx first_err d further (err e) more k = k
  after_scan-keeps round ctx first_err d further (ok []) more k = k
  after_scan-keeps round ctx first_err d further (ok (c ∷ cs)) more k =
      let kept = recover_candidates-keeps (ctx.done round) 0 (c ∷ cs) d _ k in
      next_round-keeps _ _ _ _ kept (more _ _ kept)

  recover_rounds-keeps :
      (left round : ℕ) (ctx : Context) (first_err : Option Error) (d : p.Db)
      → K d
      → K (recover_rounds left round ctx now before first_err d).0
  unfolding recover_rounds
  recover_rounds-keeps zero round ctx first_err d k = k
  recover_rounds-keeps (suc left) round ctx first_err d k =
      after_scan-keeps round ctx first_err d _ _
        (λ e d'. recover_rounds-keeps left (round + 1) ctx e d') k

module _ ⦃p : Platform⦄ (K : p.Db → Type 0) (store : GormStore) (before : ℕ)
    (locked : (c task : AgentTask) (d d' : p.Db)
      → p.first_unlocked_task (λ t. is_stale store.now before t && p.same t.id c.id) d ≡ ok task
      → recover_locked_task task store.now d ≡ ok (d', tt)
      → K d
      → K d') where
  pub recover_stale_tasks-keeps :
      (ctx : Context) (d : p.Db) → K d → K (recover_stale_tasks store ctx before d).0
  unfolding recover_stale_tasks
  recover_stale_tasks-keeps ctx d k =
      ground (arith, recover_rounds-keeps K store.now before locked 20 0 ctx none d k)

-- ===== src/Agent/Replay.antt =====
-- dao/agent/agent.go: the recovery of an abandoned task replays no call whose effect is uncertain.
use haruka_ai.Base.{
  ℕ, ◌≡◌, refl, if◌then◌else◌, sym, ap, ◌∙◌, subst, ◌⊎◌, inl, inr, Bool, true, false, not, ◌&&◌,
  ◌||◌, List, [], ◌∷◌, Memᴰ, Str, ok, arith, All, All-mem, map_where, Bool-cases, pure,
}
use haruka_ai.Base.Keeps.{read-eq-ok, read-same}
use haruka_ai.Base.Moves.{>>=-eq-ok, require_rows-eq-ok}
use haruka_ai.Agent.Model.{AgentTask, AgentStep, StepStatus, step_status_eq}
use haruka_ai.Agent.Platform.{Platform, Lawful}
use haruka_ai.Agent.Plan.{step_of}
use haruka_ai.Agent.Resume.{step_can_replay_after_crash, requeue_step}
use haruka_ai.Agent.Recover.{
  interrupted_set, Found, found_next, recover_step_set, recover_task_set, running_step,
  recover_steps, same_run, recover_locked_task,
}

-- Two tables whose rows correspond.
abbrev Rows {ℓ} : {A : Type ℓ} → (A → A → Type ℓ) → List A → List A → Type ℓ
Rows R [] [] = Unit
Rows R [] (y ∷ ys) = Unit → ⊥
Rows R (x ∷ xs) [] = Unit → ⊥
Rows R (x ∷ xs) (y ∷ ys) = R x y × Rows R xs ys

-- What becomes of an abandoned step: a step that a crash leaves replayable is requeued, another one is
-- marked as of unknown outcome.
abbrev pub replayed : ℕ → AgentStep → AgentStep
replayed now s = if step_can_replay_after_crash s then requeue_step now s else interrupted_set now s

recover_step_set-status :
    (now : ℕ) (r : AgentStep)
    → step_status_eq (recover_step_set now r r).status StepStatus.running ≡ false
unfolding recover_step_set
recover_step_set-status now r = ground arith

abbrev any_unsafe : List AgentStep → Bool
any_unsafe [] = false
any_unsafe (s ∷ l) = not (step_can_replay_after_crash s) || any_unsafe l

any_unsafe-mem :
    (l : List AgentStep) (s : AgentStep)
    → Memᴰ s l
    → step_can_replay_after_crash s ≡ false
    → any_unsafe l ≡ true
any_unsafe-mem [] s m h = elim m [ ]
any_unsafe-mem (x ∷ l) s (Memᴰ.head e) h =
    let e' : step_can_replay_after_crash x ≡ false = ap step_can_replay_after_crash (sym e) ∙ h in
    ground arith
any_unsafe-mem (x ∷ l) s (Memᴰ.tail m) h = ground (arith, any_unsafe-mem l s m h)

mem-any_unsafe :
    (l : List AgentStep)
    → any_unsafe l ≡ true
    → (s : AgentStep) × Memᴰ s l × (step_can_replay_after_crash s ≡ false)
mem-any_unsafe [] h = cc
mem-any_unsafe (x ∷ l) h = elim (Bool-cases (step_can_replay_after_crash x)) [
  | inl safe ↦ let (s, m, u) = mem-any_unsafe l (ground arith) in (s, Memᴰ.tail m, u)
  | inr risky ↦ (x, Memᴰ.head refl, risky)
]

found_next-unsafe :
    (f : Found) (s : AgentStep)
    → (found_next f s).unsafe ≡ (f.unsafe || not (step_can_replay_after_crash s))
unfolding found_next
found_next-unsafe f s = ground arith

recover_step_set-replayed : (now : ℕ) (s : AgentStep) → recover_step_set now s s ≡ replayed now s
unfolding recover_step_set
recover_step_set-replayed now s = refl

-- The states that the two outcomes leave.
replayed-status :
    (now : ℕ) (s : AgentStep)
    → (step_can_replay_after_crash s ≡ true → (replayed now s).status ≡ StepStatus.pending)
      × (step_can_replay_after_crash s ≡ false
          → (replayed now s).status ≡ StepStatus.execution_unknown)
unfolding requeue_step interrupted_set
replayed-status now s = ((λ h. rw h refl), (λ h. rw h refl))

module _ ⦃p : Platform⦄ where
  -- The primary key of the steps.
  abbrev pub UniqueSteps : List AgentStep → Type 0
  UniqueSteps l = (a b : AgentStep) → Memᴰ a l → Memᴰ b l → p.same a.id b.id ≡ true → a ≡ b

  running_step-facts :
      (sid tid : Str) (r : AgentStep)
      → running_step sid tid r ≡ true
      → (p.same r.id sid ≡ true) × (step_status_eq r.status StepStatus.running ≡ true)
  unfolding running_step step_of
  running_step-facts sid tid r h = ground arith

  status-running :
      (r : AgentStep)
      → step_status_eq r.status StepStatus.running ≡ true
      → r.status ≡ StepStatus.running
  status-running r h = ground arith

  -- The running steps of a task.
  abbrev pub abandoned : Str → AgentStep → Bool
  abandoned tid s = p.same s.task_id tid && step_status_eq s.status StepStatus.running

  -- A row while the steps `todo` are still to be recovered: it waits for its turn, or had it, or has
  -- none.
  abbrev Midway : ℕ → Str → List AgentStep → AgentStep → AgentStep → Type 0
  Midway now tid todo r r' =
      ((r' ≡ r) × (abandoned tid r ≡ true → Memᴰ r todo))
      ⊎ ((abandoned tid r ≡ true) × (r' ≡ recover_step_set now r r))

  running_step-abandoned :
      (sid tid : Str) (r : AgentStep) → running_step sid tid r ≡ true → abandoned tid r ≡ true
  unfolding running_step step_of
  running_step-abandoned sid tid r h = ground arith

  -- The turn of the step that heads the list.
  turn :
      (now : ℕ) (tid : Str) (todo table : List AgentStep) (step r r' : AgentStep)
      → UniqueSteps table
      → Memᴰ step table
      → Memᴰ r table
      → Midway now tid (step ∷ todo) r r'
      → running_step step.id tid r' ≡ true
      → Midway now tid todo r (recover_step_set now step r')
  turn now tid todo table step r r' u ms mr (inl (e, waits)) h =
      let (same_id, runs) = running_step-facts step.id tid r' h in
      let is_step : r ≡ step = u r step mr ms (subst (λ x. p.same x.id step.id ≡ true) e same_id) in
      inr (
        subst (λ x. abandoned tid x ≡ true) e (running_step-abandoned step.id tid r' h),
        ap (λ x. recover_step_set now x r') (sym is_step) ∙ ap (recover_step_set now r) e,
      )
  turn now tid todo table step r r' u ms mr (inr (s, e)) h =
      let (same_id, runs) = running_step-facts step.id tid r' h in
      let stopped = recover_step_set-status now r in
      let runs' = subst (λ x. step_status_eq x.status StepStatus.running ≡ true) e runs in
      absurd (ground arith)

  -- A row that a turn passes over was not the step at the head.
  no_turn :
      (now : ℕ) (tid : Str) (todo : List AgentStep) (step r r' : AgentStep)
      → p.same r.id r.id ≡ true
      → Midway now tid (step ∷ todo) r r'
      → running_step step.id tid r' ≡ false
      → Midway now tid todo r r'
  no_turn now tid todo step r r' own (inl (e, waits)) h = inl (e, λ a. later a (waits a))
    where
      missed : abandoned tid r ≡ true → r ≡ step → ⊥
      missed a is_step =
          let here =
            subst (λ x. running_step x.id tid r ≡ false) (sym is_step)
              (subst (λ x. running_step step.id tid x ≡ false) e h) in
          unfold running_step step_of in ground (arith, own)

      later : abandoned tid r ≡ true → Memᴰ r (step ∷ todo) → Memᴰ r todo
      later a (Memᴰ.head is_step) = absurd (missed a is_step)
      later a (Memᴰ.tail m) = m
  no_turn now tid todo step r r' own (inr done) h = inr done

  update-Rows :
      (now : ℕ) (tid : Str) (todo table : List AgentStep) (step : AgentStep)
      → ((s : Str) → p.same s s ≡ true)
      → UniqueSteps table
      → Memᴰ step table
      → (l l' : List AgentStep) → ((x : AgentStep) → Memᴰ x l → Memᴰ x table)
      → Rows (Midway now tid (step ∷ todo)) l l'
      → Rows
          (Midway now tid todo)
          l
          (map_where (running_step step.id tid) (recover_step_set now step) l')
  update-Rows now tid todo table step own u ms [] [] sub h = tt
  update-Rows now tid todo table step own u ms [] (y ∷ l') sub h = absurd (h tt)
  update-Rows now tid todo table step own u ms (x ∷ l) [] sub h = absurd (h tt)
  update-Rows now tid todo table step own u ms (x ∷ l) (y ∷ l') sub (r, h) =
      let rest = update-Rows now tid todo table step own u ms l l' (λ z m. sub z (Memᴰ.tail m)) h in
      elim (Bool-cases (running_step step.id tid y)) [
        | inl hit ↦
            rw hit (turn now tid todo table step x y u ms (sub x (Memᴰ.head refl)) r hit, rest)
        | inr miss ↦ rw miss (no_turn now tid todo step x y (own x.id) r miss, rest)
      ]

  waiting-Rows :
      (now : ℕ) (tid : Str) (todo l : List AgentStep)
      → ((x : AgentStep) → Memᴰ x l → abandoned tid x ≡ true → Memᴰ x todo)
      → Rows (Midway now tid todo) l l
  waiting-Rows now tid todo [] all = tt
  waiting-Rows now tid todo (x ∷ l) all =
      (inl (refl, all x (Memᴰ.head refl)), waiting-Rows now tid todo l (λ y m. all y (Memᴰ.tail m)))

  -- With no step left to recover, every abandoned one had its turn.
  over :
      (now : ℕ) (tid : Str) (r r' : AgentStep)
      → Midway now tid [] r r'
      → r' ≡ (if abandoned tid r then replayed now r else r)
  over now tid r r' (inl (e, waits)) = elim (Bool-cases (abandoned tid r)) [
    | inl left ↦ elim (waits left) [ ]
    | inr other ↦ rw other e
  ]
  over now tid r r' (inr (a, e)) = rw a (e ∙ recover_step_set-replayed now r)

  over-Rows :
      (now : ℕ) (tid : Str) (l l' : List AgentStep)
      → Rows (Midway now tid []) l l'
      → l' ≡ map_where (abandoned tid) (replayed now) l
  over-Rows now tid [] [] h = refl
  over-Rows now tid [] (y ∷ l') h = absurd (h tt)
  over-Rows now tid (x ∷ l) [] h = absurd (h tt)
  over-Rows now tid (x ∷ l) (y ∷ l') (r, h) =
      let first = over now tid x y r in let rest = over-Rows now tid l l' h in cc

module _ ⦃p : Platform⦄ where
  -- The abandoned steps of the task that may have had an effect.
  abbrev pub Uncertain : AgentTask → AgentStep → Type 0
  Uncertain task s =
      (p.same s.task_id task.id ≡ true)
      × (s.status ≡ StepStatus.running)
      × (step_can_replay_after_crash s ≡ false)

  running_of :
      (task : AgentTask) (s : AgentStep)
      → Uncertain task s
      → (p.same s.task_id task.id && step_status_eq s.status StepStatus.running) ≡ true
  running_of task s (of_task, runs, risky) = rw (of_task, runs) refl

  of_running :
      (task : AgentTask) (s : AgentStep)
      → (p.same s.task_id task.id && step_status_eq s.status StepStatus.running) ≡ true
      → (p.same s.task_id task.id ≡ true) × (s.status ≡ StepStatus.running)
  of_running task s h = (ground arith, status-running s (ground arith))

  All-stored :
      (w : AgentStep → Bool) (table l : List AgentStep)
      → All (λ s. (w s ≡ true) × Memᴰ s table) l
      → All (λ s. Memᴰ s table) l
  All-stored w table [] h = tt
  All-stored w table (s ∷ l) (h, hs) = (h.1, All-stored w table l hs)

  pub record Replay (task : AgentTask) (now : ℕ) (d d' : p.Db) : Type 0 where
    pub steps_after : p.steps d' ≡ map_where (abandoned task.id) (replayed now) (p.steps d)
    pub outcomes :
        (s : AgentStep)
        → (step_can_replay_after_crash s ≡ true → (replayed now s).status ≡ StepStatus.pending)
          × (step_can_replay_after_crash s ≡ false
              → (replayed now s).status ≡ StepStatus.execution_unknown)
    pub found : Found
    pub tasks_after :
        p.tasks d' ≡ map_where (same_run task) (recover_task_set found now) (p.tasks d)
    pub all_found : (s : AgentStep) → Memᴰ s (p.steps d) → Uncertain task s → found.unsafe ≡ true
    pub none_made_up : found.unsafe ≡ true → (s : AgentStep) × Memᴰ s (p.steps d) × Uncertain task s

module _ ⦃p : Platform⦄ (lawful : Lawful p) where
  recover_steps-Rows :
      (now : ℕ) (tid : Str) (table : List AgentStep)
      → UniqueSteps table
      → (l : List AgentStep) (f f' : Found) (d d' : p.Db) → All (λ s. Memᴰ s table) l
      → Rows (Midway now tid l) table (p.steps d)
      → recover_steps tid now f l d ≡ ok (d', f')
      → (p.steps d' ≡ map_where (abandoned tid) (replayed now) table)
        × (p.tasks d' ≡ p.tasks d)
        × (f'.unsafe ≡ (f.unsafe || any_unsafe l))
  unfolding recover_steps pure
  recover_steps-Rows now tid table u [] f f' d d' ms h e =
      let same : d ≡ d' = ground arith in
      (
        ap p.steps (sym same) ∙ over-Rows now tid table (p.steps d) h,
        ap p.tasks (sym same),
        ground arith,
      )
  recover_steps-Rows now tid table u (s ∷ l) f f' d d' ms h e =
      let (d₁, n, e₁, h₁) = >>=-eq-ok _ _ d d' f' e in
      let rows = lawful.update_steps_rows _ _ d d₁ n e₁ in
      let moved =
        subst (Rows (Midway now tid l) table) (sym rows.0)
          (update-Rows now tid l table s lawful.same_refl u ms.0 table (p.steps d) (λ x m. m) h) in
      let rest = recover_steps-Rows now tid table u l (found_next f s) f' d₁ d' ms.1 moved h₁ in
      (rest.0, rest.1 ∙ rows.1, rest.2 ∙ ground (arith, found_next-unsafe f s))

  -- The recovery of a task that succeeds, over a table whose steps have their keys to themselves,
  -- moves every running step of the task: one that a crash leaves replayable is requeued and
  -- pending, any other is marked as of unknown outcome. It keeps all other steps, and sends the task
  -- to review exactly if a running step of it may have had an effect.
  pub recover_locked_task-Replay :
      (task : AgentTask) (now : ℕ) (d d' : p.Db)
      → UniqueSteps (p.steps d)
      → recover_locked_task task now d ≡ ok (d', tt)
      → Replay task now d d'
  unfolding recover_locked_task
  recover_locked_task-Replay task now d d' u h =
      let (d₁, l, e₁, h₁) = >>=-eq-ok _ _ d d' tt h in
      let (d₂, f, e₂, h₂) = >>=-eq-ok _ _ d₁ d' tt h₁ in
      let (d₃, n, e₃, h₃) = >>=-eq-ok _ _ d₂ d' tt h₂ in
      let same : d ≡ d₁ = read-same _ d d₁ l e₁ in
      let listed = read-eq-ok _ d d₁ l e₁ in
      let last = (require_rows-eq-ok n _ d₃ d' tt h₃).1 in
      let members = lawful.find_steps_sound _ d l listed in
      let waiting =
        waiting-Rows now task.id l (p.steps d)
          (λ x m a. lawful.find_steps_complete _ d l x listed m a) in
      let steps =
        recover_steps-Rows now task.id (p.steps d) u l _ f d₁ d₂ (All-stored _ _ l members)
          (subst (λ x. Rows (Midway now task.id l) (p.steps d) (p.steps x)) same waiting) e₂ in
      let table = lawful.update_tasks_rows _ _ d₂ d₃ n e₃ in
      record {
        steps_after = ap p.steps (sym last) ∙ table.1 ∙ steps.0;
        outcomes = replayed-status now;
        found = f;
        tasks_after =
            ap p.tasks (sym last)
            ∙ table.0
            ∙ ap (map_where (same_run task) (recover_task_set f now))
                (steps.1 ∙ ap p.tasks (sym same));
        all_found = λ s m uncertain.
            steps.2
            ∙ any_unsafe-mem l s
                (lawful.find_steps_complete _ d l s listed m (running_of task s uncertain))
                uncertain.2;
        none_made_up = λ unsafe.
            let (s, m, risky) = mem-any_unsafe l (sym steps.2 ∙ unsafe) in
            let (w, stored) = All-mem (λ x. (_ ≡ true) × Memᴰ x (p.steps d)) l members m in
            (s, stored, ((of_running task s w).0, (of_running task s w).1, risky));
      }

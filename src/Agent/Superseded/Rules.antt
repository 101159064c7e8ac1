-- ===== src/Agent/Superseded/Rules.antt =====
-- What one statement does to a superseded generation, and how an update ends one.
use haruka_ai.Base.{
  ℕ, ◌+◌, ◌≤◌, ◌<◌, ◌≡◌, refl, ap, Bool, true, List, [], ◌∷◌, Str, ok, arith, count_if, map_where,
  All, All-mem, All-append, All-map_where, Bool-cases, inl, inr,
}
use haruka_ai.Base.Keeps.{Keeps}
use haruka_ai.Agent.Model.{AgentTask, AgentStep}
use haruka_ai.Agent.Platform.{filled_task, Platform, Lawful}
use haruka_ai.Agent.Superseded.{
  count_if-map_where, count_if-append, count_if_unique, is_task, Superseded, Current,
  Superseded-tasks,
}

-- An update of tasks that keeps the identifiers and turns no run version back.
pub record Forward (f : AgentTask → AgentTask) : Type 0 where
  pub same_id : (x : AgentTask) → (f x).id ≡ x.id
  pub not_back : (x : AgentTask) → x.run_version ≤ (f x).run_version

module _ ⦃p : Platform⦄ (lawful : Lawful p) {id : Str} where
  -- A new row cannot take the identifier of the task, since that is stored.
  not_taken :
      (t : AgentTask) (l : List AgentTask)
      → 0 < count_if (is_task id) l
      → count_if (λ r. p.same r.id t.id) l ≡ 0
      → is_task id t ≡ true
      → ⊥
  not_taken t [] s z e = omega arith
  not_taken t (x ∷ l) s z e = elim (Bool-cases (is_task id x)) [
    | inl hit ↦
        let back = lawful.same_sym t.id id e in
        let hits = lawful.same_trans x.id id t.id hit back in ground arith
    | inr miss ↦ not_taken t l (ground arith) (ground arith) e
  ]

module _ ⦃p : Platform⦄ (lawful : Lawful p) {id : Str} {v : ℕ} where
  pub Keeps-update_tasks :
      (w : AgentTask → Bool) (f : AgentTask → AgentTask)
      → Forward f
      → Keeps (Superseded id v) (p.update_tasks w f)
  Keeps-update_tasks w f fw = record {
    at = λ d d' n h s.
        let rows = lawful.update_tasks_rows w f d d' n h in
        record {
          stored = rw rows.0 (
              rw
                (count_if-map_where (is_task id) w f (p.tasks d)
                  (λ x _. ap (λ i. p.same i id) (fw.same_id x)))
                s.stored);
          newer = rw rows.0 (
              All-map_where (λ r. is_task id r ≡ true → v < r.run_version) w f (p.tasks d)
                (λ x old _ e.
                  let older = old (rw (← fw.same_id x) e) in omega (arith, fw.not_back x, older))
                s.newer);
        };
  }

  pub Keeps-update_steps :
      (w : AgentStep → Bool) (f : AgentStep → AgentStep)
      → Keeps (Superseded id v) (p.update_steps w f)
  Keeps-update_steps w f = record {
    at = λ d d' n h s. Superseded-tasks d d' (lawful.update_steps_rows w f d d' n h).1 s;
  }

  pub Keeps-create_steps : (l : List AgentStep) → Keeps (Superseded id v) (p.create_steps l)
  Keeps-create_steps l = record {
    at = λ d d' u h s. Superseded-tasks d d' (lawful.create_steps_rows l d d' u h).2 s;
  }

  pub Keeps-delete_steps : (w : AgentStep → Bool) → Keeps (Superseded id v) (p.delete_steps w)
  Keeps-delete_steps w = record {
    at = λ d d' n h s. Superseded-tasks d d' (lawful.delete_steps_rows w d d' n h).1 s;
  }

  pub Keeps-create_task : (t : AgentTask) → Keeps (Superseded id v) (p.create_task t)
  Keeps-create_task t = record {
    at = λ d d' u h s.
        let (now, added, _, free) = lawful.create_task_rows t d d' u h in
        let new = filled_task now t in
        record {
          stored =
              rw added
                (omega (arith, count_if-append (is_task id) (p.tasks d) (new ∷ []), s.stored));
          newer = rw added (
              All-append (λ r. is_task id r ≡ true → v < r.run_version) (p.tasks d) (new ∷ [])
                s.newer ((λ e. absurd (not_taken lawful t (p.tasks d) s.stored free e)), tt));
        };
  }

  -- An update that affects the row and advances its run version ends the current generation.
  pub update_tasks-Superseded :
      (w : AgentTask → Bool) (f : AgentTask → AgentTask)
      → Forward f
      → ((x : AgentTask) → w x ≡ true → is_task id x ≡ true)
      → ((x : AgentTask) → (f x).run_version ≡ x.run_version + 1)
      → (d d' : p.Db) (n : ℕ) → p.update_tasks w f d ≡ ok (d', n)
      → 0 < n
      → Current id v d
      → Superseded id v d'
  update_tasks-Superseded w f fw hits bumps d d' n h pos c =
      let rows = lawful.update_tasks_rows w f d d' n h in
      let all_hit : All (λ x. is_task id x ≡ true → w x ≡ true) (p.tasks d) =
        count_if_unique w (is_task id) (p.tasks d) hits c.one_row (omega (arith, rows.2)) in
      record {
        stored = rw rows.0 (
            rw
              (count_if-map_where (is_task id) w f (p.tasks d)
                (λ x _. ap (λ i. p.same i id) (fw.same_id x)))
              (rw c.one_row (omega arith)));
        newer = rw rows.0 (newer_rows (p.tasks d) all_hit c.at_version);
      }
    where
      newer_rows :
          (l : List AgentTask)
          → All (λ x. is_task id x ≡ true → w x ≡ true) l
          → All (λ r. is_task id r ≡ true → r.run_version ≡ v) l
          → All (λ r. is_task id r ≡ true → v < r.run_version) (map_where w f l)
      newer_rows [] a b = tt
      newer_rows (x ∷ l) a b = elim (Bool-cases (w x)) [
        | inl hit ↦ rw hit ((λ e. omega (arith, bumps x, b.0 (hits x hit))), newer_rows l a.1 b.1)
        | inr miss ↦ rw miss ((λ e. ground (arith, a.0 e)), newer_rows l a.1 b.1)
      ]

  -- A fenced update of an ended generation finds no row.
  pub Superseded-no_rows :
      (w : AgentTask → Bool) (k : ℕ) (d : p.Db)
      → ((x : AgentTask) → w x ≡ true → (is_task id x ≡ true) × (x.run_version ≡ k))
      → k ≤ v
      → Superseded id v d
      → count_if w (p.tasks d) ≡ 0
  Superseded-no_rows w k d fenced le s = none_pass (p.tasks d) s.newer
    where
      none_pass :
          (l : List AgentTask)
          → All (λ r. is_task id r ≡ true → v < r.run_version) l
          → count_if w l ≡ 0
      none_pass [] a = refl
      none_pass (x ∷ l) a = elim (Bool-cases (w x)) [
        | inl hit ↦ absurd (omega (arith, a.0 (fenced x hit).0, (fenced x hit).1))
        | inr miss ↦ rw miss (none_pass l a.1)
      ]

  pub Superseded-no_row :
      (w : AgentTask → Bool) (k : ℕ) (d : p.Db) (t : AgentTask)
      → ((x : AgentTask) → w x ≡ true → (is_task id x ≡ true) × (x.run_version ≡ k))
      → k ≤ v
      → Superseded id v d
      → p.first_task w d ≡ ok t
      → ⊥
  Superseded-no_row w k d t fenced le s h =
      let (passes, m) = lawful.first_task_found w d t h in
      let newer = All-mem (λ r. is_task id r ≡ true → v < r.run_version) (p.tasks d) s.newer m in
      omega (arith, newer (fenced t passes).0, (fenced t passes).1)

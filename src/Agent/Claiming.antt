-- ===== src/Agent/Claiming.antt =====
-- dao/agent/agent.go: a task has one claim at a time.
use haruka_ai.Base.{
  ℕ, ◌==◌, ◌+◌, ◌≤◌, ◌≡◌, refl, ap, ◌∙◌, subst, Bool, false, List, [], ◌∷◌, Str, ok, err, arith,
  count_if, map_where, Bool-cases, inl, inr, ℤ, positive_or, Exec, Result, pure,
}
use haruka_ai.Base.Keeps.{Keeps, Keeps-bind, Keeps-read, Keeps-require}
use haruka_ai.Base.Moves.{>>=-eq-ok, require-eq-ok}
use haruka_ai.Agent.Model.{AgentTask, LoadedTask}
use haruka_ai.Agent.Platform.{Platform, Lawful}
use haruka_ai.Agent.Fence.{GormStore, database}
use haruka_ai.Agent.Tasks.{
  Claim, lost, claim_where, claim_set, claim_task, after_claim, read_claim, claim_of,
  get_task_by_id, default_lease_duration,
}

-- Rows that an update takes out of its own test are not found by it again.
count_if-map_where_out {ℓ} :
    {A : Type ℓ} (w : A → Bool) (f : A → A) (l : List A)
    → ((x : A) → w (f x) ≡ false)
    → count_if w (map_where w f l) ≡ 0
count_if-map_where_out w f [] out = refl
count_if-map_where_out w f (x ∷ l) out = ground (arith, out x, count_if-map_where_out w f l out)

module _ ⦃p : Platform⦄ where
  claim_where-claim_set :
      (id w : Str) (now until : ℕ) (x : AgentTask)
      → claim_where id (claim_set w now until x) ≡ false
  unfolding claim_where claim_set
  claim_where-claim_set id w now until x = ground arith

  Keeps-database : (P : p.Db → Type 0) (g : GormStore) → Keeps P (database g)
  unfolding database
  Keeps-database P g = Keeps-require _ _

  claim_of-tables :
      (d₀ : p.Db) (m : Exec p.Db LoadedTask)
      → Keeps (λ d. d ≡ d₀) m
      → (r : Result (p.Db × LoadedTask)) → m d₀ ≡ r
      → (d' : p.Db) (c : Claim) → claim_of d₀ r ≡ ok (d', c)
      → d' ≡ d₀
  unfolding claim_of
  claim_of-tables d₀ m km (err e) q d' c h = ground arith
  claim_of-tables d₀ m km (ok (d₁, t)) q d' c h =
      subst (λ x. x ≡ d₀) (ground arith) (km.at d₀ d₁ t q refl)

  Keeps-get_task_by_id :
      (P : p.Db → Type 0) (g : GormStore) (id : Str) → Keeps P (get_task_by_id g id)
  unfolding get_task_by_id
  Keeps-get_task_by_id P g id =
      Keeps-bind _ _ (Keeps-database P g) λ _. Keeps-bind _ _ (Keeps-require _ _) λ _. Keeps-read _

  read_claim-tables :
      (g : GormStore) (id : Str) (d d' : p.Db) (c : Claim) → read_claim g id d ≡ ok (d', c) → d' ≡ d
  unfolding read_claim
  read_claim-tables g id d d' c h =
      claim_of-tables d (get_task_by_id g id) (Keeps-get_task_by_id _ g id) (get_task_by_id g id d)
        refl d' c h

  after_claim-tables :
      (g : GormStore) (id : Str) (n : ℕ) (d d' : p.Db) (c : Claim)
      → after_claim g id n d ≡ ok (d', c)
      → (d' ≡ d) × (n ≡ 0 → c ≡ lost)
  unfolding after_claim pure
  after_claim-tables g id n d d' c h = elim (Bool-cases (n == 0)) [
    | inl none_hit ↦ (ground arith, λ _. ground arith)
    | inr some_hit ↦ (read_claim-tables g id d d' c (rw some_hit at h), λ z. absurd (ground arith))
  ]

module _ ⦃p : Platform⦄ (lawful : Lawful p) where
  -- What a claim does to the table: `n` rows were pending.
  record Claimed (g : GormStore) (id w : Str) (lease : ℤ) (d d' : p.Db) (c : Claim) : Type 0 where
    hits : ℕ
    hits_le : hits ≤ count_if (claim_where id) (p.tasks d)
    lost_if_none : hits ≡ 0 → c ≡ lost
    unchanged_if_none : hits ≡ 0 → p.tasks d' ≡ p.tasks d
    rows :
        p.tasks d'
        ≡ map_where
            (claim_where id)
            (claim_set w g.now (g.now + positive_or default_lease_duration lease))
            (p.tasks d)

  claim_task-Claimed :
      (g : GormStore) (id w : Str) (lease : ℤ) (d d' : p.Db) (c : Claim)
      → claim_task g id w lease d ≡ ok (d', c)
      → Claimed g id w lease d d' c
  unfolding claim_task database
  claim_task-Claimed g id w lease d d' c h =
      let (d₁, u₁, e₁, h₁) = >>=-eq-ok _ _ d d' c h in
      let (d₂, u₂, e₂, h₂) = >>=-eq-ok _ _ d₁ d' c h₁ in
      let (d₃, n, e₃, h₃) = >>=-eq-ok _ _ d₂ d' c h₂ in
      let same : d₂ ≡ d = (require-eq-ok _ _ d₁ d₂ u₂ e₂).1 ∙ (require-eq-ok _ _ d d₁ u₁ e₁).1 in
      let after = after_claim-tables g id n d₃ d' c h₃ in
      let table = lawful.update_tasks_rows _ _ d₂ d₃ n e₃ in
      record {
        hits = n;
        hits_le = subst (λ x. n ≤ count_if (claim_where id) (p.tasks x)) same table.2;
        lost_if_none = after.1;
        unchanged_if_none = λ z. ap p.tasks after.0 ∙ table.3 z ∙ ap p.tasks same;
        rows =
            ap p.tasks after.0
            ∙ table.0
            ∙ ap
                (λ x.
                  map_where (claim_where id)
                    (claim_set w g.now (g.now + positive_or default_lease_duration lease))
                    (p.tasks x))
                same;
      }

  -- After a claim of a task that wins, or loses, another claim of it that succeeds as a call is
  -- lost, and leaves the table of tasks as it is.
  pub claim_task_exclusive :
      (g g' : GormStore) (id w w' : Str) (lease lease' : ℤ) (d d₁ d₂ : p.Db) (c c' : Claim)
      → claim_task g id w lease d ≡ ok (d₁, c)
      → claim_task g' id w' lease' d₁ ≡ ok (d₂, c')
      → (c' ≡ lost) × (p.tasks d₂ ≡ p.tasks d₁)
  claim_task_exclusive g g' id w w' lease lease' d d₁ d₂ c c' h h' =
      let one = claim_task-Claimed g id w lease d d₁ c h in
      let two = claim_task-Claimed g' id w' lease' d₁ d₂ c' h' in
      let out : count_if (claim_where id) (p.tasks d₁) ≡ 0 =
        ap (count_if (claim_where id)) one.rows
        ∙ count_if-map_where_out (claim_where id) _ (p.tasks d)
            (claim_where-claim_set id w g.now _) in
      let none_hit : two.hits ≡ 0 = omega (arith, two.hits_le, out) in
      (two.lost_if_none none_hit, two.unchanged_if_none none_hit)

-- ===== src/Agent/Superseded.antt =====
-- The fencing token of dao/agent/agent.go as a property of the table of tasks: every generation of
-- a task up to some run version is over. What the statements do to it.
pub mod Rules
use haruka_ai.Base.{
  ℕ, ◌+◌, ◌≤◌, ◌<◌, ◌≡◌, refl, ap, Bool, true, false, inl, inr, List, [], ◌∷◌, ◌++◌, Memᴰ, Str,
  arith, count_if, map_where, All, Bool-cases,
}
use haruka_ai.Agent.Model.{AgentTask}
use haruka_ai.Agent.Platform.{Platform}

module _ {ℓ} {A : Type ℓ} where
  -- A rewriting that keeps a test keeps the number of rows that pass it.
  pub count_if-map_where :
      (q w : A → Bool) (f : A → A) (l : List A)
      → ((x : A) → w x ≡ true → q (f x) ≡ q x)
      → count_if q (map_where w f l) ≡ count_if q l
  count_if-map_where q w f [] keep = refl
  count_if-map_where q w f (x ∷ l) keep = ground (arith, keep x, count_if-map_where q w f l keep)

  pub count_if-append :
      (q : A → Bool) (l m : List A) → count_if q (l ++ m) ≡ count_if q l + count_if q m
  count_if-append q [] m = omega arith
  count_if-append q (x ∷ l) m = ground (arith, count_if-append q l m)

  pub count_if-mem : (q : A → Bool) (l : List A) (x : A) → Memᴰ x l → q x ≡ true → 0 < count_if q l
  count_if-mem q [] x m h = elim m [ ]
  count_if-mem q (y ∷ l) x (Memᴰ.head e) h = ground (arith, ap q e)
  count_if-mem q (y ∷ l) x (Memᴰ.tail m) h = ground (arith, count_if-mem q l x m h)

  pub count_if-zero : (q : A → Bool) (l : List A) → count_if q l ≡ 0 → All (λ x. q x ≡ false) l
  count_if-zero q [] h = tt
  count_if-zero q (x ∷ l) h = ground (arith, count_if-zero q l)

  pub count_if-le :
      (w q : A → Bool) (l : List A)
      → ((x : A) → w x ≡ true → q x ≡ true)
      → count_if w l ≤ count_if q l
  count_if-le w q [] sub = omega arith
  count_if-le w q (x ∷ l) sub = ground (arith, sub x, count_if-le w q l sub)

  -- Where one row only passes `q`, and some row passes the stronger `w`, it is that row.
  pub count_if_unique :
      (w q : A → Bool) (l : List A)
      → ((x : A) → w x ≡ true → q x ≡ true)
      → count_if q l ≡ 1
      → 0 < count_if w l
      → All (λ x. q x ≡ true → w x ≡ true) l
  count_if_unique w q [] sub one some_w = tt
  count_if_unique w q (x ∷ l) sub one some_w = elim (Bool-cases (q x)) [
    | inr miss ↦
        ((λ h. ground arith), count_if_unique w q l sub (ground arith) (ground (arith, sub x)))
    | inl hit ↦
        let none_left : count_if q l ≡ 0 = ground arith in
        let none_w : count_if w l ≡ 0 = ground (arith, count_if-le w q l sub) in
        ((λ h. ground arith), none_match l none_left)
  ]
    where
      none_match : (m : List A) → count_if q m ≡ 0 → All (λ y. q y ≡ true → w y ≡ true) m
      none_match [] h = tt
      none_match (y ∷ m) h = ((λ e. ground arith), none_match m (ground arith))

module _ ⦃p : Platform⦄ where
  abbrev pub is_task : Str → AgentTask → Bool
  is_task id r = p.same r.id id

  pub record Superseded (id : Str) (v : ℕ) (d : p.Db) : Type 0 where
    pub stored : 0 < count_if (is_task id) (p.tasks d)
    pub newer : All (λ r. is_task id r ≡ true → v < r.run_version) (p.tasks d)

  -- The task has one row, of run version `v`: the primary key.
  pub record Current (id : Str) (v : ℕ) (d : p.Db) : Type 0 where
    pub one_row : count_if (is_task id) (p.tasks d) ≡ 1
    pub at_version : All (λ r. is_task id r ≡ true → r.run_version ≡ v) (p.tasks d)

  module _ {id : Str} {v : ℕ} where
    pub Superseded-tasks :
        (d d' : p.Db) → p.tasks d' ≡ p.tasks d → Superseded id v d → Superseded id v d'
    Superseded-tasks d d' e s = record { stored = rw e s.stored; newer = rw e s.newer }

-- ===== src/Agent/Memory.antt =====
-- Tables in memory: a platform that meets the laws, on which the tests run.
use haruka_ai.Base.{
  ℕ, ◌≤◌, ◌+◌, ◌==◌, ltb, ◌≡◌, refl, sym, ap, subst, ◌∙◌, if◌then◌else◌, Bool, true, not, inl, inr,
  List, [], ◌∷◌, ◌++◌, Memᴰ, Str, codes, str_eq, str_eq_iff, str_eq_refl, Result, ok, err, driver,
  record_not_found, arith, Bool-cases, count_if, select, map_where, All, take, drop,
}
use haruka_ai.Agent.Model.{AgentTask, AgentStep}
use haruka_ai.Agent.Platform.{filled_task, filled_steps, Platform, Lawful, column_key}

pub record Tables : Type 0 where
  pub task_rows : List AgentTask
  pub step_rows : List AgentStep

module _ {A : Type 0} where
  unfoldable pub first_row : (A → Bool) → List A → Result A
  first_row w [] = err record_not_found
  first_row w (x ∷ l) = let rest = first_row w l in if w x then ok x else rest

  first_row-found :
      (w : A → Bool) (l : List A) (x : A) → first_row w l ≡ ok x → (w x ≡ true) × Memᴰ x l
  unfolding first_row
  first_row-found w [] x h = cc
  first_row-found w (y ∷ l) x h = elim (Bool-cases (w y)) [
    | inl hit ↦ let e : y ≡ x = ground arith in (ap w (sym e) ∙ hit, Memᴰ.head (sym e))
    | inr miss ↦ let (a, m) = first_row-found w l x (ground arith) in (a, Memᴰ.tail m)
  ]

  -- Every row of a selection passes the test and stands in the table.
  select_sound :
      (w : A → Bool) (l k : List A)
      → ((x : A) → Memᴰ x l → Memᴰ x k)
      → All (λ x. (w x ≡ true) × Memᴰ x k) (select w l)
  select_sound w [] k sub = tt
  select_sound w (y ∷ l) k sub =
      let rest = select_sound w l k (λ x m. sub x (Memᴰ.tail m)) in
      elim (Bool-cases (w y)) [
        | inl hit ↦ rw hit ((hit, sub y (Memᴰ.head refl)), rest)
        | inr miss ↦ rw miss rest
      ]

  select_complete :
      (w : A → Bool) (l : List A) (x : A) → Memᴰ x l → w x ≡ true → Memᴰ x (select w l)
  select_complete w [] x m h = elim m [ ]
  select_complete w (y ∷ l) x (Memᴰ.head e) h = rw (ap w (sym e) ∙ h) (Memᴰ.head e)
  select_complete w (y ∷ l) x (Memᴰ.tail m) h =
      let rest = select_complete w l x m h in
      elim (Bool-cases (w y)) [ inl hit ↦ rw hit (Memᴰ.tail rest) | inr miss ↦ rw miss rest ]

  map_where-none : (w : A → Bool) (f : A → A) (l : List A) → count_if w l ≡ 0 → map_where w f l ≡ l
  map_where-none w f [] h = refl
  map_where-none w f (x ∷ l) h = ground (arith, map_where-none w f l)

unfoldable pub create_row : AgentTask → Tables → Result (Tables × Unit {0})
create_row t d =
    if count_if (λ r. str_eq r.id t.id) d.task_rows == 0
    then ok (record d { task_rows = d.task_rows ++ filled_task 1000 t ∷ [] }, tt)
    else err (driver 1062)

unfoldable pub maximum : List AgentStep → ℕ
maximum [] = 0
maximum (s ∷ l) = let m = maximum l in if ltb m s.sequence then s.sequence else m

maximum-bound : (l : List AgentStep) (s : AgentStep) → Memᴰ s l → s.sequence ≤ maximum l
unfolding maximum
maximum-bound [] s m = elim m [ ]
maximum-bound (x ∷ l) s (Memᴰ.head e) =
    let same : s.sequence ≡ x.sequence = ap (λ y. y.sequence) e in ground arith
maximum-bound (x ∷ l) s (Memᴰ.tail m) = ground (arith, maximum-bound l s m)

-- The one column that the tables know.
unfoldable pub set_answer : Str → Str → AgentTask → AgentTask
set_answer key v t =
    if str_eq (column_key (λ c. c) key) (codes "final_answer")
    then record t { final_answer = v }
    else t

unfoldable pub set_summary : Str → Str → AgentStep → AgentStep
set_summary key v s =
    if str_eq (column_key (λ c. c) key) (codes "result_summary")
    then record s { result_summary = v }
    else s

instance abbrev pub memory : Platform
memory = record {
  Db = Tables;
  Value = Str;
  tasks = λ d. d.task_rows;
  steps = λ d. d.step_rows;
  lower_table = λ c. c;
  uuid = λ n. codes "step-" ++ (n + 48) ∷ [];
  same = str_eq;
  first_task = λ w d. first_row w d.task_rows;
  first_unlocked_task = λ w d. first_row w d.task_rows;
  find_tasks = λ w order offset limit d. ok (take limit (drop offset (select w d.task_rows)));
  count_tasks = λ w d. ok (count_if w d.task_rows);
  update_tasks =
      λ w f d. ok (record d { task_rows = map_where w f d.task_rows }, count_if w d.task_rows);
  create_task = create_row;
  first_step = λ w d. first_row w d.step_rows;
  find_steps = λ w d. ok (select w d.step_rows);
  max_sequence = λ w d. ok (maximum (select w d.step_rows));
  update_steps =
      λ w f d. ok (record d { step_rows = map_where w f d.step_rows }, count_if w d.step_rows);
  create_steps = λ l d. ok (record d { step_rows = d.step_rows ++ filled_steps 1000 l }, tt);
  delete_steps = λ w d.
      ok (record d { step_rows = select (λ s. not (w s)) d.step_rows }, count_if w d.step_rows);
  assign_task = set_answer;
  assign_step = set_summary;
}

pub memory-Lawful : Lawful memory
unfolding create_row set_answer set_summary
memory-Lawful = record {
  same_refl = str_eq_refl;
  same_sym = λ s t h. (str_eq_iff t s).1 (sym ((str_eq_iff s t).0 h));
  same_trans = λ s t u h k. (str_eq_iff s u).1 ((str_eq_iff s t).0 h ∙ (str_eq_iff t u).0 k);
  first_task_found = λ w d t h. first_row-found w d.task_rows t h;
  first_unlocked_task_found = λ w d t h. first_row-found w d.task_rows t h;
  first_step_found = λ w d s h. first_row-found w d.step_rows s h;
  find_steps_sound = λ w d l h.
      subst (All (λ s. (w s ≡ true) × Memᴰ s d.step_rows)) (ground arith)
        (select_sound w d.step_rows d.step_rows (λ x m. m));
  find_steps_complete =
      λ w d l s h m e. subst (Memᴰ s) (ground arith) (select_complete w d.step_rows s m e);
  max_sequence_bound = λ w d n s h m e.
      subst (λ k. s.sequence ≤ k) (ground arith)
        (maximum-bound (select w d.step_rows) s (select_complete w d.step_rows s m e));
  update_tasks_rows = λ w f d d' n h. (
    ground arith,
    ground arith,
    ground arith,
    λ z. ground (arith, map_where-none w f d.task_rows),
  );
  update_steps_rows = λ w f d d' n h. (
    ground arith,
    ground arith,
    ground arith,
    λ z. ground (arith, map_where-none w f d.step_rows),
  );
  create_task_rows = λ t d d' u h. (1000, ground arith, ground arith, ground arith);
  create_steps_rows = λ l d d' u h. (1000, ground arith, ground arith);
  delete_steps_rows = λ w d d' n h. (ground arith, ground arith);
  assign_task_id = λ key v t plain h. ground arith;
  assign_task_user_name = λ key v t plain h. ground arith;
  assign_task_run_version = λ key v t plain h. ground arith;
  assign_step_arguments_digest = λ key v s plain h. ground arith;
  assign_step_tool_arguments_json = λ key v s plain h. ground arith;
  assign_step_approval_decision = λ key v s plain h. ground arith;
  assign_step_destructive = λ key v s plain h. ground arith;
}

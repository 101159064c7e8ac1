-- ===== src/AgentService/Routing.antt =====
-- service/agent/graph.go: a tool runs only with its approval and after the steps before it, and the
-- answer comes only after every tool.
use haruka_ai.Base.{
  ◌≡◌, refl, sym, ap, ◌∙◌, subst, ◌⊎◌, inl, inr, Bool, true, false, List, [], ◌∷◌, ◌++◌, Memᴰ,
  Option, none, some, arith, All, All-mem,
}
use haruka_ai.Agent.Model.{AgentStep, StepKind, StepStatus, TaskStatus}
use haruka_ai.AgentService.Route.{
  Selection, selects, stops, Route, to_tool, to_finalize, routed, by_status, by_kind, select_step,
  or_first, is_approved, route_of_kind, route_selection, next_route,
}

abbrev pub is_done : StepStatus → Bool
is_done StepStatus.succeeded = true
is_done StepStatus.rejected = true
is_done StepStatus.skipped = true
is_done _ = false

abbrev pub is_stuck : StepStatus → Bool
is_stuck StepStatus.failed = true
is_stuck StepStatus.execution_unknown = true
is_stuck _ = false

-- Neither the plan's step nor the final one.
abbrev pub does_work : StepKind → Bool
does_work StepKind.plan = false
does_work StepKind.final = false
does_work _ = true

-- A step that the graph has behind it.
abbrev pub Passed : AgentStep → Type 0
Passed s = does_work s.kind ≡ true → is_done s.status ≡ true

-- What a selection of `s` says of the steps.
pub record NextWork (steps : List AgentStep) (s : AgentStep) : Type 0 where
  pub before : List AgentStep
  pub after : List AgentStep
  pub split : steps ≡ before ++ s ∷ after
  pub all_passed : All Passed before
  pub works : does_work s.kind ≡ true
  pub not_done : is_done s.status ≡ false
  pub not_stuck : is_stuck s.status ≡ false

pub record AllPassed (steps : List AgentStep) (s : AgentStep) : Type 0 where
  pub every : All Passed steps
  pub stored : Memᴰ s steps
  pub is_final : s.kind ≡ StepKind.final

-- The same with a final step that was met before.
abbrev Chosen : Option AgentStep → List AgentStep → AgentStep → Type 0
Chosen o l s =
    NextWork l s ⊎ (All Passed l × ((o ≡ some s) ⊎ (Memᴰ s l × (s.kind ≡ StepKind.final))))

onward :
    (o : Option AgentStep) (x : AgentStep) (l : List AgentStep) (s : AgentStep)
    → Passed x
    → Chosen o l s
    → Chosen o (x ∷ l) s
onward o x l s passed (inl w) = inl (record {
  before = x ∷ w.before;
  after = w.after;
  split = ap (◌∷◌ x) w.split;
  all_passed = (passed, w.all_passed);
  works = w.works;
  not_done = w.not_done;
  not_stuck = w.not_stuck;
})
onward o x l s passed (inr (every, inl e)) = inr ((passed, every), inl e)
onward o x l s passed (inr (every, inr (m, f))) = inr ((passed, every), inr (Memᴰ.tail m, f))

final-Passed : (x : AgentStep) → x.kind ≡ StepKind.final → Passed x
final-Passed x final works = absurd (true_false (ap does_work (sym final) ∙ works))
  where
    true_false : ¬ (false ≡ true)
    true_false h = cc

some-injective : {a b : AgentStep} → some a ≡ some b → a ≡ b
some-injective e = ground arith

selects-injective : {a b : AgentStep} → selects (some a) ≡ selects (some b) → a ≡ b
selects-injective e = ground arith

-- A final step is kept for the end.
onward_final :
    (o : Option AgentStep) (x : AgentStep) (l : List AgentStep) (s : AgentStep)
    → x.kind ≡ StepKind.final
    → Chosen (or_first o x) l s
    → Chosen o (x ∷ l) s
unfolding or_first
onward_final (some y) x l s final c = onward (some y) x l s (final-Passed x final) c
onward_final none x l s final (inl w) = onward none x l s (final-Passed x final) (inl w)
onward_final none x l s final (inr (every, inl e)) =
    let same : x ≡ s = some-injective e in
    inr (
      (final-Passed x final, every),
      inr (Memᴰ.head (sym same), ap (λ y. y.kind) (sym same) ∙ final),
    )
onward_final none x l s final (inr (every, inr found)) =
    onward none x l s (final-Passed x final) (inr (every, inr found))

by_status-cases :
    (st : StepStatus) (x s : AgentStep) (rest : Selection)
    → by_status st x rest ≡ selects (some s)
    → ((is_done st ≡ true) × (rest ≡ selects (some s)))
      ⊎ ((x ≡ s) × (is_done st ≡ false) × (is_stuck st ≡ false))
unfolding by_status
by_status-cases StepStatus.succeeded x s rest h = inl (refl, h)
by_status-cases StepStatus.rejected x s rest h = inl (refl, h)
by_status-cases StepStatus.skipped x s rest h = inl (refl, h)
by_status-cases StepStatus.failed x s rest h = cc
by_status-cases StepStatus.execution_unknown x s rest h = cc
by_status-cases StepStatus.pending x s rest h = inr (selects-injective h, refl, refl)
by_status-cases StepStatus.running x s rest h = inr (selects-injective h, refl, refl)
by_status-cases StepStatus.waiting_approval x s rest h = inr (selects-injective h, refl, refl)
by_status-cases StepStatus.approved x s rest h = inr (selects-injective h, refl, refl)

-- A step that does work is passed, or is the one.
work-Chosen :
    (o : Option AgentStep) (x : AgentStep) (l : List AgentStep) (s : AgentStep) (rest : Selection)
    → does_work x.kind ≡ true
    → (rest ≡ selects (some s) → Chosen o l s)
    → by_status x.status x rest ≡ selects (some s)
    → Chosen o (x ∷ l) s
work-Chosen o x l s rest works later h = elim (by_status-cases x.status x s rest h) [
  | inl (done, e) ↦ onward o x l s (λ w. done) (later e)
  | inr (is_s, undone, free) ↦ inl (record {
    before = [];
    after = l;
    split = ap (λ y. y ∷ l) is_s;
    all_passed = tt;
    works = ap (λ y. does_work y.kind) (sym is_s) ∙ works;
    not_done = ap (λ y. is_done y.status) (sym is_s) ∙ undone;
    not_stuck = ap (λ y. is_stuck y.status) (sym is_s) ∙ free;
  })
]

by_kind-Chosen :
    (k : StepKind) (o : Option AgentStep) (x : AgentStep) (l : List AgentStep) (s : AgentStep)
    (rest rest_final : Selection)
    → x.kind ≡ k
    → (rest ≡ selects (some s) → Chosen o l s)
    → (rest_final ≡ selects (some s) → Chosen (or_first o x) l s)
    → by_kind k x rest rest_final ≡ selects (some s)
    → Chosen o (x ∷ l) s
unfolding by_kind
by_kind-Chosen StepKind.plan o x l s rest rest_final e later later_final h =
    onward o x l s (λ works. absurd (true_false (ap does_work (sym e) ∙ works))) (later h)
  where
    true_false : ¬ (false ≡ true)
    true_false k = cc
by_kind-Chosen StepKind.final o x l s rest rest_final e later later_final h =
    onward_final o x l s e (later_final h)
by_kind-Chosen StepKind.tool o x l s rest rest_final e later later_final h =
    work-Chosen o x l s rest (ap does_work e) later h
by_kind-Chosen StepKind.no_kind o x l s rest rest_final e later later_final h =
    work-Chosen o x l s rest (ap does_work e) later h

select_step-Chosen :
    (o : Option AgentStep) (l : List AgentStep) (s : AgentStep)
    → select_step o l ≡ selects (some s)
    → Chosen o l s
unfolding select_step
select_step-Chosen o [] s h = inr (tt, inl (of_selects o h))
  where
    of_selects : (q : Option AgentStep) → selects q ≡ selects (some s) → q ≡ some s
    of_selects q e = ground arith
select_step-Chosen o (x ∷ l) s h =
    by_kind-Chosen x.kind o x l s (select_step o l) (select_step (or_first o x) l) refl
      (select_step-Chosen o l s) (select_step-Chosen (or_first o x) l s) h

selected-cases :
    (steps : List AgentStep) (s : AgentStep)
    → select_step none steps ≡ selects (some s)
    → NextWork steps s ⊎ AllPassed steps s
selected-cases steps s h = elim (select_step-Chosen none steps s h) [
  | inl w ↦ inl w
  | inr (every, found) ↦ elim found [
    | inl e ↦ absurd (none_some e)
    | inr (m, f) ↦ inr (record { every = every; stored = m; is_final = f })
  ]
]
  where
    none_some : ¬ (none ≡ some s)
    none_some k = cc

-- What a route says of the step that it was chosen for.
record Choice (r : Route) (steps : List AgentStep) (s : AgentStep) : Type 0 where
  selected : select_step none steps ≡ selects (some s)
  by_its_kind : r ≡ route_of_kind s.kind s

route_selection-Choice :
    (sel : Selection) (r : Route) (s : AgentStep)
    → route_selection sel ≡ routed r s
    → (sel ≡ selects (some s)) × (r ≡ route_of_kind s.kind s)
unfolding route_selection
route_selection-Choice (stops e) r s h = cc
route_selection-Choice (selects none) r s h = cc
route_selection-Choice (selects (some x)) r s h =
    let same : x ≡ s = ground arith in
    let route : route_of_kind x.kind x ≡ r = ground arith in
    (ap (λ y. selects (some y)) same, sym route ∙ ap (λ y. route_of_kind y.kind y) same)

next_route-parts :
    (st : TaskStatus) (steps : List AgentStep) (r : Route) (s : AgentStep)
    → next_route st steps ≡ routed r s
    → (select_step none steps ≡ selects (some s)) × (r ≡ route_of_kind s.kind s)
unfolding next_route
next_route-parts TaskStatus.pending steps r s h = route_selection-Choice _ r s h
next_route-parts TaskStatus.planning steps r s h = route_selection-Choice _ r s h
next_route-parts TaskStatus.running steps r s h = route_selection-Choice _ r s h
next_route-parts TaskStatus.waiting_approval steps r s h = route_selection-Choice _ r s h
next_route-parts TaskStatus.failed steps r s h = route_selection-Choice _ r s h
next_route-parts TaskStatus.requires_review steps r s h = cc
next_route-parts TaskStatus.succeeded steps r s h = cc
next_route-parts TaskStatus.rejected steps r s h = cc
next_route-parts TaskStatus.cancelled steps r s h = cc

next_route-Choice :
    (st : TaskStatus) (steps : List AgentStep) (r : Route) (s : AgentStep)
    → next_route st steps ≡ routed r s
    → Choice r steps s
next_route-Choice st steps r s h =
    let (a, b) = next_route-parts st steps r s h in record { selected = a; by_its_kind = b }

tool-facts :
    (k : StepKind) (s : AgentStep)
    → to_tool ≡ route_of_kind k s
    → (k ≡ StepKind.tool) × (s.requires_approval ≡ true → is_approved s.approval_decision ≡ true)
unfolding route_of_kind
tool-facts StepKind.tool s h = (refl, λ asks. ground arith)
tool-facts StepKind.plan s h = cc
tool-facts StepKind.final s h = cc
tool-facts StepKind.no_kind s h = cc

finalize-facts :
    (k : StepKind) (s : AgentStep) → to_finalize ≡ route_of_kind k s → ¬ (k ≡ StepKind.tool)
unfolding route_of_kind
finalize-facts StepKind.tool s h e = ground arith
finalize-facts StepKind.plan s h e = cc
finalize-facts StepKind.final s h e = cc
finalize-facts StepKind.no_kind s h e = cc

final-not-tool : (k : StepKind) → k ≡ StepKind.final → ¬ (k ≡ StepKind.tool)
final-not-tool StepKind.final f e = cc
final-not-tool StepKind.tool f e = cc
final-not-tool StepKind.plan f e = cc
final-not-tool StepKind.no_kind f e = cc

-- A step for which the tool node is chosen is a tool's, is approved if it needs to be, and is not
-- done, failed or of unknown outcome; every step before it that is neither plan nor final is done.
pub next_route-tool :
    (st : TaskStatus) (steps : List AgentStep) (s : AgentStep)
    → next_route st steps ≡ routed to_tool s
    → NextWork steps s
      × (s.kind ≡ StepKind.tool)
      × (s.requires_approval ≡ true → is_approved s.approval_decision ≡ true)
next_route-tool st steps s h =
    let c = next_route-Choice st steps to_tool s h in
    let (is_tool, approved) = tool-facts s.kind s c.by_its_kind in
    elim (selected-cases steps s c.selected) [
      | inl w ↦ (w, is_tool, approved)
      | inr final ↦ absurd (final-not-tool s.kind final.is_final is_tool)
    ]

-- The step in the middle of a list stands in it.
middle : (before after : List AgentStep) (s : AgentStep) → Memᴰ s (before ++ s ∷ after)
middle [] after s = Memᴰ.head refl
middle (x ∷ before) after s = Memᴰ.tail (middle before after s)

works-not-tool :
    (k : StepKind) → does_work k ≡ true → ¬ (k ≡ StepKind.no_kind) → ¬ ¬ (k ≡ StepKind.tool)
works-not-tool StepKind.plan w n t = cc
works-not-tool StepKind.final w n t = cc
works-not-tool StepKind.tool w n t = t refl
works-not-tool StepKind.no_kind w n t = n refl

-- The final node is chosen, among steps that all have a kind, for a final step only, and once every
-- tool step has succeeded, been rejected or been skipped.
pub next_route-finalize :
    (st : TaskStatus) (steps : List AgentStep) (s : AgentStep)
    → All (λ x. ¬ (x.kind ≡ StepKind.no_kind)) steps
    → next_route st steps ≡ routed to_finalize s
    → AllPassed steps s
next_route-finalize st steps s kinds h =
    let c = next_route-Choice st steps to_finalize s h in
    elim (selected-cases steps s c.selected) [
      | inl w ↦
          let has_kind =
            All-mem (λ x. ¬ (x.kind ≡ StepKind.no_kind)) steps kinds
              (subst (Memᴰ s) (sym w.split) (middle w.before w.after s)) in
          absurd (works-not-tool s.kind w.works has_kind (finalize-facts s.kind s c.by_its_kind))
      | inr final ↦ final
    ]

-- ===== src/Pipeline/Run/Failure.antt =====
-- Two runs of the same steps, and how a failure spreads through a run.
use mathlib.Core.Path.{subst}
use claude_library.Prelude.{
  ◌≡◌, ◌≢◌, String, refl, ap, sym, ◌∙◌, true, false, none, some, List, [], ◌∷◌, arith,
  if◌then◌else◌, Bool-cases, Option-cases, inl, inr,
}
use claude_library.Prelude.Key.{string_key, ◌=?◌, beq_refl}
use claude_library.Prelude.Dict.{Dict, keys, lookup, contains, contains-lookup}
use claude_library.Prelude.Sets.{elem_of, occurs, IsDistinct}
use claude_library.Pipeline.State.{
  StepStatus, failed, skipped, StepError, skipped_for, dependency_failed, StepResult, StepConfig,
  PipelineExecutor,
}
use claude_library.Pipeline.Sort.{ordered, topological_sort}
use claude_library.Pipeline.Sort.Build.{deps_of}
use claude_library.Pipeline.Sort.Kahn.{IsInOrder}
use claude_library.Pipeline.Sort.Order.{sort-IsSorted}
use claude_library.Pipeline.Run.{check_dependencies, execute_step, is_failed, run}
use claude_library.Pipeline.Run.Results.{after, elem_of-after, execute_step-Agree, deps_of-found}
use claude_library.Pipeline.Run.Outcome.{IsRun, run_settles, in_order_named}

agree_in_order :
    {V : Type 0} (p : PipelineExecutor V) (a b : Dict String (StepResult V)) (seen ns : List String)
    → p.stop_on_first_failure ≡ false
    → IsRun p a
    → IsRun p b
    → IsInOrder (deps_of p.steps) seen ns
    → ((d : String) → elem_of d seen ≡ true → lookup d a ≡ lookup d b)
    → (d : String) → elem_of d (after seen ns) ≡ true
    → lookup d a ≡ lookup d b
unfolding elem_of
agree_in_order p a b seen [] s v w o h = h
agree_in_order {V} p a b seen (n ∷ ns) s v w o h =
    agree_in_order p a b (n ∷ seen) ns s v w o.1 (λ d m. elim (Bool-cases (n =? d)) [
      | inl q ↦ subst (λ k. lookup k a ≡ lookup k b) ((string_key.beq_iff n d).0 q) first
      | inr q ↦ h d (ground (arith, q, m))
    ])
  where
    first : lookup n a ≡ lookup n b
    first = elim (Option-cases (lookup n p.steps)) [
      | inl absent ↦ v.only_steps n absent ∙ sym (w.only_steps n absent)
      | inr (step, found) ↦
          v.complete s n step found
          ∙ ap some (
              execute_step-Agree a b step
                (λ d m. h d (o.0 d (ap (elem_of d) (deps_of-found p.steps n step found) ∙ m))))
          ∙ sym (w.complete s n step found)
    ]

deps_in_order :
    (deps : String → List String) (seen ns : List String) (n d : String)
    → IsInOrder deps seen ns
    → elem_of n ns ≡ true
    → elem_of d (deps n) ≡ true
    → elem_of d (after seen ns) ≡ true
unfolding elem_of
deps_in_order deps seen [] n d o m e = absurd (cc m)
deps_in_order deps seen (x ∷ ns) n d o m e = elim (Bool-cases (x =? n)) [
  | inl q ↦
      let k = o.0 d (ap (λ y. elem_of d (deps y)) ((string_key.beq_iff x n).0 q) ∙ e) in
      ground (arith, elem_of-after d (x ∷ seen) ns, k)
  | inr q ↦ deps_in_order deps (x ∷ seen) ns n d o.1 (ground (arith, q, m)) e
]

lookup-eq {ℓ} :
    {A : Type ℓ} (a b : String) (d : Dict String A) → (a =? b) ≡ true → lookup a d ≡ lookup b d
lookup-eq a b d h = ap (λ k. lookup k d) ((string_key.beq_iff a b).0 h)

-- Where all dependencies have results, a failed one stops the step.
check_failed :
    {V : Type 0} (results : Dict String (StepResult V)) (step : StepConfig V) (ds : List String)
    (d : String) (x : StepResult V)
    → ((c : String) → elem_of c ds ≡ true → (z : StepResult V) × (lookup c results ≡ some z))
    → elem_of d ds ≡ true
    → lookup d results ≡ some x
    → is_failed x.status ≡ true
    → (y : StepResult V) × (check_dependencies results step ds ≡ some y)
      × (y.output ≡ none)
      × (y.status ≡ (if step.skip_on_error then skipped else failed))
unfolding check_dependencies elem_of
check_failed results step [] d x a m g h = absurd (cc m)
check_failed {V} results step (c ∷ ds) d x a m g h =
    let (z, q) = a c (ground (arith, beq_refl c)) in
    elim (Bool-cases (is_failed z.status)) [
      | inl t ↦
          let stopped : StepStatus → StepError → StepResult V = λ status error. record {
            step_name = step.name;
            status = status;
            output = none;
            error = some error;
            retries = 0;
          } in
          elim (Bool-cases step.skip_on_error) [
            | inl k ↦
                (stopped skipped (skipped_for c), ground (arith, q, t, k), refl, ground (arith, k))
            | inr k ↦ (
              stopped failed (dependency_failed c),
              ground (arith, q, t, k),
              refl,
              ground (arith, k),
            )
          ]
      | inr t ↦
          let later : elem_of d ds ≡ true = ground (arith, m, q, t, g, h, lookup-eq c d results) in
          let (y, e, o, k) =
            check_failed results step ds d x (λ b n. a b (ground (arith, n))) later g h in
          (y, ground (arith, q, t, e), o, k)
    ]

elem_of-nil : (d : String) → elem_of d [] ≢ true
unfolding elem_of
elem_of-nil d h = cc h

-- A run that does not stop has a result for each step.
step_result :
    {V : Type 0} (p : PipelineExecutor V) (results : Dict String (StepResult V))
    → p.stop_on_first_failure ≡ false
    → IsRun p results
    → (c : String) → contains c p.steps ≡ true
    → (z : StepResult V) × (lookup c results ≡ some z)
step_result p results s v c h = elim (Option-cases (lookup c p.steps)) [
  | inl e ↦ absurd (ground (arith, contains-lookup c p.steps, h, e))
  | inr (step, e) ↦ (execute_step step results, v.complete s c step e)
]

execute_stopped :
    {V : Type 0} (results : Dict String (StepResult V)) (step : StepConfig V) (y : StepResult V)
    → check_dependencies results step step.depends_on ≡ some y
    → execute_step step results ≡ y
unfolding execute_step
execute_stopped results step y q = ground (arith, q)

-- Where a pipeline is not running, its steps have different names and it does not stop at a failure,
-- two runs whose sorts return an order give every name the same result, in whatever order each
-- visits its sets and the steps of a level end.
pub schedule_independent :
    {V : Type 0} (p : PipelineExecutor V)
    (arrange arrange' schedule schedule' : List String → List String) (order order' : List String)
    → IsDistinct (keys p.steps)
    → p.is_running ≡ false
    → p.stop_on_first_failure ≡ false
    → ((k : String) (xs : List String) → occurs k (arrange xs) ≡ occurs k xs)
    → ((k : String) (xs : List String) → occurs k (arrange' xs) ≡ occurs k xs)
    → ((k : String) (xs : List String) → occurs k (schedule xs) ≡ occurs k xs)
    → ((k : String) (xs : List String) → occurs k (schedule' xs) ≡ occurs k xs)
    → topological_sort arrange p.steps ≡ ordered order
    → topological_sort arrange' p.steps ≡ ordered order'
    → (n : String)
    → lookup n (run arrange schedule p).1.results ≡ lookup n (run arrange' schedule' p).1.results
schedule_independent p arrange arrange' schedule schedule' order order' u i s a a' b b' e e' n =
    let v = (run_settles p u i arrange schedule a b order e).2 in
    let w = (run_settles p u i arrange' schedule' a' b' order' e').2 in
    elim (Bool-cases (contains n p.steps)) [
      | inl c ↦
          agree_in_order p _ _ [] order s v w (sort-IsSorted arrange a p.steps u order e).in_order
            (λ d m. absurd (elem_of-nil d m)) n
            (ground (
              arith,
              elem_of-after n [] order,
              in_order_named p u i arrange schedule a b order e n,
              c,
            ))
      | inr c ↦
          let absent : lookup n p.steps ≡ none = ground (arith, contains-lookup n p.steps, c) in
          v.only_steps n absent ∙ sym (w.only_steps n absent)
    ]

-- Where a pipeline is not running, its steps have different names, it does not stop at a failure and
-- the sort returns an order: if a dependency of a step has failed, the run leaves the step without
-- an output, skipped if the step says so, and else failed.
pub failure_spreads :
    {V : Type 0} (p : PipelineExecutor V) (arrange schedule : List String → List String)
    (order : List String) (n d : String) (step : StepConfig V) (x : StepResult V)
    → IsDistinct (keys p.steps)
    → p.is_running ≡ false
    → p.stop_on_first_failure ≡ false
    → ((k : String) (xs : List String) → occurs k (arrange xs) ≡ occurs k xs)
    → ((k : String) (xs : List String) → occurs k (schedule xs) ≡ occurs k xs)
    → topological_sort arrange p.steps ≡ ordered order
    → lookup n p.steps ≡ some step
    → elem_of d step.depends_on ≡ true
    → let results = (run arrange schedule p).1.results in
      lookup d results ≡ some x
      → is_failed x.status ≡ true
      → (y : StepResult V) × (lookup n results ≡ some y)
        × (y.output ≡ none)
        × (y.status ≡ (if step.skip_on_error then skipped else failed))
failure_spreads p arrange schedule order n d step x u i s a b e f m g h =
    let v = (run_settles p u i arrange schedule a b order e).2 in
    let results = (run arrange schedule p).1.results in
    let named = λ (c : String). in_order_named p u i arrange schedule a b order e c in
    let executed = λ (c : String) (k : elem_of c step.depends_on ≡ true).
      let o : elem_of c order ≡ true = ground (
        arith,
        elem_of-after c [] order,
        deps_in_order (deps_of p.steps) [] order n c
            (sort-IsSorted arrange a p.steps u order e).in_order
            (ground (arith, named n, contains-lookup n p.steps, f))
            (ap (elem_of c) (deps_of-found p.steps n step f) ∙ k),
        elem_of-nil c,
      ) in
      step_result p results s v c (sym (named c) ∙ o) in
    let (y, q, o, k) = check_failed results step step.depends_on d x executed m g h in
    (y, v.complete s n step f ∙ ap some (execute_stopped results step y q), o, k)

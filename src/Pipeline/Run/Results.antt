-- ===== src/Pipeline/Run/Results.antt =====
-- The results of a run, whatever the order in which the steps of a level end.
use claude_library.Prelude.{
  ◌+◌, ◌≤◌, String, ◌≡◌, refl, ap, sym, ◌∙◌, true, false, Option, none, some, List, [], ◌∷◌, arith,
  if◌then◌else◌, inl, inr, Bool-cases,
}
use claude_library.Prelude.Key.{string_key, ◌=?◌, beq_refl}
use claude_library.Prelude.Dict.{Dict, lookup, insert, lookup-insert}
use claude_library.Prelude.Sets.{elem_of, elem_of-eq, occurs, elem_of-occurs}
use claude_library.Pipeline.State.{StepResult, StepConfig}
use claude_library.Pipeline.Sort.Build.{deps_of}
use claude_library.Pipeline.Sort.Kahn.{IsInOrder}
use claude_library.Pipeline.Run.{check_dependencies, kwargs_of, execute_step, run_level}

module _ {V : Type 0} (a b : Dict String (StepResult V)) where
  -- Two sets of results that agree on some names.
  abbrev pub Agree : List String → Type 0
  Agree ds = (d : String) → elem_of d ds ≡ true → lookup d a ≡ lookup d b

  Agree-first : (d : String) (ds : List String) → Agree (d ∷ ds) → lookup d a ≡ lookup d b
  unfolding elem_of
  Agree-first d ds h = h d (ground (arith, beq_refl d))

  Agree-rest : (d : String) (ds : List String) → Agree (d ∷ ds) → Agree ds
  unfolding elem_of
  Agree-rest d ds h x m = h x (ground (arith, m))

  check_dependencies-Agree :
      (step : StepConfig V) (ds : List String)
      → Agree ds
      → check_dependencies a step ds ≡ check_dependencies b step ds
  unfolding check_dependencies
  check_dependencies-Agree step [] h = refl
  check_dependencies-Agree step (d ∷ ds) h =
      ground (arith, Agree-first d ds h, check_dependencies-Agree step ds (Agree-rest d ds h))

  kwargs_of-Agree :
      (ds : List String) (kwargs : Dict String (Option V))
      → Agree ds
      → kwargs_of a ds kwargs ≡ kwargs_of b ds kwargs
  unfolding kwargs_of
  kwargs_of-Agree [] kwargs h = refl
  kwargs_of-Agree (d ∷ ds) kwargs h =
      rw (Agree-first d ds h) (kwargs_of-Agree ds _ (Agree-rest d ds h))

  pub execute_step-Agree :
      (step : StepConfig V) → Agree step.depends_on → execute_step step a ≡ execute_step step b
  unfolding execute_step
  execute_step-Agree step h =
      ground (
        arith,
        check_dependencies-Agree step step.depends_on h,
        kwargs_of-Agree step.depends_on [] h,
      )

pub some_inj {ℓ} : {A : Type ℓ} (x y : A) → some x ≡ some y → x ≡ y
some_inj x y e = cc e

-- The names of a list, after those seen before.
abbrev pub after : List String → List String → List String
after seen [] = seen
after seen (n ∷ ns) = after (n ∷ seen) ns

pub elem_of-after :
    (d : String) (seen ns : List String)
    → elem_of d (after seen ns) ≡ (if elem_of d ns then true else elem_of d seen)
unfolding elem_of
elem_of-after d seen [] = refl
elem_of-after d seen (n ∷ ns) = ground (arith, elem_of-after d (n ∷ seen) ns)

-- The steps that have run, and their results: each is what the step gives on the results as they are.
pub record IsSettled {V : Type 0} (steps : Dict String (StepConfig V)) (seen : List String)
    (results : Dict String (StepResult V)) : Type 0 where
  pub settled :
      (n : String) (step : StepConfig V)
      → elem_of n seen ≡ true
      → lookup n steps ≡ some step
      → lookup n results ≡ some (execute_step step results)
  pub closed :
      (n d : String)
      → elem_of n seen ≡ true
      → elem_of d (deps_of steps n) ≡ true
      → elem_of d seen ≡ true
  pub fresh : (n : String) → elem_of n seen ≡ false → lookup n results ≡ none

module _ {V : Type 0} (steps : Dict String (StepConfig V)) where
  pub deps_of-found :
      (n : String) (step : StepConfig V)
      → lookup n steps ≡ some step
      → deps_of steps n ≡ step.depends_on
  deps_of-found n step h = ground (arith, h)

  elem_of-deps_of :
      (a b d : String) → (a =? b) ≡ true → elem_of d (deps_of steps a) ≡ elem_of d (deps_of steps b)
  elem_of-deps_of a b d h = ap (λ k. elem_of d (deps_of steps k)) ((string_key.beq_iff a b).0 h)

  module _ (seen : List String) (results : Dict String (StepResult V)) (m : String)
      (new : elem_of m seen ≡ false)
      (ready : (d : String) → elem_of d (deps_of steps m) ≡ true → elem_of d seen ≡ true)
      (v : IsSettled steps seen results) where
    -- A result for a new name changes nothing for steps whose dependencies have run.
    insert_agrees :
        (x : StepResult V) (ds : List String)
        → ((d : String) → elem_of d ds ≡ true → elem_of d seen ≡ true)
        → Agree results (insert m x results) ds
    insert_agrees x ds h d e =
        ground (arith, lookup-insert m d x results, h d e, elem_of-eq m d seen, new)

    seen_deps :
        (n : String) (step : StepConfig V)
        → ((d : String) → elem_of d (deps_of steps n) ≡ true → elem_of d seen ≡ true)
        → lookup n steps ≡ some step
        → (x : StepResult V) → execute_step step results ≡ execute_step step (insert m x results)
    seen_deps n step a found x = execute_step-Agree results (insert m x results) step (
        insert_agrees x step.depends_on
          (λ d e. a d (ap (elem_of d) (deps_of-found n step found) ∙ e)))

    inserted-IsSettled :
        (step : StepConfig V)
        → lookup m steps ≡ some step
        → IsSettled steps (m ∷ seen) (insert m (execute_step step results) results)
    unfolding elem_of
    inserted-IsSettled step found =
        let x = execute_step step results in
        record {
          settled = λ n step' e found'. elim (Bool-cases (m =? n)) [
            | inl q ↦
                let p : step ≡ step' =
                  some_inj step step' (
                    sym found ∙ ap (λ k. lookup k steps) ((string_key.beq_iff m n).0 q) ∙ found') in
                let r : lookup n (insert m x results) ≡ some x =
                  ground (arith, lookup-insert m n x results, q) in
                r
                ∙ ap (λ s. some (execute_step s results)) p
                ∙ ap some (
                    seen_deps m step' ready
                      (ap (λ k. lookup k steps) ((string_key.beq_iff m n).0 q) ∙ found') x)
            | inr q ↦
                let old : elem_of n seen ≡ true = ground (arith, q, e) in
                let r : lookup n (insert m x results) ≡ lookup n results =
                  ground (arith, lookup-insert m n x results, q) in
                r
                ∙ v.settled n step' old found'
                ∙ ap some (seen_deps n step' (λ d k. v.closed n d old k) found' x)
          ];
          closed = λ n d e k. ground (arith, v.closed n d, ready d, elem_of-deps_of m n d);
          fresh = λ n e. ground (arith, lookup-insert m n x results, v.fresh n, e);
        }

    skipped-IsSettled : lookup m steps ≡ none → IsSettled steps (m ∷ seen) results
    unfolding elem_of
    skipped-IsSettled absent = record {
      settled = λ n step e found. elim (Bool-cases (m =? n)) [
        | inl q ↦
            absurd
              (cc (sym absent ∙ ap (λ k. lookup k steps) ((string_key.beq_iff m n).0 q) ∙ found))
        | inr q ↦ v.settled n step (ground (arith, q, e)) found
      ];
      closed = λ n d e k. ground (arith, v.closed n d, ready d, elem_of-deps_of m n d);
      fresh = λ n e. v.fresh n (ground (arith, e));
    }

  -- Names in the order of their dependencies, each once, run one after the other.
  pub run_level-IsSettled :
      (names seen : List String) (results : Dict String (StepResult V))
      → IsInOrder (deps_of steps) seen names
      → ((n : String) → occurs n seen + occurs n names ≤ 1)
      → IsSettled steps seen results
      → IsSettled steps (after seen names) (run_level steps names results)
  unfolding run_level occurs
  run_level-IsSettled [] seen results o u v = v
  run_level-IsSettled (m ∷ names) seen results o u v =
      let new : elem_of m seen ≡ false = ground (arith, u m, beq_refl m, elem_of-occurs m seen) in
      go new (λ r w. run_level-IsSettled names (m ∷ seen) r o.1 (λ n. omega (arith, u n)) w)
        (lookup m steps) refl
    where
      go :
          elem_of m seen ≡ false
          → ((r : Dict String (StepResult V))
              → IsSettled steps (m ∷ seen) r
              → IsSettled steps (after (m ∷ seen) names) (run_level steps names r))
          → (found : Option (StepConfig V)) → lookup m steps ≡ found
          → IsSettled steps (after (m ∷ seen) names) (elim found [
            | none ↦ run_level steps names results
            | some step ↦ run_level steps names (insert m (execute_step step results) results)
          ])
      go new later none e = later results (skipped-IsSettled seen results m new o.0 v e)
      go new later (some step) e = later _ (inserted-IsSettled seen results m new o.0 v step e)

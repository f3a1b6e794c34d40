-- ===== src/Pipeline/Run/Schedule.antt =====
-- A run against its schedule: the levels, one after the other, are one sequence of steps in the order of
-- their dependencies.
use claude_library.Prelude.{
  ◌+◌, String, ◌≡◌, refl, ap, sym, ◌∙◌, Bool, true, false, Option, none, some, List, [], ◌∷◌, ◌++◌,
  ◌&&◌, map, arith, any, inl, inr, Bool-cases,
}
use mathlib.Core.Path.{subst}
use claude_library.Prelude.Key.{string_key, beq_refl}
use claude_library.Prelude.Dict.{Dict, lookup, insert}
use claude_library.Prelude.Sets.{
  elem_of, elem_of-append, occurs, occurs-append, elem_of-occurs, IsDistinct,
}
use claude_library.Pipeline.State.{StepResult, StepConfig}
use claude_library.Pipeline.Sort.Build.{deps_of}
use claude_library.Pipeline.Sort.Kahn.{IsInOrder}
use claude_library.Pipeline.Levels.{flatten, IsLayered}
use claude_library.Pipeline.Run.{execute_step, has_failed, run_level, run_levels}
use claude_library.Pipeline.Run.Results.{after, elem_of-after, IsSettled, run_level-IsSettled}

IsLayered-append :
    (deps : String → List String) (seen : List String) (ls ks : List (List String))
    → IsLayered deps seen (ls ++ ks)
    → IsLayered deps seen ls
IsLayered-append deps seen [] ks h = tt
IsLayered-append deps seen (l ∷ ls) ks h = (h.0, IsLayered-append deps (l ++ seen) ls ks h.1)

-- Names whose dependencies have been seen, before names in order.
IsInOrder-append :
    (deps : String → List String) (seen xs ys : List String)
    → ((n d : String) → elem_of n xs ≡ true → elem_of d (deps n) ≡ true → elem_of d seen ≡ true)
    → IsInOrder deps (after seen xs) ys
    → IsInOrder deps seen (xs ++ ys)
unfolding elem_of
IsInOrder-append deps seen [] ys h o = o
IsInOrder-append deps seen (x ∷ xs) ys h o = (
  (λ d e. h x d (ground (arith, beq_refl x)) e),
  IsInOrder-append deps (x ∷ seen) xs ys (λ n d m e. ground (arith, h n d, m, e)) o,
)

occurs-flatten_append :
    (n : String) (ls ks : List (List String))
    → occurs n (flatten (ls ++ ks)) ≡ occurs n (flatten ls) + occurs n (flatten ks)
unfolding occurs
occurs-flatten_append n [] ks = omega arith
occurs-flatten_append n (l ∷ ls) ks = omega (
  arith,
  occurs-append n l (flatten (ls ++ ks)),
  occurs-append n l (flatten ls),
  occurs-flatten_append n ls ks,
)

module _ (schedule : List String → List String)
    (scheduled : (k : String) (xs : List String) → occurs k (schedule xs) ≡ occurs k xs) where
  elem_of-schedule : (n : String) (l : List String) → elem_of n (schedule l) ≡ elem_of n l
  elem_of-schedule n l =
      ground (arith, scheduled n l, elem_of-occurs n l, elem_of-occurs n (schedule l))

  occurs-scheduled :
      (n : String) (ls : List (List String))
      → occurs n (flatten (map schedule ls)) ≡ occurs n (flatten ls)
  unfolding occurs
  occurs-scheduled n [] = refl
  occurs-scheduled n (l ∷ ls) = omega (
    arith,
    occurs-append n (schedule l) (flatten (map schedule ls)),
    occurs-append n l (flatten ls),
    scheduled n l,
    occurs-scheduled n ls,
  )

  -- The steps in the order in which they end.
  scheduled-IsInOrder :
      (deps : String → List String) (seen seen' : List String) (ls : List (List String))
      → ((d : String) → elem_of d seen ≡ true → elem_of d seen' ≡ true)
      → IsLayered deps seen ls
      → IsInOrder deps seen' (flatten (map schedule ls))
  scheduled-IsInOrder deps seen seen' [] s h = tt
  scheduled-IsInOrder deps seen seen' (l ∷ ls) s h =
      IsInOrder-append deps seen' (schedule l) (flatten (map schedule ls))
        (λ n d m e. s d (h.0 n d (sym (elem_of-schedule n l) ∙ m) e))
        (scheduled-IsInOrder deps (l ++ seen) (after seen' (schedule l)) ls
          (λ d m. ground (
            arith,
            elem_of-after d seen' (schedule l),
            elem_of-schedule d l,
            elem_of-append d l seen,
            s d,
          ))
          h.1)

  module _ {V : Type 0} (steps : Dict String (StepConfig V)) where
    run_level-append :
        (xs ys : List String) (results : Dict String (StepResult V))
        → run_level steps (xs ++ ys) results ≡ run_level steps ys (run_level steps xs results)
    unfolding run_level
    run_level-append [] ys results = refl
    run_level-append (x ∷ xs) ys results = go (lookup x steps) (run_level-append xs ys)
      where
        go :
            (found : Option (StepConfig V))
            → ((r : Dict String (StepResult V))
                → run_level steps (xs ++ ys) r ≡ run_level steps ys (run_level steps xs r))
            → elim found [
              | none ↦ run_level steps (xs ++ ys) results
              | some step ↦
                  run_level steps (xs ++ ys) (insert x (execute_step step results) results)
            ]
              ≡ run_level steps ys (elim found [
                | none ↦ run_level steps xs results
                | some step ↦ run_level steps xs (insert x (execute_step step results) results)
              ])
        go none h = h results
        go (some step) h = h (insert x (execute_step step results) results)

    -- A run is a run of the steps of its first levels, in one sequence; of all, if it does not stop.
    run_levels_prefix :
        (stop : Bool) (ls : List (List String)) (results : Dict String (StepResult V))
        → (ks : List (List String)) × (rest : List (List String)) × (ls ≡ ks ++ rest)
          × (run_levels steps schedule stop ls results
              ≡ run_level steps (flatten (map schedule ks)) results)
          × (stop ≡ false → ks ≡ ls)
    unfolding run_levels run_level
    run_levels_prefix stop [] results = ([], [], refl, refl, λ e. refl)
    run_levels_prefix stop (l ∷ ls) results =
        let results' = run_level steps (schedule l) results in
        let (ks, rest, e, q, f) = run_levels_prefix stop ls results' in
        elim (Bool-cases (stop && any (has_failed steps results') l)) [
          | inl t ↦ (
            l ∷ [],
            ls,
            refl,
            ground (arith, t, run_level-append (schedule l) [] results),
            λ h. absurd (ground (arith, t, h)),
          )
          | inr n ↦ (
            l ∷ ks,
            rest,
            ap (λ x. l ∷ x) e,
            ground (arith, n, q, run_level-append (schedule l) (flatten (map schedule ks)) results),
            λ h. ap (λ x. l ∷ x) (f h),
          )
        ]

    -- The steps that a run has run, and what their results are.
    pub run_levels-IsSettled :
        (stop : Bool) (order : List String) (ls : List (List String))
        → IsDistinct order
        → IsLayered (deps_of steps) [] ls
        → ((n : String) → occurs n (flatten ls) ≡ occurs n order)
        → (seen : List String) × IsSettled steps seen (run_levels steps schedule stop ls [])
          × ((n : String) → elem_of n seen ≡ true → elem_of n order ≡ true)
          × (stop ≡ false → (n : String) → elem_of n order ≡ true → elem_of n seen ≡ true)
    unfolding occurs elem_of lookup
    run_levels-IsSettled stop order ls u h c =
        let (ks, rest, e, q, f) = run_levels_prefix stop ls [] in
        let flat = flatten (map schedule ks) in
        let o =
          scheduled-IsInOrder (deps_of steps) [] [] ks (λ d m. m)
            (IsLayered-append (deps_of steps) [] ks rest
              (subst (IsLayered (deps_of steps) []) e h)) in
        let v =
          run_level-IsSettled steps flat [] [] o
            (λ n. omega (
              arith,
              occurs-scheduled n ks,
              occurs-flatten_append n ks rest,
              ap (λ x. occurs n (flatten x)) e,
              c n,
              u n,
            ))
            (record {
              settled = λ n step m found. absurd (cc m);
              closed = λ n d m x. absurd (cc m);
              fresh = λ n m. refl;
            }) in
        (
          after [] flat,
          subst (IsSettled steps (after [] flat)) (sym q) v,
          λ n m. ground (
            arith,
            elem_of-after n [] flat,
            occurs-scheduled n ks,
            elem_of-occurs n flat,
            elem_of-occurs n order,
            c n,
            occurs-flatten_append n ks rest,
            ap (λ x. occurs n (flatten x)) e,
          ),
          λ s n m. ground (
            arith,
            elem_of-after n [] flat,
            occurs-scheduled n ks,
            elem_of-occurs n flat,
            elem_of-occurs n order,
            c n,
            ap (λ x. occurs n (flatten x)) (f s),
          ),
        )

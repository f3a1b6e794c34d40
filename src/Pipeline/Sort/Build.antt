-- ===== src/Pipeline/Sort/Build.antt =====
-- The graph that the steps are turned into: its edges are the dependencies, and the degree of a name
-- is the number of its dependencies.
use mathlib.Core.Path.{subst}
use claude_library.Prelude.{
  ℕ, ◌+◌, String, ◌≡◌, refl, ap, sym, ◌∙◌, Bool, true, false, none, some, List, [], ◌∷◌, arith,
  ◌==◌, if◌then◌else◌, length, All, inl, inr, Bool-cases,
}
use claude_library.Prelude.Key.{string_key, ◌=?◌, beq_refl}
use claude_library.Prelude.Dict.{Dict, keys, lookup, contains}
use claude_library.Prelude.Sets.{
  elem_of, occurs, IsDistinct, elem_of-occurs, occurs-eq, IsDistinct-rest, IsDistinct-first,
}
use claude_library.Pipeline.State.{StepConfig}
use claude_library.Pipeline.Sort.{
  Degrees, Built, built, missing, successors, degree, add_edge, add_edges, add_steps, no_edges,
  free_names,
}
use claude_library.Pipeline.Sort.Edges.{
  IsExtended, add_edge-IsExtended, All-elem_of, contains-elem_of, missing_inj, built_inj, if_built,
  elim_built, IsExtended-refl, IsExtended-trans,
}

module _ {V : Type 0} where
  -- `step.depends_on` of the step with a name.
  abbrev pub deps_of : Dict String (StepConfig V) → String → List String
  deps_of steps n = elim (lookup n steps) [ none ↦ [] | some step ↦ step.depends_on ]

  add_edges-IsExtended :
      (steps : Dict String (StepConfig V)) (name : String) (deps : List String) (g g' : Degrees)
      → elem_of name (keys g.in_degree) ≡ true
      → add_edges steps name deps g ≡ built g'
      → IsExtended
          (λ d n. if name =? n then elem_of d deps else false)
          (λ n. if name =? n then length deps else 0)
          g
          g'
        × All (λ d. contains d steps ≡ true) deps
  unfolding add_edges elem_of
  add_edges-IsExtended steps name [] g g' h e = (
    IsExtended-trans (λ d n. false) (λ d n. false) _ (λ n. 0) (λ n. 0) _ g g g'
        (λ d n. ground arith) (λ n. ground arith) (IsExtended-refl g)
        (subst (IsExtended (λ d n. false) (λ n. 0) g) (built_inj g g' e) (IsExtended-refl g)),
    tt,
  )
  add_edges-IsExtended steps name (dep ∷ deps) g g' h e =
      let g'' = add_edge name dep g in
      let x = add_edge-IsExtended name dep g h in
      let c = if_built (contains dep steps) (add_edges steps name deps g'') name dep g' e in
      let r = add_edges-IsExtended steps name deps g'' g' (ap (elem_of name) x.names ∙ h) c.1 in
      (
        IsExtended-trans _ _ _ _ _ _ g g'' g' (λ d n. ground arith) (λ n. ground arith) x r.0,
        (c.0, r.1),
      )

  -- Whether some step of a name has the dependency, and how many dependencies the steps of a name have.
  has_edge : Dict String (StepConfig V) → String → String → Bool
  has_edge [] d n = false
  has_edge ((name, step) ∷ rest) d n =
      if (if name =? n then elem_of d step.depends_on else false) then true else has_edge rest d n

  edges_of : Dict String (StepConfig V) → String → ℕ
  edges_of [] n = 0
  edges_of ((name, step) ∷ rest) n =
      (if name =? n then length step.depends_on else 0) + edges_of rest n

  -- Every dependency of every step is a step.
  pub AllKnown : Dict String (StepConfig V) → Dict String (StepConfig V) → Type 0
  AllKnown steps [] = Unit
  AllKnown steps ((name, step) ∷ rest) =
      All (λ d. contains d steps ≡ true) step.depends_on × AllKnown steps rest

  add_steps-IsExtended :
      (steps rest : Dict String (StepConfig V)) (g g' : Degrees)
      → ((n : String) → elem_of n (keys rest) ≡ true → elem_of n (keys g.in_degree) ≡ true)
      → add_steps steps rest g ≡ built g'
      → IsExtended (has_edge rest) (edges_of rest) g g' × AllKnown steps rest
  unfolding add_steps has_edge edges_of AllKnown elem_of
  add_steps-IsExtended steps [] g g' h e =
      (subst (IsExtended (λ d n. false) (λ n. 0) g) (built_inj g g' e) (IsExtended-refl g), tt)
  add_steps-IsExtended steps ((name, step) ∷ rest) g g' h e =
      let (g'', e', e'') =
        elim_built (add_edges steps name step.depends_on g) (λ w. add_steps steps rest w) g' e in
      let (x, k) =
        add_edges-IsExtended steps name step.depends_on g g''
          (h name (ground (arith, beq_refl name))) e' in
      let r =
        add_steps-IsExtended steps rest g'' g'
          (λ n m. ap (elem_of n) x.names ∙ h n (ground (arith, m))) e'' in
      (IsExtended-trans _ _ _ _ _ _ g g'' g' (λ d n. refl) (λ n. refl) x r.0, (k, r.1))

  has_edge-absent :
      (steps : Dict String (StepConfig V)) (d n : String)
      → occurs n (keys steps) ≡ 0
      → has_edge steps d n ≡ false
  unfolding has_edge occurs
  has_edge-absent [] d n h = refl
  has_edge-absent ((name, step) ∷ rest) d n h = ground (arith, has_edge-absent rest d n)

  edges_of-absent :
      (steps : Dict String (StepConfig V)) (n : String)
      → occurs n (keys steps) ≡ 0
      → edges_of steps n ≡ 0
  unfolding edges_of occurs
  edges_of-absent [] n h = refl
  edges_of-absent ((name, step) ∷ rest) n h = ground (arith, edges_of-absent rest n)

  add_edges_missing :
      (steps : Dict String (StepConfig V)) (name : String) (deps : List String) (g : Degrees)
      (n d : String)
      → add_edges steps name deps g ≡ missing n d
      → (name ≡ n) × (elem_of d deps ≡ true) × (contains d steps ≡ false)
  unfolding add_edges elem_of
  add_edges_missing steps name [] g n d e = absurd (cc e)
  add_edges_missing steps name (dep ∷ deps) g n d e = elim (Bool-cases (contains dep steps)) [
    | inl c ↦
        let r =
          add_edges_missing steps name deps (add_edge name dep g) n d (ground (arith, c, e)) in
        (r.0, ground (arith, r.1), r.2)
    | inr c ↦
        let q : missing name dep ≡ missing n d = ground (arith, c, e) in
        (
          cc q,
          ground (arith, missing_inj name dep n d q, string_key.beq_iff dep d),
          ap (λ x. contains x steps) (sym (missing_inj name dep n d q)) ∙ c,
        )
  ]

  add_steps_missing :
      (steps rest : Dict String (StepConfig V)) (g : Degrees) (n d : String)
      → add_steps steps rest g ≡ missing n d
      → (has_edge rest d n ≡ true) × (contains d steps ≡ false)
  unfolding add_steps has_edge
  add_steps_missing steps [] g n d e = absurd (cc e)
  add_steps_missing steps ((name, step) ∷ rest) g n d e =
      go (add_edges steps name step.depends_on g) refl e
        (λ g' q. add_steps_missing steps rest g' n d q)
    where
      go :
          (b : Built)
          → add_edges steps name step.depends_on g ≡ b
          → elim b [ built g' ↦ add_steps steps rest g' | missing m c ↦ missing m c ] ≡ missing n d
          → ((g' : Degrees)
              → add_steps steps rest g' ≡ missing n d
              → (has_edge rest d n ≡ true) × (contains d steps ≡ false))
          → (has_edge ((name, step) ∷ rest) d n ≡ true) × (contains d steps ≡ false)
      go (built g') q e' later = let r = later g' e' in (ground (arith, r.0), r.1)
      go (missing m c) q e' later =
          let r = add_edges_missing steps name step.depends_on g n d (q ∙ e') in
          (ground (arith, r.1, string_key.beq_iff name n, r.0), r.2)

  -- In a dict no name stands twice.
  has_edge-deps_of :
      (steps : Dict String (StepConfig V)) (d n : String)
      → IsDistinct (keys steps)
      → has_edge steps d n ≡ elem_of d (deps_of steps n)
  unfolding has_edge lookup elem_of
  has_edge-deps_of [] d n h = refl
  has_edge-deps_of ((name, step) ∷ rest) d n h = ground (
    arith,
    has_edge-deps_of rest d n (IsDistinct-rest name (keys rest) h),
    IsDistinct-first name (keys rest) h,
    occurs-eq name n (keys rest),
    has_edge-absent rest d n,
  )

  edges_of-deps_of :
      (steps : Dict String (StepConfig V)) (n : String)
      → IsDistinct (keys steps)
      → edges_of steps n ≡ length (deps_of steps n)
  unfolding edges_of lookup
  edges_of-deps_of [] n h = refl
  edges_of-deps_of ((name, step) ∷ rest) n h = ground (
    arith,
    edges_of-deps_of rest n (IsDistinct-rest name (keys rest) h),
    IsDistinct-first name (keys rest) h,
    occurs-eq name n (keys rest),
    edges_of-absent rest n,
  )

  no_edges_lem :
      (steps : Dict String (StepConfig V))
      → ((d : String) → successors d (no_edges steps).graph ≡ [])
        × ((n : String) → degree n (no_edges steps).in_degree ≡ 0)
        × (keys (no_edges steps).in_degree ≡ keys steps)
  unfolding no_edges successors degree lookup
  no_edges_lem [] = (λ d. refl, λ n. refl, refl)
  no_edges_lem ((name, step) ∷ rest) =
      let (s, d, k) = no_edges_lem rest in
      (λ m. ground (arith, s m), λ n. ground (arith, d n), cc k)

  -- The error names a step and a dependency of it that is no step.
  pub add_steps-missing :
      (steps : Dict String (StepConfig V)) (g : Degrees) (n d : String)
      → IsDistinct (keys steps)
      → add_steps steps steps g ≡ missing n d
      → (elem_of d (deps_of steps n) ≡ true) × (contains d steps ≡ false)
  add_steps-missing steps g n d h e =
      let r = add_steps_missing steps steps g n d e in
      (sym (has_edge-deps_of steps d n h) ∙ r.0, r.1)

  deps_of_named :
      (steps : Dict String (StepConfig V)) (d n : String)
      → elem_of d (deps_of steps n) ≡ true
      → elem_of n (keys steps) ≡ true
  unfolding lookup elem_of
  deps_of_named [] d n h = cc
  deps_of_named ((name, step) ∷ rest) d n h = ground (arith, deps_of_named rest d n)

  known_deps :
      (steps rest : Dict String (StepConfig V)) (d n : String)
      → AllKnown steps rest
      → elem_of d (deps_of rest n) ≡ true
      → contains d steps ≡ true
  unfolding AllKnown lookup elem_of
  known_deps steps [] d n k h = absurd (cc h)
  known_deps steps ((name, step) ∷ rest) d n k h = ground (
    arith,
    known_deps steps rest d n k.1,
    λ (q : elem_of d step.depends_on ≡ true).
        All-elem_of (λ x. contains x steps ≡ true) step.depends_on d k.0 q,
  )

  -- What the code has built when it goes on to the loop.
  pub record IsBuilt (steps : Dict String (StepConfig V)) (g : Degrees) : Type 0 where
    pub edges : (d n : String) → elem_of n (successors d g.graph) ≡ elem_of d (deps_of steps n)
    pub distinct : (d : String) → IsDistinct (successors d g.graph)
    pub named : (d n : String) → elem_of d (deps_of steps n) ≡ true → elem_of n (keys steps) ≡ true
    pub degrees : (n : String) → degree n g.in_degree ≡ length (deps_of steps n)
    pub names : keys g.in_degree ≡ keys steps
    pub known : (d n : String) → elem_of d (deps_of steps n) ≡ true → elem_of d (keys steps) ≡ true

  pub add_steps-IsBuilt :
      (steps : Dict String (StepConfig V)) (g : Degrees)
      → IsDistinct (keys steps)
      → add_steps steps steps (no_edges steps) ≡ built g
      → IsBuilt steps g
  unfolding occurs elem_of
  add_steps-IsBuilt steps g h e =
      let (s, d, k) = no_edges_lem steps in
      let (x, a) =
        add_steps-IsExtended steps steps (no_edges steps) g (λ n m. ap (elem_of n) k ∙ m) e in
      record {
        edges =
            λ c n. ground (arith, x.edges c n, has_edge-deps_of steps c n h, ap (elem_of n) (s c));
        distinct = x.distinct (λ c n. ground (arith, ap (occurs n) (s c)));
        named = deps_of_named steps;
        degrees = λ n. omega (arith, x.degrees n, d n, edges_of-deps_of steps n h);
        names = x.names ∙ k;
        known = λ c n m. sym (contains-elem_of c steps) ∙ known_deps steps steps c n a m;
      }

pub occurs-free_names :
    (n : String) (d : Dict String ℕ)
    → IsDistinct (keys d)
    → occurs n (free_names d)
      ≡ (if elem_of n (keys d) then (if degree n d == 0 then 1 else 0) else 0)
unfolding free_names occurs elem_of degree lookup
occurs-free_names n [] h = refl
occurs-free_names n ((name, k) ∷ d) h = ground (
  arith,
  occurs-free_names n d (IsDistinct-rest name (keys d) h),
  IsDistinct-first name (keys d) h,
  occurs-eq name n (keys d),
  elem_of-occurs n (keys d),
)

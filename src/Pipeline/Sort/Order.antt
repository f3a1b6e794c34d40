-- ===== src/Pipeline/Sort/Order.antt =====
-- What `_topological_sort` returns, for every order in which Python visits a set.
use mathlib.Core.Path.{subst}
use claude_library.Prelude.{
  ℕ, zero, suc, ◌+◌, ◌<◌, String, ◌≡◌, ◌≢◌, refl, ap, sym, ◌∙◌, true, false, List, [], ◌∷◌, arith,
  ◌==◌, if◌then◌else◌, length, All, ◌⊎◌, inl, inr, Bool-cases,
}
use claude_library.Prelude.Key.{string_key}
use claude_library.Prelude.Dict.{Dict, keys, contains}
use claude_library.Prelude.Sets.{
  elem_of, occurs, IsDistinct, overlap, elem_of-occurs, overlap_full, overlap-All, overlap_twice,
  overlap_within, length_within, All-occurs,
}
use claude_library.Pipeline.State.{StepConfig}
use claude_library.Pipeline.Sort.{
  ordered, unknown_dependency, circular, out_of_fuel, Degrees, Built, built, missing, add_steps,
  no_edges, free_names, topological_sort,
}
use claude_library.Pipeline.Sort.Build.{
  deps_of, IsBuilt, add_steps-IsBuilt, add_steps-missing, occurs-free_names,
}
use claude_library.Pipeline.Sort.Edges.{contains-elem_of}
use claude_library.Pipeline.Sort.Kahn.{IsLoop, IsInOrder, kahn_ends}

-- Each step stands in the order once, and after all its dependencies.
pub record IsSorted {V : Type 0} (steps : Dict String (StepConfig V)) (order : List String)
    : Type 0 where
  pub in_order : IsInOrder (deps_of steps) [] order
  pub each : (n : String) → occurs n order ≡ (if contains n steps then 1 else 0)

length-keys {ℓ} : {A : Type ℓ} (d : Dict String A) → length (keys d) ≡ length d
length-keys [] = refl
length-keys ((k, v) ∷ d) = ap suc (length-keys d)

ordered_inj : (a b : List String) → ordered a ≡ ordered b → a ≡ b
ordered_inj a b e = cc e

if_ordered :
    (a b : ℕ) (r order : List String)
    → (if a == b then ordered r else circular) ≡ ordered order
    → (a ≡ b) × (r ≡ order)
if_ordered a b r order e = elim (Bool-cases (a == b)) [
  | inl q ↦ (ground (arith, q), ordered_inj r order (ground (arith, q, e)))
  | inr q ↦ absurd (ground (arith, q, e))
]

module _ {V : Type 0} (arrange : List String → List String)
    (arranged : (k : String) (xs : List String) → occurs k (arrange xs) ≡ occurs k xs)
    (steps : Dict String (StepConfig V)) (h : IsDistinct (keys steps)) where
  -- The state in which the loop starts is a state of the loop.
  start-IsLoop :
      (g : Degrees)
      → IsBuilt steps g
      → IsLoop (keys steps) (deps_of steps) g.in_degree (free_names g.in_degree) []
  unfolding occurs overlap
  start-IsLoop g b =
      let f = λ (n : String). occurs-free_names n g.in_degree (subst IsDistinct (sym b.names) h) in
      let k = λ (n : String). ap (elem_of n) b.names in
      record {
        once = λ n. ground (arith, f n);
        named = λ n m. ground (arith, f n, k n);
        balance = λ n. ground (arith, b.degrees n);
        ready = λ n m z. ground (arith, f n, k n);
        done = λ n m. ground (arith, f n);
        order = tt;
      }

  -- Either a dependency is unknown, or the loop has ended and its result is judged by its length.
  sort_cases :
      ((n : String) × (d : String) × (topological_sort arrange steps ≡ unknown_dependency n d)
        × (elem_of d (deps_of steps n) ≡ true)
        × (contains d steps ≡ false))
      ⊎ ((g : Degrees) × (degrees : Dict String ℕ) × (r : List String) × IsBuilt steps g
          × IsLoop (keys steps) (deps_of steps) degrees [] r
          × (topological_sort arrange steps
              ≡ (if length r == length steps then ordered r else circular)))
  unfolding topological_sort
  sort_cases = go (add_steps steps steps (no_edges steps)) refl
    where
      go :
          (b : Built)
          → add_steps steps steps (no_edges steps) ≡ b
          → ((n : String) × (d : String) × (topological_sort arrange steps ≡ unknown_dependency n d)
              × (elem_of d (deps_of steps n) ≡ true)
              × (contains d steps ≡ false))
            ⊎ ((g : Degrees) × (degrees : Dict String ℕ) × (r : List String) × IsBuilt steps g
                × IsLoop (keys steps) (deps_of steps) degrees [] r
                × (topological_sort arrange steps
                    ≡ (if length r == length steps then ordered r else circular)))
      go (missing n d) e =
          let m = add_steps-missing steps (no_edges steps) n d h e in
          inl (n, d, ground (arith, e), m.0, m.1)
      go (built g) e =
          let b = add_steps-IsBuilt steps g h e in
          let (degrees, r, q, l) =
            kahn_ends arrange arranged (keys steps) (deps_of steps) g.graph
              (record { edges = b.edges; distinct = b.distinct; named = b.named }) (length steps)
              g.in_degree (free_names g.in_degree) [] (start-IsLoop g b)
              (omega (arith, length-keys steps)) in
          inr (g, degrees, r, b, l, ground (arith, e, q))

  module _ (degrees : Dict String ℕ) (r : List String)
      (l : IsLoop (keys steps) (deps_of steps) degrees [] r) where
    result-IsDistinct : IsDistinct r
    unfolding occurs
    result-IsDistinct n = omega (arith, l.once n)

    result_within : All (λ n. elem_of n (keys steps) ≡ true) r
    result_within = All-occurs (keys steps) r (λ n o. l.named n (omega (arith, o)))

    all_in_result :
        length r ≡ length steps → (n : String) → elem_of n (keys steps) ≡ true → elem_of n r ≡ true
    all_in_result e n =
        overlap_full r (keys steps) n result-IsDistinct
          (omega (arith, overlap_within r (keys steps) result_within, length-keys steps))

    result-IsSorted : length r ≡ length steps → IsSorted steps r
    unfolding occurs
    result-IsSorted e = record {
      in_order = l.order;
      each = λ n. ground (
        arith,
        contains-elem_of n steps,
        all_in_result e n,
        elem_of-occurs n r,
        l.once n,
        l.named n,
      );
    }

    -- A name is in the result if all its dependencies are.
    deps_in_result :
        (n : String)
        → elem_of n (keys steps) ≡ true
        → IsDistinct (deps_of steps n)
        → ((d : String) → elem_of d (deps_of steps n) ≡ true → elem_of d r ≡ true)
        → elem_of n r ≡ true
    unfolding occurs
    deps_in_result n m u a =
        let o = overlap-All r (deps_of steps n) u (
          All-occurs r (deps_of steps n)
            (λ d o. a d (ground (arith, o, elem_of-occurs d (deps_of steps n))))) in
        ground (arith, o, l.balance n, l.ready n m, elem_of-occurs n r)

    -- By induction on the rank of a name.
    ranked_in_result :
        (rank : String → ℕ)
        → ((d n : String) → elem_of d (deps_of steps n) ≡ true → rank d < rank n)
        → ((n : String) → IsDistinct (deps_of steps n))
        → ((d n : String) → elem_of d (deps_of steps n) ≡ true → elem_of d (keys steps) ≡ true)
        → (k : ℕ) (n : String) → rank n < k
        → elem_of n (keys steps) ≡ true
        → elem_of n r ≡ true
    ranked_in_result rank a u w zero n b m = absurd (omega arith)
    ranked_in_result rank a u w (suc k) n b m =
        deps_in_result n m (u n)
          (λ d o. ranked_in_result rank a u w k d (omega (arith, a d n o)) (w d n o))

    all_ranked_length :
        ((n : String) → elem_of n (keys steps) ≡ true → elem_of n r ≡ true)
        → length r ≡ length steps
    all_ranked_length a =
        let v = length_within r (keys steps) result-IsDistinct result_within in
        let w = overlap_within r (keys steps) result_within in
        let o = overlap-All r (keys steps) h (
          All-occurs r (keys steps)
            (λ n o. a n (ground (arith, o, elem_of-occurs n (keys steps))))) in
        omega (arith, v, w, o, length-keys steps)

    -- What a full result says of the dependencies of a step.
    full_overlap :
        length r ≡ length steps
        → (n : String) → elem_of n (keys steps) ≡ true
        → overlap r (deps_of steps n) ≡ length (deps_of steps n)
    unfolding occurs
    full_overlap e n m =
        ground (arith, all_in_result e n m, elem_of-occurs n r, l.done n, l.balance n)

  -- For steps of different names, and in whatever order a set is visited, the sort comes to an end:
  -- the loop takes no more rounds than there are steps.
  pub sort_terminates : topological_sort arrange steps ≢ out_of_fuel
  sort_terminates e = elim sort_cases [
    | inl (n, d, q, m, c) ↦ cc (e, q)
    | inr (g, degrees, r, b, l, q) ↦ ground (arith, e, q)
  ]

  -- For steps of different names, and in whatever order a set is visited, an order that the sort
  -- returns has each step once, after all the steps that it depends on.
  pub sort-IsSorted :
      (order : List String) → topological_sort arrange steps ≡ ordered order → IsSorted steps order
  sort-IsSorted order e = elim sort_cases [
    | inl (n, d, q, m, c) ↦ absurd (cc (e, q))
    | inr (g, degrees, r, b, l, q) ↦
        let (f, p) = if_ordered (length r) (length steps) r order (sym q ∙ e) in
        subst (IsSorted steps) p (result-IsSorted degrees r l f)
  ]

  -- For steps of different names, and in whatever order a set is visited: where a rank of the names
  -- grows from each dependency to its step, no step lists a dependency twice, and all dependencies
  -- are steps, the sort returns an order.
  pub acyclic_sorts :
      (rank : String → ℕ)
      → ((d n : String) → elem_of d (deps_of steps n) ≡ true → rank d < rank n)
      → ((n : String) → IsDistinct (deps_of steps n))
      → ((d n : String) → elem_of d (deps_of steps n) ≡ true → contains d steps ≡ true)
      → (order : List String) × (topological_sort arrange steps ≡ ordered order)
  acyclic_sorts rank a u w = elim sort_cases [
    | inl (n, d, q, m, c) ↦ absurd (cc (w d n m, c))
    | inr (g, degrees, r, b, l, q) ↦
        let f =
          all_ranked_length degrees r l
            (λ n m. ranked_in_result degrees r l rank a u b.known (rank n + 1) n (omega arith) m) in
        (r, ground (arith, q, f))
  ]

  -- For steps of different names, and in whatever order a set is visited: where a step lists one
  -- dependency twice, the sort returns no order.
  pub duplicates_never_sort :
      (n d : String)
      → contains n steps ≡ true
      → 1 < occurs d (deps_of steps n)
      → (order : List String) → topological_sort arrange steps ≢ ordered order
  duplicates_never_sort n d c o order e = elim sort_cases [
    | inl (m, x, q, k, f) ↦ cc (e, q)
    | inr (g, degrees, r, b, l, q) ↦
        let (f, p) = if_ordered (length r) (length steps) r order (sym q ∙ e) in
        omega (
          arith,
          full_overlap degrees r l f n (sym (contains-elem_of n steps) ∙ c),
          overlap_twice r (deps_of steps n) d (result-IsDistinct degrees r l) o,
        )
  ]

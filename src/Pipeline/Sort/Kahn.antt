-- ===== src/Pipeline/Sort/Kahn.antt =====
-- The loop of Kahn's algorithm, for any graph whose edges are the dependencies: it ends within as many
-- rounds as there are steps, and its result is in the order of the dependencies.
use claude_library.Prelude.{
  ℕ, zero, suc, ◌+◌, ◌-◌, ◌≤◌, String, ◌≡◌, refl, ap, true, some, List, [], ◌∷◌, ◌++◌, arith, ◌==◌,
  if◌then◌else◌, length, length-append, ◌⊎◌, inr,
}
use claude_library.Prelude.Key.{string_key, ◌=?◌, beq_refl}
use claude_library.Prelude.Dict.{Dict, insert, lookup-insert}
use claude_library.Prelude.Sets.{
  elem_of, occurs, IsDistinct, overlap, occurs-append, overlap-append, elem_of-occurs, occurs-eq,
  overlap-le, overlap_full, IsDistinct-rest, IsDistinct-first, length_within, All-occurs,
}
use claude_library.Pipeline.Sort.{successors, degree, relax, kahn}

degree-insert :
    (n m : String) (k : ℕ) (d : Dict String ℕ)
    → degree m (insert n k d) ≡ (if n =? m then k else degree m d)
unfolding degree
degree-insert n m k d = ground (arith, lookup-insert n m k d)

degree-eq : (n m : String) (d : Dict String ℕ) → (n =? m) ≡ true → degree n d ≡ degree m d
degree-eq n m d h = ap (λ k. degree k d) ((string_key.beq_iff n m).0 h)

relax_degrees :
    (n : String) (ns : List String) (degrees : Dict String ℕ)
    → IsDistinct (n ∷ ns)
    → ((k : String) → 1 ≤ occurs k (n ∷ ns) → 1 ≤ degree k degrees)
    → (k : String) → 1 ≤ occurs k ns
    → 1 ≤ degree k (insert n (degree n degrees - 1) degrees)
unfolding occurs
relax_degrees n ns degrees h p k c = ground (
  arith,
  degree-insert n k (degree n degrees - 1) degrees,
  IsDistinct-first n ns h,
  occurs-eq n k ns,
  p k,
)

-- One round lowers the degree of each neighbour by one and queues those that come to zero.
relax_lem :
    (ns : List String) (degrees : Dict String ℕ) (queue : List String) (m : String)
    → IsDistinct ns
    → ((k : String) → 1 ≤ occurs k ns → 1 ≤ degree k degrees)
    → let (degrees', queue') = relax ns degrees queue in
      (degree m degrees' + occurs m ns ≡ degree m degrees)
      × (occurs m queue' ≡ occurs m queue + (if degree m degrees' == 0 then occurs m ns else 0))
unfolding relax occurs
relax_lem [] degrees queue m h p = ground arith
relax_lem (n ∷ ns) degrees queue m h p =
    let degrees' = insert n (degree n degrees - 1) degrees in
    let queue' = if degree n degrees' == 0 then queue ++ n ∷ [] else queue in
    ground (
      arith,
      degree-insert n m (degree n degrees - 1) degrees,
      degree-insert n n (degree n degrees - 1) degrees,
      beq_refl n,
      IsDistinct-first n ns h,
      occurs-eq n m ns,
      occurs-append m queue (n ∷ []),
      p n,
      degree-eq n m degrees,
      degree-eq n m degrees',
      relax_lem ns degrees' queue' m (IsDistinct-rest n ns h) (relax_degrees n ns degrees h p),
    )

-- Each name of the list has all its dependencies before it, in the list or among the names seen.
abbrev pub IsInOrder : (String → List String) → List String → List String → Type 0
IsInOrder deps seen [] = Unit
IsInOrder deps seen (n ∷ ns) =
    ((d : String) → elem_of d (deps n) ≡ true → elem_of d seen ≡ true)
    × IsInOrder deps (n ∷ seen) ns

IsInOrder-snoc :
    (deps : String → List String) (seen ns : List String) (n : String)
    → IsInOrder deps seen ns
    → ((d : String) → elem_of d (deps n) ≡ true → (elem_of d seen ≡ true) ⊎ (elem_of d ns ≡ true))
    → IsInOrder deps seen (ns ++ n ∷ [])
unfolding elem_of
IsInOrder-snoc deps seen [] n o h = (λ d m. ground (arith, h d m), tt)
IsInOrder-snoc deps seen (x ∷ ns) n o h =
    (o.0, IsInOrder-snoc deps (x ∷ seen) ns n o.1 (λ d m. ground (arith, h d m)))

-- What the graph must be: its edges are the dependencies, and it knows only the names.
pub record IsGraph (names : List String) (deps : String → List String)
    (graph : Dict String (List String)) : Type 0 where
  pub edges : (d n : String) → elem_of n (successors d graph) ≡ elem_of d (deps n)
  pub distinct : (d : String) → IsDistinct (successors d graph)
  pub named : (d n : String) → elem_of d (deps n) ≡ true → elem_of n names ≡ true

-- The state of the loop: what is done, what waits, and the dependencies that each name still has.
pub record IsLoop (names : List String) (deps : String → List String) (degrees : Dict String ℕ)
    (queue result : List String) : Type 0 where
  pub once : (n : String) → occurs n result + occurs n queue ≤ 1
  pub named : (n : String) → 1 ≤ occurs n result + occurs n queue → elem_of n names ≡ true
  pub balance : (n : String) → degree n degrees + overlap result (deps n) ≡ length (deps n)
  pub ready :
      (n : String)
      → elem_of n names ≡ true
      → degree n degrees ≡ 0
      → 1 ≤ occurs n result + occurs n queue
  pub done : (n : String) → 1 ≤ occurs n result + occurs n queue → degree n degrees ≡ 0
  pub order : IsInOrder deps [] result

module _ (arrange : List String → List String)
    (arranged : (k : String) (xs : List String) → occurs k (arrange xs) ≡ occurs k xs)
    (names : List String) (deps : String → List String) (graph : Dict String (List String))
    (g : IsGraph names deps graph) where
  edge_count :
      (d n : String)
      → occurs n (arrange (successors d graph)) ≡ (if elem_of d (deps n) then 1 else 0)
  edge_count d n = ground (
    arith,
    arranged n (successors d graph),
    g.edges d n,
    g.distinct d n,
    elem_of-occurs n (successors d graph),
  )

  module _ (degrees : Dict String ℕ) (node : String) (queue result : List String)
      (l : IsLoop names deps degrees (node ∷ queue) result) where
    result-IsDistinct : IsDistinct (result ++ node ∷ [])
    unfolding occurs
    result-IsDistinct k = ground (arith, occurs-append k result (node ∷ []), l.once k)

    degree_pos :
        (k : String) → 1 ≤ occurs k (arrange (successors node graph)) → 1 ≤ degree k degrees
    unfolding overlap
    degree_pos k h = ground (
      arith,
      edge_count node k,
      l.balance k,
      overlap-append result (node ∷ []) (deps k),
      overlap-le (result ++ node ∷ []) (deps k) result-IsDistinct,
    )

    deps_done : (d : String) → elem_of d (deps node) ≡ true → elem_of d result ≡ true
    unfolding occurs
    deps_done d m =
        overlap_full result (deps node) d (λ k. omega (arith, l.once k))
          (ground (arith, l.balance node, l.done node, beq_refl node)) m

    round-IsLoop :
        let (degrees', queue') = relax (arrange (successors node graph)) degrees queue in
        IsLoop names deps degrees' queue' (result ++ node ∷ [])
    unfolding overlap occurs
    round-IsLoop =
        let ns = arrange (successors node graph) in
        let ns_distinct : IsDistinct ns = λ k. ground (arith, edge_count node k) in
        let r = λ (n : String). relax_lem ns degrees queue n ns_distinct degree_pos in
        record {
          once = λ n. ground (
            arith,
            r n,
            l.once n,
            l.done n,
            edge_count node n,
            degree_pos n,
            occurs-append n result (node ∷ []),
          );
          named = λ n h. ground (
            arith,
            r n,
            l.named n,
            edge_count node n,
            g.named node n,
            occurs-append n result (node ∷ []),
          );
          balance = λ n. ground (
            arith,
            r n,
            l.balance n,
            edge_count node n,
            overlap-append result (node ∷ []) (deps n),
          );
          ready = λ n h z.
              ground
                (arith, r n, l.ready n h, edge_count node n, occurs-append n result (node ∷ []));
          done = λ n h.
              ground (arith, r n, l.done n, edge_count node n, occurs-append n result (node ∷ []));
          order = IsInOrder-snoc deps [] result node l.order (λ d m. inr (deps_done d m));
        }

  -- The names in the result and the queue are names of steps, each once.
  seen_within :
      (degrees : Dict String ℕ) (queue result : List String)
      → IsLoop names deps degrees queue result
      → length result + length queue ≤ length names
  seen_within degrees queue result l =
      let n =
        length_within (result ++ queue) names
          (λ k. ground (arith, occurs-append k result queue, l.once k))
          (All-occurs names (result ++ queue)
            (λ k h. l.named k (ground (arith, occurs-append k result queue)))) in
      ground (arith, n, length-append result queue)

  -- With as much fuel as there are names the loop ends, and the state it ends in is a state of the loop.
  pub kahn_ends :
      (fuel : ℕ) (degrees : Dict String ℕ) (queue result : List String)
      → IsLoop names deps degrees queue result
      → length names ≤ length result + fuel
      → (degrees' : Dict String ℕ) × (r : List String) × (kahn arrange graph fuel degrees queue
            result
          ≡ some r)
        × IsLoop names deps degrees' [] r
  unfolding kahn
  kahn_ends zero degrees [] result l h = (degrees, result, refl, l)
  kahn_ends zero degrees (node ∷ queue) result l h =
      absurd (omega (arith, seen_within degrees (node ∷ queue) result l))
  kahn_ends (suc fuel) degrees [] result l h = (degrees, result, refl, l)
  kahn_ends (suc fuel) degrees (node ∷ queue) result l h =
      let (degrees', queue') = relax (arrange (successors node graph)) degrees queue in
      kahn_ends fuel degrees' queue' (result ++ node ∷ [])
        (round-IsLoop degrees node queue result l) (omega (arith, length-append result (node ∷ [])))

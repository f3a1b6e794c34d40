-- ===== src/Pipeline/Sort/Edges.antt =====
-- The dicts `graph` and `in_degree` after edges have been added.
use mathlib.Core.Path.{subst}
use claude_library.Prelude.{
  ℕ, ◌+◌, String, ◌≡◌, refl, ap, ◌∙◌, Bool, true, false, List, [], ◌∷◌, arith, if◌then◌else◌, All,
  inl, inr, Bool-cases,
}
use claude_library.Prelude.Key.{string_key, ◌=?◌}
use claude_library.Prelude.Dict.{Dict, keys, contains, insert, lookup-insert}
use claude_library.Prelude.Sets.{
  elem_of, elem_of-append, elem_of-eq, occurs, IsDistinct, occurs-append, elem_of-occurs, occurs-eq,
}
use claude_library.Pipeline.Sort.{
  Degrees, Built, built, missing, successors, degree, add_to_set, add_edge,
}

elem_of-add_to_set :
    (n x : String) (xs : List String)
    → elem_of n (add_to_set x xs) ≡ (if x =? n then true else elem_of n xs)
unfolding add_to_set elem_of
elem_of-add_to_set n x xs = ground (arith, elem_of-append n xs (x ∷ []), elem_of-eq x n xs)

IsDistinct-add_to_set :
    (x : String) (xs : List String) → IsDistinct xs → IsDistinct (add_to_set x xs)
unfolding add_to_set occurs
IsDistinct-add_to_set x xs h k =
    ground (arith, elem_of-occurs x xs, occurs-append k xs (x ∷ []), h k, occurs-eq x k xs)

successors-insert :
    (d m : String) (ns : List String) (graph : Dict String (List String))
    → successors m (insert d ns graph) ≡ (if d =? m then ns else successors m graph)
unfolding successors
successors-insert d m ns graph = ground (arith, lookup-insert d m ns graph)

successors-eq :
    (a b : String) (graph : Dict String (List String))
    → (a =? b) ≡ true
    → successors a graph ≡ successors b graph
successors-eq a b graph h = ap (λ k. successors k graph) ((string_key.beq_iff a b).0 h)

pub degree-eq : (n m : String) (d : Dict String ℕ) → (n =? m) ≡ true → degree n d ≡ degree m d
degree-eq n m d h = ap (λ k. degree k d) ((string_key.beq_iff n m).0 h)

pub degree-insert :
    (n m : String) (k : ℕ) (d : Dict String ℕ)
    → degree m (insert n k d) ≡ (if n =? m then k else degree m d)
unfolding degree
degree-insert n m k d = ground (arith, lookup-insert n m k d)

keys-insert :
    (k : String) (v : ℕ) (d : Dict String ℕ)
    → elem_of k (keys d) ≡ true
    → keys (insert k v d) ≡ keys d
unfolding insert elem_of
keys-insert k v [] h = cc
keys-insert k v ((j, w) ∷ d) h = ground (arith, keys-insert k v d)

-- One graph after edges to `name` from each of `deps` have been added to another.
pub record IsExtended (has : String → String → Bool) (more : String → ℕ) (g g' : Degrees)
    : Type 0 where
  pub edges :
      (d n : String)
      → elem_of n (successors d g'.graph)
        ≡ (if has d n then true else elem_of n (successors d g.graph))
  pub distinct :
      ((d : String) → IsDistinct (successors d g.graph))
      → (d : String) → IsDistinct (successors d g'.graph)
  pub degrees : (n : String) → degree n g'.in_degree ≡ more n + degree n g.in_degree
  pub names : keys g'.in_degree ≡ keys g.in_degree

pub add_edge-IsExtended :
    (name dep : String) (g : Degrees)
    → elem_of name (keys g.in_degree) ≡ true
    → IsExtended
        (λ d n. if dep =? d then name =? n else false)
        (λ n. if name =? n then 1 else 0)
        g
        (add_edge name dep g)
unfolding add_edge
add_edge-IsExtended name dep g h = record {
  edges = λ d n. ground (
    arith,
    successors-insert dep d (add_to_set name (successors dep g.graph)) g.graph,
    elem_of-add_to_set n name (successors dep g.graph),
    successors-eq dep d g.graph,
  );
  distinct = λ a d k. ground (
    arith,
    successors-insert dep d (add_to_set name (successors dep g.graph)) g.graph,
    IsDistinct-add_to_set name (successors dep g.graph) (a dep) k,
    a d k,
  );
  degrees = λ n. ground (
    arith,
    degree-insert name n (degree name g.in_degree + 1) g.in_degree,
    degree-eq name n g.in_degree,
  );
  names = keys-insert name _ g.in_degree h;
}

pub All-elem_of :
    (P : String → Type 0) (xs : List String) (x : String) → All P xs → elem_of x xs ≡ true → P x
unfolding elem_of
All-elem_of P [] x a h = absurd (cc h)
All-elem_of P (y ∷ xs) x a h = elim (Bool-cases (y =? x)) [
  | inl q ↦ subst P ((string_key.beq_iff y x).0 q) a.0
  | inr q ↦ All-elem_of P xs x a.1 (ground (arith, q, h))
]

pub contains-elem_of {ℓ} :
    {A : Type ℓ} (k : String) (d : Dict String A) → contains k d ≡ elem_of k (keys d)
unfolding contains elem_of
contains-elem_of k [] = refl
contains-elem_of k ((j, v) ∷ d) = ground (arith, contains-elem_of k d)

pub missing_inj : (a b c d : String) → missing a b ≡ missing c d → b ≡ d
missing_inj a b c d e = cc e

pub built_inj : (g g' : Degrees) → built g ≡ built g' → g ≡ g'
built_inj g g' e = cc e

pub if_built :
    (b : Bool) (x : Built) (n d : String) (g : Degrees)
    → (if b then x else missing n d) ≡ built g
    → (b ≡ true) × (x ≡ built g)
if_built true x n d g e = (refl, e)
if_built false x n d g e = absurd (cc e)

pub elim_built :
    (b : Built) (f : Degrees → Built) (g : Degrees)
    → elim b [ built g' ↦ f g' | missing n d ↦ missing n d ] ≡ built g
    → (g' : Degrees) × (b ≡ built g') × (f g' ≡ built g)
elim_built (built g') f g e = (g', refl, e)
elim_built (missing n d) f g e = absurd (cc e)

pub IsExtended-refl : (g : Degrees) → IsExtended (λ d n. false) (λ n. 0) g g
IsExtended-refl g = record {
  edges = λ d n. refl;
  distinct = λ a. a;
  degrees = λ n. omega arith;
  names = refl;
}

-- What is known of a union of edges and a sum of degrees.
pub IsExtended-trans :
    (h h' k : String → String → Bool) (m m' l : String → ℕ) (g g' g'' : Degrees)
    → ((d n : String) → k d n ≡ (if h d n then true else h' d n))
    → ((n : String) → l n ≡ m n + m' n)
    → IsExtended h m g g'
    → IsExtended h' m' g' g''
    → IsExtended k l g g''
IsExtended-trans h h' k m m' l g g' g'' e c x y = record {
  edges = λ d n. ground (arith, e d n, x.edges d n, y.edges d n);
  distinct = λ a. y.distinct (x.distinct a);
  degrees = λ n. ground (arith, c n, x.degrees n, y.degrees n);
  names = y.names ∙ x.names;
}

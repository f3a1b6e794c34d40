-- ===== src/Pipeline/Levels/Layers.antt =====
-- The levels that `_group_by_level` makes of an order.
use claude_library.Prelude.{
  ℕ, zero, suc, ◌+◌, ◌≤◌, ◌<◌, String, ◌≡◌, ap, sym, ◌∙◌, true, false, List, [], ◌∷◌, ◌++◌, arith,
  ◌==◌, if◌then◌else◌,
}
use claude_library.Prelude.Key.{string_key, ◌=?◌, beq_refl}
use claude_library.Prelude.Dict.{Dict, insert, lookup-insert}
use claude_library.Prelude.Sets.{
  elem_of, elem_of-append, elem_of-eq, occurs, occurs-append, IsDistinct, elem_of-occurs,
}
use claude_library.Pipeline.State.{StepConfig}
use claude_library.Pipeline.Sort.Build.{deps_of}
use claude_library.Pipeline.Sort.Kahn.{IsInOrder}
use claude_library.Pipeline.Levels.{
  level_of, max_level, level_after, place, group, group_by_level, flatten, level_at, IsLayered,
}

level_at-place :
    (k level : ℕ) (n name : String) (ls : List (List String))
    → elem_of n (level_at k (place level name ls)) ≡ (
        if k == level
        then (if name =? n then true else elem_of n (level_at k ls))
        else elem_of n (level_at k ls))
unfolding place elem_of
level_at-place zero zero n name [] = ground arith
level_at-place zero zero n name (l ∷ ls) = ground (arith, elem_of-append n l (name ∷ []))
level_at-place zero (suc level) n name [] = ground arith
level_at-place zero (suc level) n name (l ∷ ls) = ground arith
level_at-place (suc k) zero n name [] = ground arith
level_at-place (suc k) zero n name (l ∷ ls) = ground arith
level_at-place (suc k) (suc level) n name [] = ground (arith, level_at-place k level n name [])
level_at-place (suc k) (suc level) n name (l ∷ ls) =
    ground (arith, level_at-place k level n name ls)

occurs-place :
    (n : String) (level : ℕ) (name : String) (ls : List (List String))
    → occurs n (flatten (place level name ls))
      ≡ (if name =? n then 1 else 0) + occurs n (flatten ls)
unfolding place occurs
occurs-place n zero name [] = ground arith
occurs-place n zero name (l ∷ ls) = ground (
  arith,
  occurs-append n (l ++ name ∷ []) (flatten ls),
  occurs-append n l (name ∷ []),
  occurs-append n l (flatten ls),
)
occurs-place n (suc level) name [] = ground (arith, occurs-place n level name [])
occurs-place n (suc level) name (l ∷ ls) = ground (
  arith,
  occurs-append n l (flatten (place level name ls)),
  occurs-append n l (flatten ls),
  occurs-place n level name ls,
)

level_of-insert :
    (n m : String) (k : ℕ) (d : Dict String ℕ)
    → level_of m (insert n k d) ≡ (if n =? m then k else level_of m d)
unfolding level_of
level_of-insert n m k d = ground (arith, lookup-insert n m k d)

level_of-eq : (n m : String) (d : Dict String ℕ) → (n =? m) ≡ true → level_of n d ≡ level_of m d
level_of-eq n m d h = ap (λ k. level_of k d) ((string_key.beq_iff n m).0 h)

max_level-ge :
    (d : String) (ds : List String) (step_level : Dict String ℕ)
    → elem_of d ds ≡ true
    → level_of d step_level ≤ max_level ds step_level
unfolding max_level elem_of
max_level-ge d [] step_level h = absurd (cc h)
max_level-ge d (x ∷ ds) step_level h =
    ground (arith, max_level-ge d ds step_level, level_of-eq x d step_level)

level_after-gt :
    (d : String) (ds : List String) (step_level : Dict String ℕ)
    → elem_of d ds ≡ true
    → level_of d step_level < level_after ds step_level
unfolding level_after elem_of
level_after-gt d [] step_level h = absurd (cc h)
level_after-gt d (x ∷ ds) step_level h = ground (arith, max_level-ge d (x ∷ ds) step_level h)

level_at-eq :
    (i j : ℕ) (n : String) (ls : List (List String))
    → i ≡ j
    → elem_of n (level_at i ls) ≡ elem_of n (level_at j ls)
level_at-eq i j n ls h = ap (λ k. elem_of n (level_at k ls)) h

-- The levels of the names placed so far: each name stands in the level of its number, and above all
-- its dependencies.
record IsLevelled (deps : String → List String) (seen : List String) (step_level : Dict String ℕ)
    (levels : List (List String)) : Type 0 where
  at :
      (k : ℕ) (n : String)
      → elem_of n (level_at k levels) ≡ true
      → (level_of n step_level ≡ k) × (elem_of n seen ≡ true)
  all :
      (n : String)
      → elem_of n seen ≡ true
      → elem_of n (level_at (level_of n step_level) levels) ≡ true
  lower :
      (n d : String)
      → elem_of n seen ≡ true
      → elem_of d (deps n) ≡ true
      → (elem_of d seen ≡ true) × (level_of d step_level < level_of n step_level)

module _ {V : Type 0} (steps : Dict String (StepConfig V)) where
  elem_of-deps_of :
      (a b d : String) → (a =? b) ≡ true → elem_of d (deps_of steps a) ≡ elem_of d (deps_of steps b)
  elem_of-deps_of a b d h = ap (λ k. elem_of d (deps_of steps k)) ((string_key.beq_iff a b).0 h)

  placed-IsLevelled :
      (seen : List String) (name : String) (step_level : Dict String ℕ)
      (levels : List (List String))
      → elem_of name seen ≡ false
      → ((d : String) → elem_of d (deps_of steps name) ≡ true → elem_of d seen ≡ true)
      → IsLevelled (deps_of steps) seen step_level levels
      → let level = level_after (deps_of steps name) step_level in
        IsLevelled
          (deps_of steps)
          (name ∷ seen)
          (insert name level step_level)
          (place level name levels)
  unfolding elem_of
  placed-IsLevelled seen name step_level levels new a v =
      let level = level_after (deps_of steps name) step_level in
      let p = λ (k : ℕ) (n : String). level_at-place k level n name levels in
      let i = λ (n : String). level_of-insert name n level step_level in
      record {
        at = λ k n m. ground (arith, p k n, i n, v.at k n, elem_of-eq name n seen);
        all = λ n m. ground (arith, p (level_of n (insert name level step_level)) n, i n, v.all n);
        lower = λ n d m e. ground (
          arith,
          i n,
          i d,
          v.lower n d,
          elem_of-eq name n seen,
          elem_of-eq name d seen,
          a d,
          elem_of-deps_of name n d,
          level_after-gt d (deps_of steps name) step_level,
        );
      }

  grouped-IsLevelled :
      (seen rest : List String) (step_level : Dict String ℕ) (levels : List (List String))
      → IsInOrder (deps_of steps) seen rest
      → ((n : String) → occurs n seen + occurs n rest ≤ 1)
      → IsLevelled (deps_of steps) seen step_level levels
      → (last : List String) × (final : Dict String ℕ) × IsLevelled
          (deps_of steps)
          last
          final
          (group steps rest step_level levels)
        × ((n : String)
            → occurs n (flatten (group steps rest step_level levels))
              ≡ occurs n rest + occurs n (flatten levels))
  unfolding group occurs
  grouped-IsLevelled seen [] step_level levels o u v = (seen, step_level, v, λ n. omega arith)
  grouped-IsLevelled seen (name ∷ rest) step_level levels o u v =
      let level = level_after (deps_of steps name) step_level in
      let new : elem_of name seen ≡ false =
        ground (arith, u name, beq_refl name, elem_of-occurs name seen) in
      let (last, final, w, c) =
        grouped-IsLevelled (name ∷ seen) rest (insert name level step_level)
          (place level name levels) o.1 (λ n. omega (arith, u n))
          (placed-IsLevelled seen name step_level levels new o.0 v) in
      (last, final, w, λ n. omega (arith, c n, occurs-place n level name levels))

-- Level by level, the dependencies have been seen.
IsLevelled-IsLayered :
    (deps : String → List String) (last : List String) (final : Dict String ℕ)
    (all : List (List String))
    → IsLevelled deps last final all
    → (ls : List (List String)) (i : ℕ) (seen : List String)
    → ((k j : ℕ) (n : String) → j ≡ i + k → elem_of n (level_at k ls) ≡ elem_of n (level_at j all))
    → ((d : String) → elem_of d last ≡ true → level_of d final < i → elem_of d seen ≡ true)
    → IsLayered deps seen ls
IsLevelled-IsLayered deps last final all v [] i seen e b = tt
IsLevelled-IsLayered deps last final all v (l ∷ ls) i seen e b = (
  (λ n d m a.
      let p = v.at i n (sym (e 0 i n (omega arith)) ∙ m) in
      let q = v.lower n d p.1 a in b d q.0 (omega (arith, p.0, q.1))),
  IsLevelled-IsLayered deps last final all v ls (i + 1) (l ++ seen)
      (λ k j n h. e (suc k) j n (omega (arith, h)))
      (λ d m c. ground (
        arith,
        elem_of-append d l seen,
        b d m,
        e 0 i d (omega arith),
        v.all d m,
        level_at-eq (level_of d final) i d all,
      )),
)

pub record AreLevels (deps : String → List String) (order : List String)
    (levels : List (List String)) : Type 0 where
  pub layered : IsLayered deps [] levels
  pub each : (n : String) → occurs n (flatten levels) ≡ occurs n order

-- For an order in which each step stands once, and after its dependencies: each step stands in one level,
-- and its dependencies in levels before that.
pub group_by_level-AreLevels :
    {V : Type 0} (steps : Dict String (StepConfig V)) (order : List String)
    → IsInOrder (deps_of steps) [] order
    → IsDistinct order
    → AreLevels (deps_of steps) order (group_by_level steps order)
unfolding group_by_level elem_of occurs
group_by_level-AreLevels steps order o u =
    let (last, final, v, c) =
      grouped-IsLevelled steps [] order [] [] o (λ n. omega (arith, u n))
        (record {
          at = λ k n m. absurd (cc m);
          all = λ n m. absurd (cc m);
          lower = λ n d m. absurd (cc m);
        }) in
    record {
      layered =
          IsLevelled-IsLayered (deps_of steps) last final (group_by_level steps order) v
            (group_by_level steps order) 0 [] (λ k j n h. level_at-eq k j n _ (omega (arith, h)))
            (λ d m l. absurd (omega (arith, l)));
      each = λ n. omega (arith, c n);
    }

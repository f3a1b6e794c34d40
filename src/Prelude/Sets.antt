-- ===== src/Prelude/Sets.antt =====
-- Lists read as sets of keys: membership, how often a key occurs, and how many entries of one list stand
-- in another.
use Prim.Native.Nat.{ℕ, ◌+◌, ◌≤◌, ◌<◌}
use mathlib.Core.Path.{◌≡◌, refl, ap}
use mathlib.Core.Bool.{Bool, true, false}
use mathlib.Core.Logic.{◌⊎◌, inr}
use mathlib.Core.List.{List, [], ◌∷◌, ◌++◌}
use native.Mathlib.Omega.{arith}
use claude_library.Prelude.Tests.{if◌then◌else◌}
use claude_library.Prelude.Lists.{length, All}
use claude_library.Prelude.Key.{Key, ◌=?◌, beq_refl}

module _ {ℓ} {K : Type ℓ} ⦃e : Key K⦄ where
  -- `k in xs`
  unfoldable pub elem_of : K → List K → Bool
  elem_of k [] = false
  elem_of k (x ∷ xs) = if x =? k then true else elem_of k xs

  unfoldable pub occurs : K → List K → ℕ
  occurs k [] = 0
  occurs k (x ∷ xs) = (if x =? k then 1 else 0) + occurs k xs

  abbrev pub IsDistinct : List K → Type ℓ
  IsDistinct xs = (k : K) → occurs k xs ≤ 1

  -- How many entries of the first list stand in the second.
  unfoldable pub overlap : List K → List K → ℕ
  overlap [] ds = 0
  overlap (r ∷ rs) ds = (if elem_of r ds then 1 else 0) + overlap rs ds

  pub occurs-append : (k : K) (xs ys : List K) → occurs k (xs ++ ys) ≡ occurs k xs + occurs k ys
  unfolding occurs
  occurs-append k [] ys = omega arith
  occurs-append k (x ∷ xs) ys = omega (arith, occurs-append k xs ys)

  pub elem_of-append :
      (k : K) (xs ys : List K)
      → elem_of k (xs ++ ys) ≡ (if elem_of k xs then true else elem_of k ys)
  unfolding elem_of
  elem_of-append k [] ys = refl
  elem_of-append k (x ∷ xs) ys = ground (arith, elem_of-append k xs ys)

  pub overlap-append : (rs ss ds : List K) → overlap (rs ++ ss) ds ≡ overlap rs ds + overlap ss ds
  unfolding overlap
  overlap-append [] ss ds = omega arith
  overlap-append (r ∷ rs) ss ds = omega (arith, overlap-append rs ss ds)

  pub elem_of-occurs :
      (k : K) (xs : List K)
      → (elem_of k xs ≡ true × (1 ≤ occurs k xs)) ⊎ ((elem_of k xs ≡ false) × (occurs k xs ≡ 0))
  unfolding elem_of occurs
  elem_of-occurs k [] = inr (refl, refl)
  elem_of-occurs k (x ∷ xs) = ground (arith, elem_of-occurs k xs)

  -- The same equality of keys, read both ways.
  pub beq_sym : (a b : K) → (a =? b) ≡ (b =? a)
  beq_sym a b = ground (arith, e.beq_iff a b, e.beq_iff b a)

  pub elem_of-eq : (a b : K) (xs : List K) → (a =? b) ≡ true → elem_of a xs ≡ elem_of b xs
  elem_of-eq a b xs h = ap (λ k. elem_of k xs) ((e.beq_iff a b).0 h)

  overlap-cons :
      (rs : List K) (d : K) (ds : List K) → overlap rs (d ∷ ds) ≤ occurs d rs + overlap rs ds
  unfolding overlap occurs elem_of
  overlap-cons [] d ds = omega arith
  overlap-cons (r ∷ rs) d ds = ground (arith, overlap-cons rs d ds, beq_sym r d)

  overlap-cons_new :
      (rs : List K) (d : K) (ds : List K)
      → elem_of d ds ≡ false
      → overlap rs (d ∷ ds) ≡ occurs d rs + overlap rs ds
  unfolding overlap occurs elem_of
  overlap-cons_new [] d ds h = refl
  overlap-cons_new (r ∷ rs) d ds h =
      ground (arith, overlap-cons_new rs d ds h, beq_sym r d, elem_of-eq d r ds)

  overlap-cons_old :
      (rs : List K) (d : K) (ds : List K)
      → elem_of d ds ≡ true
      → overlap rs (d ∷ ds) ≡ overlap rs ds
  unfolding overlap elem_of
  overlap-cons_old [] d ds h = refl
  overlap-cons_old (r ∷ rs) d ds h = ground (arith, overlap-cons_old rs d ds h, elem_of-eq d r ds)

  overlap-nil : (rs : List K) → overlap rs [] ≡ 0
  unfolding overlap elem_of
  overlap-nil [] = refl
  overlap-nil (r ∷ rs) = omega (arith, overlap-nil rs)

  pub occurs-eq : (a b : K) (xs : List K) → (a =? b) ≡ true → occurs a xs ≡ occurs b xs
  occurs-eq a b xs h = ap (λ k. occurs k xs) ((e.beq_iff a b).0 h)

  pub IsDistinct-rest : (x : K) (xs : List K) → IsDistinct (x ∷ xs) → IsDistinct xs
  unfolding occurs
  IsDistinct-rest x xs h k = omega (arith, h k)

  pub IsDistinct-first : (x : K) (xs : List K) → IsDistinct (x ∷ xs) → occurs x xs ≡ 0
  unfolding occurs
  IsDistinct-first x xs h = ground (arith, h x, beq_refl x)

  pub IsDistinct-nil : IsDistinct []
  unfolding occurs
  IsDistinct-nil k = omega arith

  pub IsDistinct-cons :
      (x : K) (xs : List K) → occurs x xs ≡ 0 → IsDistinct xs → IsDistinct (x ∷ xs)
  unfolding occurs
  IsDistinct-cons x xs n h k = ground (arith, n, h k, occurs-eq x k xs)

  pub overlap-le : (rs ds : List K) → IsDistinct rs → overlap rs ds ≤ length ds
  overlap-le rs [] h = omega (arith, overlap-nil rs)
  overlap-le rs (d ∷ ds) h = omega (arith, overlap-cons rs d ds, overlap-le rs ds h, h d)

  -- A key of the second list that is missing from the first, or that stands in the second twice, keeps
  -- the overlap below the length.
  overlap_missing :
      (rs ds : List K) (d : K)
      → IsDistinct rs
      → elem_of d ds ≡ true
      → elem_of d rs ≡ false
      → overlap rs ds < length ds
  unfolding elem_of
  overlap_missing rs [] d h m n = cc
  overlap_missing rs (x ∷ ds) d h m n = ground (
    arith,
    overlap-cons rs x ds,
    h x,
    elem_of-occurs d rs,
    occurs-eq x d rs,
    overlap-le rs ds h,
    overlap_missing rs ds d h,
  )

  pub overlap_twice :
      (rs ds : List K) (d : K) → IsDistinct rs → 1 < occurs d ds → overlap rs ds < length ds
  unfolding occurs
  overlap_twice rs [] d h m = absurd (omega arith)
  overlap_twice rs (x ∷ ds) d h m = ground (
    arith,
    overlap-cons rs x ds,
    h x,
    elem_of-occurs d ds,
    elem_of-eq x d ds,
    overlap-cons_old rs x ds,
    overlap-le rs ds h,
    overlap_twice rs ds d h,
  )

  pub overlap_full :
      (rs ds : List K) (d : K)
      → IsDistinct rs
      → overlap rs ds ≡ length ds
      → elem_of d ds ≡ true
      → elem_of d rs ≡ true
  overlap_full rs ds d h f m = ground (arith, overlap_missing rs ds d h m)

  pub overlap-All :
      (rs ds : List K)
      → IsDistinct ds
      → All (λ d. elem_of d rs ≡ true) ds
      → length ds ≤ overlap rs ds
  overlap-All rs [] h a = omega arith
  overlap-All rs (d ∷ ds) h a = ground (
    arith,
    overlap-cons_new rs d ds,
    elem_of-occurs d ds,
    elem_of-occurs d rs,
    IsDistinct-first d ds h,
    a.0,
    overlap-All rs ds (IsDistinct-rest d ds h) a.1,
  )

  pub overlap_within :
      (rs ds : List K) → All (λ r. elem_of r ds ≡ true) rs → overlap rs ds ≡ length rs
  unfolding overlap
  overlap_within [] ds a = refl
  overlap_within (r ∷ rs) ds a = ground (arith, a.0, overlap_within rs ds a.1)

  -- Distinct keys of a list are at most as many as the list has entries.
  pub length_within :
      (rs ds : List K) → IsDistinct rs → All (λ r. elem_of r ds ≡ true) rs → length rs ≤ length ds
  length_within rs ds h a = omega (arith, overlap_within rs ds a, overlap-le rs ds h)

  pub All-occurs :
      (names xs : List K)
      → ((k : K) → 1 ≤ occurs k xs → elem_of k names ≡ true)
      → All (λ x. elem_of x names ≡ true) xs
  unfolding occurs
  All-occurs names [] h = tt
  All-occurs names (x ∷ xs) h =
      (h x (ground (arith, beq_refl x)), All-occurs names xs (λ k o. h k (omega (arith, o))))

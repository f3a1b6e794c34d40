-- ===== src/Prelude/Sort.antt =====
-- Python's `sorted`, which is stable. `lt` is the test `<` of the keys; with `reverse=True` it is the
-- test `>`, and equal entries keep their order all the same.
use mathlib.Core.Path.{◌≡◌, refl, ◌∙◌}
use mathlib.Core.Logic.{inl, inr}
use mathlib.Core.Bool.{Bool, true, false}
use mathlib.Core.List.{List, [], ◌∷◌}
use native.Mathlib.Omega.{arith}
use claude_library.Prelude.Tests.{if◌then◌else◌, Bool-cases}
use claude_library.Prelude.Lists.{All, filter}

module _ {ℓ} {A : Type ℓ} (lt : A → A → Bool) where
  unfoldable pub place : A → List A → List A
  place x [] = x ∷ []
  place x (y ∷ ys) = let rest = place x ys in if lt y x then y ∷ rest else x ∷ y ∷ ys

  unfoldable pub sorted : List A → List A
  unfolding place
  sorted [] = []
  sorted (x ∷ xs) = place x (sorted xs)

  abbrev IsBelow : A → List A → Type 0
  IsBelow x xs = All (λ y. lt y x ≡ false) xs

  -- No entry has a smaller key than one before it.
  abbrev pub IsInOrder : List A → Type 0
  IsInOrder [] = Unit
  IsInOrder (x ∷ xs) = IsBelow x xs × IsInOrder xs

  filter-place :
      (p : A → Bool) (x : A) (ys : List A)
      → ((a b : A) → p a ≡ true → p b ≡ true → lt a b ≡ false)
      → filter p (place x ys) ≡ filter p (x ∷ ys)
  unfolding place
  filter-place p x [] alike = refl
  filter-place p x (y ∷ ys) alike = ground (arith, alike y x, filter-place p x ys alike)

  -- The entries of one class of equal keys are as many as before and in the same order.
  pub filter-sorted :
      (p : A → Bool) (xs : List A)
      → ((a b : A) → p a ≡ true → p b ≡ true → lt a b ≡ false)
      → filter p (sorted xs) ≡ filter p xs
  unfolding sorted
  filter-sorted p [] alike = refl
  filter-sorted p (x ∷ xs) alike =
      filter-place p x (sorted xs) alike ∙ ground (arith, filter-sorted p xs alike)

  module _ (asym : (a b : A) → lt a b ≡ true → lt b a ≡ false)
      (linear : (a b c : A) → lt b a ≡ false → lt c b ≡ false → lt c a ≡ false) where
    IsBelow-mono : (x y : A) (ys : List A) → lt y x ≡ false → IsBelow y ys → IsBelow x ys
    IsBelow-mono x y [] h b = tt
    IsBelow-mono x y (z ∷ ys) h (b, bs) = (linear x y z h b, IsBelow-mono x y ys h bs)

    IsBelow-place : (x y : A) (ys : List A) → lt x y ≡ false → IsBelow y ys → IsBelow y (place x ys)
    unfolding place
    IsBelow-place x y [] h b = (h, tt)
    IsBelow-place x y (z ∷ ys) h (b, bs) = ground (arith, IsBelow-place x y ys h bs)

    place-IsInOrder : (x : A) (ys : List A) → IsInOrder ys → IsInOrder (place x ys)
    unfolding place
    place-IsInOrder x [] s = (tt, tt)
    place-IsInOrder x (y ∷ ys) (b, s) = elim (Bool-cases (lt y x)) [
      | inl e ↦ rw e (IsBelow-place x y ys (asym y x e) b, place-IsInOrder x ys s)
      | inr e ↦ rw e ((e, IsBelow-mono x y ys e b), (b, s))
    ]

    pub sorted-IsInOrder : (xs : List A) → IsInOrder (sorted xs)
    unfolding sorted
    sorted-IsInOrder [] = tt
    sorted-IsInOrder (x ∷ xs) = place-IsInOrder x (sorted xs) (sorted-IsInOrder xs)

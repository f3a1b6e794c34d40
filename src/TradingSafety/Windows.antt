-- ===== src/TradingSafety/Windows.antt =====
-- Counts of times in a window, and what the filter by age changes of them.
use claude_library.Prelude.{
  ℕ, ◌+◌, ◌≤◌, ◌<◌, ◌≡◌, refl, Bool, ◌&&◌, List, [], ◌∷◌, ◌++◌, arith, ltb, leb, count_if, filter,
  Bool-cases, inl, inr,
}
use claude_library.TradingSafety.Checks.{hour, within}

-- `ts` lies in the window of `width` that ends at `t`.
abbrev pub in_window : ℕ → ℕ → ℕ → Bool
in_window width t ts = leb ts t && within width t ts

count-append :
    (p : ℕ → Bool) (xs ys : List ℕ) → count_if p (xs ++ ys) ≡ count_if p xs + count_if p ys
count-append p [] ys = omega arith
count-append p (x ∷ xs) ys = omega (arith, count-append p xs ys)

-- What a window that ends later holds is no more than the code counts now.
window_le_count :
    (width now t : ℕ) (xs : List ℕ)
    → now ≤ t
    → count_if (in_window width t) xs ≤ count_if (within width now) xs
window_le_count width now t [] h = omega arith
window_le_count width now t (x ∷ xs) h = ground (arith, window_le_count width now t xs h)

-- Forgetting orders of more than an hour ago changes no later count.
pub count-filter :
    (width clock now : ℕ) (xs : List ℕ)
    → width ≤ hour
    → clock ≤ now
    → count_if (within width now) (filter (within hour clock) xs) ≡ count_if (within width now) xs
count-filter width clock now [] w h = refl
count-filter width clock now (x ∷ xs) w h = ground (arith, count-filter width clock now xs w h)

pub filter-filter :
    (clock now : ℕ) (xs : List ℕ)
    → clock ≤ now
    → filter (within hour now) (filter (within hour clock) xs) ≡ filter (within hour now) xs
filter-filter clock now [] h = refl
filter-filter clock now (x ∷ xs) h = ground (arith, filter-filter clock now xs h)

pub filter-append :
    (clock now : ℕ) (xs : List ℕ)
    → clock ≤ now
    → filter (within hour clock) (xs ++ now ∷ []) ≡ filter (within hour clock) xs ++ now ∷ []
filter-append clock now [] h = ground arith
filter-append clock now (x ∷ xs) h = ground (arith, filter-append clock now xs h)

future_empty : (width now t : ℕ) → t < now → count_if (in_window width t) (now ∷ []) ≡ 0
future_empty width now t h = ground arith

abbrev pub Fits : ℕ → ℕ → List ℕ → Type 0
Fits width most acc = (t : ℕ) → count_if (in_window width t) acc ≤ most

-- One more order keeps to the limit when the code counts fewer than the limit before it.
pub Fits-grow :
    (width most now : ℕ) (acc : List ℕ)
    → Fits width most acc
    → count_if (within width now) acc < most
    → Fits width most (acc ++ now ∷ [])
Fits-grow width most now acc f h t =
    let a = count-append (in_window width t) acc (now ∷ []) in
    let w = window_le_count width now t acc in
    let z = future_empty width now t in
    let one : count_if (in_window width t) (now ∷ []) ≤ 1 = ground arith in
    elim (Bool-cases (ltb t now)) [
      | inl e ↦ ground (arith, a, z, f t)
      | inr e ↦ ground (arith, a, w, one)
    ]

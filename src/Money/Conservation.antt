-- ===== src/Money/Conservation.antt =====
-- No money is lost or made.
use mathlib.Core.Path.{subst}
use claude_library.Prelude.{
  ℕ, suc, ◌≡◌, ◌≢◌, ◌⊎◌, inl, inr, refl, ap, sym, ◌∙◌, String, Bool, true, false, List, [], ◌∷◌,
  arith, if◌then◌else◌, length, All, Bool-cases,
}
use claude_library.Prelude.Key.{string_key, ◌=?◌}
use claude_library.Prelude.Int.{ℤ, pos, ◌+ℤ◌, ◌-ℤ◌, +ℤ_parts, -ℤ_parts, eq_of_parts}
use claude_library.Money.Operations.{
  Money, currency_mismatch, ok, failed, add, sub, add_each, add_money, subtract_money, total_of,
  allocations, allocate_money,
}

-- The sum of some amounts.
unfoldable pub amount_of : List Money → ℤ
amount_of [] = pos 0
amount_of (m ∷ ms) = m.amount +ℤ amount_of ms

+ℤ_zero : (a : ℤ) → a +ℤ pos 0 ≡ a
+ℤ_zero a = eq_of_parts (a +ℤ pos 0) a (omega (arith, +ℤ_parts a (pos 0)))

+ℤ_assoc : (a b c : ℤ) → (a +ℤ b) +ℤ c ≡ a +ℤ (b +ℤ c)
+ℤ_assoc a b c =
    eq_of_parts ((a +ℤ b) +ℤ c) (a +ℤ (b +ℤ c))
      (omega (arith, +ℤ_parts a b, +ℤ_parts (a +ℤ b) c, +ℤ_parts b c, +ℤ_parts a (b +ℤ c)))

add_back : (a b c : ℤ) → (a +ℤ (b -ℤ a)) +ℤ c ≡ b +ℤ c
add_back a b c =
    eq_of_parts ((a +ℤ (b -ℤ a)) +ℤ c) (b +ℤ c)
      (omega (arith, -ℤ_parts b a, +ℤ_parts a (b -ℤ a), +ℤ_parts (a +ℤ (b -ℤ a)) c, +ℤ_parts b c))

+ℤ-ℤ : (a b : ℤ) → (a +ℤ b) -ℤ b ≡ a
+ℤ-ℤ a b = eq_of_parts ((a +ℤ b) -ℤ b) a (omega (arith, +ℤ_parts a b, -ℤ_parts (a +ℤ b) b))

abbrev pub Currency : String → List Money → Type 0
Currency c ms = All (λ m. m.currency ≡ c) ms

same_currency : (m x : Money) → x.currency ≡ m.currency → (m.currency =? x.currency) ≡ true
same_currency m x p = (string_key.beq_iff m.currency x.currency).1 (sym p)

add_each_total :
    (m : Money) (ms : List Money)
    → Currency m.currency ms
    → add_each m ms ≡ ok (record { amount = m.amount +ℤ amount_of ms; currency = m.currency })
unfolding add_each add amount_of
add_each_total m [] h =
    ap (λ a. ok (record { amount = a; currency = m.currency })) (sym (+ℤ_zero m.amount))
add_each_total m (x ∷ ms) (p, h) =
    let r : Money = record { amount = m.amount +ℤ x.amount; currency = m.currency } in
    let step : add_each m (x ∷ ms) ≡ add_each r ms = ground (arith, same_currency m x p) in
    step
    ∙ add_each_total r ms h
    ∙ ap (λ a. ok (record { amount = a; currency = m.currency }))
        (+ℤ_assoc m.amount x.amount (amount_of ms))

-- Amounts of one currency and other amounts.
all_same : String → List Money → Bool
all_same c [] = true
all_same c (m ∷ ms) = if c =? m.currency then all_same c ms else false

all_same-Currency : (c : String) (ms : List Money) → all_same c ms ≡ true → Currency c ms
unfolding all_same
all_same-Currency c [] h = tt
all_same-Currency c (m ∷ ms) h = elim (Bool-cases (c =? m.currency)) [
  | inl q ↦
      (sym ((string_key.beq_iff c m.currency).0 q), all_same-Currency c ms (ground (arith, q, h)))
  | inr q ↦ absurd (ground (arith, q, h))
]

add_each_mixed :
    (m : Money) (ms : List Money)
    → all_same m.currency ms ≡ false
    → add_each m ms ≡ failed currency_mismatch
unfolding add_each add all_same
add_each_mixed m [] h = absurd (cc h)
add_each_mixed m (x ∷ ms) h = elim (Bool-cases (m.currency =? x.currency)) [
  | inl q ↦
      let r : Money = record { amount = m.amount +ℤ x.amount; currency = m.currency } in
      let step : add_each m (x ∷ ms) ≡ add_each r ms = ground (arith, q) in
      step ∙ add_each_mixed r ms (ground (arith, q, h))
  | inr q ↦ ground (arith, q)
]

sub_first : (m x r : ℤ) → (m +ℤ (x +ℤ r)) -ℤ x ≡ m +ℤ r
sub_first m x r =
    eq_of_parts ((m +ℤ (x +ℤ r)) -ℤ x) (m +ℤ r)
      (omega (arith, -ℤ_parts (m +ℤ (x +ℤ r)) x, +ℤ_parts m (x +ℤ r), +ℤ_parts x r, +ℤ_parts m r))

subtract_each :
    (m : Money) (ms : List Money)
    → Currency m.currency ms
    → subtract_money (record { amount = m.amount +ℤ amount_of ms; currency = m.currency }) ms ≡ ok m
unfolding subtract_money sub amount_of
subtract_each m [] h =
    ap (λ a. ok (record { amount = a; currency = m.currency })) (+ℤ_zero m.amount)
subtract_each m (x ∷ ms) (p, h) =
    let s : Money = record {
      amount = m.amount +ℤ (x.amount +ℤ amount_of ms);
      currency = m.currency;
    } in
    let t : Money = record {
      amount = (m.amount +ℤ (x.amount +ℤ amount_of ms)) -ℤ x.amount;
      currency = m.currency;
    } in
    let step : subtract_money s (x ∷ ms) ≡ subtract_money t ms =
      ground (arith, same_currency m x p) in
    step
    ∙ ap (λ a. subtract_money (record { amount = a; currency = m.currency }) ms)
        (sub_first m.amount x.amount (amount_of ms))
    ∙ subtract_each m ms h

all_same_complete : (c : String) (ms : List Money) → Currency c ms → all_same c ms ≡ true
unfolding all_same
all_same_complete c [] h = refl
all_same_complete c (m ∷ ms) (p, h) =
    ground (arith, (string_key.beq_iff c m.currency).1 (sym p), all_same_complete c ms h)

-- A sum of amounts of one currency is their total in that currency, and to take all but the first away
-- from it again gives back the first. A sum of amounts of different currencies is an error.
pub subtract_money-add_money :
    (m : Money) (ms : List Money)
    → ((s : Money) × Currency m.currency ms
        × (add_money (m ∷ ms) ≡ ok s)
        × (s.amount ≡ m.amount +ℤ amount_of ms)
        × (s.currency ≡ m.currency)
        × (subtract_money s ms ≡ ok m))
      ⊎ ((add_money (m ∷ ms) ≡ failed currency_mismatch) × (Currency m.currency ms → ⊥))
unfolding add_money
subtract_money-add_money m ms = elim (Bool-cases (all_same m.currency ms)) [
  | inl q ↦
      let h = all_same-Currency m.currency ms q in
      let s : Money = record { amount = m.amount +ℤ amount_of ms; currency = m.currency } in
      inl (s, h, add_each_total m ms h, refl, refl, subtract_each m ms h)
  | inr q ↦ inr (add_each_mixed m ms q, λ h. cc (q, all_same_complete m.currency ms h))
]

module _ (portion : ℤ → ℤ → ℤ → ℤ) (m : Money) (total : ℤ) where
  allocations-Currency :
      (remaining ratio : ℤ) (ratios : List ℤ)
      → Currency m.currency (allocations portion m total remaining ratio ratios)
  unfolding allocations
  allocations-Currency remaining ratio [] = (refl, tt)
  allocations-Currency remaining ratio (next ∷ ratios) =
      (refl, allocations-Currency (remaining -ℤ portion m.amount ratio total) next ratios)

  length-allocations :
      (remaining ratio : ℤ) (ratios : List ℤ)
      → length (allocations portion m total remaining ratio ratios) ≡ suc (length ratios)
  unfolding allocations
  length-allocations remaining ratio [] = refl
  length-allocations remaining ratio (next ∷ ratios) =
      ap suc (length-allocations (remaining -ℤ portion m.amount ratio total) next ratios)

  amount_of-allocations :
      (remaining ratio : ℤ) (ratios : List ℤ)
      → amount_of (allocations portion m total remaining ratio ratios) ≡ remaining
  unfolding allocations amount_of
  amount_of-allocations remaining ratio [] = +ℤ_zero remaining
  amount_of-allocations remaining ratio (next ∷ ratios) =
      let a = portion m.amount ratio total in
      ap (λ k. a +ℤ k) (amount_of-allocations (remaining -ℤ a) next ratios)
      ∙ sym (+ℤ_zero (a +ℤ (remaining -ℤ a)))
      ∙ add_back a remaining (pos 0)
      ∙ +ℤ_zero remaining

add_money_total :
    (c : String) (k : ℕ) (ms : List Money)
    → Currency c ms
    → length ms ≡ suc k
    → add_money ms ≡ ok (record { amount = amount_of ms; currency = c })
unfolding add_money amount_of
add_money_total c k [] h e = absurd (omega (arith, e))
add_money_total c k (m ∷ ms) (p, h) e =
    add_each_total m ms (subst (λ d. Currency d ms) (sym p) h)
    ∙ ap (λ d. ok (record { amount = m.amount +ℤ amount_of ms; currency = d })) p

-- However the portions are rounded, an allocation to ratios whose sum is not zero has an amount of the
-- same currency for each ratio, and the amounts add up to exactly what was allocated.
pub allocate_conserves :
    (portion : ℤ → ℤ → ℤ → ℤ) (m : Money) (ratio : ℤ) (ratios : List ℤ)
    → total_of (ratio ∷ ratios) ≢ pos 0
    → (ms : List Money) × (allocate_money portion m (ratio ∷ ratios) ≡ ok ms)
      × (length ms ≡ length (ratio ∷ ratios))
      × Currency m.currency ms
      × (add_money ms ≡ ok m)
unfolding allocate_money
allocate_conserves portion m ratio ratios h =
    let total = total_of (ratio ∷ ratios) in
    let ms = allocations portion m total m.amount ratio ratios in
    let e = eq_of_parts total (pos 0) in
    let c = allocations-Currency portion m total m.amount ratio ratios in
    let l = length-allocations portion m total m.amount ratio ratios in
    (
      ms,
      ground (arith, e, h),
      l,
      c,
      add_money_total m.currency (length ratios) ms c l
          ∙ ap (λ a. ok (record { amount = a; currency = m.currency }))
              (amount_of-allocations portion m total m.amount ratio ratios),
    )

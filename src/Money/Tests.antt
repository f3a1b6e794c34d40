-- ===== src/Money/Tests.antt =====
-- Ten dollars, in cents, for three.
use claude_library.Prelude.{ℕ, ◌*◌, ◌/◌, ◌≡◌, ◌≢◌, ◌⊎◌, refl, List, [], ◌∷◌, length}
use claude_library.Prelude.Int.{ℤ, pos, pos_part, ◌+ℤ◌, ◌-ℤ◌}
use claude_library.Money.Operations.{
  Money, currency_mismatch, ok, failed, add_money, subtract_money, max_money, total_of,
  allocate_money,
}
use claude_library.Money.Conservation.{
  Currency, amount_of, subtract_money-add_money, allocate_conserves,
}

-- A rounding down.
abbrev portion : ℤ → ℤ → ℤ → ℤ
portion amount ratio total = pos (pos_part amount * pos_part ratio / pos_part total)

abbrev dollars : ℕ → Money
dollars n = record { amount = pos n; currency = "USD" }

abbrev euros : ℕ → Money
euros n = record { amount = pos n; currency = "EUR" }

abbrev thirds : List ℤ
thirds = pos 1 ∷ pos 1 ∷ []

-- The last of the three gets the cent that is left.
three_ways :
    allocate_money portion (dollars 1000) (pos 1 ∷ thirds)
    ≡ ok (dollars 333 ∷ dollars 333 ∷ dollars 334 ∷ [])
unfolding allocate_money ◌+ℤ◌ ◌-ℤ◌
three_ways = refl

-- The greater amount wins, whatever its currency.
greatest : max_money (dollars 5 ∷ euros 7 ∷ []) ≡ ok (euros 7)
unfolding max_money
greatest = refl

three_not_zero : total_of (pos 1 ∷ thirds) ≢ pos 0
unfolding total_of ◌+ℤ◌
three_not_zero e = cc e

allocate_conserves_example :
    (ms : List Money) × (allocate_money portion (dollars 1000) (pos 1 ∷ thirds) ≡ ok ms)
    × (length ms ≡ 3)
    × Currency "USD" ms
    × (add_money ms ≡ ok (dollars 1000))
allocate_conserves_example = allocate_conserves portion (dollars 1000) (pos 1) thirds three_not_zero

subtract_money-add_money_example :
    ((s : Money) × Currency "USD" (dollars 7 ∷ [])
      × (add_money (dollars 5 ∷ dollars 7 ∷ []) ≡ ok s)
      × (s.amount ≡ pos 5 +ℤ amount_of (dollars 7 ∷ []))
      × (s.currency ≡ "USD")
      × (subtract_money s (dollars 7 ∷ []) ≡ ok (dollars 5)))
    ⊎ ((add_money (dollars 5 ∷ dollars 7 ∷ []) ≡ failed currency_mismatch)
        × (Currency "USD" (dollars 7 ∷ []) → ⊥))
subtract_money-add_money_example = subtract_money-add_money (dollars 5) (dollars 7 ∷ [])

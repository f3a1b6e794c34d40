-- ===== src/Money/Operations.antt =====
-- `Money` and the functions of operations.py. A Decimal is a whole number of a unit that is small enough
-- for the amounts at hand: their sums and differences are exact.
use claude_library.Prelude.{String, Bool, false, List, [], ◌∷◌, if◌then◌else◌}
use claude_library.Prelude.Int.{ℤ, pos, ◌+ℤ◌, ◌-ℤ◌, ltb_ℤ, leb_ℤ}
use claude_library.Prelude.Key.{string_key, ◌=?◌}

pub record Money : Type 0 where
  pub amount : ℤ
  pub currency : String

pub data MoneyError : Type 0 where
  currency_mismatch no_amounts no_ratios zero_ratios : MoneyError

pub data Result (A : Type 0) : Type 0 where
  ok : A → Result A
  failed : MoneyError → Result A

-- `_check_currency`, with what is computed behind it.
abbrev pub checked : {A : Type 0} → Money → Money → A → Result A
checked a b x = if a.currency =? b.currency then ok x else failed currency_mismatch

unfoldable pub add : Money → Money → Result Money
add a b = checked a b (record { amount = a.amount +ℤ b.amount; currency = a.currency })

unfoldable pub sub : Money → Money → Result Money
sub a b = checked a b (record { amount = a.amount -ℤ b.amount; currency = a.currency })

unfoldable pub lt : Money → Money → Result Bool
lt a b = checked a b (ltb_ℤ a.amount b.amount)

unfoldable pub le : Money → Money → Result Bool
le a b = checked a b (leb_ℤ a.amount b.amount)

unfoldable pub zero_money : String → Money
zero_money currency = record { amount = pos 0; currency = currency }

-- `for amount in amounts[1:]: result = result + amount`
unfoldable pub add_each : Money → List Money → Result Money
unfolding add
add_each result [] = ok result
add_each result (amount ∷ amounts) = elim (add result amount) [
  | failed e ↦ failed e
  | ok r ↦ add_each r amounts
]

unfoldable pub add_money : List Money → Result Money
unfolding add_each
add_money [] = failed no_amounts
add_money (amount ∷ amounts) = add_each amount amounts

unfoldable pub subtract_money : Money → List Money → Result Money
unfolding sub
subtract_money minuend [] = ok minuend
subtract_money minuend (s ∷ subtrahends) = elim (sub minuend s) [
  | failed e ↦ failed e
  | ok r ↦ subtract_money r subtrahends
]

unfoldable pub sum_money : List Money → Result Money
unfolding add_each zero_money
sum_money [] = ok (zero_money "USD")
sum_money (amount ∷ amounts) = add_each amount amounts

unfoldable pub max_from : Money → List Money → Money
max_from best [] = best
max_from best (m ∷ ms) =
    let rest = max_from m ms in
    let kept = max_from best ms in if ltb_ℤ best.amount m.amount then rest else kept

unfoldable pub max_money : List Money → Result Money
unfolding max_from
max_money [] = failed no_amounts
max_money (m ∷ ms) = ok (max_from m ms)

unfoldable pub min_from : Money → List Money → Money
min_from best [] = best
min_from best (m ∷ ms) =
    let rest = min_from m ms in
    let kept = min_from best ms in if ltb_ℤ m.amount best.amount then rest else kept

unfoldable pub min_money : List Money → Result Money
unfolding min_from
min_money [] = failed no_amounts
min_money (m ∷ ms) = ok (min_from m ms)

unfoldable pub total_of : List ℤ → ℤ
total_of [] = pos 0
total_of (r ∷ rs) = r +ℤ total_of rs

-- `portion amount ratio total` is `(amount * (ratio / total)).quantize(Decimal("0.01"))`, the Decimal
-- arithmetic of Python.
module _ (portion : ℤ → ℤ → ℤ → ℤ) where
  -- The loop over all ratios but the last, and the last allocation.
  unfoldable pub allocations : Money → ℤ → ℤ → ℤ → List ℤ → List Money
  allocations amount total remaining ratio [] =
      record { amount = remaining; currency = amount.currency } ∷ []
  allocations amount total remaining ratio (next ∷ ratios) =
      let allocation = portion amount.amount ratio total in
      record { amount = allocation; currency = amount.currency }
      ∷ allocations amount total (remaining -ℤ allocation) next ratios

  unfoldable pub allocate_money : Money → List ℤ → Result (List Money)
  unfolding total_of allocations
  allocate_money amount [] = failed no_ratios
  allocate_money amount (ratio ∷ ratios) =
      let total = total_of (ratio ∷ ratios) in
      if (if leb_ℤ total (pos 0) then leb_ℤ (pos 0) total else false)
      then failed zero_ratios
      else ok (allocations amount total amount.amount ratio ratios)

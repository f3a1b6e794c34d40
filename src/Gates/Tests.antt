-- ===== src/Gates/Tests.antt =====
-- The gate system on concrete inputs, and its theorems at inputs that meet their hypotheses.
use claude_library.Prelude.{String, ◌≡◌, refl, true, none, some, List, [], ◌∷◌, arith, All}
use claude_library.Prelude.Int.{pos, ◌+ℤ◌, ◌-ℤ◌, ◌*ℤ◌}
use claude_library.Prelude.Dict.{lookup, values}
use claude_library.Gates.Level.{
  g0, level_key, asset_not_allowed, cash_floor_violation, position_size_exceeded,
}
use claude_library.Gates.Config.{post_init, create_default_gate_configs, starter_config}
use claude_library.Gates.State.{GateManager, Event, save_state}
use claude_library.Gates.Capital.{determine_gate_by_capital}
use claude_library.Gates.Trade.{
  TradeDetails, Portfolio, position_value, TradeValidationResult, violations_of, validate_trade,
}
use claude_library.Gates.Manager.{Options, init}
use claude_library.Gates.Tiers.{gate_of}
use claude_library.Gates.Records.{IsValidated, validate_trade_exact, new_record}

abbrev defaults : Options
defaults = record {
  gate_configs = none;
  graduation_criteria = none;
  downgrade_criteria = none;
  has_on_violation = true;
  has_on_graduation = true;
  has_on_downgrade = true;
  has_data_dir = true;
}

abbrev started : GateManager
unfolding init
started = init defaults none

-- With 300 dollars, and all of it on file.
abbrev small : GateManager
unfolding started save_state
small = save_state (record started { current_capital = pos 3000000 })

-- `str.upper` on the words that the tests use, which are in upper case.
abbrev same : String → String
same s = s

-- Ten shares of SPY at 20 dollars, with 300 dollars in cash and one share held.
abbrev purchase : TradeDetails
purchase = record {
  symbol = some "SPY";
  side = some "BUY";
  quantity = some (pos 100000);
  price = some (pos 200000);
  trade_type = none;
  theta = none;
  kelly_percentage = none;
}

abbrev holdings : Portfolio
holdings = record {
  cash = some (pos 3000000);
  positions = ("SPY", record { quantity = some (pos 10000); current_price = none }) ∷ [];
  total_value = some (pos 3200000);
  total_theta = none;
}

-- The same manager with one violation on record.
abbrev refused : GateManager
refused = record small { violation_history = new_record 7 g0 asset_not_allowed ∷ [] }

purchase_refused :
    violations_of same starter_config purchase holdings
    ≡ asset_not_allowed ∷ cash_floor_violation ∷ position_size_exceeded ∷ []
unfolding violations_of lookup position_value ◌-ℤ◌ ◌*ℤ◌ ◌+ℤ◌
purchase_refused = refl

defaults_valid : All (λ c. post_init c ≡ none) (values create_default_gate_configs)
unfolding create_default_gate_configs post_init
defaults_valid = ground arith

-- Half a cent below 100,000 dollars is the capital of a beginner.
half_a_cent_short : gate_of (pos 999999950) ≡ g0
unfolding determine_gate_by_capital create_default_gate_configs
half_a_cent_short = refl

validate_trade_exact_example :
    (r : TradeValidationResult) × (m' : GateManager) × (calls : List Event) × (validate_trade same 7
        purchase holdings small
      ≡ some (r, m', calls))
    × IsValidated same 7 purchase holdings small starter_config r m'
unfolding small lookup create_default_gate_configs
validate_trade_exact_example =
    validate_trade_exact same 7 purchase holdings small starter_config refl

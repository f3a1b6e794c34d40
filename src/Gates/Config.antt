-- ===== src/Gates/Config.antt =====
-- Gate configurations of components/trading/gate_system/gate_manager.py. A `Decimal` is a whole
-- number of ten-thousandths: `pos 4999900` is 499.99, and a percentage `pos 5000` is 0.50.
use claude_library.Prelude.{
  ℕ, ◌*◌, String, Bool, true, false, ◌&&◌, not, Option, none, some, List, [], ◌∷◌, if◌then◌else◌,
}
use claude_library.Prelude.Int.{ℤ, pos, ◌+ℤ◌, ◌-ℤ◌, ltb_ℤ, leb_ℤ}
use claude_library.Prelude.Dict.{Dict}
use claude_library.Gates.Level.{
  GateLevel, g0, g1, g2, g3, g4, g5, g6, g7, g8, g9, g10, g11, g12, level_key,
}

pub record GateConfig : Type 0 where
  pub level : GateLevel
  pub capital_min : ℤ
  pub capital_max : ℤ
  pub allowed_assets : List String
  pub cash_floor_pct : ℤ
  pub options_enabled : Bool
  pub max_theta_pct : Option ℤ
  pub max_position_pct : ℤ
  pub max_concentration_pct : ℤ
  pub risk_pct : ℤ

-- 1 in ten-thousandths.
abbrev pub one : ℕ
one = 10000

abbrev pub in_unit : ℤ → Bool
in_unit x = leb_ℤ (pos 0) x && leb_ℤ x (pos one)

-- The `ValueError`s of `__post_init__`, in the order of its tests.
pub data ConfigError : Type 0 where
  invalid_capital_range invalid_cash_floor invalid_theta invalid_max_position : ConfigError
  invalid_risk : ConfigError

theta_in_unit : Option ℤ → Bool
theta_in_unit none = true
theta_in_unit (some t) = in_unit t

unfoldable pub post_init : GateConfig → Option ConfigError
unfolding theta_in_unit
post_init c =
    if leb_ℤ c.capital_max c.capital_min
    then some invalid_capital_range
    else if not (in_unit c.cash_floor_pct)
    then some invalid_cash_floor
    else if not (theta_in_unit c.max_theta_pct)
    then some invalid_theta
    else if not (in_unit c.max_position_pct)
    then some invalid_max_position
    else if not (in_unit c.risk_pct)
    then some invalid_risk
    else none

abbrev pub max_capital_sentinel : ℤ
max_capital_sentinel = pos 9999999999999900

-- `DEFAULT_GATE_THRESHOLDS`
unfoldable pub default_gate_thresholds : GateLevel → ℤ × ℤ
default_gate_thresholds g0 = (pos 2000000, pos 4999900)
default_gate_thresholds g1 = (pos 5000000, pos 9999900)
default_gate_thresholds g2 = (pos 10000000, pos 24999900)
default_gate_thresholds g3 = (pos 25000000, pos 49999900)
default_gate_thresholds g4 = (pos 50000000, pos 99999900)
default_gate_thresholds g5 = (pos 100000000, pos 249999900)
default_gate_thresholds g6 = (pos 250000000, pos 499999900)
default_gate_thresholds g7 = (pos 500000000, pos 999999900)
default_gate_thresholds g8 = (pos 1000000000, pos 2499999900)
default_gate_thresholds g9 = (pos 2500000000, pos 4999999900)
default_gate_thresholds g10 = (pos 5000000000, pos 9999999900)
default_gate_thresholds g11 = (pos 10000000000, pos 99999999900)
default_gate_thresholds g12 = (pos 100000000000, max_capital_sentinel)

abbrev pub starter_assets : List String
starter_assets = "ULTY" ∷ "AMDY" ∷ []

abbrev pub beginner_assets : List String
beginner_assets = "ULTY" ∷ "AMDY" ∷ "IAU" ∷ "GLDM" ∷ "VTIP" ∷ []

abbrev pub intermediate_assets : List String
intermediate_assets =
    "ULTY" ∷ "AMDY" ∷ "IAU" ∷ "GLDM" ∷ "VTIP" ∷ "VTI" ∷ "VTV" ∷ "VUG" ∷ "VEA" ∷ "VWO" ∷ "SCHD"
    ∷ "DGRO" ∷ "NOBL" ∷ "VYM" ∷ []

abbrev pub advanced_assets : List String
advanced_assets =
    "ULTY" ∷ "AMDY" ∷ "IAU" ∷ "GLDM" ∷ "VTIP" ∷ "VTI" ∷ "VTV" ∷ "VUG" ∷ "VEA" ∷ "VWO" ∷ "SCHD"
    ∷ "DGRO" ∷ "NOBL" ∷ "VYM" ∷ "SPY" ∷ "QQQ" ∷ "IWM" ∷ "DIA" ∷ []

max_ℤ : ℤ → ℤ → ℤ
max_ℤ a b = if ltb_ℤ a b then b else a

min_ℤ : ℤ → ℤ → ℤ
min_ℤ a b = if ltb_ℤ b a then b else a

-- The loop body for G4 to G12, at round `i`.
unfoldable pub upper_config : GateLevel → ℕ → GateConfig
unfolding max_ℤ min_ℤ default_gate_thresholds ◌+ℤ◌ ◌-ℤ◌
upper_config level i = record {
  level = level;
  capital_min = (default_gate_thresholds level).0;
  capital_max = (default_gate_thresholds level).1;
  allowed_assets = "*" ∷ [];
  cash_floor_pct = max_ℤ (pos 3000) (pos 7000 -ℤ pos (i * 500));
  options_enabled = true;
  max_theta_pct = some (min_ℤ (pos 200) (pos 50 +ℤ pos (i * 20)));
  max_position_pct = min_ℤ (pos 3000) (pos 2000 +ℤ pos (i * 100));
  max_concentration_pct = min_ℤ (pos 4000) (pos 3000 +ℤ pos (i * 100));
  risk_pct = max_ℤ (pos 200) (pos 400 -ℤ pos (i * 20));
}

abbrev pub starter_config : GateConfig
starter_config = record {
  level = g0;
  capital_min = pos 2000000;
  capital_max = pos 4999900;
  allowed_assets = starter_assets;
  cash_floor_pct = pos 5000;
  options_enabled = false;
  max_theta_pct = none;
  max_position_pct = pos 2500;
  max_concentration_pct = pos 4000;
  risk_pct = pos 500;
}

abbrev pub beginner_config : GateConfig
beginner_config = record {
  level = g1;
  capital_min = pos 5000000;
  capital_max = pos 9999900;
  allowed_assets = beginner_assets;
  cash_floor_pct = pos 6000;
  options_enabled = false;
  max_theta_pct = none;
  max_position_pct = pos 2200;
  max_concentration_pct = pos 3500;
  risk_pct = pos 500;
}

abbrev pub intermediate_config : GateConfig
intermediate_config = record {
  level = g2;
  capital_min = pos 10000000;
  capital_max = pos 24999900;
  allowed_assets = intermediate_assets;
  cash_floor_pct = pos 6500;
  options_enabled = false;
  max_theta_pct = none;
  max_position_pct = pos 2000;
  max_concentration_pct = pos 3000;
  risk_pct = pos 500;
}

abbrev pub advanced_config : GateConfig
advanced_config = record {
  level = g3;
  capital_min = pos 25000000;
  capital_max = pos 49999900;
  allowed_assets = advanced_assets;
  cash_floor_pct = pos 7000;
  options_enabled = true;
  max_theta_pct = some (pos 50);
  max_position_pct = pos 2000;
  max_concentration_pct = pos 3000;
  risk_pct = pos 400;
}

unfoldable pub create_default_gate_configs : Dict GateLevel GateConfig
unfolding upper_config
create_default_gate_configs =
    (g0, starter_config)
    ∷ (g1, beginner_config)
    ∷ (g2, intermediate_config)
    ∷ (g3, advanced_config)
    ∷ (g4, upper_config g4 0)
    ∷ (g5, upper_config g5 1)
    ∷ (g6, upper_config g6 2)
    ∷ (g7, upper_config g7 3)
    ∷ (g8, upper_config g8 4)
    ∷ (g9, upper_config g9 5)
    ∷ (g10, upper_config g10 6)
    ∷ (g11, upper_config g11 7)
    ∷ (g12, upper_config g12 8)
    ∷ []

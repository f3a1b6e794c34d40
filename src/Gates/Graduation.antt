-- ===== src/Gates/Graduation.antt =====
-- Graduation and downgrade of components/trading/gate_system/gate_manager.py.
use claude_library.Prelude.{
  ℕ, ◌+◌, ◌-◌, ◌/◌, min, Bool, true, false, ◌&&◌, ◌||◌, Option, none, some, List, [], ◌∷◌, ltb, leb,
  if◌then◌else◌, get_elem?, ◌==◌,
}
use claude_library.Prelude.Int.{ℤ, pos, pos_part, neg_part, ◌+ℤ◌, ◌-ℤ◌, ltb_ℤ, leb_ℤ}
use claude_library.Prelude.Dict.{Dict, lookup, contains}
use claude_library.Gates.Level.{GateLevel, g0, g1, g2, g3, index, gate_levels, level_key}
use claude_library.Gates.Config.{GateConfig}
use claude_library.Gates.State.{
  GraduationMetrics, new_metrics, GraduationCriteria, DowngradeCriteria, GateManager, Event,
  on_graduation, on_downgrade, save_state, days,
}
use claude_library.Gates.Trade.{get_or}

abbrev pub criteria : ℕ → ℕ → ℕ → ℤ → GraduationCriteria
criteria compliant violations score capital = record {
  min_compliant_days = compliant;
  max_violations_30d = violations;
  min_performance_score = score;
  min_capital = capital;
}

-- `_default_graduation_criteria`: there are none above G3.
unfoldable pub default_graduation_criteria : Dict GateLevel GraduationCriteria
default_graduation_criteria =
    (g0, criteria 14 2 12000 (pos 5000000))
    ∷ (g1, criteria 21 1 14000 (pos 10000000))
    ∷ (g2, criteria 30 0 15000 (pos 25000000))
    ∷ (g3, criteria 45 0 16000 (pos 50000000))
    ∷ []

unfoldable pub default_downgrade_criteria : DowngradeCriteria
default_downgrade_criteria = record {
  max_violations_30d = 5;
  min_performance_score = 6000;
  max_drawdown_threshold = pos 1500;
}

-- A figure that is missing is `none`; a Sharpe ratio may be `None` too, and adds nothing then.
pub record PortfolioMetrics : Type 0 where
  pub sharpe_ratio_30d : Option ℤ
  pub max_drawdown_30d : Option ℤ
  pub avg_cash_utilization_30d : Option ℤ

abbrev pub magnitude : ℤ → ℕ
magnitude x = pos_part x + neg_part x

-- `min(0.4, max(0, sharpe / 2))`, in half ten-thousandths.
unfoldable pub sharpe_part : Option ℤ → ℕ
sharpe_part none = 0
sharpe_part (some s) = min 8000 (pos_part s)

unfoldable pub drawdown_part : ℕ → ℕ
drawdown_part d =
    if leb d 500 then 6000 else if leb d 1000 then 4000 else if leb d 1500 then 2000 else 0

unfoldable pub cash_part : ℕ → ℕ
cash_part away = if leb away 500 then 4000 else if leb away 1000 then 2000 else 0

unfoldable pub compliance_part : ℕ → ℕ
compliance_part violations = if violations == 0 then 2000 else 0

-- `_calculate_performance_score`, in half ten-thousandths: 1.0 is 20000.
unfoldable pub calculate_performance_score : GateConfig → ℕ → PortfolioMetrics → ℕ
unfolding sharpe_part drawdown_part cash_part compliance_part
calculate_performance_score c violations m = min 20000 (
    sharpe_part m.sharpe_ratio_30d
    + drawdown_part (magnitude (get_or m.max_drawdown_30d (pos 0)))
    + cash_part (magnitude (get_or m.avg_cash_utilization_30d (pos 0) -ℤ optimal))
    + compliance_part violations)
  where
    optimal : ℤ
    optimal = pos 10000 -ℤ c.cash_floor_pct +ℤ pos 500

-- One more compliant day at each check, but no more than there were days since a violation.
unfoldable pub compliant_days : ℕ → Option ℕ → ℕ → ℕ
compliant_days now none n = n + 1
compliant_days now (some last) n =
    let since = (now - last) / days 1 in if leb 1 since then min since (n + 1) else n

pub data Verdict : Type 0 where
  graduate hold downgrade : Verdict

unfoldable pub must_downgrade : DowngradeCriteria → GraduationMetrics → Bool
must_downgrade d g =
    ltb d.max_violations_30d g.total_violations_30d
    || (ltb g.performance_score d.min_performance_score
        || ltb_ℤ d.max_drawdown_threshold g.max_drawdown_30d)

unfoldable pub may_graduate : Option GraduationCriteria → ℤ → GraduationMetrics → Bool
may_graduate none capital g = false
may_graduate (some k) capital g =
    leb k.min_compliant_days g.consecutive_compliant_days
    && (leb g.total_violations_30d k.max_violations_30d
        && (leb k.min_performance_score g.performance_score && leb_ℤ k.min_capital capital))

-- The metrics as `check_graduation` leaves them.
unfoldable pub updated_metrics :
    ℕ → GateConfig → PortfolioMetrics → GraduationMetrics → GraduationMetrics
unfolding compliant_days calculate_performance_score
updated_metrics now c p g = record g {
  sharpe_ratio_30d = p.sharpe_ratio_30d;
  max_drawdown_30d = get_or p.max_drawdown_30d (pos 0);
  avg_cash_utilization_30d = get_or p.avg_cash_utilization_30d (pos 0);
  performance_score = calculate_performance_score c g.total_violations_30d p;
  consecutive_compliant_days =
      compliant_days now g.last_violation_date g.consecutive_compliant_days;
}

-- `check_graduation`; `none` is the `KeyError` of a current gate that has no configuration.
unfoldable pub check_graduation :
    ℕ → PortfolioMetrics → GateManager → Option (Verdict × GateManager)
check_graduation now p m = elim (lookup m.current_gate m.gate_configs) [
  | none ↦ none
  | some c ↦
      (let g = updated_metrics now c p m.graduation_metrics in
        some (
          if must_downgrade m.downgrade_criteria g
              then downgrade
              else if may_graduate (lookup m.current_gate m.graduation_criteria) m.current_capital g
              then graduate
              else hold,
          record m { graduation_metrics = g },
        ))
]

-- The move to another gate, which starts its metrics anew.
move_to : GateLevel → GateManager → GateManager
unfolding save_state
move_to level m = save_state (record m { current_gate = level; graduation_metrics = new_metrics })

abbrev pub configured : GateManager → Option GateLevel → Option GateLevel
configured m none = none
configured m (some level) = if contains level m.gate_configs then some level else none

unfoldable pub execute_graduation : GateManager → Bool × GateManager × List Event
unfolding move_to
execute_graduation m = elim (configured m (get_elem? gate_levels (index m.current_gate + 1))) [
  | none ↦ (false, m, [])
  | some level ↦ (
    true,
    move_to level m,
    if m.hears_graduations then on_graduation m.current_gate level ∷ [] else [],
  )
]

-- `list(GateLevel)[index - 1]`, where the index is not 0.
abbrev pub level_below : GateLevel → Option GateLevel
level_below level = if index level == 0 then none else get_elem? gate_levels (index level - 1)

unfoldable pub execute_downgrade : GateManager → Bool × GateManager × List Event
unfolding move_to
execute_downgrade m = elim (configured m (level_below m.current_gate)) [
  | none ↦ (false, m, [])
  | some level ↦ (
    true,
    move_to level m,
    if m.hears_downgrades then on_downgrade m.current_gate level ∷ [] else [],
  )
]

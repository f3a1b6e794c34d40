-- ===== src/Gates/Progression.antt =====
-- Graduation, downgrade and what `check_graduation` counts.
use claude_library.Prelude.{
  ℕ, ◌+◌, ◌<◌, ◌≡◌, ◌≢◌, ◌∙◌, if◌then◌else◌, refl, Bool, true, false, Option, none, some, List, [],
  ◌∷◌, arith, length,
}
use claude_library.Prelude.Int.{pos, ◌-ℤ◌, ◌+ℤ◌}
use claude_library.Prelude.Dict.{lookup, contains}
use claude_library.Gates.Level.{GateLevel, index, level_key}
use claude_library.Gates.Config.{GateConfig}
use claude_library.Gates.State.{new_metrics, GateManager}
use claude_library.Gates.Trade.{get_or}
use claude_library.Gates.Graduation.{
  PortfolioMetrics, magnitude, sharpe_part, drawdown_part, cash_part, compliance_part,
  calculate_performance_score, Verdict, graduate, hold, downgrade, must_downgrade, may_graduate,
  updated_metrics, check_graduation, execute_graduation, execute_downgrade,
  default_graduation_criteria,
}

-- A move that happened: the gate is `by` steps away, and only the metrics have started anew.
pub record HasMoved (m m' : GateManager) : Type 0 where
  pub metrics : m'.graduation_metrics ≡ new_metrics
  pub history : m'.violation_history ≡ m.violation_history
  pub capital : m'.current_capital ≡ m.current_capital
  pub configs : m'.gate_configs ≡ m.gate_configs

-- A graduation goes up by one gate, to one that is configured, or it changes nothing at all.
execute_graduation_step :
    (m : GateManager)
    → let (moved, m', calls) = execute_graduation m in
      (moved ≡ true
        → (index m'.current_gate ≡ index m.current_gate + 1)
          × (contains m'.current_gate m.gate_configs ≡ true)
          × HasMoved m m')
      × (moved ≡ false → m' ≡ m)
unfolding execute_graduation
execute_graduation_step m = ground arith

-- A downgrade goes down by one gate, to one that is configured, or it changes nothing at all.
execute_downgrade_step :
    (m : GateManager)
    → let (moved, m', calls) = execute_downgrade m in
      (moved ≡ true
        → (index m'.current_gate + 1 ≡ index m.current_gate)
          × (contains m'.current_gate m.gate_configs ≡ true)
          × HasMoved m m')
      × (moved ≡ false → m' ≡ m)
unfolding execute_downgrade
execute_downgrade_step m = ground arith

-- The score is the sum of its parts: the cap of 1.0 never takes anything from it.
score_uncapped :
    (c : GateConfig) (violations : ℕ) (p : PortfolioMetrics)
    → calculate_performance_score c violations p
      ≡ sharpe_part p.sharpe_ratio_30d
        + drawdown_part (magnitude (get_or p.max_drawdown_30d (pos 0)))
        + cash_part (
            magnitude (
              get_or p.avg_cash_utilization_30d (pos 0)
              -ℤ (pos 10000 -ℤ c.cash_floor_pct +ℤ pos 500)))
        + compliance_part violations
unfolding calculate_performance_score
score_uncapped c violations p = ground arith

abbrev decide_verdict : Bool → Bool → Verdict
decide_verdict d g = if d then downgrade else if g then graduate else hold

check_graduation_lem :
    (now : ℕ) (p : PortfolioMetrics) (m : GateManager) (c : GateConfig)
    → lookup m.current_gate m.gate_configs ≡ some c
    → let g = updated_metrics now c p m.graduation_metrics in
      check_graduation now p m
      ≡ some (
        decide_verdict
            (must_downgrade m.downgrade_criteria g)
            (may_graduate (lookup m.current_gate m.graduation_criteria) m.current_capital g),
        record m { graduation_metrics = g },
      )
unfolding check_graduation
check_graduation_lem now p m c h = rw (h, check_graduation)

no_criteria_above_g3 :
    (level : GateLevel) → 3 < index level → lookup level default_graduation_criteria ≡ none
unfolding default_graduation_criteria lookup
no_criteria_above_g3 level a = ground arith

-- Under the default criteria no check of a gate above G3 ever says graduate.
no_graduation_above_g3 :
    (now : ℕ) (p : PortfolioMetrics) (m m' : GateManager)
    → m.graduation_criteria ≡ default_graduation_criteria
    → 3 < index m.current_gate
    → check_graduation now p m ≢ some (graduate, m')
unfolding check_graduation may_graduate
no_graduation_above_g3 now p m m' e a r = ground (arith, no_criteria_above_g3 m.current_gate)

-- The manager after checks at the given times.
pub checks : List (ℕ × PortfolioMetrics) → GateManager → Option GateManager
checks [] m = some m
checks ((now, p) ∷ s) m = elim (check_graduation now p m) [
  | none ↦ none
  | some (v, m') ↦ checks s m'
]

-- The compliant days count the checks, not the days: where the current gate is configured and no
-- violation is on record, every check adds one, whatever the times of the checks are.
checks_count :
    (s : List (ℕ × PortfolioMetrics)) (m : GateManager) (c : GateConfig)
    → lookup m.current_gate m.gate_configs ≡ some c
    → m.graduation_metrics.last_violation_date ≡ none
    → (m' : GateManager) × (checks s m ≡ some m')
      × (m'.graduation_metrics.consecutive_compliant_days
          ≡ m.graduation_metrics.consecutive_compliant_days + length s)
unfolding checks
checks_count [] m c h l = (m, refl, omega arith)
checks_count ((now, p) ∷ s) m c h l =
    let g = updated_metrics now c p m.graduation_metrics in
    let n : GateManager = record m { graduation_metrics = g } in
    let (m', run, count) = checks_count s n c h (unfold updated_metrics in l) in
    (
      m',
      rw (check_graduation_lem now p m c h, checks) run,
      count ∙ unfold updated_metrics in ground arith,
    )

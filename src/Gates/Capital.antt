-- ===== src/Gates/Capital.antt =====
-- `update_capital` and the gate that an amount of capital falls into.
use claude_library.Prelude.{Bool, true, false, ◌&&◌, Option, none, some, [], ◌∷◌, if◌then◌else◌}
use claude_library.Prelude.Int.{ℤ, ltb_ℤ, leb_ℤ}
use claude_library.Prelude.Key.{◌=?◌}
use claude_library.Prelude.Dict.{Dict}
use claude_library.Gates.Level.{GateLevel, g0, level_key}
use claude_library.Gates.Config.{GateConfig}
use claude_library.Gates.State.{GateManager, save_state}

-- The first gate whose range holds the capital.
unfoldable pub gate_in_range : ℤ → Dict GateLevel GateConfig → Option GateLevel
gate_in_range capital [] = none
gate_in_range capital ((level, c) ∷ d) =
    if leb_ℤ c.capital_min capital && leb_ℤ capital c.capital_max
    then some level
    else gate_in_range capital d

-- `max(configs, key=capital_max)`: the first of the gates with the largest upper end.
unfoldable pub max_gate : GateLevel × ℤ → Dict GateLevel GateConfig → GateLevel × ℤ
max_gate best [] = best
max_gate best ((level, c) ∷ d) =
    max_gate (if ltb_ℤ best.1 c.capital_max then (level, c.capital_max) else best) d

-- `_determine_gate_by_capital`, of a dict that is not empty.
unfoldable pub determine_gate_by_capital : ℤ → Dict GateLevel GateConfig → GateLevel
unfolding gate_in_range max_gate
determine_gate_by_capital capital configs = elim (gate_in_range capital configs) [
  | some level ↦ level
  | none ↦ above configs
]
  where
    above : Dict GateLevel GateConfig → GateLevel
    above [] = g0
    above ((level, c) ∷ d) =
        let (top, limit) = max_gate (level, c.capital_max) d in
        if ltb_ℤ limit capital then top else g0

unfoldable pub update_capital : ℤ → GateManager → Bool × GateManager
unfolding determine_gate_by_capital save_state
update_capital new_capital m =
    let m' = record m { current_capital = new_capital } in
    let new_gate = determine_gate_by_capital new_capital m.gate_configs in
    if new_gate =? m.current_gate
    then (false, m')
    else (true, save_state (record m' { current_gate = new_gate }))

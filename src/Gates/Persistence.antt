-- ===== src/Gates/Persistence.antt =====
-- What the state file keeps, and what a restart loses.
use claude_library.Prelude.{ℕ, String, ◌≡◌, true, Option, none, some, arith}
use claude_library.Prelude.Int.{ℤ}
use claude_library.Gates.Level.{same_level_iff, ViolationType}
use claude_library.Gates.State.{
  Snapshot, GateManager, truthy, snapshot, save_state, load_state, record_violation,
  resolve_violation,
}
use claude_library.Gates.Capital.{determine_gate_by_capital, update_capital}
use claude_library.Gates.Graduation.{execute_graduation, execute_downgrade}

-- The manager that a restart makes from a state file.
abbrev pub restart : GateManager → Option Snapshot → GateManager
restart m file = load_state (record m { state_file = file })

-- A restart of a new manager, which knows of no violation yet, from the file that another one has saved
-- brings back its gate, its capital, its violations and its metrics, up to a Sharpe ratio of zero, which
-- is lost.
restart-save :
    (m n : GateManager)
    → m.persists ≡ true
    → n.persists ≡ true
    → n.graduation_metrics.last_violation_date ≡ none
    → let r = restart n (save_state m).state_file in
      (r.current_gate ≡ m.current_gate)
      × (r.current_capital ≡ m.current_capital)
      × (r.violation_history ≡ m.violation_history)
      × (r.graduation_metrics ≡ record m.graduation_metrics {
        sharpe_ratio_30d = truthy m.graduation_metrics.sharpe_ratio_30d;
      })
unfolding load_state save_state snapshot
restart-save m n p q l = ground (arith, p, q, l)

-- The file holds the present state.
abbrev pub IsSaved : GateManager → Type 0
IsSaved m = m.state_file ≡ some (snapshot m)

-- Every operation that records or resolves a violation or moves to another gate leaves the present
-- state in the file, and so does a change of capital that changes the gate.
pub operations_save :
    (now : ℕ) (kind : ViolationType) (i : ℤ) (note : String) (x : ℤ) (m : GateManager)
    → m.persists ≡ true
    → IsSaved (record_violation now kind m).0
      × ((resolve_violation now i note m).0 ≡ true → IsSaved (resolve_violation now i note m).1)
      × ((execute_graduation m).0 ≡ true → IsSaved (execute_graduation m).1)
      × ((execute_downgrade m).0 ≡ true → IsSaved (execute_downgrade m).1)
      × ((update_capital x m).0 ≡ true → IsSaved (update_capital x m).1)
unfolding record_violation resolve_violation execute_graduation execute_downgrade update_capital
operations_save now kind i note x m p = ground arith

-- A change of capital within the same gate is not saved: where the file held the state before the
-- change, a restart brings the old capital back.
capital_lost :
    (x : ℤ) (m n : GateManager)
    → m.persists ≡ true
    → n.persists ≡ true
    → IsSaved m
    → determine_gate_by_capital x m.gate_configs ≡ m.current_gate
    → ((update_capital x m).1.current_capital ≡ x)
      × ((restart n (update_capital x m).1.state_file).current_capital ≡ m.current_capital)
unfolding update_capital load_state snapshot
capital_lost x m n p q s e =
    ground (arith, same_level_iff (determine_gate_by_capital x m.gate_configs) m.current_gate)

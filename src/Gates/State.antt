-- ===== src/Gates/State.antt =====
-- The state of `GateManager` of components/trading/gate_system/gate_manager.py, what it keeps on
-- disk, and its record of violations. The text of a message, its details and the log are left out.
-- Times are microseconds, and `now` is the clock reading of an operation.
use claude_library.Prelude.{
  ℕ, ◌+◌, ◌*◌, String, Bool, true, false, ◌&&◌, not, Option, none, some, List, [], ◌∷◌, ◌++◌, leb,
  if◌then◌else◌, length, filter, get_elem?, set, ◌==◌,
}
use claude_library.Prelude.Int.{ℤ, pos, negsuc}
use claude_library.Prelude.Dict.{Dict}
use claude_library.Gates.Level.{GateLevel, level_key, ViolationType}
use claude_library.Gates.Config.{GateConfig}

pub record ViolationRecord : Type 0 where
  pub timestamp : ℕ
  pub gate_level : GateLevel
  pub violation_type : ViolationType
  pub resolved : Bool
  pub resolution_note : Option String

-- A performance score is a number of half ten-thousandths, since it takes half a Sharpe ratio.
pub record GraduationMetrics : Type 0 where
  pub consecutive_compliant_days : ℕ
  pub total_violations_30d : ℕ
  pub avg_cash_utilization_30d : ℤ
  pub max_drawdown_30d : ℤ
  pub sharpe_ratio_30d : Option ℤ
  pub last_violation_date : Option ℕ
  pub performance_score : ℕ

abbrev pub new_metrics : GraduationMetrics
new_metrics = record {
  consecutive_compliant_days = 0;
  total_violations_30d = 0;
  avg_cash_utilization_30d = pos 0;
  max_drawdown_30d = pos 0;
  sharpe_ratio_30d = none;
  last_violation_date = none;
  performance_score = 0;
}

pub record GraduationCriteria : Type 0 where
  pub min_compliant_days : ℕ
  pub max_violations_30d : ℕ
  pub min_performance_score : ℕ
  pub min_capital : ℤ

pub record DowngradeCriteria : Type 0 where
  pub max_violations_30d : ℕ
  pub min_performance_score : ℕ
  pub max_drawdown_threshold : ℤ

-- `gate_state.json`, by the values that its texts stand for: what `str`, `isoformat` and the values of
-- the enumerations write is taken to be read back as it was.
pub record Snapshot : Type 0 where
  pub current_gate : GateLevel
  pub current_capital : ℤ
  pub graduation_metrics : GraduationMetrics
  pub violation_history : List ViolationRecord

-- A call of one of the callbacks that were given to the constructor.
pub data Event : Type 0 where
  on_violation : ViolationRecord → Event
  on_graduation on_downgrade : GateLevel → GateLevel → Event

-- The `hears` flags say which callbacks were given, `persists` that a data directory was given, and `state_file` is what stands in it.
pub record GateManager : Type 0 where
  pub gate_configs : Dict GateLevel GateConfig
  pub graduation_criteria : Dict GateLevel GraduationCriteria
  pub downgrade_criteria : DowngradeCriteria
  pub hears_violations : Bool
  pub hears_graduations : Bool
  pub hears_downgrades : Bool
  pub current_gate : GateLevel
  pub current_capital : ℤ
  pub violation_history : List ViolationRecord
  pub graduation_metrics : GraduationMetrics
  pub persists : Bool
  pub state_file : Option Snapshot

-- The first value, or the second where there is none.
abbrev pub or_else {ℓ} : {A : Type ℓ} → Option A → Option A → Option A
or_else none b = b
or_else (some a) b = some a

-- `str(m.sharpe_ratio_30d) if m.sharpe_ratio_30d else None`: a ratio of zero counts as missing.
abbrev pub truthy : Option ℤ → Option ℤ
truthy none = none
truthy (some (pos n)) = if n == 0 then none else some (pos n)
truthy (some x) = some x

unfoldable pub snapshot : GateManager → Snapshot
snapshot m = record {
  current_gate = m.current_gate;
  current_capital = m.current_capital;
  graduation_metrics = record m.graduation_metrics {
    sharpe_ratio_30d = truthy m.graduation_metrics.sharpe_ratio_30d;
  };
  violation_history = m.violation_history;
}

-- `_save_state`
unfoldable pub save_state : GateManager → GateManager
unfolding snapshot
save_state m = if m.persists then record m { state_file = some (snapshot m) } else m

-- `_load_state`, of a file that this program has written. The date of the last violation is assigned only
-- if the file has one; a ratio in the file is a text that is not empty, and so is taken as it is.
unfoldable pub load_state : GateManager → GateManager
load_state m = if m.persists then loaded m.state_file else m
  where
    loaded : Option Snapshot → GateManager
    loaded none = m
    loaded (some s) = record m {
      current_gate = s.current_gate;
      current_capital = s.current_capital;
      graduation_metrics = record s.graduation_metrics {
        last_violation_date =
            or_else s.graduation_metrics.last_violation_date
              m.graduation_metrics.last_violation_date;
      };
      violation_history = s.violation_history;
    }

abbrev pub days : ℕ → ℕ
days n = n * 86400000000

-- `v.timestamp >= now - timedelta(days=n)`
abbrev pub since : ℕ → ℕ → ViolationRecord → Bool
since now n v = leb now (v.timestamp + days n)

abbrev pub open_since : ℕ → ViolationRecord → Bool
open_since now v = since now 30 v && not v.resolved

unfoldable pub recount : ℕ → GateManager → GateManager
recount now m = record m {
  graduation_metrics = record m.graduation_metrics {
    total_violations_30d = length (filter (open_since now) m.violation_history);
  };
}

-- `_record_violation`
unfoldable pub record_violation : ℕ → ViolationType → GateManager → GateManager × List Event
unfolding recount save_state
record_violation now kind m =
    (save_state counted, if m.hears_violations then on_violation v ∷ [] else [])
  where
    v : ViolationRecord
    v = record {
      timestamp = now;
      gate_level = m.current_gate;
      violation_type = kind;
      resolved = false;
      resolution_note = none;
    }

    counted : GateManager
    counted = recount now (record m {
      violation_history = m.violation_history ++ v ∷ [];
      graduation_metrics = record m.graduation_metrics { last_violation_date = some now };
    })

-- `get_violation_history`
unfoldable pub get_violation_history : ℕ → ℕ → GateManager → List ViolationRecord
get_violation_history now n m = filter (since now n) m.violation_history

-- `0 <= index < len(history)`
abbrev pub entry_at : ℤ → List ViolationRecord → Option (ℕ × ViolationRecord)
entry_at (pos i) h = elim (get_elem? h i) [ none ↦ none | some v ↦ some (i, v) ]
entry_at (negsuc n) h = none

-- `resolve_violation`: an index out of range changes nothing.
unfoldable pub resolve_violation : ℕ → ℤ → String → GateManager → Bool × GateManager
unfolding recount save_state
resolve_violation now index note m = elim (entry_at index m.violation_history) [
  | none ↦ (false, m)
  | some (i, v) ↦ (
    true,
    save_state (
        recount now (record m {
          violation_history =
              set m.violation_history i (record v { resolved = true; resolution_note = some note });
        })),
  )
]

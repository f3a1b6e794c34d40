-- ===== src/Gates/Manager.antt =====
-- The constructor of `GateManager`.
use claude_library.Prelude.{Bool, Option, none, some, [], ◌∷◌}
use claude_library.Prelude.Int.{pos}
use claude_library.Prelude.Dict.{Dict}
use claude_library.Gates.Level.{GateLevel, g0}
use claude_library.Gates.Config.{GateConfig, create_default_gate_configs}
use claude_library.Gates.State.{
  new_metrics, GraduationCriteria, DowngradeCriteria, Snapshot, GateManager, load_state,
}
use claude_library.Gates.Graduation.{default_graduation_criteria, default_downgrade_criteria}

-- What the constructor is given: `None` is `none`, the callbacks are known by whether they are there.
pub record Options : Type 0 where
  pub gate_configs : Option (Dict GateLevel GateConfig)
  pub graduation_criteria : Option (Dict GateLevel GraduationCriteria)
  pub downgrade_criteria : Option DowngradeCriteria
  pub has_on_violation : Bool
  pub has_on_graduation : Bool
  pub has_on_downgrade : Bool
  pub has_data_dir : Bool

-- `given or default`: an empty dict counts as none.
abbrev pub or_default {ℓ} :
    {V : Type ℓ} → Option (Dict GateLevel V) → Dict GateLevel V → Dict GateLevel V
or_default none d = d
or_default (some []) d = d
or_default (some (e ∷ es)) d = e ∷ es

-- `file` is the state file that stands in the data directory.
unfoldable pub init : Options → Option Snapshot → GateManager
unfolding load_state
init o file = load_state (record {
  gate_configs = or_default o.gate_configs create_default_gate_configs;
  graduation_criteria = or_default o.graduation_criteria default_graduation_criteria;
  downgrade_criteria = elim o.downgrade_criteria [ none ↦ default_downgrade_criteria | some d ↦ d ];
  hears_violations = o.has_on_violation;
  hears_graduations = o.has_on_graduation;
  hears_downgrades = o.has_on_downgrade;
  current_gate = g0;
  current_capital = pos 0;
  violation_history = [];
  graduation_metrics = new_metrics;
  persists = o.has_data_dir;
  state_file = file;
})

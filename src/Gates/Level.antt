-- ===== src/Gates/Level.antt =====
-- `GateLevel` and `ViolationType` of components/trading/gate_system/gate_manager.py.
use claude_library.Prelude.{ℕ, ◌≡◌, ◌↔◌, true, List, [], ◌∷◌, arith, ◌==◌}
use claude_library.Prelude.Key.{Key}

pub data GateLevel : Type 0 where
  g0 g1 g2 g3 g4 g5 g6 g7 g8 g9 g10 g11 g12 : GateLevel

-- `list(GateLevel).index(level)`
abbrev pub index : GateLevel → ℕ
index g0 = 0
index g1 = 1
index g2 = 2
index g3 = 3
index g4 = 4
index g5 = 5
index g6 = 6
index g7 = 7
index g8 = 8
index g9 = 9
index g10 = 10
index g11 = 11
index g12 = 12

-- `list(GateLevel)`
abbrev pub gate_levels : List GateLevel
gate_levels = g0 ∷ g1 ∷ g2 ∷ g3 ∷ g4 ∷ g5 ∷ g6 ∷ g7 ∷ g8 ∷ g9 ∷ g10 ∷ g11 ∷ g12 ∷ []

pub index-injective : (a b : GateLevel) → index a ≡ index b → a ≡ b
index-injective a b h = ground arith

pub same_level_iff : (a b : GateLevel) → ((index a == index b) ≡ true) ↔ (a ≡ b)
same_level_iff a b = ground (arith, index-injective a b)

instance abbrev pub level_key : Key GateLevel
level_key = record { beq = λ a b. index a == index b; beq_iff = same_level_iff }

pub data ViolationType : Type 0 where
  asset_not_allowed cash_floor_violation options_not_allowed theta_limit_exceeded : ViolationType
  position_size_exceeded concentration_exceeded capital_insufficient : ViolationType

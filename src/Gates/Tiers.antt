-- ===== src/Gates/Tiers.antt =====
-- Which gate an amount of capital falls into, under the default configurations.
use claude_library.Prelude.{
  ℕ, ◌+◌, ◌*◌, ◌≤◌, ◌<◌, ◌≡◌, ◌⊎◌, ◌↔◌, inl, inr, false, some, arith, get_elem?,
}
use claude_library.Prelude.Int.{ℤ, pos, ◌≤ℤ◌}
use claude_library.Gates.Level.{
  GateLevel, g0, g1, g2, g3, g4, g5, g6, g7, g8, g9, g10, g11, g12, index, gate_levels,
  same_level_iff,
}
use claude_library.Gates.Config.{
  default_gate_thresholds, create_default_gate_configs, max_capital_sentinel,
}
use claude_library.Gates.State.{GateManager}
use claude_library.Gates.Capital.{determine_gate_by_capital, update_capital}

-- A number of cents.
abbrev pub cents : ℕ → ℤ
cents n = pos (n * 100)

abbrev pub gate_of : ℤ → GateLevel
gate_of capital = determine_gate_by_capital capital create_default_gate_configs

-- Between the upper end of a range and the lower end of the next one.
abbrev pub IsBetween : GateLevel → GateLevel → ℤ → Type 0
IsBetween low high x =
    ¬ (x ≤ℤ (default_gate_thresholds low).1) × ¬ ((default_gate_thresholds high).0 ≤ℤ x)

-- Capital within the range of a gate falls into that gate: the ranges do not overlap.
gate_of_range :
    (g : GateLevel) (x : ℤ)
    → (default_gate_thresholds g).0 ≤ℤ x
    → x ≤ℤ (default_gate_thresholds g).1
    → gate_of x ≡ g
unfolding determine_gate_by_capital create_default_gate_configs default_gate_thresholds
gate_of_range g0 x l h = ground arith
gate_of_range g1 x l h = ground arith
gate_of_range g2 x l h = ground arith
gate_of_range g3 x l h = ground arith
gate_of_range g4 x l h = ground arith
gate_of_range g5 x l h = ground arith
gate_of_range g6 x l h = ground arith
gate_of_range g7 x l h = ground arith
gate_of_range g8 x l h = ground arith
gate_of_range g9 x l h = ground arith
gate_of_range g10 x l h = ground arith
gate_of_range g11 x l h = ground arith
gate_of_range g12 x l h = ground arith

abbrev Held : ℕ → Type 0
Held n =
    (g : GateLevel) × ((default_gate_thresholds g).0 ≤ℤ cents n)
    × (cents n ≤ℤ (default_gate_thresholds g).1)

-- A split on whether `n` is below the lower end of the next range.
below_or_not : (n k : ℕ) → (n < k) ⊎ (k ≤ n)
below_or_not n k = omega arith

range_from_g8 : (n : ℕ) → 10000000 ≤ n → cents n ≤ℤ max_capital_sentinel → Held n
unfolding default_gate_thresholds
range_from_g8 n low high = elim (below_or_not n 25000000) [
  | inl b ↦ (g8, omega arith, omega arith)
  | inr a ↦ elim (below_or_not n 50000000) [
    | inl b ↦ (g9, omega arith, omega arith)
    | inr a ↦ elim (below_or_not n 100000000) [
      | inl b ↦ (g10, omega arith, omega arith)
      | inr a ↦ elim (below_or_not n 1000000000) [
        | inl b ↦ (g11, omega arith, omega arith)
        | inr a ↦ (g12, omega arith, omega arith)
      ]
    ]
  ]
]

range_from_g4 : (n : ℕ) → 500000 ≤ n → cents n ≤ℤ max_capital_sentinel → Held n
unfolding default_gate_thresholds
range_from_g4 n low high = elim (below_or_not n 1000000) [
  | inl b ↦ (g4, omega arith, omega arith)
  | inr a ↦ elim (below_or_not n 2500000) [
    | inl b ↦ (g5, omega arith, omega arith)
    | inr a ↦ elim (below_or_not n 5000000) [
      | inl b ↦ (g6, omega arith, omega arith)
      | inr a ↦ elim (below_or_not n 10000000) [
        | inl b ↦ (g7, omega arith, omega arith)
        | inr a ↦ range_from_g8 n a high
      ]
    ]
  ]
]

range_of_cents : (n : ℕ) → 20000 ≤ n → cents n ≤ℤ max_capital_sentinel → Held n
unfolding default_gate_thresholds
range_of_cents n low high = elim (below_or_not n 50000) [
  | inl b ↦ (g0, omega arith, omega arith)
  | inr a ↦ elim (below_or_not n 100000) [
    | inl b ↦ (g1, omega arith, omega arith)
    | inr a ↦ elim (below_or_not n 250000) [
      | inl b ↦ (g2, omega arith, omega arith)
      | inr a ↦ elim (below_or_not n 500000) [
        | inl b ↦ (g3, omega arith, omega arith)
        | inr a ↦ range_from_g4 n a high
      ]
    ]
  ]
]

-- A whole number of cents, of 200 dollars or more and within the last range, falls into the gate
-- whose range holds it.
pub cents_in_range :
    (n : ℕ)
    → 20000 ≤ n
    → cents n ≤ℤ max_capital_sentinel
    → ((default_gate_thresholds (gate_of (cents n))).0 ≤ℤ cents n)
      × (cents n ≤ℤ (default_gate_thresholds (gate_of (cents n))).1)
cents_in_range n low high =
    let (g, l, h) = range_of_cents n low high in rw (gate_of_range g (cents n) l h) (l, h)

-- Capital that is not a whole number of cents can lie between two ranges. It then falls into the
-- lowest gate, however large it is.
between_falls_to_g0 :
    (g g' : GateLevel) (x : ℤ)
    → get_elem? gate_levels (index g + 1) ≡ some g'
    → IsBetween g g' x
    → gate_of x ≡ g0
unfolding determine_gate_by_capital create_default_gate_configs default_gate_thresholds
between_falls_to_g0 g0 g' x e h = ground arith
between_falls_to_g0 g1 g' x e h = ground arith
between_falls_to_g0 g2 g' x e h = ground arith
between_falls_to_g0 g3 g' x e h = ground arith
between_falls_to_g0 g4 g' x e h = ground arith
between_falls_to_g0 g5 g' x e h = ground arith
between_falls_to_g0 g6 g' x e h = ground arith
between_falls_to_g0 g7 g' x e h = ground arith
between_falls_to_g0 g8 g' x e h = ground arith
between_falls_to_g0 g9 g' x e h = ground arith
between_falls_to_g0 g10 g' x e h = ground arith
between_falls_to_g0 g11 g' x e h = ground arith
between_falls_to_g0 g12 g' x e h = ground arith

gate_below : (x : ℤ) → ¬ (pos 2000000 ≤ℤ x) → gate_of x ≡ g0
unfolding determine_gate_by_capital create_default_gate_configs default_gate_thresholds
gate_below x h = ground arith

gate_above : (x : ℤ) → ¬ (x ≤ℤ max_capital_sentinel) → gate_of x ≡ g12
unfolding determine_gate_by_capital create_default_gate_configs default_gate_thresholds
gate_above x h = ground arith

-- The upper end of a range is below the lower end of every later one.
ranges_apart :
    (g g' : GateLevel)
    → index g < index g'
    → ¬ ((default_gate_thresholds g').0 ≤ℤ (default_gate_thresholds g).1)
unfolding default_gate_thresholds
ranges_apart g g' h = ground arith

index_bound : (g : GateLevel) → index g ≤ 12
index_bound g = ground arith

in_order :
    (g g' : GateLevel)
    → (default_gate_thresholds g).0 ≤ℤ (default_gate_thresholds g').1
    → index g ≤ index g'
in_order g g' h = elim (below_or_not (index g') (index g)) [
  | inl b ↦ absurd (ranges_apart g' g b h)
  | inr a ↦ a
]

-- In whole cents, more capital never means a lower gate.
gate_monotone : (n m : ℕ) → n ≤ m → index (gate_of (cents n)) ≤ index (gate_of (cents m))
gate_monotone n m h = elim (below_or_not n 20000) [
  | inl b ↦ rw (gate_below (cents n) (omega arith)) (omega arith)
  | inr a ↦ elim (below_or_not 99999999999999 m) [
    | inl b ↦ rw (gate_above (cents m) (omega arith)) (index_bound _)
    | inr c ↦
        (let (l, u) = cents_in_range n a (omega arith) in
          let (l', u') = cents_in_range m (omega arith) (omega arith) in
          in_order (gate_of (cents n)) (gate_of (cents m)) (omega arith))
  ]
]

-- Whatever the gate was, and however it was reached, a change of capital puts the gate of that
-- capital in its place, keeps the violations and the metrics, and tells whether the gate changed.
update_capital_gate :
    (x : ℤ) (m : GateManager)
    → ((update_capital x m).1.current_gate ≡ determine_gate_by_capital x m.gate_configs)
      × ((update_capital x m).1.current_capital ≡ x)
      × ((update_capital x m).1.violation_history ≡ m.violation_history)
      × ((update_capital x m).1.graduation_metrics ≡ m.graduation_metrics)
      × (((update_capital x m).0 ≡ false)
          ↔ (determine_gate_by_capital x m.gate_configs ≡ m.current_gate))
update_capital_gate x m =
    unfold update_capital in
    ground (arith, same_level_iff (determine_gate_by_capital x m.gate_configs) m.current_gate)

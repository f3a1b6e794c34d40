-- ===== src/Gates/Records.antt =====
-- The record of violations: what a validation adds to it, and the count of the last thirty days.
use claude_library.Prelude.{
  ℕ, zero, suc, ◌+◌, String, ◌≡◌, ◌↔◌, refl, sym, Bool, true, false, none, some, List, [], ◌∷◌,
  ◌++◌, map, arith, length, filter, get_elem?, set,
}
use claude_library.Prelude.Int.{pos}
use claude_library.Prelude.Dict.{lookup}
use claude_library.Gates.Level.{GateLevel, level_key, ViolationType}
use claude_library.Gates.Config.{GateConfig}
use claude_library.Gates.State.{
  ViolationRecord, GateManager, Event, open_since, record_violation, resolve_violation,
}
use claude_library.Gates.Trade.{
  TradeDetails, Portfolio, TradeValidationResult, violations_of, warnings_of, record_all,
  validate_trade,
}
use claude_library.Gates.Conformance.{names, none_named, Rule, rules_iff}
use mathlib.Core.List.{append_assoc, append-nil}

abbrev pub new_record : ℕ → GateLevel → ViolationType → ViolationRecord
new_record now level kind = record {
  timestamp = now;
  gate_level = level;
  violation_type = kind;
  resolved = false;
  resolution_note = none;
}

module _ (now : ℕ) (kind : ViolationType) (m : GateManager) where
  abbrev recorded : GateManager
  recorded = (record_violation now kind m).0

  record_violation_keeps :
      (recorded.current_gate ≡ m.current_gate)
      × (recorded.current_capital ≡ m.current_capital)
      × (recorded.violation_history
          ≡ m.violation_history ++ new_record now m.current_gate kind ∷ [])
  unfolding record_violation
  record_violation_keeps = ground arith

  total-record_violation :
      recorded.graduation_metrics.total_violations_30d
      ≡ length
          (filter (open_since now) (m.violation_history ++ new_record now m.current_gate kind ∷ []))
  unfolding record_violation
  total-record_violation = ground arith

length-filter-append {ℓ} :
    {A : Type ℓ} (p : A → Bool) (xs ys : List A)
    → length (filter p (xs ++ ys)) ≡ length (filter p xs) + length (filter p ys)
length-filter-append p [] ys = omega arith
length-filter-append p (x ∷ xs) ys = ground (arith, length-filter-append p xs ys)

-- A new violation is open and recent: it adds one to the violations of the last thirty days.
violation_counts :
    (now : ℕ) (kind : ViolationType) (m : GateManager)
    → (record_violation now kind m).0.graduation_metrics.total_violations_30d
      ≡ length (filter (open_since now) m.violation_history) + 1
violation_counts now kind m =
    let v : ViolationRecord = new_record now m.current_gate kind in
    let one_open : length (filter (open_since now) (v ∷ [])) ≡ 1 = ground arith in
    omega (
      arith,
      total-record_violation now kind m,
      length-filter-append (open_since now) m.violation_history (v ∷ []),
      one_open,
    )

record_all_keeps :
    (now : ℕ) (vs : List ViolationType) (m : GateManager)
    → let m' = (record_all now vs m).0 in
      (m'.current_gate ≡ m.current_gate)
      × (m'.current_capital ≡ m.current_capital)
      × (m'.violation_history ≡ m.violation_history ++ map (new_record now m.current_gate) vs)
unfolding record_all
record_all_keeps now [] m = (refl, refl, sym (append-nil _))
record_all_keeps now (v ∷ vs) m =
    let k = record_violation_keeps now v m in
    let h = record_all_keeps now vs (record_violation now v m).0 in
    (
      cc (h.0, k.0),
      cc (h.1, k.1),
      cc (
        h.2,
        k.0,
        k.2,
        append_assoc m.violation_history (new_record now m.current_gate v ∷ [])
            (map (new_record now m.current_gate) vs),
      ),
    )

-- What `validate_trade` of a gate that is configured returns and leaves behind.
pub record IsValidated (upper : String → String) (now : ℕ) (t : TradeDetails) (p : Portfolio)
    (m : GateManager) (c : GateConfig) (r : TradeValidationResult) (m' : GateManager) : Type 0 where
  pub listed : (k : ViolationType) → (names k r.violations ≡ false) ↔ Rule upper c t p k
  pub verdict : (r.is_valid ≡ true) ↔ ((k : ViolationType) → Rule upper c t p k)
  pub history :
      m'.violation_history ≡ m.violation_history ++ map (new_record now m.current_gate) r.violations
  pub gate : m'.current_gate ≡ m.current_gate
  pub capital : m'.current_capital ≡ m.current_capital

is_empty_iff :
    (vs : List ViolationType) → (elim vs [ [] ↦ true | _ ∷ _ ↦ false ] ≡ true) ↔ (vs ≡ [])
is_empty_iff vs = ground arith

validate_trade_lem :
    (upper : String → String) (now : ℕ) (t : TradeDetails) (p : Portfolio) (m : GateManager)
    (c : GateConfig)
    → lookup m.current_gate m.gate_configs ≡ some c
    → let vs = violations_of upper c t p in
      validate_trade upper now t p m
      ≡ some (
        record {
          is_valid = elim vs [ [] ↦ true | _ ∷ _ ↦ false ];
          violations = vs;
          warnings = warnings_of upper c t p;
        },
        (record_all now vs m).0,
        (record_all now vs m).1,
      )
unfolding validate_trade
validate_trade_lem upper now t p m c h = rw (h, validate_trade)

-- Where the current gate is configured, a validation has a result. It lists a violation exactly where
-- the trade breaks the rule of that violation, of those that the code checks: the assets, the options,
-- the cash floor, the theta, and the position size with the Kelly fraction. It finds the trade valid
-- exactly when the trade breaks none, and it records each violation that it lists, at the time and under
-- the gate of the validation, and changes neither the gate nor the capital.
pub validate_trade_exact :
    (upper : String → String) (now : ℕ) (t : TradeDetails) (p : Portfolio) (m : GateManager)
    (c : GateConfig)
    → lookup m.current_gate m.gate_configs ≡ some c
    → (r : TradeValidationResult) × (m' : GateManager) × (calls : List Event) × (validate_trade
          upper now t p m
        ≡ some (r, m', calls))
      × IsValidated upper now t p m c r m'
validate_trade_exact upper now t p m c h =
    let vs = violations_of upper c t p in
    let k = record_all_keeps now vs m in
    let e = is_empty_iff vs in
    let n = none_named vs in
    let f = rules_iff upper c t p in
    (
      record {
        is_valid = elim vs [ [] ↦ true | _ ∷ _ ↦ false ];
        violations = vs;
        warnings = warnings_of upper c t p;
      },
      (record_all now vs m).0,
      (record_all now vs m).1,
      validate_trade_lem upper now t p m c h,
      record {
        listed = f;
        verdict = ((λ x k. (f k).0 (n.0 (e.0 x) k)), (λ x. e.1 (n.1 (λ k. (f k).1 (x k)))));
        history = k.2;
        gate = k.0;
        capital = k.1;
      },
    )

module _ (now : ℕ) (note : String) where
  resolved_record : ViolationRecord → ViolationRecord
  resolved_record v = record v { resolved = true; resolution_note = some note }

  length-filter-resolved :
      (h : List ViolationRecord) (i : ℕ) (v : ViolationRecord)
      → get_elem? h i ≡ some v
      → open_since now v ≡ true
      → length (filter (open_since now) (set h i (resolved_record v))) + 1
        ≡ length (filter (open_since now) h)
  unfolding resolved_record
  length-filter-resolved [] i v e o = cc
  length-filter-resolved (x ∷ h) zero v e o = ground arith
  length-filter-resolved (x ∷ h) (suc i) v e o = ground (arith, length-filter-resolved h i v e o)

  total-resolve_violation :
      (i : ℕ) (v : ViolationRecord) (m : GateManager)
      → get_elem? m.violation_history i ≡ some v
      → ((resolve_violation now (pos i) note m).0 ≡ true)
        × ((resolve_violation now (pos i) note m).1.violation_history
            ≡ set m.violation_history i (resolved_record v))
        × ((resolve_violation now (pos i) note m).1.graduation_metrics.total_violations_30d
            ≡ length (filter (open_since now) (set m.violation_history i (resolved_record v))))
  unfolding resolve_violation resolved_record
  total-resolve_violation i v m e = ground arith

-- Resolving a violation that is open and at most thirty days old takes exactly one from the
-- violations that count at that time.
resolution_counts :
    (now i : ℕ) (note : String) (v : ViolationRecord) (m : GateManager)
    → get_elem? m.violation_history i ≡ some v
    → open_since now v ≡ true
    → let (found, m') = resolve_violation now (pos i) note m in
      (found ≡ true)
      × (m'.graduation_metrics.total_violations_30d + 1
          ≡ length (filter (open_since now) m.violation_history))
resolution_counts now i note v m e o =
    let r = total-resolve_violation now note i v m e in
    (r.0, omega (arith, r.2, length-filter-resolved now note m.violation_history i v e o))

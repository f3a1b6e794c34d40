-- ===== src/Gates/Trade.antt =====
-- `validate_trade` of components/trading/gate_system/gate_manager.py. Python's `str.upper` is a
-- parameter. An amount is a number of ten-thousandths, so a product of two counts in units of
-- 1/100000000, and an amount is scaled up before it is compared with one.
use claude_library.Prelude.{
  ℕ, ◌+◌, String, Bool, true, false, ◌&&◌, not, Option, none, some, List, [], ◌∷◌, ◌++◌,
  if◌then◌else◌, any,
}
use claude_library.Prelude.Int.{ℤ, pos, pos_part, neg_part, ◌+ℤ◌, ◌-ℤ◌, ◌*ℤ◌, ltb_ℤ}
use claude_library.Prelude.Key.{◌=?◌, string_key}
use claude_library.Prelude.Dict.{Dict, lookup}
use claude_library.Gates.Level.{
  level_key, ViolationType, asset_not_allowed, cash_floor_violation, options_not_allowed,
  theta_limit_exceeded, position_size_exceeded,
}
use claude_library.Gates.Config.{GateConfig, one}
use claude_library.Gates.State.{GateManager, Event, record_violation}

-- The keys of `trade_details`; a key that is missing is `none`.
pub record TradeDetails : Type 0 where
  pub symbol : Option String
  pub side : Option String
  pub quantity : Option ℤ
  pub price : Option ℤ
  pub trade_type : Option String
  pub theta : Option ℤ
  pub kelly_percentage : Option ℤ

pub record Position : Type 0 where
  pub quantity : Option ℤ
  pub current_price : Option ℤ

pub record Portfolio : Type 0 where
  pub cash : Option ℤ
  pub positions : Dict String Position
  pub total_value : Option ℤ
  pub total_theta : Option ℤ

-- `d.get(key, default)`
abbrev pub get_or {ℓ} : {A : Type ℓ} → Option A → A → A
get_or none d = d
get_or (some a) d = a

abbrev pub scaled : ℤ → ℤ
scaled x = x *ℤ pos one

abbrev pub is_member : String → List String → Bool
is_member s = any (λ t. t =? s)

-- `max_theta_pct is not None` and `abs(theta) > total * max_theta_pct`
unfoldable pub exceeds : ℤ → ℤ → Option ℤ → Bool
exceeds total theta none = false
exceeds total theta (some limit) = ltb_ℤ (total *ℤ limit) (pos (pos_part theta + neg_part theta))

-- The warnings: near the cash floor, and near the Kelly limit.
pub data Warning : Type 0 where
  near_cash_floor near_kelly_limit : Warning

abbrev pub report {ℓ} : {A : Type ℓ} → Bool → A → List A
report true a = a ∷ []
report false a = []

-- The violations, in the order of the checks.
abbrev pub reports : (asset option cash theta position kelly gate_kelly : Bool) → List ViolationType
reports asset option cash theta position kelly gate_kelly =
    report asset asset_not_allowed
    ++ (report option options_not_allowed
        ++ (report cash cash_floor_violation
            ++ (report theta theta_limit_exceeded
                ++ (report position position_size_exceeded
                    ++ (report kelly position_size_exceeded
                        ++ report gate_kelly position_size_exceeded)))))

module _ (upper : String → String) (c : GateConfig) (t : TradeDetails) (p : Portfolio) where
  abbrev pub symbol_of : String
  symbol_of = upper (get_or t.symbol "")

  abbrev pub is_buy : Bool
  is_buy = upper (get_or t.side "") =? "BUY"

  abbrev pub is_option : Bool
  is_option = upper (get_or t.trade_type "STOCK") =? "OPTION"

  abbrev pub quantity_of : ℤ
  quantity_of = get_or t.quantity (pos 0)

  abbrev pub price_of : ℤ
  price_of = get_or t.price (pos 0)

  abbrev pub total_of : ℤ
  total_of = get_or p.total_value (pos 0)

  -- `quantity * price`, in units of 1/100000000 as every product below.
  abbrev pub trade_value : ℤ
  trade_value = quantity_of *ℤ price_of

  unfoldable pub asset_refused : Bool
  asset_refused = not (is_member "*" c.allowed_assets) && not (is_member symbol_of c.allowed_assets)

  unfoldable pub option_refused : Bool
  option_refused = is_option && not c.options_enabled

  -- `post_trade_cash` and `required_cash`
  abbrev pub cash_after : ℤ
  cash_after = scaled (get_or p.cash (pos 0)) -ℤ trade_value

  abbrev pub required_cash : ℤ
  required_cash = total_of *ℤ c.cash_floor_pct

  unfoldable pub cash_refused : Bool
  cash_refused = is_buy && ltb_ℤ cash_after required_cash

  -- `current_theta + trade_theta`
  abbrev pub theta_after : ℤ
  theta_after = scaled (get_or p.total_theta (pos 0)) +ℤ get_or t.theta (pos 0) *ℤ quantity_of

  unfoldable pub theta_refused : Bool
  unfolding exceeds
  theta_refused = is_option && is_buy && exceeds total_of theta_after c.max_theta_pct

  unfoldable pub position_value : Option Position → ℤ
  position_value none = pos 0
  position_value (some q) = get_or q.quantity (pos 0) *ℤ get_or q.current_price price_of

  -- `new_position_value` and `max_position_value`
  abbrev pub position_after : ℤ
  position_after = position_value (lookup symbol_of p.positions) +ℤ trade_value

  abbrev pub position_limit : ℤ
  position_limit = total_of *ℤ c.max_position_pct

  unfoldable pub position_refused : Bool
  position_refused = is_buy && ltb_ℤ position_limit position_after

  unfoldable pub kelly_above : ℤ → Bool
  kelly_above limit = elim t.kelly_percentage [ none ↦ false | some k ↦ ltb_ℤ limit k ]

  -- The violations that a trade is refused for.
  unfoldable pub violations_of : List ViolationType
  unfolding asset_refused option_refused cash_refused theta_refused position_refused kelly_above
  violations_of =
      reports asset_refused option_refused cash_refused theta_refused position_refused
        (kelly_above (pos one)) (kelly_above c.max_position_pct)

  -- `1 - cash / total > cash_floor_pct + 0.1`, multiplied by the total where that is positive; the
  -- total is 1 here if it is missing.
  cash_is_near : Bool
  cash_is_near =
      if ltb_ℤ (pos 0) total
      then ltb_ℤ (total *ℤ threshold) (scaled total -ℤ scaled (get_or p.cash (pos 0)))
      else ltb_ℤ threshold (pos 0)
    where
      total : ℤ
      total = get_or p.total_value (pos one)

      threshold : ℤ
      threshold = c.cash_floor_pct +ℤ pos 1000

  -- `kelly_pct > max_position_pct * 0.8`
  kelly_is_near : Bool
  kelly_is_near = elim t.kelly_percentage [
    | none ↦ false
    | some k ↦ ltb_ℤ (c.max_position_pct *ℤ pos 8) (k *ℤ pos 10)
  ]

  unfoldable pub warnings_of : List Warning
  unfolding cash_is_near kelly_is_near
  warnings_of =
      if is_buy
      then report cash_is_near near_cash_floor ++ report kelly_is_near near_kelly_limit
      else []

pub record TradeValidationResult : Type 0 where
  pub is_valid : Bool
  pub violations : List ViolationType
  pub warnings : List Warning

-- `if not result.is_valid: for violation in result.violations: ...`
unfoldable pub record_all : ℕ → List ViolationType → GateManager → GateManager × List Event
record_all now [] m = (m, [])
record_all now (v ∷ vs) m =
    let (m', calls) = record_violation now v m in
    let (m'', more) = record_all now vs m' in (m'', calls ++ more)

-- `get_current_config` is a `KeyError` where the current gate has no configuration.
unfoldable pub validate_trade :
    (String → String)
    → ℕ
    → TradeDetails
    → Portfolio
    → GateManager
    → Option (TradeValidationResult × GateManager × List Event)
validate_trade upper now t p m = elim (lookup m.current_gate m.gate_configs) [
  | none ↦ none
  | some c ↦
      (let vs = violations_of upper c t p in
        let (m', calls) = record_all now vs m in
        some (
          record {
            is_valid = elim vs [ [] ↦ true | _ ∷ _ ↦ false ];
            violations = vs;
            warnings = warnings_of upper c t p;
          },
          m',
          calls,
        ))
]

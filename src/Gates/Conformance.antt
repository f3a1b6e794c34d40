-- ===== src/Gates/Conformance.antt =====
-- `violations_of` against the rules that `validate_trade` checks, stated without the code's tests and
-- quantities. `max_concentration_pct` and `risk_pct` of a configuration are read by no code.
use claude_library.Prelude.{
  ◌+◌, String, ◌≡◌, ◌↔◌, ◌⊎◌, refl, sym, ap, Bool, true, false, ◌&&◌, ◌||◌, not, any, Option, none,
  some, List, [], ◌∷◌, arith,
}
use mathlib.Core.Path.{subst}
use claude_library.Prelude.Int.{ℤ, pos, negsuc, pos_part, neg_part, ◌*ℤ◌, ◌+ℤ◌, ◌-ℤ◌, ◌≤ℤ◌, ltb_ℤ}
use claude_library.Prelude.Key.{string_key}
use claude_library.Gates.Config.{GateConfig, one}
use claude_library.Gates.Level.{
  ViolationType, asset_not_allowed, cash_floor_violation, options_not_allowed, theta_limit_exceeded,
  position_size_exceeded, concentration_exceeded, capital_insufficient,
}
use claude_library.Prelude.Dict.{lookup}
use claude_library.Gates.Trade.{
  Position, get_or, position_value, TradeDetails, Portfolio, is_member, symbol_of, is_buy,
  is_option, total_of, cash_after, required_cash, theta_after, position_after, position_limit,
  asset_refused, option_refused, cash_refused, exceeds, theta_refused, position_refused, reports,
  kelly_above, violations_of,
}

abbrev pub Lists : String → List String → Type 0
Lists s [] = ⊥
Lists s (t ∷ ts) = (t ≡ s) ⊎ Lists s ts

is_member_iff : (s : String) (ts : List String) → (is_member s ts ≡ true) ↔ Lists s ts
is_member_iff s [] = ground arith
is_member_iff s (t ∷ ts) = ground (arith, string_key.beq_iff t s, is_member_iff s ts)

-- A test that a purchase must not fail.
buy_iff : (a b : ℤ) (x : Bool) → ((x && ltb_ℤ a b) ≡ false) ↔ (x ≡ true → b ≤ℤ a)
buy_iff a b x = ground arith

exceeds_iff :
    (o b : Bool) (total theta : ℤ) (m : Option ℤ)
    → ((o && b && exceeds total theta m) ≡ false) ↔ (
        o ≡ true
        → b ≡ true
        → (limit : ℤ) → m ≡ some limit
        → pos (pos_part theta + neg_part theta) ≤ℤ total *ℤ limit)
unfolding exceeds
exceeds_iff o b total theta none = ((λ e x y l h. cc), (λ h. ground arith))
exceeds_iff true true total theta (some m) =
    ((λ e x y l h. ground arith), (λ h. ground (arith, h refl refl m refl)))
exceeds_iff true false total theta (some m) = ((λ e x y l h. cc), (λ h. refl))
exceeds_iff false b total theta (some m) = ((λ e x y l h. cc), (λ h. refl))

-- The list names a violation.
abbrev pub same_kind : ViolationType → ViolationType → Bool
same_kind asset_not_allowed asset_not_allowed = true
same_kind options_not_allowed options_not_allowed = true
same_kind cash_floor_violation cash_floor_violation = true
same_kind theta_limit_exceeded theta_limit_exceeded = true
same_kind position_size_exceeded position_size_exceeded = true
same_kind concentration_exceeded concentration_exceeded = true
same_kind capital_insufficient capital_insufficient = true
same_kind _ _ = false

abbrev pub names : ViolationType → List ViolationType → Bool
names k = any (same_kind k)

zero_add : (x : ℤ) → pos 0 +ℤ x ≡ x
unfolding ◌+ℤ◌
zero_add (pos n) = ground arith
zero_add (negsuc n) = ground arith

-- What each violation that is reported stands for.
reported : ViolationType → (a o c t p k g : Bool) → Bool
reported asset_not_allowed a o c t p k g = a
reported options_not_allowed a o c t p k g = o
reported cash_floor_violation a o c t p k g = c
reported theta_limit_exceeded a o c t p k g = t
reported position_size_exceeded a o c t p k g = p || k || g
reported _ a o c t p k g = false

names-reports :
    (x : ViolationType) (a o c t p k g : Bool)
    → names x (reports a o c t p k g) ≡ reported x a o c t p k g
unfolding reported
names-reports asset_not_allowed a o c t p k g = ground arith
names-reports options_not_allowed a o c t p k g = ground arith
names-reports cash_floor_violation a o c t p k g = ground arith
names-reports theta_limit_exceeded a o c t p k g = ground arith
names-reports position_size_exceeded a o c t p k g = ground arith
names-reports concentration_exceeded a o c t p k g = ground arith
names-reports capital_insufficient a o c t p k g = ground arith

pub none_named : (vs : List ViolationType) → (vs ≡ []) ↔ ((k : ViolationType) → names k vs ≡ false)
none_named [] = ((λ e k. refl), (λ h. refl))
none_named (v ∷ vs) = ((λ e. absurd (cc e)), (λ h. absurd (self v (h v))))
  where
    self : (v : ViolationType) → names v (v ∷ vs) ≡ false → ⊥
    self asset_not_allowed e = cc e
    self options_not_allowed e = cc e
    self cash_floor_violation e = cc e
    self theta_limit_exceeded e = cc e
    self position_size_exceeded e = cc e
    self concentration_exceeded e = cc e
    self capital_insufficient e = cc e

-- A position of a symbol, at its current price, or at the price of the trade if it has none.
abbrev pub worth : ℤ → Position → ℤ
worth price q = get_or q.quantity (pos 0) *ℤ get_or q.current_price price

module _ (upper : String → String) (c : GateConfig) (t : TradeDetails) (p : Portfolio) where
  -- What the trade is and what the portfolio has; a missing number is 0.
  abbrev pub Buys : Type 0
  Buys = upper (get_or t.side "") ≡ "BUY"

  abbrev pub IsOption : Type 0
  IsOption = upper (get_or t.trade_type "STOCK") ≡ "OPTION"

  abbrev symbol : String
  symbol = upper (get_or t.symbol "")

  abbrev amount : ℤ
  amount = get_or t.quantity (pos 0)

  abbrev price : ℤ
  price = get_or t.price (pos 0)

  abbrev total : ℤ
  total = get_or p.total_value (pos 0)

  -- The rule that each violation breaks. A product of two amounts is in units of 1/100000000, and
  -- `one` is the number of units of an amount in 1.
  abbrev pub Rule : ViolationType → Type 0
  Rule asset_not_allowed = Lists "*" c.allowed_assets ⊎ Lists symbol c.allowed_assets
  Rule options_not_allowed = IsOption → c.options_enabled ≡ true
  -- What a purchase leaves in cash is the floor's share of the portfolio or more.
  Rule cash_floor_violation =
      Buys → total *ℤ c.cash_floor_pct ≤ℤ get_or p.cash (pos 0) *ℤ pos one -ℤ amount *ℤ price
  -- The theta after the purchase of options is within the limit, if there is one.
  Rule theta_limit_exceeded =
      IsOption
      → Buys
      → (limit : ℤ) → c.max_theta_pct ≡ some limit
      → let theta = get_or p.total_theta (pos 0) *ℤ pos one +ℤ get_or t.theta (pos 0) *ℤ amount in
        pos (pos_part theta + neg_part theta) ≤ℤ total *ℤ limit
  -- What is bought, together with what is held of the symbol, is within the largest share of the
  -- portfolio; and the Kelly fraction, if there is one, is within 1 and within this share.
  Rule position_size_exceeded =
      (Buys → lookup symbol p.positions ≡ none → amount *ℤ price ≤ℤ total *ℤ c.max_position_pct)
      × (Buys
          → (q : Position) → lookup symbol p.positions ≡ some q
          → worth price q +ℤ amount *ℤ price ≤ℤ total *ℤ c.max_position_pct)
      × ((k : ℤ) → t.kelly_percentage ≡ some k → (k ≤ℤ pos one) × (k ≤ℤ c.max_position_pct))
  -- No code reports the other two.
  Rule _ = Unit

  asset_iff :
      (asset_refused upper c t p ≡ false)
      ↔ (Lists "*" c.allowed_assets ⊎ Lists (symbol_of upper c t p) c.allowed_assets)
  unfolding asset_refused
  asset_iff = ground (
    arith,
    is_member_iff "*" c.allowed_assets,
    is_member_iff (symbol_of upper c t p) c.allowed_assets,
  )

  options_iff :
      (option_refused upper c t p ≡ false)
      ↔ (is_option upper c t p ≡ true → c.options_enabled ≡ true)
  unfolding option_refused
  options_iff = split (is_option upper c t p) c.options_enabled
    where
      split : (a b : Bool) → ((a && not b) ≡ false) ↔ (a ≡ true → b ≡ true)
      split a b = ground arith

  cash_iff :
      (cash_refused upper c t p ≡ false)
      ↔ (is_buy upper c t p ≡ true → required_cash upper c t p ≤ℤ cash_after upper c t p)
  unfolding cash_refused
  cash_iff = buy_iff (cash_after upper c t p) (required_cash upper c t p) (is_buy upper c t p)

  position_iff :
      (position_refused upper c t p ≡ false)
      ↔ (is_buy upper c t p ≡ true → position_after upper c t p ≤ℤ position_limit upper c t p)
  unfolding position_refused
  position_iff =
      buy_iff (position_limit upper c t p) (position_after upper c t p) (is_buy upper c t p)

  theta_iff : (theta_refused upper c t p ≡ false) ↔ (
      is_option upper c t p ≡ true
      → is_buy upper c t p ≡ true
      → (limit : ℤ) → c.max_theta_pct ≡ some limit
      → pos (pos_part (theta_after upper c t p) + neg_part (theta_after upper c t p))
        ≤ℤ total_of upper c t p *ℤ limit)
  unfolding theta_refused
  theta_iff =
      exceeds_iff (is_option upper c t p) (is_buy upper c t p) (total_of upper c t p)
        (theta_after upper c t p) c.max_theta_pct

  kelly_iff :
      (limit : ℤ)
      → (kelly_above upper c t p limit ≡ false)
        ↔ ((k : ℤ) → t.kelly_percentage ≡ some k → k ≤ℤ limit)
  unfolding kelly_above
  kelly_iff limit = split t.kelly_percentage
    where
      split :
          (o : Option ℤ)
          → (elim o [ none ↦ false | some k ↦ ltb_ℤ limit k ] ≡ false)
            ↔ ((k : ℤ) → o ≡ some k → k ≤ℤ limit)
      split none = ((λ e k h. cc), (λ h. refl))
      split (some x) = ((λ e k h. ground arith), (λ h. ground (arith, h x refl)))

  buys : (is_buy upper c t p ≡ true) ↔ Buys
  buys = string_key.beq_iff (upper (get_or t.side "")) "BUY"

  trades_option : (is_option upper c t p ≡ true) ↔ IsOption
  trades_option = string_key.beq_iff (upper (get_or t.trade_type "STOCK")) "OPTION"

  -- What is held counts with its worth, and with 0 where nothing is held.
  held_iff : (position_after upper c t p ≤ℤ position_limit upper c t p) ↔ (
      (lookup symbol p.positions ≡ none → amount *ℤ price ≤ℤ total *ℤ c.max_position_pct)
      × ((q : Position)
          → lookup symbol p.positions ≡ some q
          → worth price q +ℤ amount *ℤ price ≤ℤ total *ℤ c.max_position_pct))
  unfolding position_value
  held_iff = split (lookup symbol p.positions)
    where
      split :
          (o : Option Position)
          → (position_value upper c t p o +ℤ amount *ℤ price ≤ℤ total *ℤ c.max_position_pct) ↔ (
              (o ≡ none → amount *ℤ price ≤ℤ total *ℤ c.max_position_pct)
              × ((q : Position)
                  → o ≡ some q
                  → worth price q +ℤ amount *ℤ price ≤ℤ total *ℤ c.max_position_pct))
      split none =
          let z = zero_add (amount *ℤ price) in
          (
            (λ e.
                ((λ h. subst (λ v. v ≤ℤ total *ℤ c.max_position_pct) z e), (λ q h. absurd (cc h)))),
            (λ f. subst (λ v. v ≤ℤ total *ℤ c.max_position_pct) (sym z) (f.0 refl)),
          )
      split (some x) = (
        (λ e. (
          (λ h. absurd (cc h)),
          λ q h.
              subst (λ y. worth price y +ℤ amount *ℤ price ≤ℤ total *ℤ c.max_position_pct)
                (ap (λ o. get_or o x) h) e,
        )),
        (λ f. f.1 x refl),
      )

  size_iff :
      ((position_refused upper c t p
          || kelly_above upper c t p (pos one)
          || kelly_above upper c t p c.max_position_pct)
        ≡ false)
      ↔ Rule position_size_exceeded
  size_iff = (
    λ e.
        let r = position_iff.0 (ground (arith, e)) in
        let a = (kelly_iff (pos one)).0 (ground (arith, e)) in
        let b = (kelly_iff c.max_position_pct).0 (ground (arith, e)) in
        (
          (λ h. (held_iff.0 (r (buys.1 h))).0),
          (λ h. (held_iff.0 (r (buys.1 h))).1),
          λ k h. (a k h, b k h),
        ),
    λ (f, g, h).
        let r = position_iff.1 (λ e. held_iff.1 (f (buys.0 e), g (buys.0 e))) in
        let a = (kelly_iff (pos one)).1 (λ k e. (h k e).0) in
        let b = (kelly_iff c.max_position_pct).1 (λ k e. (h k e).1) in ground (arith, r, a, b),
  )

  named :
      (k : ViolationType)
      → names k (violations_of upper c t p)
        ≡ reported k
            (asset_refused upper c t p)
            (option_refused upper c t p)
            (cash_refused upper c t p)
            (theta_refused upper c t p)
            (position_refused upper c t p)
            (kelly_above upper c t p (pos one))
            (kelly_above upper c t p c.max_position_pct)
  unfolding violations_of
  named k = names-reports k _ _ _ _ _ _ _

  -- The list names exactly the violations whose rules are broken.
  pub rules_iff : (k : ViolationType) → (names k (violations_of upper c t p) ≡ false) ↔ Rule k
  unfolding reported
  rules_iff asset_not_allowed = rw (named asset_not_allowed) asset_iff
  rules_iff options_not_allowed =
      rw (named options_not_allowed) (
        λ e h. options_iff.0 e (trades_option.1 h),
        λ f. options_iff.1 (λ e. f (trades_option.0 e)),
      )
  rules_iff cash_floor_violation =
      rw (named cash_floor_violation)
        (λ e h. cash_iff.0 e (buys.1 h), λ f. cash_iff.1 (λ e. f (buys.0 e)))
  rules_iff theta_limit_exceeded = rw (named theta_limit_exceeded) (
    λ e h k. theta_iff.0 e (trades_option.1 h) (buys.1 k),
    λ f. theta_iff.1 (λ e h. f (trades_option.0 e) (buys.0 h)),
  )
  rules_iff position_size_exceeded = rw (named position_size_exceeded) size_iff
  rules_iff concentration_exceeded = rw (named concentration_exceeded) (λ e. tt, λ h. refl)
  rules_iff capital_insufficient = rw (named capital_insufficient) (λ e. tt, λ h. refl)

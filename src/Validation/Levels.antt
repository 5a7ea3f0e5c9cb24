-- ===== src/Validation/Levels.antt =====
-- What protection levels, pending prices and filling types that pass app/lib.py satisfy.
use mt5_gateway.Prelude.{
  ℕ, ◌+◌, ◌*◌, ◌≤◌, ◌<◌, ◌≡◌, ◌↔◌, refl, ◌⊎◌, inl, inr, arith, Bool, true, false, Option, some,
  none, Option-cases,
}
use mt5_gateway.Json.{say}
use mt5_gateway.Money.{SymbolInfo}
use mt5_gateway.Host.{
  Tick, order_type_buy_limit, order_type_sell_limit, order_type_buy_stop, order_type_sell_stop,
  order_type_buy_stop_limit,
}
use mt5_gateway.Validation.{
  is_buy, check_sl, check_tp, validate_sl_tp, is_named_buy, validate_pending_price,
}

-- Below the entry for one side, above it for the other, and positive in any case.
abbrev pub Protects : Bool → ℕ → ℕ → Type 0
Protects true low high = (0 < low) × (low < high)
Protects false low high = (0 < low) × (high < low)

abbrev pub IfGiven : (ℕ → Type 0) → Option ℕ → Type 0
IfGiven P none = Unit
IfGiven P (some n) = P n

check_sl_iff :
    (b : Bool) (price : ℕ) (sl : Option ℕ)
    → (check_sl b price sl ≡ none) ↔ IfGiven (λ n. Protects b n price) sl
unfolding check_sl
check_sl_iff b price none = (λ h. tt, λ h. refl)
check_sl_iff true price (some sl) = (λ h. (ground arith, ground arith), λ h. ground arith)
check_sl_iff false price (some sl) = (λ h. (ground arith, ground arith), λ h. ground arith)

-- Take profit lies on the other side of the entry.
abbrev pub Gains : Bool → ℕ → ℕ → Type 0
Gains true tp price = price < tp
Gains false tp price = (0 < tp) × (tp < price)

check_tp_iff :
    (b : Bool) (price : ℕ) (tp : Option ℕ)
    → (check_tp b price tp ≡ none) ↔ IfGiven (λ n. Gains b n price) tp
unfolding check_tp
check_tp_iff b price none = (λ h. tt, λ h. refl)
check_tp_iff true price (some tp) = (λ h. ground arith, λ h. ground arith)
check_tp_iff false price (some tp) = (λ h. (ground arith, ground arith), λ h. ground arith)

-- The levels are accepted exactly if each one that is given is positive and on its side of the
-- price: stop below and target above for BUY, BUY_LIMIT and BUY_STOP, the other way round for every
-- other order type.
validate_sl_tp_iff :
    (t price : ℕ) (sl tp : Option ℕ)
    → (validate_sl_tp t price sl tp ≡ none)
      ↔ (IfGiven (λ n. Protects (is_buy t) n price) sl × IfGiven (λ n. Gains (is_buy t) n price) tp)
unfolding validate_sl_tp
validate_sl_tp_iff t price sl tp = elim (Option-cases (check_sl (is_buy t) price sl)) [
  | inl e ↦ (
    λ h. (
      (check_sl_iff (is_buy t) price sl).0 e,
      (check_tp_iff (is_buy t) price tp).0 (rw (e, validate_sl_tp) at h),
    ),
    λ h. rw (e, validate_sl_tp) ((check_tp_iff (is_buy t) price tp).1 h.1),
  )
  | inr (m, e) ↦
      (λ h. cc (rw (e, validate_sl_tp) at h), λ h. cc (e, (check_sl_iff (is_buy t) price sl).1 h.0))
]

-- A BUY_STOP_LIMIT order is judged as a sell: a stop loss below its entry is refused, and one above
-- is accepted.
pub buy_stop_limit_inverted :
    (price sl : ℕ)
    → 0 < sl
    → (sl < price
        → validate_sl_tp order_type_buy_stop_limit price (some sl) none
          ≡ some (say "For SELL orders, SL must be above entry price"))
      × (price < sl → validate_sl_tp order_type_buy_stop_limit price (some sl) none ≡ none)
unfolding validate_sl_tp
buy_stop_limit_inverted price sl h = (λ l. ground arith, λ l. ground arith)

-- A pending price that passes keeps the freeze distance from the side of the market that its type
-- name picks, and limit and stop orders are on the right side of the quote.
validate_pending_price_sound :
    (t : ℕ) (tick : Tick) (info : SymbolInfo) (price : ℕ)
    → validate_pending_price t (some tick) (some info) price ≡ none
    → (is_named_buy t ≡ true
        → (price + info.trade_freeze_level * info.point ≤ tick.ask)
          ⊎ (tick.ask + info.trade_freeze_level * info.point ≤ price))
      × (is_named_buy t ≡ false
          → (price + info.trade_freeze_level * info.point ≤ tick.bid)
            ⊎ (tick.bid + info.trade_freeze_level * info.point ≤ price))
      × (t ≡ order_type_buy_limit → price < tick.ask)
      × (t ≡ order_type_sell_limit → tick.bid < price)
      × (t ≡ order_type_buy_stop → tick.ask < price)
      × (t ≡ order_type_sell_stop → price < tick.bid)
unfolding validate_pending_price
validate_pending_price_sound t tick info price h = (
  λ e. ground arith,
  λ e. ground arith,
  λ e. ground arith,
  λ e. ground arith,
  λ e. ground arith,
  λ e. ground arith,
)

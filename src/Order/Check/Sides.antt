-- ===== src/Order/Check/Sides.antt =====
-- The sides on which the protection levels of a dry run lie (app/lib.py, app/routes/order.py).
use mt5_gateway.Prelude.{
  ◌≡◌, arith, ℕ, ◌<◌, Option, none, some, Option-cases, inl, inr, pos, negsuc,
}
use mt5_gateway.Json.{Number, finite, infinite, nan}
use mt5_gateway.Host.{order_type_buy, order_type_sell}
use mt5_gateway.Validation.{is_buy}
use mt5_gateway.Pending.Levels.{
  Magnitude, exactly, unbounded, undefined, magnitude, is_zero, at_most, levels_verdict, sl_verdict,
  tp_verdict,
}
use mt5_gateway.Order.Check.Verdicts.{protection_verdict, level_of, or_zero}

-- A finite stop loss is above zero, below the price of a market order to buy and above that of one
-- to sell.
abbrev pub StopSide : ℕ → Magnitude → Option Number → Type 0
StopSide t (exactly p) (some (finite (pos s))) =
    (0 < s) × (t ≡ order_type_buy → s < p) × (t ≡ order_type_sell → p < s)
StopSide t price sl = Unit

-- A finite take profit is above zero, above the price of a market order to buy and below that of one
-- to sell.
abbrev pub ProfitSide : ℕ → Magnitude → Option Number → Type 0
ProfitSide t (exactly p) (some (finite (pos s))) =
    (0 < s) × (t ≡ order_type_buy → p < s) × (t ≡ order_type_sell → s < p)
ProfitSide t price tp = Unit

levels_none :
    (t : ℕ) (price : Magnitude) (sl tp : Option Magnitude)
    → levels_verdict t price sl tp ≡ none
    → (sl_verdict (is_buy t) price sl ≡ none) × (tp_verdict (is_buy t) price tp ≡ none)
unfolding levels_verdict
levels_none t price sl tp e = elim (Option-cases (sl_verdict (is_buy t) price sl)) [
  | inl n ↦ (n, rw (levels_verdict, n) at e)
  | inr (m, s) ↦ ground (arith, s, e)
]

stop_side :
    (t : ℕ) (price : Magnitude) (sl : Option Number)
    → sl_verdict (is_buy t) price (level_of sl) ≡ none
    → StopSide t price sl
unfolding sl_verdict is_zero at_most is_buy magnitude or_zero
stop_side t (exactly p) (some (finite (pos s))) e =
    (ground (arith, e), (λ b. ground (arith, rw b at e)), (λ b. ground (arith, rw b at e)))
stop_side t (exactly p) (some (finite (negsuc s))) e = tt
stop_side t (exactly p) (some (infinite b)) e = tt
stop_side t (exactly p) (some nan) e = tt
stop_side t (exactly p) none e = tt
stop_side t unbounded sl e = tt
stop_side t undefined sl e = tt

profit_side :
    (t : ℕ) (price : Magnitude) (tp : Option Number)
    → tp_verdict (is_buy t) price (level_of tp) ≡ none
    → ProfitSide t price tp
unfolding tp_verdict is_zero at_most is_buy magnitude or_zero
profit_side t (exactly p) (some (finite (pos s))) e =
    (ground (arith, e), (λ b. ground (arith, rw b at e)), (λ b. ground (arith, rw b at e)))
profit_side t (exactly p) (some (finite (negsuc s))) e = tt
profit_side t (exactly p) (some (infinite b)) e = tt
profit_side t (exactly p) (some nan) e = tt
profit_side t (exactly p) none e = tt
profit_side t unbounded tp e = tt
profit_side t undefined tp e = tt

pub protection_sides :
    (t : ℕ) (price : Magnitude) (sl tp : Option Number)
    → protection_verdict t price sl tp ≡ none
    → StopSide t price sl × ProfitSide t price tp
unfolding protection_verdict
protection_sides t price sl tp e =
    let (s, p) = levels_none t price (level_of sl) (level_of tp) e in
    (stop_side t price sl s, profit_side t price tp p)

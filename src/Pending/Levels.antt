-- ===== src/Pending/Levels.antt =====
-- The numbers of `modify_order` (app/routes/order.py), which need not be finite, and the checks of
-- app/lib.py on them. No comparison with a NaN holds.
use mt5_gateway.Prelude.{
  ◌≡◌, refl, ℕ, ◌==◌, Bool, true, false, Option, none, some, leb, ◌&&◌, not, if◌then◌else◌, pos,
  negsuc, arith,
}
use mt5_gateway.Json.{Number, finite, infinite, nan, say}
use mt5_gateway.Money.{SymbolInfo}
use mt5_gateway.Validation.{
  Verdict, amount, is_buy, check_sl, check_tp, validate_sl_tp, validate_pending_price,
}
use mt5_gateway.Host.{Tick, order_type_buy_limit, order_type_sell_stop}

-- A number that is not below zero.
pub data Magnitude : Type 0 where
  exactly : ℕ → Magnitude
  unbounded undefined : Magnitude

-- The number, unless it is below zero.
unfoldable pub magnitude : Number → Option Magnitude
magnitude (finite (pos n)) = some (exactly n)
magnitude (finite (negsuc n)) = none
magnitude (infinite negative) = if negative then none else some unbounded
magnitude nan = some undefined

unfoldable pub number_of : Magnitude → Number
number_of (exactly n) = amount n
number_of unbounded = infinite false
number_of undefined = nan

-- `m <= 0`
unfoldable pub is_zero : Magnitude → Bool
is_zero (exactly n) = n == 0
is_zero _ = false

-- `m > 0`
unfoldable pub is_positive : Magnitude → Bool
is_positive (exactly n) = not (n == 0)
is_positive unbounded = true
is_positive undefined = false

-- `a <= b`
unfoldable pub at_most : Magnitude → Magnitude → Bool
at_most undefined b = false
at_most a undefined = false
at_most a unbounded = true
at_most unbounded (exactly n) = false
at_most (exactly m) (exactly n) = leb m n

-- `level if level > 0 else None`
unfoldable pub given : Magnitude → Option Magnitude
given m = if is_positive m then some m else none

-- `validate_sl_tp`
unfoldable pub sl_verdict : Bool → Magnitude → Option Magnitude → Verdict
sl_verdict buy price none = none
sl_verdict buy price (some sl) =
    if is_zero sl
    then some (say "Stop loss must be positive")
    else if buy && at_most price sl
    then some (say "For BUY orders, SL must be below entry price")
    else if not buy && at_most sl price
    then some (say "For SELL orders, SL must be above entry price")
    else none

unfoldable pub tp_verdict : Bool → Magnitude → Option Magnitude → Verdict
tp_verdict buy price none = none
tp_verdict buy price (some tp) =
    if is_zero tp
    then some (say "Take profit must be positive")
    else if buy && at_most tp price
    then some (say "For BUY orders, TP must be above entry price")
    else if not buy && at_most price tp
    then some (say "For SELL orders, TP must be below entry price")
    else none

unfoldable pub levels_verdict : ℕ → Magnitude → Option Magnitude → Option Magnitude → Verdict
levels_verdict order_type price sl tp = elim (sl_verdict (is_buy order_type) price sl) [
  | some m ↦ some m
  | none ↦ tp_verdict (is_buy order_type) price tp
]

-- `validate_pending_price`; an infinite price is far from the market and above it.
unfoldable pub price_verdict : ℕ → Option Tick → Option SymbolInfo → Magnitude → Verdict
price_verdict order_type tick info (exactly n) = validate_pending_price order_type tick info n
price_verdict order_type none info m = some (say "Unable to get current price")
price_verdict order_type (some tick) none m = some (say "Symbol info unavailable")
price_verdict order_type (some tick) (some info) unbounded =
    if order_type == order_type_buy_limit
    then some (say "BUY_LIMIT price must be below current ask")
    else if order_type == order_type_sell_stop
    then some (say "SELL_STOP price must be below current bid")
    else none
price_verdict order_type (some tick) (some info) undefined = none

abbrev pub exact : Option ℕ → Option Magnitude
exact none = none
exact (some n) = some (exactly n)

-- On finite numbers the checks are those of a new order.
pub levels_verdict-exact :
    (order_type price : ℕ) (sl tp : Option ℕ)
    → levels_verdict order_type (exactly price) (exact sl) (exact tp)
      ≡ validate_sl_tp order_type price sl tp
unfolding levels_verdict sl_verdict tp_verdict validate_sl_tp check_sl check_tp is_zero at_most
levels_verdict-exact order_type price none none = refl
levels_verdict-exact order_type price none (some tp) = refl
levels_verdict-exact order_type price (some sl) none = refl
levels_verdict-exact order_type price (some sl) (some tp) = refl

pub given-exact : (n : ℕ) → given (exactly n) ≡ exact (if n == 0 then none else some n)
unfolding given is_positive
given-exact n = ground arith

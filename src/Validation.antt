-- ===== src/Validation.antt =====
-- app/lib.py: the checks of volumes, protection levels, pending prices and filling types. Prices
-- and volumes are in units of 10^-10; comparisons and products are exact.
pub mod Levels
pub mod Steps
use mt5_gateway.Prelude.{
  ℕ, ◌+◌, ◌-◌, ◌*◌, ◌/◌, ◌%◌, String, Bool, true, false, Option, none, some, List, [], ◌∷◌, any,
  ltb, leb, ◌==◌, ◌&&◌, ◌||◌, not, str_eq, if◌then◌else◌, ℤ, pos, negsuc, is_some,
}
use mt5_gateway.Json.{Number, finite, Message, say, lit, shown_number, Json, bool, int, text}
use mt5_gateway.Money.{SymbolInfo}
use mt5_gateway.Host.{
  Tick, Library, order_type_buy, order_type_sell, order_type_buy_limit, order_type_sell_limit,
  order_type_buy_stop, order_type_sell_stop, order_type_buy_stop_limit, order_filling_fok,
  order_filling_ioc, order_filling_return,
}

-- The pairs `(True, None)` and `(False, message)`: the message of a refusal, or none.
abbrev pub Verdict : Type 0
Verdict = Option Message

abbrev pub amount : ℕ → Number
amount n = finite (pos n)

abbrev pub dist : ℕ → ℕ → ℕ
dist a b = if leb a b then b - a else a - b

-- Python's `round(n / q)`: to the nearest, and from the middle to the even one.
unfoldable pub round_half_even : ℕ → ℕ → ℕ
round_half_even n q =
    let up = (2 * n + q) / (2 * q) in
    if ((2 * n + q) % (2 * q) == 0) && (up % 2 == 1) then up - 1 else up

-- The symbol info is none where `symbol_info` gave None.
unfoldable pub validate_volume : Option SymbolInfo → ℕ → Verdict
unfolding round_half_even
validate_volume none v = some (say "Symbol info unavailable")
validate_volume (some info) v =
    if ltb v info.volume_min
    then some (
        lit "Volume "
        ∷ shown_number (amount v)
        ∷ lit " below minimum "
        ∷ shown_number (amount info.volume_min)
        ∷ [])
    else if ltb info.volume_max v
    then some (
        lit "Volume "
        ∷ shown_number (amount v)
        ∷ lit " exceeds maximum "
        ∷ shown_number (amount info.volume_max)
        ∷ [])
    else if info.volume_step == 0
    then none
    else (let steps = round_half_even (v - info.volume_min) info.volume_step in
        let expected = info.volume_min + steps * info.volume_step in
        if ltb info.volume_step (dist v expected * 100)
        then some (lit "Volume must be in steps of " ∷ shown_number (amount info.volume_step) ∷ [])
        else none)

-- `is_buy` of `validate_sl_tp`
unfoldable pub is_buy : ℕ → Bool
is_buy t = (t == order_type_buy) || (t == order_type_buy_limit) || (t == order_type_buy_stop)

unfoldable pub check_sl : Bool → ℕ → Option ℕ → Verdict
check_sl buy price none = none
check_sl buy price (some sl) =
    if sl == 0
    then some (say "Stop loss must be positive")
    else if buy && leb price sl
    then some (say "For BUY orders, SL must be below entry price")
    else if not buy && leb sl price
    then some (say "For SELL orders, SL must be above entry price")
    else none

unfoldable pub check_tp : Bool → ℕ → Option ℕ → Verdict
check_tp buy price none = none
check_tp buy price (some tp) =
    if tp == 0
    then some (say "Take profit must be positive")
    else if buy && leb tp price
    then some (say "For BUY orders, TP must be above entry price")
    else if not buy && leb price tp
    then some (say "For SELL orders, TP must be below entry price")
    else none

unfoldable pub validate_sl_tp : ℕ → ℕ → Option ℕ → Option ℕ → Verdict
unfolding is_buy check_sl check_tp
validate_sl_tp order_type price sl tp = elim (check_sl (is_buy order_type) price sl) [
  | some m ↦ some m
  | none ↦ check_tp (is_buy order_type) price tp
]

-- `"BUY" in ORDER_TYPE_TO_STRING.get(order_type, "")`
unfoldable pub is_named_buy : ℕ → Bool
is_named_buy t =
    (t == order_type_buy)
    || (t == order_type_buy_limit)
    || (t == order_type_buy_stop)
    || (t == order_type_buy_stop_limit)

-- The tick and the info are none where the terminal gave None; the tick is asked for first.
unfoldable pub validate_pending_price : ℕ → Option Tick → Option SymbolInfo → ℕ → Verdict
unfolding is_named_buy
validate_pending_price order_type none info price = some (say "Unable to get current price")
validate_pending_price order_type (some tick) none price = some (say "Symbol info unavailable")
validate_pending_price order_type (some tick) (some info) price =
    let freeze_level = info.trade_freeze_level * info.point in
    let current = if is_named_buy order_type then tick.ask else tick.bid in
    if ltb (dist price current) freeze_level
    then some (
        lit "Price too close to market (freeze level: "
        ∷ shown_number (amount freeze_level)
        ∷ lit ")"
        ∷ [])
    else if (order_type == order_type_buy_limit) && leb tick.ask price
    then some (say "BUY_LIMIT price must be below current ask")
    else if (order_type == order_type_sell_limit) && leb price tick.bid
    then some (say "SELL_LIMIT price must be above current bid")
    else if (order_type == order_type_buy_stop) && leb price tick.ask
    then some (say "BUY_STOP price must be above current ask")
    else if (order_type == order_type_sell_stop) && leb tick.bid price
    then some (say "SELL_STOP price must be below current bid")
    else none

-- The pairs `(constant, None)` and `(None, message)`.
pub data Filling : Type 0 where
  accepted : ℕ → Filling
  refused : Message → Filling

abbrev filling_of_int : ℤ → Filling
filling_of_int (pos n) =
    if leb n order_filling_return then accepted n else refused (say "Invalid integer type_filling")
filling_of_int (negsuc n) = refused (say "Invalid integer type_filling")

-- A bool is an int for `isinstance`.
unfoldable pub validate_type_filling : Library → Json → Filling
validate_type_filling lib (text s) =
    let name = lib.upper s in
    if str_eq name "FOK"
    then accepted order_filling_fok
    else if str_eq name "IOC"
    then accepted order_filling_ioc
    else if str_eq name "RETURN"
    then accepted order_filling_return
    else refused
        (lit "Invalid type_filling: " ∷ lit s ∷ lit ". Must be one of: FOK, IOC, RETURN" ∷ [])
validate_type_filling lib (int n) = filling_of_int n
validate_type_filling lib (bool b) = filling_of_int (pos (if b then 1 else 0))
validate_type_filling lib _ =
    refused (say "type_filling must be a string (FOK, IOC, RETURN) or integer constant")

-- `get_symbol_filling_mode`: bit 1 of the mode before bit 0.
unfoldable pub filling_mode_of : Option SymbolInfo → ℕ
filling_mode_of none = order_filling_return
filling_mode_of (some info) =
    if info.filling_mode / 2 % 2 == 1
    then order_filling_ioc
    else if info.filling_mode % 2 == 1
    then order_filling_fok
    else order_filling_return

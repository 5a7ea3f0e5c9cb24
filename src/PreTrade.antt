-- ===== src/PreTrade.antt =====
-- app/pretrade.py: the operator's limits on an order, before anything is asked of the broker.
-- Amounts and percentages are in units of 10^-10; the quotient of the price band is exact.
pub mod Laws
use mt5_gateway.Prelude.{
  ℕ, ◌+◌, ◌-◌, ◌*◌, ◌^◌, String, Bool, true, false, Option, none, some, List, [], ◌∷◌, ◌++◌, map,
  any, select, ltb, leb, ◌==◌, ◌&&◌, ◌||◌, not, str_eq, if◌then◌else◌, ℤ, pos, leb_ℤ,
}
use mt5_gateway.Json.{
  Number, finite, unit, Message, say, lit, shown_int, shown_number, Json, null, int, text, Dict,
  lookup, get, shown,
}
use mt5_gateway.Flow.{
  Exn, pre_trade_error, value_error, type_error, key_error, Flow, value, reply, raised, ◌>>=◌, ◌>>◌,
  raise_if,
}
use mt5_gateway.Convert.{float_of, int_of, exceeds}
use mt5_gateway.Host.{Library, PreTradeLimits}

abbrev pub allowed_order_fields : List String
allowed_order_fields =
    "symbol" ∷ "volume" ∷ "type" ∷ "price" ∷ "stoplimit" ∷ "sl" ∷ "tp" ∷ "deviation" ∷ "magic"
    ∷ "comment" ∷ "type_filling" ∷ "expiration" ∷ "client_order_id" ∷ []

-- `set(data) - ALLOWED_ORDER_FIELDS`, in the order of the body
unfoldable pub unknown_fields : Dict → List String
unknown_fields d = select (λ k. not (any (str_eq k) allowed_order_fields)) (map (λ e. e.0) d)

abbrev pub listed : Json → List String → Bool
listed (text s) names = any (str_eq s) names
listed _ names = false

-- The `except (KeyError, TypeError, ValueError)` clause.
unfoldable pub numeric_fields : {A : Type 0} → Flow A → Flow A
numeric_fields (raised value_error) =
    raised (pre_trade_error (say "volume, deviation, and magic must be numeric"))
numeric_fields (raised type_error) =
    raised (pre_trade_error (say "volume, deviation, and magic must be numeric"))
numeric_fields (raised key_error) =
    raised (pre_trade_error (say "volume, deviation, and magic must be numeric"))
numeric_fields m = m

-- `data[key]`
abbrev pub item : Dict → String → Flow Json
item d k = elim (lookup k d) [ none ↦ raised key_error | some v ↦ value v ]

-- `data.get(key, default)`
abbrev pub get_default : Dict → String → Json → Json
get_default d k v = elim (lookup k d) [ none ↦ v | some u ↦ u ]

module _ (lib : Library) where
  unfoldable pub read_numbers : Dict → Flow (Number × ℤ × ℤ)
  read_numbers d = do
    v ← item d "volume"
    volume ← float_of lib v
    deviation ← int_of lib (get_default d "deviation" (int (pos 20)))
    magic ← int_of lib (get_default d "magic" (int (pos 0)))
    value (volume, deviation, magic)

  unfoldable pub check_numbers : PreTradeLimits → Number → ℤ → ℤ → Flow (Unit {0})
  check_numbers limits volume deviation magic = do
    raise_if (exceeds volume limits.max_volume) (
        pre_trade_error (
          lit "Volume exceeds operator maximum "
          ∷ shown_number (finite (pos limits.max_volume))
          ∷ []))
    raise_if (not (leb_ℤ (pos 0) deviation && leb_ℤ deviation (pos limits.max_deviation))) (
        pre_trade_error
          (lit "deviation must be between 0 and " ∷ shown_int (pos limits.max_deviation) ∷ []))
    raise_if (not (leb_ℤ (pos 0) magic && leb_ℤ magic (pos (2 ^ 32 - 1))))
        (pre_trade_error (say "magic must be an unsigned 32-bit integer"))

  unfoldable pub validate_order_intent : PreTradeLimits → Dict → Flow (Unit {0})
  unfolding read_numbers unknown_fields
  validate_order_intent limits d = do
    raise_if (elim (unknown_fields d) [ [] ↦ false | k ∷ ks ↦ true ])
        (pre_trade_error (lit "Unknown order fields: " ∷ map lit (unknown_fields d)))
    raise_if (elim limits.symbols [ [] ↦ false | k ∷ ks ↦ not (listed (get "symbol" d) (k ∷ ks)) ])
        (pre_trade_error (lit "Symbol is not allowed: " ∷ shown (get "symbol" d) ∷ []))
    (volume, deviation, magic) ← numeric_fields (read_numbers d)
    check_numbers limits volume deviation magic

unfoldable pub validate_price_band : PreTradeLimits → ℕ → ℕ → Flow (Unit {0})
validate_price_band limits price market = do
  raise_if (market == 0) (pre_trade_error (say "Current market price is unavailable"))
  let deviation = if leb market price then price - market else market - price
  raise_if (ltb (limits.max_price_deviation_pct * market) (deviation * 100 * unit)) (
      pre_trade_error (
        lit "Price exceeds "
        ∷ shown_number (finite (pos limits.max_price_deviation_pct))
        ∷ lit "% market-price band"
        ∷ []))

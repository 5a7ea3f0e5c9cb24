-- ===== src/Money.antt =====
-- app/money.py: finite parsing and Decimal normalisation of the numbers that go to the broker.
-- A finite decimal is a count of 10^-10 (Json.antt). `Decimal`'s parser of texts is a parameter. A
-- quotient is rounded once from its exact value: the 28 digits of Decimal's context hold it.
pub mod Rounding
pub mod Laws
use mt5_gateway.Prelude.{
  ℕ, suc, ◌+◌, ◌-◌, ◌*◌, ◌/◌, ◌^◌, String, Bool, true, false, Option, none, some, [], ◌∷◌, ltb, leb,
  ◌==◌, ◌||◌, ◌&&◌, if◌then◌else◌, ℤ, pos, negsuc, pos_part, neg_part, ltb_ℤ, leb_ℤ,
}
use mt5_gateway.Json.{
  Number, finite, infinite, nan, places, unit, Message, lit, say, shown_number, Json, null, bool,
  int, float, text, said, arr, obj,
}
use mt5_gateway.Flow.{Exn, numeric_validation_error, Flow, value, raised, ◌>>=◌, ◌>>◌, raise_if}

-- What the gateway reads of `symbol_info(name)`. The broker's lots, ticks and levels are not
-- negative; amounts are in units of 10^-10.
pub record SymbolInfo : Type 0 where
  pub volume_min : ℕ
  pub volume_max : ℕ
  pub volume_step : ℕ
  pub trade_tick_size : ℕ
  pub digits : ℕ
  pub trade_freeze_level : ℕ
  pub point : ℕ
  pub filling_mode : ℕ

-- An integer as a decimal.
abbrev pub scaled : ℤ → ℤ
scaled (pos n) = pos (n * unit)
scaled (negsuc n) = negsuc (suc n * unit - 1)

-- The least magnitude that rounds to an infinite double.
unfoldable pub float_limit : ℕ
float_limit = (2 ^ 1024 - 2 ^ 970) * unit

unfoldable pub is_double : ℤ → Bool
is_double n = ltb (pos_part n) float_limit && ltb (neg_part n) float_limit

-- `(v / step).to_integral_value(ROUND_DOWN) * step`
unfoldable pub round_down : ℕ → ℕ → ℕ
round_down v step = v / step * step

-- `(p / q).to_integral_value(ROUND_HALF_UP) * q`, and `p.quantize(q, ROUND_HALF_UP)`
unfoldable pub round_half_up : ℕ → ℕ → ℕ
round_half_up p q = (2 * p + q) / (2 * q) * q

-- `Decimal(1).scaleb(-digits)`; a finer step than 10^-10 is the unit itself.
abbrev pub quantum : SymbolInfo → ℕ
quantum info = 10 ^ (places - info.digits)

-- The tick first, where the symbol has one, then the displayed digits.
unfoldable pub snap_price : SymbolInfo → ℕ → ℕ
unfolding round_half_up
snap_price info p =
    round_half_up (if ltb 0 info.trade_tick_size then round_half_up p info.trade_tick_size else p)
      (quantum info)

-- The body of `normalize_volume` once the volume is parsed.
unfoldable pub lots : SymbolInfo → ℤ → Flow ℕ
lots info volume = do
  raise_if (ltb_ℤ volume (pos info.volume_min) || ltb_ℤ (pos info.volume_max) volume) (
      numeric_validation_error (
        lit "volume must be between "
        ∷ shown_number (finite (pos info.volume_min))
        ∷ lit " and "
        ∷ shown_number (finite (pos info.volume_max))
        ∷ []))
  if info.volume_step == 0 then value (pos_part volume) else do
    let normalized = round_down (pos_part volume) info.volume_step
    raise_if (ltb normalized info.volume_min) (
        numeric_validation_error
          (lit "volume must be at least " ∷ shown_number (finite (pos info.volume_min)) ∷ []))
    value normalized

-- The body of `normalize_price` once the price is parsed.
unfoldable pub priced : SymbolInfo → String → ℤ → Flow ℕ
priced info field price = do
  raise_if (leb_ℤ price (pos 0))
      (numeric_validation_error (lit field ∷ lit " must be positive" ∷ []))
  value (snap_price info (pos_part price))

module _ (parse : String → Option Number) where
  -- `Decimal(str(value))`, none for InvalidOperation
  unfoldable pub to_decimal : Json → Option Number
  to_decimal (int n) = some (finite (scaled n))
  to_decimal (float n) = some n
  to_decimal (text s) = parse s
  to_decimal _ = none

  unfoldable pub finite_decimal : Json → String → Flow ℤ
  finite_decimal v field = elim (to_decimal v) [
    | none ↦ raised (numeric_validation_error (lit field ∷ lit " must be numeric" ∷ []))
    | some n ↦ elim n [
      | finite a ↦ value a
      | _ ↦ raised (numeric_validation_error (lit field ∷ lit " must be finite" ∷ []))
    ]
  ]

  unfoldable pub finite_float : Json → String → Flow ℤ
  unfolding is_double float_limit
  finite_float v field = do
    n ← finite_decimal v field
    if is_double n
        then value n
        else raised (numeric_validation_error (lit field ∷ lit " must be finite" ∷ []))

  unfoldable pub normalize_volume : Json → SymbolInfo → Flow ℕ
  unfolding lots
  normalize_volume v info = do volume ← finite_decimal v "volume"; lots info volume

  unfoldable pub normalize_price : Json → SymbolInfo → String → Flow ℕ
  unfolding priced
  normalize_price v info field = do price ← finite_decimal v field; priced info field price

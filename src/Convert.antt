-- ===== src/Convert.antt =====
-- Python's `float(v)` and `int(v)` on a value of a JSON body, with the exceptions that they raise.
use mt5_gateway.Prelude.{
  ℕ, suc, ◌/◌, Bool, true, false, none, some, if◌then◌else◌, ℤ, pos, negsuc, sub_ℕ, ltb_ℤ,
}
use mt5_gateway.Json.{Number, finite, infinite, nan, unit, Json, bool, int, float, text}
use mt5_gateway.Money.{scaled, is_double}
use mt5_gateway.Flow.{Flow, value, raised, value_error, type_error, overflow_error}
use mt5_gateway.Host.{Library}

-- Towards zero.
abbrev pub truncated : ℤ → ℤ
truncated (pos n) = pos (n / unit)
truncated (negsuc n) = sub_ℕ 0 (suc n / unit)

module _ (lib : Library) where
  unfoldable pub float_of : Json → Flow Number
  float_of (bool b) = value (finite (pos (if b then unit else 0)))
  float_of (int n) =
      if is_double (scaled n) then value (finite (scaled n)) else raised overflow_error
  float_of (float n) = value n
  float_of (text s) = elim (lib.parse_number s) [ none ↦ raised value_error | some n ↦ value n ]
  float_of _ = raised type_error

  unfoldable pub int_of : Json → Flow ℤ
  int_of (bool b) = value (pos (if b then 1 else 0))
  int_of (int n) = value n
  int_of (float (finite n)) = value (truncated n)
  int_of (float (infinite b)) = raised overflow_error
  int_of (float nan) = raised value_error
  int_of (text s) = elim (lib.parse_int s) [ none ↦ raised value_error | some n ↦ value n ]
  int_of _ = raised type_error

-- `volume > bound` for a bound in units of 10^-10
abbrev pub exceeds : Number → ℕ → Bool
exceeds (finite n) bound = ltb_ℤ (pos bound) n
exceeds (infinite negative) bound = if negative then false else true
exceeds nan bound = false

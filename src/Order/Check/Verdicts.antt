-- ===== src/Order/Check/Verdicts.antt =====
-- `validate_volume` and `validate_sl_tp` of app/lib.py on the numbers of a dry run. `round` of a NaN
-- raises; a level below zero is refused as zero is.
use mt5_gateway.Prelude.{ℕ, ◌==◌, false, Option, none, some, [], ◌∷◌, if◌then◌else◌}
use mt5_gateway.Json.{say, lit, shown_number, Number, infinite}
use mt5_gateway.Flow.{Flow, value, raised, value_error}
use mt5_gateway.Money.{SymbolInfo}
use mt5_gateway.Validation.{Verdict, amount, validate_volume}
use mt5_gateway.Pending.Levels.{Magnitude, exactly, unbounded, undefined, magnitude, levels_verdict}

unfoldable pub volume_verdict : Option SymbolInfo → Magnitude → Flow Verdict
volume_verdict info (exactly n) = value (validate_volume info n)
volume_verdict none m = value (some (say "Symbol info unavailable"))
volume_verdict (some info) unbounded = value (
    some (
      lit "Volume "
      ∷ shown_number (infinite false)
      ∷ lit " exceeds maximum "
      ∷ shown_number (amount info.volume_max)
      ∷ []))
volume_verdict (some info) undefined =
    if info.volume_step == 0 then value none else raised value_error

-- Below zero and zero alike are `<= 0`.
unfoldable pub or_zero : Option Magnitude → Magnitude
or_zero none = exactly 0
or_zero (some m) = m

abbrev pub level_of : Option Number → Option Magnitude
level_of none = none
level_of (some n) = some (or_zero (magnitude n))

unfoldable pub protection_verdict : ℕ → Magnitude → Option Number → Option Number → Verdict
protection_verdict t price sl tp = levels_verdict t price (level_of sl) (level_of tp)

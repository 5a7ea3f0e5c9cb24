-- ===== src/History/Window.antt =====
-- app/deal_window.py and app/request_limits.py. Python's dates are a parameter: a moment is ordered by
-- its microseconds among those with a zone, or among those without, and the two do not compare.
use mt5_gateway.Prelude.{
  ℕ, ◌-◌, ◌*◌, String, Bool, true, Option, none, some, [], ◌∷◌, leb, ltb, leb_ℤ, str_eq, not, ◌&&◌,
  ◌||◌, if◌then◌else◌, ℤ, pos,
}
use mt5_gateway.Json.{Message, say, lit, unshown, shown_int}
use mt5_gateway.Flow.{Flow, value, raised, value_error, type_error, ◌>>=◌}
use mt5_gateway.Access.{joined}
use mt5_gateway.Errors.{RequestId}
use mt5_gateway.Host.{Library}
use mt5_gateway.Order.Key.{invalid}

pub record Moment : Type 0 where
  pub aware : Bool
  pub micros : ℕ

pub record Calendar : Type 0 where
  -- `datetime.fromisoformat`
  pub parse_date : String → Option Moment
  -- `int(d.timestamp())`
  pub timestamp : Moment → Flow ℤ
  -- `datetime.fromtimestamp(n, tz=utc).isoformat()`
  pub iso : ℤ → String

-- MAX_NUM_BARS and MAX_HISTORY_RANGE_DAYS
pub record Limits : Type 0 where
  pub max_num_bars : ℕ
  pub max_history_range_days : ℕ

-- `s.replace("Z", "+00:00")`
unfoldable pub with_offset : String → String
with_offset String.[] = ""
with_offset (String.◌∷◌ c s) =
    let rest = with_offset s in
    if str_eq (String.◌∷◌ c String.[]) "Z" then joined "+00:00" rest else String.◌∷◌ c rest

-- `a >= b`
unfoldable pub not_before : Moment → Moment → Flow Bool
not_before a b =
    if (a.aware && not b.aware) || (not a.aware && b.aware)
    then raised type_error
    else value (leb b.micros a.micros)

-- A query argument that `not` finds empty.
abbrev pub is_blank : Option String → Bool
is_blank none = true
is_blank (some s) = str_eq s ""

-- What the ranges of the handlers are made of.
pub record Range : Type 0 where
  pub start : Moment
  pub stop : Moment

abbrev pub ordered_message : Message
ordered_message = say "from_date must be before to_date"

abbrev pub microseconds_a_day : ℕ
microseconds_a_day = 86400 * 1000000

-- `validate_date_range`: the message of the ValueError, or none.
unfoldable pub validate_date_range : Limits → Range → Flow (Option Message)
validate_date_range limits r = not_before r.start r.stop >>= λ late. value (
    if late
    then some (say "start must be before end")
    else if ltb (limits.max_history_range_days * microseconds_a_day)
        (r.stop.micros - r.start.micros)
    then some (
        lit "date range cannot exceed "
        ∷ shown_int (pos limits.max_history_range_days)
        ∷ lit " days"
        ∷ [])
    else none)

module _ (lib : Library) where
  -- `int(value)` of a text
  abbrev pub int_text : String → Flow ℤ
  int_text s = elim (lib.parse_int s) [ none ↦ raised value_error | some n ↦ value n ]

  unfoldable pub validate_num_bars : Limits → String → Flow ℤ
  validate_num_bars limits s = int_text s >>= λ n.
      if leb_ℤ (pos 1) n && leb_ℤ n (pos limits.max_num_bars) then value n else raised value_error

  unfoldable pub validate_tick_flags : String → Flow ℤ
  validate_tick_flags s =
      int_text s >>= λ n. if leb_ℤ (pos 0) n && leb_ℤ n (pos 7) then value n else raised value_error

  module _ (cal : Calendar) (id : RequestId) where
    -- Both dates, where both are given; `ValueError` is answered with `failed`.
    unfoldable pub dates : Message → Option String → Option String → Flow Range
    dates failed (some a) (some b) = elim (cal.parse_date (with_offset a)) [
      | none ↦ invalid id failed
      | some start ↦ elim (cal.parse_date (with_offset b)) [
        | none ↦ invalid id failed
        | some stop ↦ value (record { start = start; stop = stop })
      ]
    ]
    dates failed _ _ = invalid id (say "from_date and to_date parameters are required")

    unfoldable pub given_dates : Message → Option String → Option String → Flow Range
    given_dates failed a b =
        if is_blank a || is_blank b
        then invalid id (say "from_date and to_date parameters are required")
        else dates failed a b

    unfoldable pub in_order : Range → Flow (Unit {0})
    in_order r =
        not_before r.start r.stop >>= λ late. if late then invalid id ordered_message else value tt

    -- An integer argument that may be missing.
    unfoldable pub optional_int : Message → Option String → Flow (Option ℤ)
    optional_int failed none = value none
    optional_int failed (some s) = elim (lib.parse_int s) [
      | none ↦ invalid id failed
      | some n ↦ value (some n)
    ]

    -- `parse_deal_window`, with the answer to its error.
    unfoldable pub parse_deal_window :
        Option String → Option String → Option String → Flow (ℤ × ℤ × Option ℤ)
    parse_deal_window from_date to_date position =
        given_dates (lit "Invalid parameter format: " ∷ unshown ∷ []) from_date to_date >>= λ r.
        optional_int (lit "Invalid parameter format: " ∷ unshown ∷ []) position >>= λ p.
        in_order r >>= λ _. cal.timestamp r.start >>= λ from_timestamp.
        cal.timestamp r.stop >>= λ to_timestamp. value (from_timestamp, to_timestamp, p)

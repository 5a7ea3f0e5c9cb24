-- ===== src/ServerTime.antt =====
-- app/time_utils.py: the broker-server clock against UTC. Clock readings and ticks are in
-- milliseconds, offsets and epochs in seconds. The module's globals are the record `Offset`; the
-- environment variables and the IANA zone (`zoneinfo`, a function of the instant) are `TimeConfig`.
pub mod Derivation
pub mod Confirmation
pub mod Conversion
use mt5_gateway.Prelude.{
  [], ◌∷◌, ◌/◌, ℕ, zero, suc, ◌+◌, ◌-◌, ◌*◌, ◌/◌, ◌%◌, String, Bool, true, false, Option, none,
  some, [], ◌∷◌, List, ltb, leb, ◌==◌, ◌&&◌, ◌||◌, not, if◌then◌else◌, ℤ, pos, negsuc, sub_ℕ, ◌+ℤ◌,
  ◌-ℤ◌, eqb_ℤ, leb_ℤ, is_some,
}
use mt5_gateway.Json.{Message, say, lit, shown_int}
use mt5_gateway.Flow.{Flow, value, reply, raised, value_error, server_offset_unavailable}

pub record TimeConfig : Type 0 where
  -- MT5_SERVER_TIME_ZONE: its offset at an instant that `datetime` has
  pub zone : Option (ℤ → ℤ)
  -- MT5_SERVER_UTC_OFFSET_SECONDS
  pub env_offset : Option ℤ
  -- MT5_TIME_MAX_OFFSET_AGE_SECONDS
  pub max_offset_age : ℕ
  -- MT5_TIME_OFFSET_CONFIRMATIONS, as it is set
  pub confirmations : ℕ

pub record Offset : Type 0 where
  pub derived_offset : Option ℤ
  pub derived_symbol : Option String
  pub derived_at : Option ℕ
  pub pending_offset : Option ℤ
  pub pending_count : ℕ

abbrev pub no_offset : Offset
no_offset = record {
  derived_offset = none;
  derived_symbol = none;
  derived_at = none;
  pending_offset = none;
  pending_count = 0;
}

-- `max(1, …)`
abbrev pub offset_confirmations : TimeConfig → ℕ
offset_confirmations c = if ltb c.confirmations 1 then 1 else c.confirmations

-- Whether `datetime` has the instant, in the years 1 to 9999.
abbrev pub is_in_range : ℤ → Bool
is_in_range at = leb_ℤ (negsuc 62135596799) at && leb_ℤ at (pos 253402300799)

-- `datetime.fromtimestamp(float(at), tz=timezone.utc)`: the instant, if `datetime` has it.
unfoldable pub fromtimestamp : ℤ → Flow ℤ
fromtimestamp at = if is_in_range at then value at else raised value_error

-- The zone's offset at a reading of the clock, which lies in the range of `datetime`.
abbrev pub zone_offset_seconds : TimeConfig → ℤ → Option ℤ
zone_offset_seconds c at = elim c.zone [ none ↦ none | some z ↦ some (z at) ]

-- `set_derived_offset(seconds, symbol, derived_at)` with a value; no caller in the service passes
-- None.
unfoldable pub set_derived_offset : ℤ → String → ℕ → Offset → Offset
set_derived_offset seconds symbol now o = record {
  derived_offset = some seconds;
  derived_symbol = some symbol;
  derived_at = some now;
  pending_offset = none;
  pending_count = 0;
}

-- An hour in milliseconds.
abbrev pub hour : ℕ
hour = 3600000

-- `round(n / hour)` of a distance: to the nearest, and from the middle to the even one.
unfoldable pub round_hours : ℕ → ℕ
round_hours n =
    let up = (2 * n + hour) / (2 * hour) in
    if ((2 * n + hour) % (2 * hour) == 0) && (up % 2 == 1) then up - 1 else up

-- `abs(delta - rounded) > 90`
unfoldable pub is_unclean : ℕ → ℕ → Bool
is_unclean n k = ltb (k * hour + 90000) n || ltb (n + 90000) (k * hour)

-- `delta` is not negative and at most 14 hours, or negative and at most 12.
unfoldable pub derive_offset_from_server_epoch : ℕ → ℕ → Option ℤ
derive_offset_from_server_epoch server now =
    if leb now server
    then (let k = round_hours (server - now) in
        if is_unclean (server - now) k
        then none
        else if ltb 14 k
        then none
        else some (pos (k * 3600)))
    else (let k = round_hours (now - server) in
        if is_unclean (now - server) k
        then none
        else if ltb 12 k
        then none
        else some (sub_ℕ 0 (k * 3600)))

eq_option : Option ℤ → ℤ → Bool
eq_option none b = false
eq_option (some a) b = eqb_ℤ a b

-- The candidate and its count after one more reading that disagrees with the cache.
unfoldable pub count_reading : ℤ → Offset → Offset
unfolding eq_option
count_reading derived o =
    if eq_option o.pending_offset derived
    then record o { pending_count = o.pending_count + 1 }
    else record o { pending_offset = some derived; pending_count = 1 }

-- What `derive_from_tick` does with a clean reading.
unfoldable pub take_reading : TimeConfig → String → ℕ → ℤ → Offset → Offset
unfolding eq_option set_derived_offset count_reading
take_reading c symbol now derived o =
    if not (is_some o.derived_offset) || eq_option o.derived_offset derived
    then set_derived_offset derived symbol now o
    else (let counted = count_reading derived o in
        if leb (offset_confirmations c) counted.pending_count
        then set_derived_offset derived symbol now counted
        else counted)

-- A missing tick and a tick at time 0 derive nothing.
unfoldable pub derive_from_tick : TimeConfig → String → Option ℕ → ℕ → Offset → Option ℤ × Offset
derive_from_tick c symbol none now o = (none, o)
derive_from_tick c symbol (some zero) now o = (none, o)
derive_from_tick c symbol (some (suc t)) now o =
    elim (derive_offset_from_server_epoch (suc t) now) [
      | none ↦ (none, o)
      | some d ↦ (some d, take_reading c symbol now d o)
    ]

-- `moment - derived_at <= max_offset_age_seconds()`
is_recent : TimeConfig → ℕ → ℕ → Bool
is_recent c now at = leb now (at + c.max_offset_age * 1000)

-- UTC seconds of a clock reading.
abbrev pub seconds_of : ℕ → ℤ
seconds_of now = pos (now / 1000)

unfoldable pub offset_usable_for_gtd : TimeConfig → Offset → ℕ → Bool
unfolding is_recent
offset_usable_for_gtd c o now =
    if is_some (zone_offset_seconds c (seconds_of now)) || is_some c.env_offset
    then true
    else elim o.derived_offset [
      | none ↦ false
      | some d ↦ elim o.derived_at [ none ↦ false | some at ↦ is_recent c now at ]
    ]

unfoldable pub resolve_offset_seconds : TimeConfig → Offset → ℤ → Option ℤ
resolve_offset_seconds c o at = elim (zone_offset_seconds c at) [
  | some z ↦ some z
  | none ↦ elim c.env_offset [ some e ↦ some e | none ↦ o.derived_offset ]
]

-- The raw server epoch where no offset is known. The zone is read at the present, not at the epoch.
unfoldable pub server_epoch_to_utc : TimeConfig → Offset → ℕ → ℤ → Flow ℤ
unfolding resolve_offset_seconds
server_epoch_to_utc c o now epoch = elim (resolve_offset_seconds c o (seconds_of now)) [
  | none ↦ fromtimestamp epoch
  | some offset ↦ fromtimestamp (epoch -ℤ offset)
]

offset_unknown : Message
offset_unknown =
    say
      "broker UTC offset unknown: no fresh broker quote to derive it from; set MT5_SERVER_TIME_ZONE or retry once a symbol on this account quotes"

offset_too_old : TimeConfig → ℕ → ℕ → Message
offset_too_old c now at =
    lit "broker UTC offset is "
    ∷ shown_int (pos ((now - at) / 1000))
    ∷ lit "s old (max "
    ∷ shown_int (pos c.max_offset_age)
    ∷ lit
        "s) and no fresh quote refreshed it; set MT5_SERVER_TIME_ZONE or retry once a symbol quotes"
    ∷ []

-- The epoch after `int(epoch)`.
unfoldable pub utc_epoch_to_server : TimeConfig → Offset → ℕ → ℤ → Flow ℤ
unfolding is_recent offset_unknown offset_too_old
utc_epoch_to_server c o now epoch = elim c.zone [
  | some z ↦ elim (fromtimestamp epoch) [
    | value at ↦ value (epoch +ℤ z at)
    | reply r ↦ reply r
    | raised e ↦ raised e
  ]
  | none ↦ elim c.env_offset [
    | some e ↦ value (epoch +ℤ e)
    | none ↦ elim o.derived_offset [
      | none ↦ raised (server_offset_unavailable offset_unknown)
      | some d ↦ elim o.derived_at [
        | none ↦ raised (server_offset_unavailable offset_unknown)
        | some at ↦
            if is_recent c now at
            then value (epoch +ℤ d)
            else raised (server_offset_unavailable (offset_too_old c now at))
      ]
    ]
  ]
]

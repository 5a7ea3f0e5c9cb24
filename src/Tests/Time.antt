-- ===== src/Tests/Time.antt =====
-- The theorems on the broker's clock, applied.
use mt5_gateway.Prelude.{
  is_some, ℕ, ◌-◌, ◌*◌, ◌≤◌, ◌<◌, ◌≡◌, ◌↔◌, ◌⊎◌, refl, arith, true, false, ltb, none, some, pos, ℤ,
  sub_ℕ, List, [], ◌∷◌, ◌+ℤ◌,
}
use mt5_gateway.Flow.{value, raised, value_error}
use mt5_gateway.ServerTime.{
  TimeConfig, Offset, no_offset, derive_offset_from_server_epoch, round_hours, is_unclean,
  is_in_range, offset_usable_for_gtd, fromtimestamp, utc_epoch_to_server, server_epoch_to_utc,
  seconds_of,
}
use mt5_gateway.ServerTime.Derivation.{Close, derived_offset_sound}
use mt5_gateway.ServerTime.Confirmation.{
  Reading, readings, IsSettled, run_of_readings, readings-IsSettled,
}
use mt5_gateway.ServerTime.Conversion.{
  usable_iff_converts, conversion_roundtrip, zone_roundtrip_iff,
}
use mt5_gateway.Tests.Values.{config}

-- Two hours ahead, the quote forty seconds old.
derived_offset_sound_example :
    (k : ℕ) × (((100000000 ≤ 107160000)
        × (pos 7200 ≡ pos (k * 3600))
        × (k ≤ 14)
        × Close (107160000 - 100000000) k)
      ⊎ ((107160000 < 100000000)
          × (pos 7200 ≡ sub_ℕ 0 (k * 3600))
          × (k ≤ 12)
          × Close (100000000 - 107160000) k))
unfolding derive_offset_from_server_epoch round_hours is_unclean
derived_offset_sound_example = derived_offset_sound 107160000 100000000 refl

-- Two hours are cached, and two readings in a row say three.
abbrev cached : Offset
cached = record no_offset {
  derived_offset = some (pos 7200);
  derived_symbol = some "EURUSD";
  derived_at = some 5;
}

abbrev three_hours : List Reading
three_hours = ("EURUSD", 10, pos 10800) ∷ ("GBPUSD", 20, pos 10800) ∷ []

run_of_readings_example :
    (readings config.time three_hours cached).derived_offset ≡ some (pos 10800)
run_of_readings_example =
    run_of_readings config.time (pos 7200) (pos 10800) three_hours cached (λ e. ground (arith, e))
      (refl, (refl, tt)) refl (λ e. ground (arith, e))

cached-IsSettled : IsSettled config.time cached
cached-IsSettled = record {
  short = omega arith;
  other = λ d e f. ground (arith, e);
  none_counted = λ e. refl;
}

readings-IsSettled_example : IsSettled config.time (readings config.time three_hours cached)
readings-IsSettled_example = readings-IsSettled config.time three_hours cached cached-IsSettled

usable_iff_converts_example : (offset_usable_for_gtd config.time cached 900 ≡ true) ↔ (
    ((e : ℤ) × (utc_epoch_to_server config.time cached 900 (pos 50) ≡ value e))
    ⊎ ((is_some config.time.zone ≡ true)
        × (is_in_range (pos 50) ≡ false)
        × (utc_epoch_to_server config.time cached 900 (pos 50) ≡ raised value_error)))
usable_iff_converts_example = usable_iff_converts config.time cached 900 (pos 50)

conversion_roundtrip_example :
    server_epoch_to_utc config.time cached 1900 (pos 50 +ℤ pos 7200) ≡ fromtimestamp (pos 50)
unfolding utc_epoch_to_server
conversion_roundtrip_example = conversion_roundtrip config.time cached 900 1900 (pos 50) refl refl

-- A zone that changes its clock at 1000.
abbrev summer : ℤ → ℤ
summer (pos n) = elim (ltb n 1000) [ true ↦ pos 7200 | false ↦ pos 10800 ]
summer n = pos 7200

abbrev zoned : TimeConfig
zoned = record { zone = some summer; env_offset = none; max_offset_age = 86400; confirmations = 2 }

zone_roundtrip_iff_example :
    ((e : ℤ) × (utc_epoch_to_server zoned cached 900 (pos 2000) ≡ value e)
      × (server_epoch_to_utc zoned cached 950 e ≡ value (pos 2000)))
    ↔ (summer (pos 2000) ≡ summer (seconds_of 950))
zone_roundtrip_iff_example = zone_roundtrip_iff zoned cached 900 950 (pos 2000) summer refl refl

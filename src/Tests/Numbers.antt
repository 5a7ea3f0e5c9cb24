-- ===== src/Tests/Numbers.antt =====
-- The theorems on volumes, prices and levels, applied.
use mt5_gateway.Prelude.{ℕ, ◌%◌, ◌<◌, ◌≡◌, refl, arith, true, none, some, pos, [], ◌∷◌}
use mt5_gateway.Json.{finite, float, say, bool, Dict}
use mt5_gateway.Money.{
  to_decimal, finite_decimal, lots, snap_price, round_half_up, round_down, priced, quantum,
  normalize_volume, normalize_price,
}
use mt5_gateway.Money.Laws.{Fits, Near, normalize_volume_bounds, normalize_price_snaps}
use mt5_gateway.Validation.{validate_sl_tp}
use mt5_gateway.Validation.Levels.{buy_stop_limit_inverted}
use mt5_gateway.Host.{TradeRequest, Position, order_type_buy_stop_limit, trade_action_sltp}
use mt5_gateway.OrderRequests.{bare_request}
use mt5_gateway.Tests.Values.{euro, library}

-- 0.126 lots become 0.12.
normalize_volume_bounds_example :
    (a : ℕ) × (to_decimal library.parse_number (float (finite (pos 1260000000)))
      ≡ some (finite (pos a)))
    × Fits euro a 1200000000
unfolding normalize_volume lots finite_decimal to_decimal round_down
normalize_volume_bounds_example =
    normalize_volume_bounds library.parse_number (float (finite (pos 1260000000))) euro refl

-- 1.100007 becomes 1.10001.
normalize_price_snaps_example :
    (a : ℕ) × (to_decimal library.parse_number (float (finite (pos 11000070000)))
      ≡ some (finite (pos a)))
    × (0 < a)
    × (11000100000 % quantum euro ≡ 0)
    × (euro.trade_tick_size ≡ 0 → Near a 11000100000 (quantum euro))
    × (0 < euro.trade_tick_size
        → euro.trade_tick_size % quantum euro ≡ 0
        → (11000100000 % euro.trade_tick_size ≡ 0) × Near a 11000100000 euro.trade_tick_size)
unfolding normalize_price priced finite_decimal to_decimal snap_price round_half_up
normalize_price_snaps_example =
    normalize_price_snaps library.parse_number (float (finite (pos 11000070000))) euro "price" refl

buy_stop_limit_inverted_example :
    (10900 < 11000
      → validate_sl_tp order_type_buy_stop_limit 11000 (some 10900) none
        ≡ some (say "For SELL orders, SL must be above entry price"))
    × (11000 < 10900 → validate_sl_tp order_type_buy_stop_limit 11000 (some 10900) none ≡ none)
buy_stop_limit_inverted_example = buy_stop_limit_inverted 11000 10900 (omega arith)

abbrev long : Position
long = record {
  ticket = 42;
  type = 0;
  symbol = "EURUSD";
  volume = 1000000000;
  price_open = 11002000000;
  price_current = 11010000000;
  sl = 10900000000;
  tp = 11200000000;
  magic = 7;
}

-- A new stop loss, and the take profit removed.
abbrev new_levels : Dict
new_levels = ("sl", float (finite (pos 10950000000))) ∷ ("clear_tp", bool true) ∷ []

abbrev sent : TradeRequest
sent = record (bare_request trade_action_sltp) {
  symbol = some "EURUSD";
  position = some 42;
  sl = some 10950000000;
  tp = some 0;
}

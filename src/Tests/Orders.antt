-- ===== src/Tests/Orders.antt =====
-- The theorems on POST /order, applied.
use mt5_gateway.Prelude.{ℕ, ◌≡◌, refl, arith, none, some, pos}
use mt5_gateway.Json.{int, say, Json, text}
use mt5_gateway.Flow.{value}
use mt5_gateway.Idempotency.{IdempotencyStore, StoredResponse, init, assign}
use mt5_gateway.Idempotency.Slots.{Slot, slot}
use mt5_gateway.Errors.{internal_error_response}
use mt5_gateway.World.{World}
use mt5_gateway.Order.Prepare.{Prepared, prepare}
use mt5_gateway.Order.Submit.{Submitted, after_send}
use mt5_gateway.Order.Endpoint.{place, reserved}
use mt5_gateway.Order.Outcome.{kept, after_send_total, lost_send}
use mt5_gateway.Order.Key.{request_fingerprint}
use mt5_gateway.Order.Repeat.{settled, begun, first_order, repeat_is_replayed}
use mt5_gateway.World.{◌>>=◌, serialized}
use mt5_gateway.Json.{get, lookup}
use mt5_gateway.Symbols.{validate_symbol}
use mt5_gateway.Money.{
  normalize_volume, finite_decimal, to_decimal, lots, round_down, normalize_price, priced,
  snap_price, round_half_up, finite_float, is_double, float_limit,
}
use mt5_gateway.Validation.{is_buy, validate_sl_tp, filling_mode_of}
use mt5_gateway.OrderRequests.{build_trade_request}
use mt5_gateway.Order.Expiry.{apply_expiration}
use mt5_gateway.Order.Pricing.{order_type_of, priced_order, market_price}
use mt5_gateway.Order.Prepare.{
  symbol_of, checked_request, level, filling, comment_of, broker_check, default_magic,
}
use mt5_gateway.Order.Steps.{Informed}
use mt5_gateway.Order.Sound.{Ready, Checked, prepare_sound}
use mt5_gateway.Money.{SymbolInfo}
use mt5_gateway.Money.Laws.{Fits}
use mt5_gateway.Json.{finite}
use mt5_gateway.Order.Key.{magic_from_key}
use mt5_gateway.Prelude.Texts.{prefix_of}
use mt5_gateway.Order.Prepare.{check_passed, with_expiration, typed_order}
use mt5_gateway.Order.Pricing.{priced_with}
use mt5_gateway.Order.Deadline.{IsClocked, resolve_async_fill_ends}
use mt5_gateway.Order.Fill.{resolve_async_fill}
use mt5_gateway.Host.{as_dict}
use mt5_gateway.Json.{Dict}
use mt5_gateway.Prelude.{String}
use mt5_gateway.Tests.Values.{order, library, config, terminal, broken_terminal, world, done}

first_order_example :
    ((reserved terminal library config none order "k" (init 3600) world).0
      ≡ (place terminal library config none order
          (some "k")
          (begun terminal library config none world)).0.response)
    × ((reserved terminal library config none order "k" (init 3600) world).2
        ≡ (place terminal library config none order
            (some "k")
            (begun terminal library config none world)).1)
    × (slot (reserved terminal library config none order "k" (init 3600) world).1 1000 "k"
        ≡ settled
            (request_fingerprint library order)
            (place terminal library config none order
              (some "k")
              (begun terminal library config none world)).0)
first_order_example =
    first_order terminal library config none order "k" (init 3600) world (omega arith) refl

abbrev ok : StoredResponse
ok = record { payload = text "ok"; status_code = 200 }

abbrev answered_store : IdempotencyStore
answered_store = record {
  ttl_seconds = 3600;
  entries =
      assign "k" (some (record { fingerprint = "intent"; created_at = 500; response = some ok }))
        (λ j. none);
}

repeat_is_replayed_example :
    ((reserved terminal library config none order "k" answered_store world).0
      ≡ record { status = 200; body = text "ok" })
    × ((reserved terminal library config none order "k" answered_store world).2 ≡ world)
    × (slot (reserved terminal library config none order "k" answered_store world).1 1000 "k"
        ≡ Slot.answered "intent" ok)
unfolding request_fingerprint
repeat_is_replayed_example =
    repeat_is_replayed terminal library config none order "k" ok answered_store world (omega arith)
      refl

abbrev reserved_store : IdempotencyStore
reserved_store = record {
  ttl_seconds = 3600;
  entries =
      assign "k" (some (record { fingerprint = "intent"; created_at = 500; response = none }))
        (λ j. none);
}

abbrev asked : Prepared
asked = record {
  request = record {
    action = 1;
    symbol = some "EURUSD";
    volume = some 1000000000;
    type = some 0;
    price = some 11002000000;
    deviation = some (int (pos 20));
    magic = none;
    comment = some (text "");
    type_time = some 0;
    type_filling = some 1;
    sl = none;
    tp = none;
    stoplimit = none;
    expiration = none;
    position = none;
    order = none;
  };
  symbol = "EURUSD";
  side = "BUY";
  action = 1;
  volume = 1000000000;
  price = 11002000000;
  magic = Json.int (pos 0);
}

-- The broker did the order, at a price that only its deal tells.
after_send_total_example :
    (s : Submitted) × (v : World ℕ) × (after_send terminal config none
        (some "k")
        asked
        (some done)
        world
      ≡ (value s, v))
    × (s ≡ kept (some done) s)
after_send_total_example = after_send_total terminal config none (some "k") asked (some done) world

-- The connection is lost while the order is sent.
lost_send_example : place broken_terminal library config none order (some "k") world ≡ (
  record {
    response = internal_error_response none "send_order" (say "connection lost");
    completed = none;
  },
  world,
)
unfolding prepare lookup ◌>>=◌ symbol_of get validate_symbol order_type_of priced_order serialized
    normalize_volume finite_decimal to_decimal lots round_down market_price normalize_price priced
    snap_price round_half_up checked_request level finite_float is_double float_limit is_buy
    validate_sl_tp filling filling_mode_of comment_of build_trade_request apply_expiration
    broker_check default_magic check_passed with_expiration typed_order priced_with
lost_send_example = lost_send broken_terminal config none library order (some "k") world refl refl

-- The order as the terminal is asked to do it.
abbrev ready_order : Prepared
ready_order = record asked {
  request = record asked.request { magic = some (Json.int (pos 7)); sl = some 10900000000 };
  magic = Json.int (pos 7);
}

prepare_sound_example :
    (info : SymbolInfo) × (a : ℕ) × (get "symbol" order ≡ Json.text ready_order.symbol)
    × Informed terminal ready_order.symbol (some info)
    × (to_decimal library.parse_number (get "volume" order) ≡ some (finite (pos a)))
    × Fits info a 1000000000
    × Ready terminal library config none ready_order
    × Checked terminal library config none ready_order.request world
unfolding prepare lookup ◌>>=◌ symbol_of get validate_symbol order_type_of priced_order serialized
    normalize_volume finite_decimal to_decimal lots round_down market_price normalize_price priced
    snap_price round_half_up checked_request level finite_float is_double float_limit is_buy
    validate_sl_tp filling filling_mode_of comment_of build_trade_request apply_expiration
    broker_check default_magic check_passed with_expiration typed_order priced_with magic_from_key
    prefix_of
prepare_sound_example = prepare_sound terminal library config none order (some "k") world refl

pub terminal-IsClocked : IsClocked terminal (λ s. s)
terminal-IsClocked = record {
  reads = λ s. refl;
  kept = λ s. omega arith;
  sleeps = λ n s. omega arith;
  error_later = λ s. omega arith;
  deals_later = λ n s. omega arith;
  positions_later = λ n s. omega arith;
}

resolve_async_fill_ends_example :
    (x : String × Dict) × (v : World ℕ) × (resolve_async_fill terminal config done
        (as_dict done)
        world
      ≡ (value (some x), v))
resolve_async_fill_ends_example =
    resolve_async_fill_ends (λ s. s) terminal terminal-IsClocked config done (as_dict done) world
      (omega arith)

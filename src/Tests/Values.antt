-- ===== src/Tests/Values.antt =====
-- A symbol, a terminal, a library and a configuration to run the model on.
use mt5_gateway.Prelude.{ℕ, ◌+◌, ◌*◌, true, false, none, some, map, [], ◌∷◌, negsuc}
use mt5_gateway.Json.{unit, Dict, float, text, finite, nan}
use mt5_gateway.Prelude.{pos}
use mt5_gateway.Money.{SymbolInfo}
use mt5_gateway.ServerTime.{no_offset}
use mt5_gateway.Host.{Tick, SendResult, Deal, gives, raises, Library, Config, Host}
use mt5_gateway.World.{World, connected}

-- Five digits, a tick of 0.00001 and lots of 0.01 up to 100.
abbrev pub euro : SymbolInfo
euro = record {
  volume_min = 100000000;
  volume_max = 1000000000000;
  volume_step = 100000000;
  trade_tick_size = 100000;
  digits = 5;
  trade_freeze_level = 0;
  point = 100000;
  filling_mode = 3;
}

abbrev pub quote : Tick
quote = record { bid = 11000000000; ask = 11002000000; time = 1767225600; time_msc = 0 }

abbrev pub done : SendResult
done = record {
  retcode = 10009;
  deal = 41;
  order = 42;
  volume = 1000000000;
  price = 0;
  comment = "Request executed";
  rest = [];
}

abbrev pub fill : Deal
fill = record {
  ticket = 41;
  order = 42;
  entry = 0;
  price = 11002000000;
  volume = 1000000000;
  time_msc = 1767225600000;
}

abbrev pub library : Library
library = record {
  parse_number = λ s. none;
  parse_int = λ s. none;
  upper = λ s. s;
  strip = λ s. s;
  column_equals = λ column v. some (map (λ n. true) column);
  digest = λ d. "intent";
  blake2s = λ s. 7;
}

abbrev pub config : Config
config = record {
  limits = record {
    symbols = "EURUSD" ∷ [];
    max_volume = 10 * unit;
    max_price_deviation_pct = 5 * unit;
    max_deviation = 100;
  };
  time = record {
    zone = none;
    env_offset = some (pos 7200);
    max_offset_age = 86400;
    confirmations = 2;
  };
  fill_confirm_timeout_ms = 5;
  fill_confirm_poll_ms = 1;
  derive_attempts = 2;
  derive_delay_ms = 1;
  max_reconnect_attempts = 3;
  base_delay_ms = 1000;
  verify_ttl_ms = 30000;
  cooldown_base_ms = 5000;
  cooldown_max_ms = 60000;
  time_derive_attempts = 2;
  time_derive_delay_ms = 500;
  time_reference_symbol = "";
}

-- A terminal whose state is its clock.
abbrev pub terminal : Host ℕ
terminal = record {
  monotonic = λ s. (s, s);
  clock = λ s. (s, s);
  sleep = λ n s. n + s;
  last_error = λ s. (gives (record { code = negsuc 0; message = "Success" }), s);
  symbol_select = λ name s. (gives true, s);
  symbol_info = λ name s. (gives (some euro), s);
  symbol_info_tick = λ name s. (gives (some quote), s);
  order_check = λ r s. (gives (some (record { retcode = 0; comment = "Done"; rest = [] })), s);
  order_check_numbers =
      λ r s. (gives (some (record { retcode = 0; comment = "Done"; rest = [] })), s);
  order_send = λ r s. (gives (some done), s);
  order_calc_margin = λ action symbol v p s. (gives (some nan), s);
  order_calc_profit = λ action symbol v p q s. (gives none, s);
  order_send_modify = λ r s. (gives (some done), s);
  ticket_of_value = λ v s. (gives 0, s);
  positions_get = λ n s. (gives none, s);
  deals_of_ticket = λ n s. (gives (some (fill ∷ [])), s);
  deals_of_position = λ n s. (gives none, s);
  orders_get = λ n s. (gives none, s);
  positions_total = λ s. (gives none, s);
  all_positions = λ s. (gives none, s);
  all_orders = λ s. (gives none, s);
  deals_between = λ a b s. (gives none, s);
  history_of_position = λ n s. (gives none, s);
  history_between = λ a b s. (gives none, s);
  history_orders = λ n s. (gives none, s);
  initialize = λ c s. (gives true, s);
  terminal_info = λ s. (gives (some []), s);
  account_info = λ s. (gives (some 7001), s);
  symbols_get = λ s. (gives (some (("EURUSD", true) ∷ [])), s);
}

-- The same terminal, but `order_send` raises once the order has left.
abbrev pub broken_terminal : Host ℕ
broken_terminal = record terminal { order_send = λ r s. (raises "connection lost", s) }

abbrev pub world : World ℕ
world = record {
  host = 1000;
  status = connected;
  last_error = none;
  last_call_error = none;
  symbols = "EURUSD" ∷ [];
  offset = no_offset;
  verified_at = 0;
  failed_reconnects = 0;
  reconnect_not_before = 0;
  reconnect_locked = false;
  metrics = [];
  gauges = [];
  audit = [];
}

-- A market order for 0.1 lots.
abbrev pub order : Dict
order =
    ("symbol", text "EURUSD")
    ∷ ("volume", float (finite (pos 1000000000)))
    ∷ ("type", text "BUY")
    ∷ ("sl", float (finite (pos 10900000000)))
    ∷ []

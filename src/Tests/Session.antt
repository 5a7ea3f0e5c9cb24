-- ===== src/Tests/Session.antt =====
-- Runs of the connection and of the choice of a server.
use mt5_gateway.Prelude.{◌≡◌, ◌⊎◌, refl, ℕ, ◌+◌, String, true, false, none, some, [], ◌∷◌, negsuc}
use mt5_gateway.Flow.{value}
use mt5_gateway.Host.{Host, Call, gives, raises}
use mt5_gateway.World.{
  World, Exec, pure, disconnected, is_connected, is_ipc_failure, note_connection_failure,
  after_none, serialized, serialized_total, monotonic, sleep, inc, set_gauge, ◌>>=◌,
}
use mt5_gateway.Order.Expiry.{advanced, read_tick_ms, tick_time_ms}
use mt5_gateway.Connection.{
  set_status, drop_session, reconnect_cooling_down, reconnect_delay, note_reconnect_outcome,
}
use mt5_gateway.Connection.Offsets.{
  live_tick, live_from, better, reading_of, refresh_server_offset, offset_reference_symbols,
  explicit_symbol, or_fallback, watched_symbols, read_candidates, derive_live, poll_offset,
}
use mt5_gateway.Connection.Session.{
  initialize, attempts, attempt, attach, attached, announce, pause, reconnect, reconnect_if_due,
  reconciled, failed_reconnect, try_reconnect, holding_lock, usable, ensure_connection,
  attempts_exhausted,
}
use mt5_gateway.Connection.Attach.{Ends, initialize-Ends}
use mt5_gateway.Connection.Lock.{ensure_connection-Keeps}
use mt5_gateway.Connection.Outcome.{Outcome, Untried, ensure_connection_outcome}
use mt5_gateway.Resolver.{
  Texts, Env, BrokerTable, table_access, exact_entry, folded, add, add_item, add_resolved,
  resolver_urls, query_resolver, with_name, connect_candidates, without_slashes,
}
use mt5_gateway.Tests.Values.{library, config, terminal, world}

-- A terminal that cannot be attached to.
abbrev silent : Host ℕ
silent = record terminal { initialize = λ c s. (gives false, s) }

abbrev down : World ℕ
down = record world { status = disconnected }

initialize-Ends_example :
    Ends silent library config none 3 0 (initialize silent library config none down) down
initialize-Ends_example = initialize-Ends silent library config none down

-- What the failed reconnect leaves.
abbrev left_behind : World ℕ
left_behind = record down {
  host = 4000;
  last_error = some (attempts_exhausted config);
  failed_reconnects = 1;
  reconnect_not_before = 9000;
  metrics = ("mt5_reconnects_total", []) ∷ [];
  gauges = ("mt5_connected", 0) ∷ [];
}

failed_run : ensure_connection silent library config (value none) down ≡ (value false, left_behind)
unfolding ensure_connection usable is_connected reconnect_cooling_down monotonic try_reconnect
    holding_lock reconnect_if_due reconnect inc initialize attempts announce attempt attach attached
    serialized_total drop_session set_status pause sleep reconciled failed_reconnect set_gauge
    note_reconnect_outcome reconnect_delay ◌>>=◌
failed_run = refl

ensure_connection_outcome_example :
    ((false ≡ false) × Untried down left_behind) ⊎ Outcome silent config 0 false left_behind
unfolding is_connected
ensure_connection_outcome_example =
    ensure_connection_outcome silent library config (value none) down false left_behind refl
      failed_run

ensure_connection-Keeps_example :
    (ensure_connection silent library config (value none) down).1.reconnect_locked ≡ false
ensure_connection-Keeps_example = ensure_connection-Keeps silent library config (value none) down

-- Five seconds of back-off are left.
abbrev waiting : World ℕ
waiting = record down { reconnect_not_before = 6000 }

abbrev answer : Exec ℕ ℕ
answer = pure 7

-- The session drops while the offset's quotes are read.
abbrev dropping : Host ℕ
dropping = record terminal {
  symbol_info_tick = λ name s. (gives none, s);
  last_error = λ s. (gives (record { code = negsuc 10003; message = "No IPC connection" }), s);
}

-- The attempt counts as a success although the session is known to be gone.
lost_while_attaching :
    let (answered, v) = initialize dropping library config none down in
    (answered ≡ value true) × (v.status ≡ disconnected)
unfolding initialize attempts announce attempt attach attached serialized serialized_total
    after_none is_ipc_failure note_connection_failure is_connected set_status monotonic
    refresh_server_offset offset_reference_symbols explicit_symbol or_fallback watched_symbols
    poll_offset read_candidates read_tick_ms tick_time_ms live_tick live_from better reading_of
    advanced derive_live sleep ◌>>=◌
lost_while_attaching = (refl, refl)

frozen_quote :
    live_tick (("A", some 1000) ∷ ("B", some 9000) ∷ []) (("A", some 1250) ∷ ("B", some 9000) ∷ [])
    ≡ some ("A", 1250)
unfolding live_tick live_from better reading_of advanced
frozen_quote = refl

abbrev texts : Texts
texts = record {
  strip = λ s. s;
  lower = λ s. s;
  quote = λ s. s;
  str_of = λ v. "";
  parse_json = λ s. none;
}

abbrev env : Env
env = record { server_addr = ""; server = "Exness-MT5Trial9"; autoresolve = "1"; resolver_url = "" }

abbrev table : BrokerTable
table = ("Exness-MT5Trial9", "96.0.46.31:443" ∷ "96.0.46.31:443" ∷ []) ∷ []

-- No network.
abbrev offline : String → Call ℕ String
offline url s = (raises "unreachable", s + 1)

candidates_run :
    connect_candidates texts offline env table 0
    ≡ (value ("96.0.46.31:443" ∷ "Exness-MT5Trial9" ∷ []), 2)
unfolding connect_candidates table_access exact_entry add add_item with_name add_resolved
    resolver_urls query_resolver folded without_slashes
candidates_run = refl

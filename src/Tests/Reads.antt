-- ===== src/Tests/Reads.antt =====
-- The reading endpoints at concrete inputs.
use mt5_gateway.Prelude.{◌≡◌, refl, ℕ, true, false, none, some, negsuc, []}
use mt5_gateway.Host.{Host, gives}
use mt5_gateway.World.{World, serialized, set_gauge, ◌>>=◌}
use mt5_gateway.Symbols.{is_cached, validate_symbol}
use mt5_gateway.Reads.{Rows, get_symbol_info_tick_endpoint}
use mt5_gateway.Reads.Laws.{status_code, missing_tick_forgets}
use mt5_gateway.Reads.{ready_check, probe_ready, report_ready, ready_response}
use mt5_gateway.Tests.Values.{library, terminal, world}

-- A terminal that has lost its quotes.
abbrev quiet : Host ℕ
quiet = record terminal { symbol_info_tick = λ name s. (gives none, s) }

abbrev rows : Rows
rows = record { position_row = λ p. []; tick_row = λ t. []; info_row = λ i. [] }

abbrev without_quote : World ℕ
without_quote = record world {
  last_call_error = some (record { code = negsuc 0; message = "Success" });
}

missing_tick_forgets_example :
    let (answer, after) = get_symbol_info_tick_endpoint quiet library rows none "EURUSD" world in
    (answer.status ≡ 404) × (is_cached "EURUSD" after.symbols ≡ false)
unfolding validate_symbol serialized ◌>>=◌
missing_tick_forgets_example =
    missing_tick_forgets quiet library rows none "EURUSD" world world without_quote refl refl

-- With the switch on, a terminal that answers is ready.
ready_run : status_code (ready_check terminal true world).0 ≡ some 200
unfolding ready_check probe_ready report_ready ready_response set_gauge serialized ◌>>=◌
ready_run = refl

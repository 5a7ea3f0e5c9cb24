-- ===== src/Reads/Laws.antt =====
-- What the reading endpoints promise.
use mt5_gateway.Prelude.{◌≡◌, refl, ap, ◌∙◌, ℕ, String, Bool, true, false, Option, none, some}
use mt5_gateway.Json.{Response}
use mt5_gateway.Flow.{Flow, value, reply, raised}
use mt5_gateway.Errors.{RequestId}
use mt5_gateway.Symbols.{is_cached, invalidate_symbol, validate_symbol}
use mt5_gateway.Symbols.Cache.{cached-forget}
use mt5_gateway.Host.{Host, Library}
use mt5_gateway.World.{World, Exec, serialized, set_gauge, continue, ◌>>=◌, exec->>=-run}
use mt5_gateway.History.Endpoints.{not_found_response}
use mt5_gateway.Positions.Endpoints.{handled}
use mt5_gateway.Reads.{
  Rows, answer_or_forget, known_symbol, symbol_info_tick_of, get_symbol_info_tick_endpoint,
  probe_ready, report_ready, ready_response, ready_check,
}

handled-reply :
    {S : Type 0} (id : RequestId) (operation : String) (m : Exec S Response) (w : World S)
    {r : Response} {v : World S}
    → m w ≡ (reply r, v)
    → handled id operation m w ≡ (r, v)
unfolding handled
handled-reply {S = S} id operation m w e =
    ap (λ (o : Flow Response × World S). handled id operation (λ _. o) w) e

module _ {S : Type 0} (h : Host S) (lib : Library) (rows : Rows) (id : RequestId) where
  symbol_info_tick_of-missing :
      (symbol : String) (w u v : World S)
      → validate_symbol h symbol w ≡ (value true, u)
      → serialized h (h.symbol_info_tick symbol) u ≡ (value none, v)
      → symbol_info_tick_of h lib rows id symbol w
        ≡ answer_or_forget h lib rows id symbol "Symbol tick info" rows.tick_row none v
  unfolding symbol_info_tick_of known_symbol ◌>>=◌
  symbol_info_tick_of-missing symbol w u v known missing =
      let quoted = λ (_ : Unit {0}).
        serialized h (h.symbol_info_tick symbol)
        >>= answer_or_forget h lib rows id symbol "Symbol tick info" rows.tick_row in
      exec->>=-run (validate_symbol h symbol)
        (λ usable. known_symbol h lib rows id symbol usable >>= quoted) known
      ∙ exec->>=-run (serialized h (h.symbol_info_tick symbol))
          (answer_or_forget h lib rows id symbol "Symbol tick info" rows.tick_row) missing

  -- Where a known symbol has no quote any more, the answer is 404 and the symbol is not in the cache
  -- afterwards, so that the next request asks the terminal to select it again.
  pub missing_tick_forgets :
      (symbol : String) (w u v : World S)
      → validate_symbol h symbol w ≡ (value true, u)
      → serialized h (h.symbol_info_tick symbol) u ≡ (value none, v)
      → let (answer, after) = get_symbol_info_tick_endpoint h lib rows id symbol w in
        (answer.status ≡ 404) × (is_cached symbol after.symbols ≡ false)
  unfolding get_symbol_info_tick_endpoint answer_or_forget not_found_response invalidate_symbol
      ◌>>=◌
  missing_tick_forgets symbol w u v known missing =
      let answered =
        handled-reply id "get_symbol_info_tick" (symbol_info_tick_of h lib rows id symbol) w
          (symbol_info_tick_of-missing symbol w u v known missing) in
      (
        ap (λ o. o.0.status) answered,
        ap (λ o. is_cached symbol o.1.symbols) answered ∙ cached-forget symbol v.symbols,
      )

-- The status code that a handler answers with, if it answers.
abbrev pub status_code : Flow Response → Option ℕ
status_code (value r) = some r.status
status_code (reply r) = some r.status
status_code (raised e) = none

-- Readiness does not depend on the kill switch: with the switch on and off the answer has the same
-- status code, and the terminal is called in the same way.
ready_ignores_kill_switch :
    {S : Type 0} (h : Host S) (w : World S)
    → (status_code (ready_check h true w).0 ≡ status_code (ready_check h false w).0)
      × ((ready_check h true w).1.host ≡ (ready_check h false w).1.host)
unfolding ready_check report_ready ready_response set_gauge ◌>>=◌
ready_ignores_kill_switch {S = S} h w = of_probe (probe_ready h w)
  where
    of_probe :
        (r : Flow Bool × World S)
        → let ready = λ (killed : Bool). continue r.0 (report_ready h killed) r.1 in
          (status_code (ready true).0 ≡ status_code (ready false).0)
          × ((ready true).1.host ≡ (ready false).1.host)
    of_probe (value true, u) = (refl, refl)
    of_probe (value false, u) = (refl, refl)
    of_probe (reply r, u) = (refl, refl)
    of_probe (raised e, u) = (refl, refl)

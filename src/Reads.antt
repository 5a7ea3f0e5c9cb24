-- ===== src/Reads.antt =====
-- The endpoints that read: positions (app/routes/position.py), symbols (app/routes/symbol.py) and
-- readiness (app/routes/health.py). What a structure's `_asdict()` holds is a parameter.
pub mod Laws
use mt5_gateway.Prelude.{
  ℕ, String, Bool, true, false, Option, none, some, List, [], ◌∷◌, map, is_some, str_eq, ltb, not,
  if◌then◌else◌, ℤ, ◌==◌,
}
use mt5_gateway.Json.{
  Piece, lit, Json, null, bool, int, text, Dict, object, array, Response, respond,
}
use mt5_gateway.Flow.{Flow, value}
use mt5_gateway.Money.{SymbolInfo}
use mt5_gateway.Errors.{RequestId}
use mt5_gateway.Symbols.{validate_symbol, invalidate_symbol}
use mt5_gateway.Host.{Tick, Position, Host, Library}
use mt5_gateway.World.{
  World, Exec, pure, lift, respond_with, gets, is_connected, serialized, set_gauge, ◌>>=◌, ◌>>◌,
}
use mt5_gateway.Connection.Session.{status_text, last_error_text}
use mt5_gateway.Positions.{of_magic}
use mt5_gateway.Positions.Endpoints.{handled}
use mt5_gateway.History.Endpoints.{rows_response, not_found_response}

pub record Rows : Type 0 where
  pub position_row : Position → Dict
  pub tick_row : Tick → Dict
  pub info_row : SymbolInfo → Dict

abbrev pub named_piece : String → Option Piece
named_piece s = if str_eq s "" then none else some (lit s)

module _ {S : Type 0} (h : Host S) (lib : Library) (rows : Rows) (id : RequestId) where
  abbrev pub magic_value : Option ℤ → Json
  magic_value none = null
  magic_value (some m) = int m

  unfoldable pub positions_listed : Option ℤ → Option (List Position) → Exec S (List Position)
  positions_listed magic none = pure []
  positions_listed magic (some ps) = lift (of_magic lib (magic_value magic) ps)

  -- `get_positions`; a frame is its rows.
  unfoldable pub get_positions : Option ℤ → Exec S (List Position)
  get_positions magic = do
    total ← serialized h h.positions_total
    elim total [
      | none ↦ pure []
      | some n ↦
          if n == 0
          then pure []
          else do positions ← serialized h h.all_positions; positions_listed magic positions
    ]

  unfoldable pub get_positions_endpoint : Option ℤ → World S → Response × World S
  get_positions_endpoint magic =
      handled id "get_positions"
        do ps ← get_positions magic; pure (rows_response (map rows.position_row ps))

  -- A symbol that gives no answer any more leaves the cache.
  unfoldable pub answer_or_forget :
      {A : Type 0} → String → String → (A → Dict) → Option A → Exec S Response
  answer_or_forget symbol what row none = do
    invalidate_symbol symbol
    respond_with (not_found_response id what (named_piece symbol))
  answer_or_forget symbol what row (some a) = pure (respond 200 (row a))

  unfoldable pub known_symbol : String → Bool → Exec S (Unit {0})
  known_symbol symbol true = pure tt
  known_symbol symbol false =
      respond_with
        (not_found_response id "Symbol (not found or not selectable)" (named_piece symbol))

  unfoldable pub symbol_info_tick_of : String → Exec S Response
  symbol_info_tick_of symbol = do
    known ← validate_symbol h symbol
    known_symbol symbol known
    tick ← serialized h (h.symbol_info_tick symbol)
    answer_or_forget symbol "Symbol tick info" rows.tick_row tick

  unfoldable pub get_symbol_info_tick_endpoint : String → World S → Response × World S
  get_symbol_info_tick_endpoint symbol =
      handled id "get_symbol_info_tick" (symbol_info_tick_of symbol)

  unfoldable pub symbol_info_of : String → Exec S Response
  symbol_info_of symbol = do
    known ← validate_symbol h symbol
    known_symbol symbol known
    info ← serialized h (h.symbol_info symbol)
    answer_or_forget symbol "Symbol info" rows.info_row info

  unfoldable pub get_symbol_info : String → World S → Response × World S
  get_symbol_info symbol = handled id "get_symbol_info" (symbol_info_of symbol)

-- Readiness: the terminal is asked first, the account only if it answered.
module _ {S : Type 0} (h : Host S) where
  unfoldable pub probe_ready : Exec S Bool
  probe_ready = do
    up ← gets is_connected
    terminal ← if up then serialized h h.terminal_info else pure none
    account ← if is_some terminal then serialized h h.account_info else pure none
    set_gauge "mt5_connected" (if is_some account then 1 else 0)
    pure (is_some account)

  unfoldable pub ready_response : (killed ready : Bool) → World S → Response
  ready_response killed true w = respond 200 (
      ("status", text "ready")
      ∷ ("mt5_status", text (status_text w.status))
      ∷ ("kill_switch_active", bool killed)
      ∷ [])
  ready_response killed false w = respond 503 (
      ("status", text "not_ready")
      ∷ ("mt5_status", text (status_text w.status))
      ∷ ("error", last_error_text w.last_error)
      ∷ ("kill_switch_active", bool killed)
      ∷ [])

  unfoldable pub report_ready : (killed ready : Bool) → Exec S Response
  report_ready killed ready = do
    set_gauge "kill_switch_active" (if killed then 1 else 0)
    gets (ready_response killed ready)

  unfoldable pub ready_check : (killed : Bool) → Exec S Response
  ready_check killed = probe_ready >>= report_ready killed

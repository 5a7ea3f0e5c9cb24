-- ===== src/Positions/Partial.antt =====
-- `close_position_partial_endpoint` of app/routes/position.py.
use mt5_gateway.Prelude.{
  ℕ, suc, ◌+◌, ◌==◌, ◌&&◌, String, Bool, true, false, Option, none, some, [], ◌∷◌, leb, str_eq,
  if◌then◌else◌, is_some, ℤ, pos, negsuc, eqb_ℤ,
}
use mt5_gateway.Json.{
  Message, say, lit, shown_int, shown_number, Number, finite, infinite, nan, Json, bool, int, float,
  text, Dict, object, array, get, lookup, is_truthy, Response, respond,
}
use mt5_gateway.Flow.{type_error, value_error, Flow, value, reply, raised}
use mt5_gateway.Retcodes.{classify_retcode, is_success}
use mt5_gateway.Errors.{
  RequestId, mt5_error_response, validation_error_response, unknown_outcome_response,
}
use mt5_gateway.Convert.{float_of, int_of}
use mt5_gateway.PreTrade.{get_default}
use mt5_gateway.Validation.{amount, validate_volume, filling_mode_of, Verdict}
use mt5_gateway.Symbols.{validate_symbol}
use mt5_gateway.Host.{Tick, TradeRequest, SendResult, as_dict, Position, Host, Library, Config}
use mt5_gateway.World.{
  World, Exec, pure, lift, respond_with, gets, ◌>>=◌, ◌>>◌, serialized, serialized_total,
}
use mt5_gateway.CloseConfirm.{confirm_close}
use mt5_gateway.Order.Key.{invalid}
use mt5_gateway.Positions.{closing_type, closing_price, close_request, first_position, is_partial}
use mt5_gateway.Positions.Endpoints.{handled, remaining}

-- The position, the volume that is to be closed and the request for it.
pub record PartialClose : Type 0 where
  pub ticket : ℕ
  pub position : Position
  pub volume : ℕ
  pub request : TradeRequest

-- `data["symbol"] != symbol`
abbrev pub is_text : Json → String → Bool
is_text (text s) t = str_eq s t
is_text _ t = false

module _ {S : Type 0} (h : Host S) (lib : Library) (cfg : Config) (id : RequestId) where
  unfoldable pub required_fields : Dict → Flow (Unit {0})
  required_fields [] = invalid id (say "Position data is required")
  required_fields (e ∷ d) =
      if is_some (lookup "ticket" (e ∷ d)) && is_some (lookup "volume" (e ∷ d))
      then value tt
      else reply (
          validation_error_response id (say "Missing required fields")
            (("required", array (text "ticket" ∷ text "volume" ∷ [])) ∷ []))

  -- `except (TypeError, ValueError)`
  unfoldable pub must_be_numeric : {A : Type 0} → Flow A → Flow A
  must_be_numeric (raised type_error) = invalid id (say "Ticket and volume must be numeric")
  must_be_numeric (raised value_error) = invalid id (say "Ticket and volume must be numeric")
  must_be_numeric f = f

  unfoldable pub positive_volume : Number → Flow ℕ
  positive_volume (finite (pos n)) =
      if n == 0 then invalid id (say "Volume must be positive") else value n
  positive_volume _ = invalid id (say "Volume must be positive")

  unfoldable pub not_found : ℤ → Message
  not_found ticket = lit "Position " ∷ shown_int ticket ∷ lit " not found" ∷ []

  unfoldable pub mismatch : String → ℤ → Message
  mismatch what ticket = lit what ∷ lit " does not match position " ∷ shown_int ticket ∷ []

  unfoldable pub found : ℤ → Option Position → Flow Position
  found ticket none = invalid id (not_found ticket)
  found ticket (some p) = value p

  -- A symbol or a type that the body gives has to be the position's.
  unfoldable pub same_symbol : Dict → ℤ → Position → Flow (Unit {0})
  same_symbol d ticket p = elim (lookup "symbol" d) [
    | none ↦ value tt
    | some v ↦ if is_text v p.symbol then value tt else invalid id (mismatch "Symbol" ticket)
  ]

  unfoldable pub given_type : Dict → Flow (Option ℤ)
  given_type d = elim (lookup "type" d) [
    | none ↦ value none
    | some v ↦ elim (int_of lib v) [
      | value t ↦ value (some t)
      | reply r ↦ reply r
      | raised e ↦ raised e
    ]
  ]

  unfoldable pub same_type : ℤ → Position → Option ℤ → Flow (Unit {0})
  same_type ticket p none = value tt
  same_type ticket p (some t) =
      if eqb_ℤ t (pos p.type) then value tt else invalid id (mismatch "Type" ticket)

  unfoldable pub admit_volume : Verdict → Flow (Unit {0})
  admit_volume none = value tt
  admit_volume (some m) = invalid id m

  unfoldable pub less_than_position : ℕ → Position → Flow (Unit {0})
  less_than_position volume p =
      if leb p.volume volume
      then invalid id (
          lit "Volume to close ("
          ∷ shown_number (amount volume)
          ∷ lit ") must be less than position volume ("
          ∷ shown_number (amount p.volume)
          ∷ lit "). Use /close_position to close entire position."
          ∷ [])
      else value tt

  unfoldable pub quoted : String → Option Tick → Flow Tick
  quoted symbol none = invalid id (lit "Failed to get tick for " ∷ lit symbol ∷ [])
  quoted symbol (some tick) = value tick

  unfoldable pub opposite : Position → Flow ℕ
  opposite p = elim (closing_type p.type) [
    | some t ↦ value t
    | none ↦ invalid id (
        lit "Invalid position type: "
        ∷ shown_int (pos p.type)
        ∷ lit ". Must be 0 (BUY) or 1 (SELL)"
        ∷ [])
  ]

  unfoldable pub selectable : String → Bool → Flow (Unit {0})
  selectable symbol true = value tt
  selectable symbol false =
      invalid id (lit "Symbol not found or not selectable: " ∷ lit symbol ∷ [])

  -- From the position on.
  unfoldable pub prepare_close : Dict → ℤ → ℕ → ℕ → Position → Exec S PartialClose
  prepare_close d given ticket volume p = do
    lift (same_symbol d given p)
    t ← lift (given_type d)
    lift (same_type given p t)
    known ← validate_symbol h p.symbol
    lift (selectable p.symbol known)
    info ← serialized h (h.symbol_info p.symbol)
    lift (admit_volume (validate_volume info volume))
    lift (less_than_position volume p)
    asked ← serialized h (h.symbol_info_tick p.symbol)
    tick ← lift (quoted p.symbol asked)
    order_type ← lift (opposite p)
    mode ← serialized h (h.symbol_info p.symbol)
    pure (record {
      ticket = ticket;
      position = p;
      volume = volume;
      request =
          close_request ticket p volume order_type (closing_price p.type tick)
            (get_default d "deviation" (int (pos 20)))
            (get_default d "comment" (text "Partial close")) (filling_mode_of mode);
    })

  unfoldable pub prepare_partial : Dict → Exec S PartialClose
  prepare_partial d = do
    lift (required_fields d)
    given ← lift (must_be_numeric (int_of lib (get "ticket" d)))
    number ← lift (must_be_numeric (float_of lib (get "volume" d)))
    volume ← lift (positive_volume number)
    ticket ← serialized_total h (h.ticket_of_value (int given))
    positions ← serialized h (h.positions_get ticket)
    p ← lift (found given (first_position positions))
    prepare_close d given ticket volume p

  -- `float(result_data.get("volume") or volume)`
  unfoldable pub filled_volume : Dict → ℕ → Flow Number
  filled_volume d volume =
      if is_truthy (get "volume" d) then float_of lib (get "volume" d) else value (amount volume)

  -- `max(0.0, float(position.volume) - filled_volume)`
  unfoldable pub left_open : ℕ → Number → Number
  left_open volume (finite (pos n)) = remaining (amount volume) n
  left_open volume (finite (negsuc n)) = amount (volume + suc n)
  left_open volume (infinite negative) = if negative then infinite false else finite (pos 0)
  left_open volume nan = finite (pos 0)

  unfoldable pub partial_response : PartialClose → SendResult → Exec S Response
  partial_response c r = do
    (source, d) ← confirm_close h cfg c.ticket (as_dict r)
    filled ← lift (filled_volume d c.volume)
    pure (
        respond 200 (
          ("message", text "Position partially closed successfully")
          ∷ ("result", object d)
          ∷ ("partial", bool (is_partial r))
          ∷ ("remaining_volume", float (left_open c.position.volume filled))
          ∷ ("fill_price_source", text source)
          ∷ []))

  unfoldable pub after_partial : PartialClose → Option SendResult → Exec S Response
  after_partial c none = do
    error ← gets (λ w. w.last_call_error)
    respond_with (unknown_outcome_response id "Partial close position" error)
  after_partial c (some r) =
      if is_success (classify_retcode r.retcode)
      then partial_response c r
      else respond_with (mt5_error_response id "Partial close position" r)

  unfoldable pub close_position_partial : Dict → Exec S Response
  close_position_partial d = do
    c ← prepare_partial d
    result ← serialized h (h.order_send c.request)
    after_partial c result

  unfoldable pub close_position_partial_endpoint : Dict → World S → Response × World S
  close_position_partial_endpoint d = handled id "close_position_partial" (close_position_partial d)

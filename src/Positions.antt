-- ===== src/Positions.antt =====
-- app/lib.py: `close_position` and `close_all_positions`. A position is closed by a deal of the
-- opposite side; the tickets that the bodies give are read by the package.
pub mod Endpoints
pub mod Partial
pub mod Protection
pub mod Sound
pub mod Part
pub mod Account
use mt5_gateway.Prelude.{
  ℕ, ◌==◌, ◌&&◌, String, Bool, true, false, Option, none, some, List, [], ◌∷◌, map, not, ltb, any,
  str_eq, if◌then◌else◌, pos, select,
}
use mt5_gateway.Prelude.Texts.{len}
use mt5_gateway.Json.{
  Message, Json, null, bool, int, text, said, arr, obj, Items, nil, cons, Fields, end, field, Dict,
  get, put,
}
use mt5_gateway.Flow.{Flow, value, reply, raised, value_error, type_error, key_error}
use mt5_gateway.Retcodes.{RetcodeInfo, classify_retcode, is_success, is_named}
use mt5_gateway.Access.{starts_with}
use mt5_gateway.Validation.{filling_mode_of}
use mt5_gateway.Symbols.{validate_symbol}
use mt5_gateway.Host.{
  Tick, TradeRequest, SendResult, as_dict, Position, Host, Library, Config, order_type_buy,
  order_type_sell, trade_action_deal, order_time_gtc,
}
use mt5_gateway.World.{Exec, pure, lift, ◌>>=◌, ◌>>◌, serialized, serialized_total}
use mt5_gateway.OrderRequests.{bare_request}
use mt5_gateway.CloseConfirm.{confirm_close}

-- `order_type_dict`, from the type of a position
unfoldable pub closing_type : ℕ → Option ℕ
closing_type t =
    if t == 0 then some order_type_sell else if t == 1 then some order_type_buy else none

-- `price_dict[position_type]`: a buy is closed at the bid, a sell at the ask.
unfoldable pub closing_price : ℕ → Tick → ℕ
closing_price t tick = if t == 0 then tick.bid else tick.ask

-- `request`, `volume` and the rest as the caller fills them in
unfoldable pub close_request :
    (ticket : ℕ) (p : Position) (volume order_type price : ℕ) (deviation comment : Json)
    (type_filling : ℕ)
    → TradeRequest
close_request ticket p volume order_type price deviation comment type_filling =
    record (bare_request trade_action_deal) {
      position = some ticket;
      symbol = some p.symbol;
      volume = some volume;
      type = some order_type;
      price = some price;
      deviation = some deviation;
      magic = some (int (pos p.magic));
      comment = some comment;
      type_time = some order_time_gtc;
      type_filling = some type_filling;
    }

-- `positions[0]`, if the answer has one
abbrev pub first_position : Option (List Position) → Option Position
first_position (some (p ∷ ps)) = some p
first_position _ = none

-- `info.name == "DONE_PARTIAL"`
unfoldable pub is_partial : SendResult → Bool
is_partial r = is_named (classify_retcode r.retcode) "DONE_PARTIAL"

-- What became of the positions, in their order.
pub record Closing : Type 0 where
  pub closed : List Dict
  pub failed : List Dict

-- The entry of one position.
pub data ClosingEntry : Type 0 where
  closed_entry failed_entry : Dict → ClosingEntry

unfoldable pub with_entry : ClosingEntry → Closing → Closing
with_entry (closed_entry d) c = record c { closed = d ∷ c.closed }
with_entry (failed_entry d) c = record c { failed = d ∷ c.failed }

-- What is said of a position that no result, or a rejection, came back for.
unfoldable pub failure_of : Position → Option SendResult → Dict
failure_of p none =
    ("ticket", int (pos p.ticket))
    ∷ ("retcode", null)
    ∷ ("retcode_name", text "UNKNOWN_OUTCOME")
    ∷ ("comment", text "No result returned by MT5")
    ∷ []
failure_of p (some r) =
    ("ticket", int (pos p.ticket))
    ∷ ("retcode", int (pos r.retcode))
    ∷ ("retcode_name", said (classify_retcode r.retcode).name)
    ∷ ("comment", text r.comment)
    ∷ []

abbrev pub no_closing : Closing
no_closing = record { closed = []; failed = [] }

abbrev pub failure : String → Closing
failure error = record { closed = []; failed = (("error", text error) ∷ []) ∷ [] }

-- The rows that a mask keeps.
unfoldable pub masked : List Bool → List Position → List Position
masked (true ∷ bs) (p ∷ ps) = p ∷ masked bs ps
masked (false ∷ bs) (p ∷ ps) = masked bs ps
masked bs ps = []

module _ (lib : Library) where
  -- A frame without rows has no columns; a comparison that pandas refuses is a ValueError.
  unfoldable pub of_magic : Json → List Position → Flow (List Position)
  of_magic null ps = value ps
  of_magic magic [] = raised key_error
  of_magic magic ps = elim (lib.column_equals (map (λ p. p.magic) ps) magic) [
    | none ↦ raised value_error
    | some mask ↦ value (masked mask ps)
  ]

-- The type that "BUY" and "SELL" select; an array or an object is no key of a dict.
unfoldable pub type_named : Json → Flow (Option ℕ)
type_named (text s) = value (
    if str_eq s "BUY"
    then some order_type_buy
    else if str_eq s "SELL"
    then some order_type_sell
    else none)
type_named (arr a) = raised type_error
type_named (obj o) = raised type_error
type_named _ = value none

abbrev pub is_all : Json → Bool
is_all (text s) = str_eq s "all"
is_all _ = false

-- The positions that are to be closed, or none for an order type that is not known. The rows of an
-- empty frame have no type, but those of an emptied one do.
unfoldable pub of_type : (no_columns : Bool) → Json → List Position → Flow (Option (List Position))
of_type no_columns order_type ps =
    let named = type_named order_type in
    if is_all order_type then value (some ps) else elim named [
      | value t ↦ elim t [
        | none ↦ value none
        | some t ↦
            if no_columns then raised key_error else value (some (select (λ p. p.type == t) ps))
      ]
      | reply r ↦ reply r
      | raised e ↦ raised e
    ]

abbrev pub is_empty : List Position → Bool
is_empty [] = true
is_empty ps = false

module _ {S : Type 0} (h : Host S) where
  -- From the quote on; a price of zero sends nothing.
  unfoldable pub close_at :
      (ticket : ℕ) (p : Position) (order_type : ℕ) (deviation comment : Json)
      → Option Tick
      → Exec S (Option SendResult)
  close_at ticket p order_type deviation comment none = pure none
  close_at ticket p order_type deviation comment (some tick) =
      let price = closing_price p.type tick in
      if price == 0 then pure none else do
        info ← serialized h (h.symbol_info p.symbol)
        serialized h (
            h.order_send (
              close_request ticket p p.volume order_type price deviation comment
                (filling_mode_of info)))

  unfoldable pub close_selected :
      (ticket : ℕ) (p : Position) (deviation comment : Json)
      → (order_type : Option ℕ) → Exec S (Option SendResult)
  close_selected ticket p deviation comment none = pure none
  close_selected ticket p deviation comment (some order_type) = do
    known ← validate_symbol h p.symbol
    if not known then pure none else do
      tick ← serialized h (h.symbol_info_tick p.symbol)
      close_at ticket p order_type deviation comment tick

  unfoldable pub close_found :
      (ticket : ℕ) (deviation comment : Json) → Option Position → Exec S (Option SendResult)
  close_found ticket deviation comment none = pure none
  close_found ticket deviation comment (some p) =
      close_selected ticket p deviation comment (closing_type p.type)

  -- `close_position` of a position whose ticket was read; the result is none where nothing was sent
  -- or where the terminal gave none.
  unfoldable pub close_ticket : ℕ → Exec S (Option SendResult)
  close_ticket ticket = do
    positions ← serialized h (h.positions_get ticket)
    close_found ticket (int (pos 20)) (text "") (first_position positions)

  module _ (cfg : Config) where
    unfoldable pub closed_with : Position → SendResult → Exec S ClosingEntry
    closed_with p r = do
      (source, d) ← confirm_close h cfg p.ticket (put "partial" (bool (is_partial r)) (as_dict r))
      pure (closed_entry (put "fill_price_source" (text source) d))

    unfoldable pub entry_of : Position → Option SendResult → Exec S ClosingEntry
    entry_of p none = pure (failed_entry (failure_of p none))
    entry_of p (some r) =
        if is_success (classify_retcode r.retcode)
        then closed_with p r
        else pure (failed_entry (failure_of p (some r)))

    -- The loop over the selected positions.
    unfoldable pub close_each : List Position → Exec S Closing
    close_each [] = pure no_closing
    close_each (p ∷ ps) = do
      result ← close_ticket p.ticket
      entry ← entry_of p result
      rest ← close_each ps
      pure (with_entry entry rest)

    unfoldable pub close_chosen : Option (List Position) → Exec S Closing
    close_chosen none = pure (failure "invalid_order_type")
    close_chosen (some ps) = close_each ps

    unfoldable pub close_listed : Library → Json → Json → Option (List Position) → Exec S Closing
    close_listed lib order_type magic none = pure (failure "positions_unavailable")
    close_listed lib order_type magic (some ps) = do
      mine ← lift (of_magic lib magic ps)
      chosen ← lift (of_type (is_empty ps) order_type mine)
      close_chosen chosen

    unfoldable pub close_all_positions : Library → Json → Json → Exec S Closing
    close_all_positions lib order_type magic = do
      total ← serialized h h.positions_total
      elim total [
        | none ↦ pure no_closing
        | some n ↦ if n == 0 then pure no_closing else do
          positions ← serialized h h.all_positions
          close_listed lib order_type magic positions
      ]

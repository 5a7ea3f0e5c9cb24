-- ===== src/History/Endpoints.antt =====
-- The handlers of app/routes/history.py on deals and orders. The look-up of a deal reads the clock
-- where it converts a time. The ticks of a symbol, which come as a numpy array, are left out.
use mt5_gateway.Prelude.{
  String, Bool, Option, none, some, List, [], ◌∷◌, map, leb_ℤ, eqb_ℤ, ◌==◌, ◌&&◌, if◌then◌else◌, ℤ,
  pos, select, is_some,
}
use mt5_gateway.Json.{
  Piece, say, lit, shown_int, unshown, Json, null, bool, int, float, text, said, finite, Dict,
  object, array, Response,
}
use mt5_gateway.Flow.{Flow, value, ◌>>=◌ as flow_bind}
use mt5_gateway.Errors.{RequestId, with_request_id, mt5_connection_error_response}
use mt5_gateway.Validation.{amount}
use mt5_gateway.ServerTime.{server_epoch_to_utc}
use mt5_gateway.Host.{DealRow, Host, Library, Config}
use mt5_gateway.World.{World, Exec, pure, lift, respond_with, gets, clock, ◌>>=◌, serialized}
use mt5_gateway.Json.{respond}
use mt5_gateway.Order.Key.{invalid}
use mt5_gateway.Positions.Endpoints.{handled}
use mt5_gateway.History.Window.{
  Calendar, Limits, Range, is_blank, given_dates, in_order, optional_int, validate_date_range,
  parse_deal_window,
}
use mt5_gateway.History.Details.{
  is_entry, sorted, opening_deal, closing_deal_of, total_of, volume_of,
}

-- `jsonify(rows)`
unfoldable pub rows_response : List Dict → Response
rows_response rows = record { status = 200; body = array (map object rows) }

-- The identifier is none where it counts as false.
unfoldable pub not_found_response : RequestId → String → Option Piece → Response
not_found_response id resource identifier = respond 404 (
    with_request_id id (
      (
        "error",
        said (elim identifier [
          | none ↦ lit resource ∷ lit " not found" ∷ []
          | some piece ↦ lit resource ∷ lit " not found: " ∷ piece ∷ []
        ]),
      )
      ∷ ("error_type", text "not_found")
      ∷ []))

-- `from_timestamp <= deal.time <= to_timestamp`
abbrev pub in_window : ℤ → ℤ → DealRow → Bool
in_window start stop d = leb_ℤ start (pos d.time) && leb_ℤ (pos d.time) stop

unfoldable pub windowed : ℤ → ℤ → Option (List DealRow) → Option (List DealRow)
windowed start stop none = none
windowed start stop (some ds) = some (select (in_window start stop) ds)

unfoldable pub of_magic_number : Option ℤ → List DealRow → List DealRow
of_magic_number none ds = ds
of_magic_number (some magic) ds = select (λ d. eqb_ℤ d.magic magic) ds

abbrev pub rows_of : List DealRow → List Dict
rows_of = map (λ d. d.row)

abbrev pub optional_time : (ℤ → String) → Option ℤ → Json
optional_time iso none = null
optional_time iso (some t) = text (iso t)

module _ {S : Type 0} (h : Host S) (lib : Library) (cfg : Config) (cal : Calendar)
    (id : RequestId) where
  -- `int(ticket)` of the query
  unfoldable pub ticket_argument : Option String → Flow ℤ
  ticket_argument none = invalid id (say "Ticket parameter is required")
  ticket_argument (some s) =
      if is_blank (some s)
      then invalid id (say "Ticket parameter is required")
      else elim (lib.parse_int s) [
        | none ↦ invalid id (say "Invalid ticket format")
        | some n ↦ value n
      ]

  unfoldable pub unavailable : {A : Type 0} → String → Exec S A
  unavailable operation = do
    error ← gets (λ w. w.last_call_error)
    respond_with (mt5_connection_error_response id operation error)

  unfoldable pub utc_of : DealRow → Exec S ℤ
  utc_of d = do
    now ← clock h
    offset ← gets (λ w. w.offset)
    lift (server_epoch_to_utc cfg.time offset now (pos d.time))

  unfoldable pub utc_of_optional : Option DealRow → Exec S (Option ℤ)
  utc_of_optional none = pure none
  utc_of_optional (some d) = do t ← utc_of d; pure (some t)

  unfoldable pub details_of : ℤ → List DealRow → DealRow → Option DealRow → ℤ → Option ℤ → Dict
  details_of ticket deals opening closing open_time close_time =
      ("ticket", int ticket)
      ∷ ("symbol", text opening.symbol)
      ∷ ("type", text (if opening.type == 0 then "BUY" else "SELL"))
      ∷ ("volume", float (amount (volume_of (select is_entry (sorted deals)) opening)))
      ∷ ("open_time", text (cal.iso open_time))
      ∷ ("close_time", optional_time cal.iso close_time)
      ∷ ("open_price", float (amount opening.price))
      ∷ ("close_price", elim closing [ none ↦ null | some c ↦ float (amount c.price) ])
      ∷ ("profit", float (finite (total_of (λ d. d.profit) (sorted deals))))
      ∷ ("commission", float (finite (total_of (λ d. d.commission) (sorted deals))))
      ∷ ("swap", float (finite (total_of (λ d. d.swap) (sorted deals))))
      ∷ ("comment", text (elim closing [ none ↦ opening.comment | some c ↦ c.comment ]))
      ∷ ("closed", bool (is_some closing))
      ∷ []

  unfoldable pub details_with : ℤ → List DealRow → Option DealRow → Exec S (Option Dict)
  details_with ticket deals none = pure none
  details_with ticket deals (some opening) = do
    open_time ← utc_of opening
    close_time ← utc_of_optional (closing_deal_of deals)
    pure (some (details_of ticket deals opening (closing_deal_of deals) open_time close_time))

  -- No deals, or none at all, give no details.
  unfoldable pub details_among : ℤ → Option (List DealRow) → Exec S (Option Dict)
  details_among ticket none = pure none
  details_among ticket (some deals) = details_with ticket deals (opening_deal deals)

  unfoldable pub get_deal_from_ticket : ℤ → Exec S (Option Dict)
  get_deal_from_ticket ticket = serialized h (h.history_of_position ticket) >>= details_among ticket

  unfoldable pub found_or : String → ℤ → Option Dict → Exec S Response
  found_or resource ticket none = respond_with (
      not_found_response id resource
        (if eqb_ℤ ticket (pos 0) then none else some (shown_int ticket)))
  found_or resource ticket (some d) = pure (respond 200 d)

  unfoldable pub get_deal_from_ticket_endpoint : Option String → World S → Response × World S
  get_deal_from_ticket_endpoint argument = handled id "get_deal_from_ticket" do
    ticket ← lift (ticket_argument argument)
    details ← get_deal_from_ticket ticket
    found_or "Deal" ticket details

  abbrev first_row : Option (List Dict) → Option Dict
  first_row (some (d ∷ ds)) = some d
  first_row _ = none

  unfoldable pub get_order_from_ticket : ℤ → Exec S (Option Dict)
  get_order_from_ticket ticket = do
    orders ← serialized h (h.history_orders ticket)
    pure (first_row orders)

  unfoldable pub get_order_from_ticket_endpoint : Option String → World S → Response × World S
  get_order_from_ticket_endpoint argument = handled id "get_order_from_ticket" do
    ticket ← lift (ticket_argument argument)
    details ← get_order_from_ticket ticket
    found_or "Order" ticket details

  unfoldable pub listed_rows : String → Option (List Dict) → Exec S Response
  listed_rows operation none = unavailable operation
  listed_rows operation (some rows) = pure (rows_response rows)

  unfoldable pub history_orders_get_endpoint : Option String → World S → Response × World S
  history_orders_get_endpoint argument = handled id "history_orders_get" do
    ticket ← lift (ticket_argument argument)
    orders ← serialized h (h.history_orders ticket)
    listed_rows "Get orders history" orders

  -- A position is asked for alone, and its deals are filtered here.
  unfoldable pub deals_within : ℤ → ℤ → Option ℤ → Exec S (Option (List DealRow))
  deals_within start stop none = serialized h (h.history_between start stop)
  deals_within start stop (some position) = do
    deals ← serialized h (h.history_of_position position)
    pure (windowed start stop deals)

  unfoldable pub deals_response : String → Option ℤ → Option (List DealRow) → Exec S Response
  deals_response operation magic none = unavailable operation
  deals_response operation magic (some ds) =
      pure (rows_response (rows_of (of_magic_number magic ds)))

  unfoldable pub history_deals_get : (from_date to_date position : Option String) → Exec S Response
  history_deals_get from_date to_date position = do
    (start, stop, p) ← lift (parse_deal_window lib cal id from_date to_date position)
    deals ← deals_within start stop p
    deals_response "Get deals history" none deals

  unfoldable pub history_deals_get_endpoint :
      (from_date to_date position : Option String) → World S → Response × World S
  history_deals_get_endpoint from_date to_date position =
      handled id "history_deals_get" (history_deals_get from_date to_date position)

  -- The range and the magic number of `history_deals_range`.
  unfoldable pub bounded : Limits → Range → Flow (Unit {0})
  bounded limits r =
      flow_bind (validate_date_range limits r)
        (λ refusal. elim refusal [ none ↦ value tt | some m ↦ invalid id m ])

  unfoldable pub range_arguments :
      Limits → (from_date to_date magic : Option String) → Flow (Range × Option ℤ)
  range_arguments limits from_date to_date magic =
      flow_bind
        (given_dates lib cal id (lit "Invalid date format: " ∷ unshown ∷ []) from_date to_date)
        (λ r. flow_bind (in_order lib cal id r) (λ _. flow_bind (bounded limits r) (λ _.
          flow_bind (optional_int lib cal id (say "Invalid magic format") magic)
            (λ m. value (r, m)))))

  unfoldable pub history_deals_range :
      Limits → (from_date to_date magic : Option String) → Exec S Response
  history_deals_range limits from_date to_date magic = do
    (r, m) ← lift (range_arguments limits from_date to_date magic)
    start ← lift (cal.timestamp r.start)
    stop ← lift (cal.timestamp r.stop)
    deals ← serialized h (h.history_between start stop)
    deals_response "Get deals history range" m deals

  unfoldable pub history_deals_range_endpoint :
      Limits → (from_date to_date magic : Option String) → World S → Response × World S
  history_deals_range_endpoint limits from_date to_date magic =
      handled id "history_deals_range" (history_deals_range limits from_date to_date magic)

-- ===== src/Positions/Endpoints.antt =====
-- `close_position_endpoint`, `close_all_positions_endpoint` and `positions_total_endpoint` of
-- app/routes/position.py.
use mt5_gateway.Prelude.{
  ℕ, ◌-◌, String, Bool, true, false, Option, none, some, [], ◌∷◌, length, map, ltb, str_eq, ◌||◌,
  if◌then◌else◌, pos, negsuc,
}
use mt5_gateway.Json.{
  Message, say, lit, shown_int, Number, finite, infinite, nan, Json, bool, int, float, text, said,
  arr, obj, Items, nil, cons, Fields, end, field, Dict, object, array, get, put, lookup, Response,
  respond,
}
use mt5_gateway.Flow.{type_error, attribute_error, Flow, value, reply, raised, ◌>>=◌ as flow_bind}
use mt5_gateway.Retcodes.{classify_retcode, is_success}
use mt5_gateway.Errors.{
  RequestId, mt5_error_response, internal_error_response, validation_error_response,
}
use mt5_gateway.Access.{starts_with}
use mt5_gateway.Convert.{float_of}
use mt5_gateway.PreTrade.{get_default}
use mt5_gateway.Validation.{amount}
use mt5_gateway.Host.{SendResult, as_dict, Host, Library, Config}
use mt5_gateway.World.{World, Exec, pure, lift, respond_with, ◌>>=◌, serialized, serialized_total}
use mt5_gateway.CloseConfirm.{confirm_close}
use mt5_gateway.Order.Key.{invalid}
use mt5_gateway.Order.Endpoint.{exn_text}
use mt5_gateway.Positions.{Closing, is_partial, close_ticket, close_all_positions}

-- The whole handler: `except Exception` answers 500.
unfoldable pub handled :
    {S : Type 0} → RequestId → String → Exec S Response → World S → Response × World S
handled id operation m w =
    let (result, w') = m w in
    elim result [
      | value r ↦ (r, w')
      | reply r ↦ (r, w')
      | raised e ↦ (internal_error_response id operation (exn_text e), w')
    ]

-- `needle in s`
unfoldable pub contains : String → String → Bool
contains needle String.[] = str_eq needle ""
contains needle (String.◌∷◌ c s) =
    let rest = contains needle s in starts_with (String.◌∷◌ c s) needle || rest

unfoldable pub has_item : String → Items → Bool
has_item k nil = false
has_item k (cons (text s) vs) = if str_eq s k then true else has_item k vs
has_item k (cons v vs) = has_item k vs

unfoldable pub field_of : String → Fields → Option Json
field_of k end = none
field_of k (field j v d) = if str_eq j k then some v else field_of k d

-- `"ticket" not in position`, then `position["ticket"]`
unfoldable pub ticket_field : Json → Flow (Option Json)
ticket_field (obj d) = value (field_of "ticket" d)
ticket_field (arr a) = if has_item "ticket" a then raised type_error else value none
ticket_field (text s) = if contains "ticket" s then raised type_error else value none
ticket_field _ = raised type_error

-- `position.get("volume", result.volume)`
unfoldable pub volume_field : Json → SendResult → Flow Json
volume_field (obj d) r =
    value (elim (field_of "volume" d) [ none ↦ float (amount r.volume) | some v ↦ v ])
volume_field _ r = raised attribute_error

-- `max(0.0, n - m)`
unfoldable pub remaining : Number → ℕ → Number
remaining (finite (pos a)) m = finite (pos (if ltb m a then a - m else 0))
remaining (finite (negsuc a)) m = finite (pos 0)
remaining (infinite negative) m = if negative then finite (pos 0) else infinite false
remaining nan m = finite (pos 0)

module _ {S : Type 0} (h : Host S) (lib : Library) (cfg : Config) (id : RequestId) where
  -- `close_position(data["position"])`; the ticket that was read goes on to the confirmation.
  unfoldable pub close_given : Option Json → Exec S (Option (ℕ × SendResult))
  close_given none = pure none
  close_given (some v) = do
    ticket ← serialized_total h (h.ticket_of_value v)
    result ← close_ticket h ticket
    pure (elim result [ none ↦ none | some r ↦ some (ticket, r) ])

  unfoldable pub with_remaining : Json → SendResult → Dict → Flow Dict
  with_remaining position r d =
      if is_partial r
      then flow_bind (volume_field position r) (λ v.
        flow_bind (float_of lib v)
          (λ n. value (put "remaining_volume" (float (remaining n r.volume)) d)))
      else value d

  unfoldable pub closed_response : Json → ℕ → SendResult → Exec S Response
  closed_response position ticket r = do
    (source, d) ← confirm_close h cfg ticket (as_dict r)
    done ← lift (with_remaining position r (put "partial" (bool (is_partial r)) d))
    pure (
        respond 200 (
          ("message", text "Position closed successfully")
          ∷ ("result", object done)
          ∷ ("fill_price_source", text source)
          ∷ []))

  unfoldable pub after_close : Json → Option (ℕ × SendResult) → Exec S Response
  after_close position none = lift (invalid id (say "Failed to close position"))
  after_close position (some (ticket, r)) =
      if is_success (classify_retcode r.retcode)
      then closed_response position ticket r
      else respond_with (mt5_error_response id "Close position" r)

  unfoldable pub close_position : Option Json → Exec S Response
  close_position none = lift (invalid id (say "Position data is required"))
  close_position (some position) = do
    ticket ← lift (ticket_field position)
    result ← close_given ticket
    after_close position result

  unfoldable pub close_position_endpoint : Dict → World S → Response × World S
  close_position_endpoint d = handled id "close_position" (close_position (lookup "position" d))

  unfoldable pub closing_message : Closing → Message
  closing_message c =
      lit "Closed "
      ∷ shown_int (pos (length c.closed))
      ∷ lit " positions; "
      ∷ shown_int (pos (length c.failed))
      ∷ lit " failed"
      ∷ []

  unfoldable pub closing_payload : Closing → Dict
  closing_payload c =
      ("message", said (closing_message c))
      ∷ ("closed", array (map object c.closed))
      ∷ ("failed", array (map object c.failed))
      ∷ []

  unfoldable pub closing_response : Closing → Response
  closing_response c = elim c.failed [
    | f ∷ fs ↦ respond 207 (closing_payload c)
    | [] ↦ elim c.closed [
      | x ∷ xs ↦ respond 200 (closing_payload c)
      | [] ↦ respond 200 (("message", text "No positions were closed") ∷ [])
    ]
  ]

  unfoldable pub close_all_positions_endpoint : Dict → World S → Response × World S
  close_all_positions_endpoint d = handled id "close_all_positions" do
    outcome ←
        close_all_positions h cfg lib (get_default d "order_type" (text "all")) (get "magic" d)
    pure (closing_response outcome)

  unfoldable pub total_response : Option ℕ → Response
  total_response none = validation_error_response id (say "Failed to get positions total") []
  total_response (some n) = respond 200 (("total", int (pos n)) ∷ [])

  unfoldable pub positions_total_endpoint : World S → Response × World S
  positions_total_endpoint =
      handled id "positions_total"
        do total ← serialized h h.positions_total; pure (total_response total)

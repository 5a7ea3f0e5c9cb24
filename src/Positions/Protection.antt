-- ===== src/Positions/Protection.antt =====
-- `modify_sl_tp_endpoint` of app/routes/position.py.
use mt5_gateway.Prelude.{ℕ, ◌==◌, Option, none, some, [], ◌∷◌, if◌then◌else◌, ℤ}
use mt5_gateway.Json.{say, lit, shown_int, int, text, Dict, object, lookup, Response, respond}
use mt5_gateway.Flow.{order_request_error, type_error, value_error, Flow, value, reply, raised}
use mt5_gateway.Retcodes.{classify_retcode, is_success}
use mt5_gateway.Errors.{RequestId, mt5_error_response, unknown_outcome_response}
use mt5_gateway.Convert.{int_of}
use mt5_gateway.Validation.{Verdict, validate_sl_tp}
use mt5_gateway.Host.{TradeRequest, SendResult, as_dict, Position, Host, Library, trade_action_sltp}
use mt5_gateway.World.{
  World, Exec, pure, lift, respond_with, gets, ◌>>=◌, ◌>>◌, serialized, serialized_total,
}
use mt5_gateway.OrderRequests.{build_sltp_request}
use mt5_gateway.Order.Key.{invalid}
use mt5_gateway.Positions.{first_position}
use mt5_gateway.Positions.Endpoints.{handled}

-- `level if level > 0 else None`; a builder's request has both levels.
unfoldable pub positive_of : Option ℕ → Option ℕ
positive_of none = none
positive_of (some n) = if n == 0 then none else some n

module _ {S : Type 0} (h : Host S) (lib : Library) (id : RequestId) where
  unfoldable pub position_ticket : Dict → Flow ℤ
  position_ticket d = elim (lookup "position" d) [
    | none ↦ invalid id (say "Position data is required")
    | some v ↦ elim (int_of lib v) [
      | value n ↦ value n
      | reply r ↦ reply r
      | raised e ↦ elim e [
        | type_error ↦ invalid id (say "Position must be an integer")
        | value_error ↦ invalid id (say "Position must be an integer")
        | e ↦ raised e
      ]
    ]
  ]

  -- `except OrderRequestError`
  unfoldable pub catch_request : {A : Type 0} → Flow A → Flow A
  catch_request (raised (order_request_error m)) = invalid id m
  catch_request f = f

  unfoldable pub found_position : ℤ → Option Position → Flow Position
  found_position ticket none =
      invalid id (lit "Position " ∷ shown_int ticket ∷ lit " not found" ∷ [])
  found_position ticket (some p) = value p

  unfoldable pub levels_accepted : Verdict → Flow (Unit {0})
  levels_accepted none = value tt
  levels_accepted (some m) = invalid id m

  unfoldable pub prepare_protection : Dict → Exec S TradeRequest
  prepare_protection d = do
    given ← lift (position_ticket d)
    ticket ← serialized_total h (h.ticket_of_value (int given))
    positions ← serialized h (h.positions_get ticket)
    p ← lift (found_position given (first_position positions))
    r ← lift (catch_request (build_sltp_request lib d p trade_action_sltp))
    lift (
        levels_accepted
          (validate_sl_tp p.type p.price_current (positive_of r.sl) (positive_of r.tp)))
    pure r

  unfoldable pub after_protection : Option SendResult → Exec S Response
  after_protection none = do
    error ← gets (λ w. w.last_call_error)
    respond_with (unknown_outcome_response id "Modify SL/TP" error)
  after_protection (some r) =
      if is_success (classify_retcode r.retcode)
      then pure (
          respond 200
            (("message", text "SL/TP modified successfully") ∷ ("result", object (as_dict r)) ∷ []))
      else respond_with (mt5_error_response id "Modify SL/TP" r)

  unfoldable pub modify_sl_tp : Dict → Exec S Response
  modify_sl_tp d = do
    r ← prepare_protection d
    result ← serialized h (h.order_send r)
    after_protection result

  unfoldable pub modify_sl_tp_endpoint : Dict → World S → Response × World S
  modify_sl_tp_endpoint d = handled id "modify_sl_tp" (modify_sl_tp d)

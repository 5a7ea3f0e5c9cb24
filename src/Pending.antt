-- ===== src/Pending.antt =====
-- `cancel_order` of app/routes/order.py, and what its handler shares with `modify_order`.
pub mod Levels
pub mod Modify
pub mod Steps
pub mod Sound
use mt5_gateway.Prelude.{ℕ, String, Option, none, some, List, [], ◌∷◌, if◌then◌else◌, pos}
use mt5_gateway.Json.{Message, lit, shown_int, text, said, object, Response, respond}
use mt5_gateway.Flow.{Flow, value, reply}
use mt5_gateway.Retcodes.{classify_retcode, is_success}
use mt5_gateway.Errors.{RequestId, mt5_error_response, unknown_outcome_response}
use mt5_gateway.Host.{
  TradeRequest, SendResult, as_dict, Order, Host, trade_action_remove, order_time_gtc,
  order_filling_return,
}
use mt5_gateway.World.{World, Exec, pure, lift, respond_with, gets, ◌>>=◌, serialized}
use mt5_gateway.OrderRequests.{bare_request}
use mt5_gateway.Positions.Endpoints.{handled}

unfoldable pub orders_unavailable : Response
orders_unavailable = respond 503 (
    ("error", text "Failed to retrieve order information")
    ∷ ("error_type", text "connection_error")
    ∷ [])

unfoldable pub order_not_found : ℕ → Response
order_not_found ticket = respond 404 (
    ("error", said (lit "Order with ticket " ∷ shown_int (pos ticket) ∷ lit " not found" ∷ []))
    ∷ ("error_type", text "not_found")
    ∷ [])

-- `orders[0]`, or the answer for no list and for an empty one
unfoldable pub listed_order : ℕ → Option (List Order) → Flow Order
listed_order ticket none = reply orders_unavailable
listed_order ticket (some []) = reply (order_not_found ticket)
listed_order ticket (some (o ∷ os)) = value o

unfoldable pub remove_request : ℕ → TradeRequest
remove_request ticket = record (bare_request trade_action_remove) {
  order = some ticket;
  type_time = some order_time_gtc;
  type_filling = some order_filling_return;
}

module _ {S : Type 0} (h : Host S) (id : RequestId) where
  -- The end of both handlers.
  unfoldable pub send_answer : (operation message : String) → Option SendResult → Exec S Response
  send_answer operation message none = do
    error ← gets (λ w. w.last_call_error)
    respond_with (unknown_outcome_response id operation error)
  send_answer operation message (some r) =
      if is_success (classify_retcode r.retcode)
      then pure (respond 200 (("message", text message) ∷ ("result", object (as_dict r)) ∷ []))
      else respond_with (mt5_error_response id operation r)

  unfoldable pub cancel : ℕ → Exec S Response
  cancel ticket = do
    orders ← serialized h (h.orders_get ticket)
    order ← lift (listed_order ticket orders)
    result ← serialized h (h.order_send (remove_request ticket))
    send_answer "Cancel order" "Order cancelled successfully" result

  unfoldable pub cancel_order : ℕ → World S → Response × World S
  cancel_order ticket = handled id "cancel_order" (cancel ticket)

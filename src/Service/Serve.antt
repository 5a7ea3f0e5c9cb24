-- ===== src/Service/Serve.antt =====
-- A request's way through the service: Flask calls the hook, then the function that the route's
-- decorator registers, then the envelope. An endpoint stands for its route, with what the handler
-- reads of the request; Flask's own matching of a path is left out.
use mt5_gateway.Prelude.{ℕ, String, Bool, Option, none, some, List, [], ◌∷◌, str_eq}
use mt5_gateway.Json.{Dict, Response}
use mt5_gateway.Flow.{Exn, Flow, value, reply, raised}
use mt5_gateway.Errors.{RequestId}
use mt5_gateway.Idempotency.{IdempotencyStore}
use mt5_gateway.Access.{Hook, Request, joined, enforce_security}
use mt5_gateway.Host.{Host, Library, Config, Credentials}
use mt5_gateway.World.{World, Exec}
use mt5_gateway.Order.Endpoint.{send_market_order_endpoint}
use mt5_gateway.Order.Check.{order_check_endpoint}
use mt5_gateway.Order.Calc.{order_calc_margin_endpoint, order_calc_profit_endpoint}
use mt5_gateway.History.Window.{Calendar, Limits}
use mt5_gateway.History.Endpoints.{
  get_deal_from_ticket_endpoint, get_order_from_ticket_endpoint, history_orders_get_endpoint,
  history_deals_get_endpoint, history_deals_range_endpoint,
}
use mt5_gateway.Positions.Endpoints.{
  close_position_endpoint, close_all_positions_endpoint, positions_total_endpoint,
}
use mt5_gateway.Positions.Partial.{close_position_partial_endpoint}
use mt5_gateway.Positions.Protection.{modify_sl_tp_endpoint}
use mt5_gateway.Pending.{cancel_order}
use mt5_gateway.Pending.Modify.{modify_order}
use mt5_gateway.Connection.Session.{require_mt5_connection}
use mt5_gateway.Service.Envelope.{envelope}
use mt5_gateway.Service.Control.{Gateway, engage, release, after_engaging, after_releasing}

-- The routes. A body is what `get_json` gives; the segment of a path is the text that Flask read the
-- ticket from; the text of /kill is its `flatten` argument.
pub data Endpoint : Type 0 where
  order : Dict → (key : Option String) → Endpoint
  modify_sl_tp position_close_partial close_position close_all_positions : Dict → Endpoint
  order_check order_calc_margin order_calc_profit : Dict → Endpoint
  get_deal_from_ticket get_order_from_ticket history_orders_get :
      (ticket : Option String) → Endpoint
  history_deals_get : (from_date to_date position : Option String) → Endpoint
  history_deals_range : (from_date to_date magic : Option String) → Endpoint
  delete_order : (segment : String) → (ticket : ℕ) → Endpoint
  put_order : (segment : String) → (ticket : ℕ) → Dict → Endpoint
  positions_total : Endpoint
  kill : (flatten : String) → Endpoint
  kill_release : Endpoint

abbrev pub method_of : Endpoint → String
method_of (delete_order segment ticket) = "DELETE"
method_of (put_order segment ticket d) = "PUT"
method_of positions_total = "GET"
method_of (get_deal_from_ticket t) = "GET"
method_of (get_order_from_ticket t) = "GET"
method_of (history_orders_get t) = "GET"
method_of (history_deals_get a b p) = "GET"
method_of (history_deals_range a b m) = "GET"
method_of _ = "POST"

abbrev pub path_of : Endpoint → String
path_of (order d key) = "/order"
path_of (modify_sl_tp d) = "/modify_sl_tp"
path_of (position_close_partial d) = "/position_close_partial"
path_of (close_position d) = "/close_position"
path_of (close_all_positions d) = "/close_all_positions"
path_of (order_check d) = "/order_check"
path_of (order_calc_margin d) = "/order_calc_margin"
path_of (order_calc_profit d) = "/order_calc_profit"
path_of (get_deal_from_ticket t) = "/get_deal_from_ticket"
path_of (get_order_from_ticket t) = "/get_order_from_ticket"
path_of (history_orders_get t) = "/history_orders_get"
path_of (history_deals_get a b p) = "/history_deals_get"
path_of (history_deals_range a b m) = "/history_deals_range"
path_of (delete_order segment ticket) = joined "/orders/" segment
path_of (put_order segment ticket d) = joined "/orders/" segment
path_of positions_total = "/positions_total"
path_of (kill flatten) = "/kill"
path_of kill_release = "/kill/release"

pub record Incoming : Type 0 where
  pub endpoint : Endpoint
  pub authorization : Option String
  pub id : RequestId

abbrev pub line : Incoming → Request
line r = record {
  method = method_of r.endpoint;
  path = path_of r.endpoint;
  authorization = r.authorization;
}

-- A handler that catches all its exceptions.
abbrev pub whole : {S : Type 0} → (World S → Response × World S) → Exec S Response
whole handler w = let (r, w') = handler w in (value r, w')

-- What the service is started with. `server_error` is Flask's own answer to an exception that no
-- handler catches.
pub record Service (S : Type 0) : Type 0 where
  pub terminal : Host S
  pub library : Library
  pub config : Config
  pub calendar : Calendar
  pub limits : Limits
  pub relogin : Flow Credentials
  pub compare_digest : String → String → Flow Bool
  pub api_key : String
  pub lower : String → String
  pub server_error : Exn → Response

module _ {S : Type 0} (s : Service S) where
  unfoldable pub hook : Gateway S → Hook
  hook g = record { compare_digest = s.compare_digest; api_key = s.api_key; active = g.killed }

  -- The answer to what a function ended with.
  unfoldable pub answered : Flow Response → Response
  answered (value r) = r
  answered (reply r) = r
  answered (raised e) = s.server_error e

  -- A function behind `require_mt5_connection`.
  unfoldable pub guarded : RequestId → Exec S Response → Gateway S → Response × Gateway S
  guarded id m g =
      let (result, w) =
        require_mt5_connection s.terminal s.library s.config s.relogin id m g.world in
      (answered result, record g { world = w })

  unfoldable pub with_store :
      Flow (Response × IdempotencyStore) → World S → Gateway S → Response × Gateway S
  with_store (value (r, store)) w g = (r, record g { store = store; world = w })
  with_store (reply r) w g = (r, record g { world = w })
  with_store (raised e) w g = (s.server_error e, record g { world = w })

  -- The same for the one handler that uses the reservations; a request that the guard turns away
  -- leaves them alone.
  unfoldable pub guarded_order :
      RequestId
      → (IdempotencyStore → World S → Response × IdempotencyStore × World S)
      → Gateway S
      → Response × Gateway S
  guarded_order id handler g =
      let (result, w) =
        require_mt5_connection s.terminal s.library s.config s.relogin
          {A = Response × IdempotencyStore} id
          (λ w. let (r, store, w') = handler g.store w in (value (r, store), w')) g.world in
      with_store result w g

  -- A function without the guard.
  unfoldable pub unguarded : Exec S Response → Gateway S → Response × Gateway S
  unguarded m g = let (result, w) = m g.world in (answered result, record g { world = w })

  unfoldable pub run : Endpoint → RequestId → Gateway S → Response × Gateway S
  run (order d key) id =
      guarded_order id (send_market_order_endpoint s.terminal s.library s.config id d key)
  run (modify_sl_tp d) id = guarded id (whole (modify_sl_tp_endpoint s.terminal s.library id d))
  run (position_close_partial d) id =
      guarded id (whole (close_position_partial_endpoint s.terminal s.library s.config id d))
  run (close_position d) id =
      guarded id (whole (close_position_endpoint s.terminal s.library s.config id d))
  run (close_all_positions d) id =
      guarded id (whole (close_all_positions_endpoint s.terminal s.library s.config id d))
  run (order_check d) id =
      guarded id (whole (order_check_endpoint s.terminal s.library s.config id d))
  run (order_calc_margin d) id =
      guarded id (order_calc_margin_endpoint s.terminal s.library s.config id d)
  run (order_calc_profit d) id =
      guarded id (whole (order_calc_profit_endpoint s.terminal s.library s.config id d))
  run (get_deal_from_ticket t) id =
      guarded id
        (whole (get_deal_from_ticket_endpoint s.terminal s.library s.config s.calendar id t))
  run (get_order_from_ticket t) id =
      guarded id
        (whole (get_order_from_ticket_endpoint s.terminal s.library s.config s.calendar id t))
  run (history_orders_get t) id =
      guarded id (whole (history_orders_get_endpoint s.terminal s.library s.config s.calendar id t))
  run (history_deals_get a b p) id =
      guarded id
        (whole (history_deals_get_endpoint s.terminal s.library s.config s.calendar id a b p))
  run (history_deals_range a b m) id = guarded id (
      whole
        (history_deals_range_endpoint s.terminal s.library s.config s.calendar id s.limits a b m))
  run (delete_order segment ticket) id = guarded id (whole (cancel_order s.terminal id ticket))
  run (put_order segment ticket d) id =
      guarded id (whole (modify_order s.terminal s.library s.config id ticket d))
  run positions_total id =
      guarded id (whole (positions_total_endpoint s.terminal s.library s.config id))
  run (kill flatten) id = λ g.
      unguarded (after_engaging s.terminal s.library s.config (str_eq (s.lower flatten) "true"))
        (engage g)
  run kill_release id = λ g. unguarded after_releasing (release g)

  -- The hook's verdict, and the handler where there is none.
  unfoldable pub after_hook : Incoming → Flow (Option Response) → Gateway S → Response × Gateway S
  after_hook r (value none) g = run r.endpoint r.id g
  after_hook r (value (some refusal)) g = (refusal, g)
  after_hook r (reply refusal) g = (refusal, g)
  after_hook r (raised e) g = (s.server_error e, g)

  unfoldable pub serve : Incoming → Gateway S → Response × Gateway S
  serve r g =
      let (answer, g') = after_hook r (enforce_security (hook g) (line r)) g in
      (envelope r.id answer, g')

  -- A sequence of requests, the first one first.
  unfoldable pub serve_all : List Incoming → Gateway S → Gateway S
  serve_all [] g = g
  serve_all (r ∷ rs) g = serve_all rs (serve r g).1

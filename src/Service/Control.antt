-- ===== src/Service/Control.antt =====
-- app/kill_switch.py and app/routes/control.py. The switch is on while its file exists; the file is
-- taken to be writable.
use mt5_gateway.Prelude.{Bool, true, false, Option, none, some, List, [], ◌∷◌, if◌then◌else◌}
use mt5_gateway.Json.{null, bool, text, object, array, Json, Response, respond}
use mt5_gateway.Prelude.{map}
use mt5_gateway.Idempotency.{IdempotencyStore}
use mt5_gateway.Host.{TradeRequest, Order, Host, Library, Config, trade_action_remove}
use mt5_gateway.World.{World, Exec, pure, ◌>>=◌, ◌>>◌, serialized, set_gauge}
use mt5_gateway.OrderRequests.{bare_request}
use mt5_gateway.Positions.{Closing, close_all_positions}
use mt5_gateway.Prelude.{ℕ}

-- All that a request can change: the reservations, the kill switch's file and the world.
pub record Gateway (S : Type 0) : Type 0 where
  pub store : IdempotencyStore
  pub killed : Bool
  pub world : World S

-- `KillSwitch.engage` and `release`
unfoldable pub engage : {S : Type 0} → Gateway S → Gateway S
engage g = record g { killed = true }

unfoldable pub release : {S : Type 0} → Gateway S → Gateway S
release g = record g { killed = false }

-- The request that a flattening sends for a pending order: two keys only.
unfoldable pub removal : ℕ → TradeRequest
removal ticket = record (bare_request trade_action_remove) { order = some ticket }

-- `orders or ()`
abbrev pub or_empty : Option (List Order) → List Order
or_empty none = []
or_empty (some os) = os

unfoldable pub flattened : Closing → Json
flattened c =
    object (("closed", array (map object c.closed)) ∷ ("failed", array (map object c.failed)) ∷ [])

unfoldable pub engaged_response : Json → Response
engaged_response result = respond 200 (("kill_switch_active", bool true) ∷ ("flatten", result) ∷ [])

unfoldable pub released_response : Response
released_response = respond 200 (("kill_switch_active", bool false) ∷ [])

module _ {S : Type 0} (h : Host S) (lib : Library) (cfg : Config) where
  -- What the terminal answers to a removal is not looked at.
  unfoldable pub remove_each : List Order → Exec S (Unit {0})
  remove_each [] = pure tt
  remove_each (o ∷ os) = do result ← serialized h (h.order_send (removal o.ticket)); remove_each os

  unfoldable pub flatten : Exec S Json
  flatten = do
    orders ← serialized h h.all_orders
    remove_each (or_empty orders)
    closing ← close_all_positions h cfg lib (text "all") null
    pure (flattened closing)

  -- From the gauge on; `asked` is whether the query asks for a flattening.
  unfoldable pub after_engaging : Bool → Exec S Response
  after_engaging asked = do
    set_gauge "kill_switch_active" 1
    result ← (if asked then flatten else pure null)
    pure (engaged_response result)

unfoldable pub after_releasing : {S : Type 0} → Exec S Response
after_releasing = do set_gauge "kill_switch_active" 0; pure released_response

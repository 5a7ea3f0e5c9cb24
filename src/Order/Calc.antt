-- ===== src/Order/Calc.antt =====
-- `order_calc_margin_endpoint` and `order_calc_profit_endpoint` of app/routes/order.py. Where no margin
-- is given the first returns a pair of a pair, which Flask refuses with a TypeError once the function
-- has returned, outside of its `try`.
use mt5_gateway.Prelude.{
  ◌≡◌, refl, ℕ, String, Bool, true, false, Option, none, some, List, [], ◌∷◌, any, map, not,
  is_some, str_eq, if◌then◌else◌, negsuc,
}
use mt5_gateway.Json.{
  say, lit, shown, Number, finite, infinite, float, text, array, Dict, lookup, get, Response,
  respond,
}
use mt5_gateway.Flow.{Flow, value, reply, raised, type_error}
use mt5_gateway.Errors.{RequestId, validation_error_response, internal_error_response}
use mt5_gateway.Host.{
  Host, Library, Config, order_type_buy, order_type_sell, trade_action_deal, trade_action_pending,
}
use mt5_gateway.World.{World, Exec, pure, lift, respond_with, ◌>>=◌, ◌>>◌, serialized}
use mt5_gateway.Order.Key.{invalid}
use mt5_gateway.Order.Endpoint.{exn_text}
use mt5_gateway.Positions.Endpoints.{handled}
use mt5_gateway.Order.Pricing.{type_name, is_market, accept}
use mt5_gateway.Order.Prepare.{symbol_of}
use mt5_gateway.Order.Check.{
  checked_type, checked_type_of, type_of_name, known_type, positive_number,
}
use mt5_gateway.Order.Check.Verdicts.{volume_verdict}
use mt5_gateway.Pending.Levels.{Magnitude, number_of}

-- `not all(field in data for field in required_fields)`
unfoldable pub lacks : List String → Dict → Bool
lacks names d = any (λ k. not (is_some (lookup k d))) names

-- `margin < 0`
unfoldable pub is_negative : Number → Bool
is_negative (finite (negsuc n)) = true
is_negative (infinite negative) = negative
is_negative _ = false

-- What the margin's handler returns: a response, or a response inside of another pair.
pub data Returned : Type 0 where
  proper nested : Response → Returned

-- `except Exception`, and then what Flask makes of the returned value.
unfoldable pub flask_answer : RequestId → Flow Returned → Flow Response
flask_answer id (value (proper r)) = value r
flask_answer id (value (nested r)) = raised type_error
flask_answer id (reply r) = value r
flask_answer id (raised e) = value (internal_error_response id "order_calc_margin" (exn_text e))

-- The type map of the profit's handler.
unfoldable pub profit_type_of : String → Option ℕ
profit_type_of s =
    if str_eq s "BUY"
    then some order_type_buy
    else if str_eq s "SELL"
    then some order_type_sell
    else none

module _ {S : Type 0} (h : Host S) (lib : Library) (cfg : Config) (id : RequestId) where
  unfoldable pub demand : List String → Dict → Exec S (Unit {0})
  demand names [] = lift (invalid id (say "Order data is required"))
  demand names (e ∷ d) =
      if lacks names (e ∷ d)
      then respond_with (
          validation_error_response id (say "Missing required fields")
            (("required", array (map text names)) ∷ []))
      else pure tt

  unfoldable pub admit_volume_of : String → Magnitude → Exec S (Unit {0})
  admit_volume_of symbol volume = do
    info ← serialized h (h.symbol_info symbol)
    verdict ← lift (volume_verdict info volume)
    accept h lib cfg id verdict

  unfoldable pub margin_response : Option Number → Exec S Returned
  margin_response none = pure (
      nested (
        validation_error_response id (say "Margin calculation unavailable") (
          ("reason", text "Symbol may not support this calculation or parameters are invalid")
          ∷ [])))
  margin_response (some m) =
      if is_negative m
      then lift (invalid id (say "Invalid margin calculation result"))
      else pure (proper (respond 200 (("margin", float m) ∷ [])))

  -- The first argument is the action of a trade request.
  unfoldable pub calc_margin : Dict → Exec S Returned
  calc_margin d = do
    demand ("symbol" ∷ "volume" ∷ "type" ∷ "price" ∷ []) d
    symbol ← symbol_of h lib cfg id (get "symbol" d)
    t ← lift (checked_type h lib cfg id d)
    volume ← lift (positive_number h lib cfg id (say "Volume must be positive") (get "volume" d))
    price ← lift (positive_number h lib cfg id (say "Price must be positive") (get "price" d))
    admit_volume_of symbol volume
    margin ← serialized h (
        h.order_calc_margin (if is_market t then trade_action_deal else trade_action_pending) symbol
          (number_of volume) (number_of price))
    margin_response margin

  unfoldable pub order_calc_margin_endpoint : Dict → Exec S Response
  order_calc_margin_endpoint d w =
      let (result, w') = calc_margin d w in (flask_answer id result, w')

  unfoldable pub profit_type : Dict → Flow ℕ
  profit_type d =
      let unknown = invalid id (
        lit "Invalid order type: " ∷ shown (get "type" d) ∷ lit ". Must be 'BUY' or 'SELL'" ∷ []) in
      elim (type_name lib (get "type" d)) [
        | none ↦ unknown
        | some s ↦ elim (profit_type_of s) [ none ↦ unknown | some t ↦ value t ]
      ]

  unfoldable pub profit_response : Option Number → Exec S Response
  profit_response none = respond_with (
      validation_error_response id (say "Profit calculation unavailable")
        (("reason", text "Symbol may not support this calculation") ∷ []))
  profit_response (some p) = pure (respond 200 (("profit", float p) ∷ []))

  unfoldable pub calc_profit : Dict → Exec S Response
  calc_profit d = do
    demand ("symbol" ∷ "volume" ∷ "type" ∷ "price_open" ∷ "price_close" ∷ []) d
    symbol ← symbol_of h lib cfg id (get "symbol" d)
    t ← lift (profit_type d)
    volume ← lift (positive_number h lib cfg id (say "Volume must be positive") (get "volume" d))
    open_price ←
        lift
          (positive_number h lib cfg id (say "Opening price must be positive") (get "price_open" d))
    close_price ←
        lift (
          positive_number h lib cfg id (say "Closing price must be positive") (get "price_close" d))
    admit_volume_of symbol volume
    profit ← serialized h (
        h.order_calc_profit t symbol (number_of volume) (number_of open_price)
          (number_of close_price))
    profit_response profit

  unfoldable pub order_calc_profit_endpoint : Dict → World S → Response × World S
  order_calc_profit_endpoint d = handled id "order_calc_profit" (calc_profit d)

  checked_type-named :
      (s : String) (t : ℕ) (d : Dict)
      → lib.upper s ≡ s
      → checked_type_of s ≡ some t
      → checked_type h lib cfg id (("type", text s) ∷ d) ≡ value t
  unfolding checked_type type_of_name known_type lookup get
  checked_type-named s t d upper named = rw (upper, named) refl

  -- A body that asks for a BUY and one that asks for a SELL get the same margin, whatever margins the
  -- terminal has for the two: the side is not part of what the terminal is asked.
  pub margin_ignores_side :
      (d : Dict) (w : World S)
      → lib.upper "BUY" ≡ "BUY"
      → lib.upper "SELL" ≡ "SELL"
      → order_calc_margin_endpoint (("type", text "BUY") ∷ d) w
        ≡ order_calc_margin_endpoint (("type", text "SELL") ∷ d) w
  unfolding order_calc_margin_endpoint calc_margin demand lacks lookup get checked_type_of
      flask_answer ◌>>=◌
  margin_ignores_side d w buy sell = simp (
    checked_type-named "BUY" order_type_buy d buy refl,
    checked_type-named "SELL" order_type_sell d sell refl,
  )

-- ===== src/Pending/Modify.antt =====
-- `modify_order` of app/routes/order.py. Its numbers are those of the body, so that they need not be
-- finite; they go to `order_send` beside the other keys of the request.
use mt5_gateway.Prelude.{
  ℕ, ◌==◌, ◌||◌, String, Option, none, some, [], ◌∷◌, if◌then◌else◌, is_some, pos,
}
use mt5_gateway.Json.{Message, say, Json, null, Dict, get, lookup, Response, Number}
use mt5_gateway.Flow.{Flow, value}
use mt5_gateway.Errors.{RequestId}
use mt5_gateway.Convert.{float_of}
use mt5_gateway.Validation.{Verdict, amount}
use mt5_gateway.Host.{
  Tick, TradeRequest, ModifyRequest, Order, Host, Library, Config, trade_action_modify,
  order_time_gtc, order_filling_return,
}
use mt5_gateway.World.{World, Exec, pure, lift, ◌>>=◌, ◌>>◌, serialized}
use mt5_gateway.OrderRequests.{bare_request}
use mt5_gateway.Order.Key.{invalid, catch_offset}
use mt5_gateway.Order.Expiry.{set_expiration}
use mt5_gateway.Positions.Endpoints.{handled}
use mt5_gateway.Pending.{listed_order, send_answer}
use mt5_gateway.Pending.Levels.{
  Magnitude, magnitude, number_of, is_zero, is_positive, given, levels_verdict, price_verdict,
}

-- The request's keys that are no levels.
unfoldable pub modify_base : ℕ → TradeRequest
modify_base ticket = record (bare_request trade_action_modify) {
  order = some ticket;
  type_time = some order_time_gtc;
  type_filling = some order_filling_return;
}

-- `apply_expiration` without an expiry in the body: the order keeps its own.
unfoldable pub keep_expiration : Order → TradeRequest → TradeRequest
keep_expiration o r =
    let kept = record r { type_time = some o.type_time } in
    if o.time_expiration == 0
    then kept
    else record kept { expiration = some (pos o.time_expiration) }

-- The three numbers, once they are known not to be below zero.
pub record Levels : Type 0 where
  pub price : Magnitude
  pub sl : Magnitude
  pub tp : Magnitude

module _ {S : Type 0} (h : Host S) (lib : Library) (cfg : Config) (id : RequestId) where
  unfoldable pub something_given : Dict → Flow (Unit {0})
  something_given [] = invalid id (say "Modification data is required")
  something_given (e ∷ d) =
      if is_some (lookup "price" (e ∷ d))
        || is_some (lookup "sl" (e ∷ d))
        || is_some (lookup "tp" (e ∷ d))
      then value tt
      else invalid id (say "At least one of price, sl, or tp must be provided")

  -- `float(data[key]) if key in data else current`
  unfoldable pub new_value : Dict → String → ℕ → Flow Number
  new_value d key current = elim (lookup key d) [
    | none ↦ value (amount current)
    | some v ↦ float_of lib v
  ]

  unfoldable pub positive_price : Option Magnitude → Flow Magnitude
  positive_price none = invalid id (say "Price must be positive")
  positive_price (some m) = if is_zero m then invalid id (say "Price must be positive") else value m

  unfoldable pub not_negative : Message → Option Magnitude → Flow Magnitude
  not_negative message none = invalid id message
  not_negative message (some m) = value m

  unfoldable pub passed : Verdict → Flow (Unit {0})
  passed none = value tt
  passed (some m) = invalid id m

  unfoldable pub new_levels : Dict → Order → Exec S Levels
  new_levels d o = do
    p ← lift (new_value d "price" o.price_open)
    s ← lift (new_value d "sl" o.sl)
    t ← lift (new_value d "tp" o.tp)
    price ← lift (positive_price (magnitude p))
    sl ← lift (not_negative (say "Stop loss must be non-negative (use 0 to remove)") (magnitude s))
    tp ←
        lift (not_negative (say "Take profit must be non-negative (use 0 to remove)") (magnitude t))
    pure (record { price = price; sl = sl; tp = tp })

  unfoldable pub market_checked : Order → Magnitude → Option Tick → Exec S (Unit {0})
  market_checked o price none = lift (passed (price_verdict o.type none none price))
  market_checked o price (some tick) = do
    info ← serialized h (h.symbol_info o.symbol)
    lift (passed (price_verdict o.type (some tick) info price))

  -- A price that the body does not give is not compared with the market.
  unfoldable pub check_price : Order → Magnitude → Option Json → Exec S (Unit {0})
  check_price o price none = pure tt
  check_price o price (some v) = do
    tick ← serialized h (h.symbol_info_tick o.symbol)
    market_checked o price tick

  unfoldable pub check_levels : Order → Levels → Flow (Unit {0})
  check_levels o l =
      if is_positive l.sl || is_positive l.tp
      then passed (levels_verdict o.type l.price (given l.sl) (given l.tp))
      else value tt

  -- `except ServerOffsetUnavailable`
  unfoldable pub caught : Exec S TradeRequest → Exec S TradeRequest
  caught m w = let (result, w') = m w in (catch_offset id result, w')

  -- `apply_expiration(…, existing_order=order)`
  unfoldable pub expiring : Json → Order → TradeRequest → Exec S TradeRequest
  expiring null o r = pure (keep_expiration o r)
  expiring e o r = caught (set_expiration h cfg lib e o.symbol r)

  unfoldable pub prepare_modify : ℕ → Dict → Exec S ModifyRequest
  prepare_modify ticket d = do
    lift (something_given d)
    orders ← serialized h (h.orders_get ticket)
    o ← lift (listed_order ticket orders)
    l ← new_levels d o
    check_price o l.price (lookup "price" d)
    lift (check_levels o l)
    base ← expiring (get "expiration" d) o (modify_base ticket)
    pure (record {
      base = base;
      price = number_of l.price;
      sl = number_of l.sl;
      tp = number_of l.tp;
    })

  unfoldable pub change : ℕ → Dict → Exec S Response
  change ticket d = do
    r ← prepare_modify ticket d
    result ← serialized h (h.order_send_modify r)
    send_answer h id "Modify order" "Order modified successfully" result

  unfoldable pub modify_order : ℕ → Dict → World S → Response × World S
  modify_order ticket d = handled id "modify_order" (change ticket d)

-- ===== src/Order/Check.antt =====
-- `order_check_endpoint` of app/routes/order.py: a dry run. Unlike POST /order it reads its numbers
-- with `float` and `int`, so that they need not be finite; they reach only `order_check`.
pub mod Verdicts
pub mod DryRun
pub mod Price
pub mod Sides
pub mod Sound
use mt5_gateway.Prelude.{
  ℕ, String, Bool, true, false, Option, none, some, [], ◌∷◌, ◌++◌, ◌==◌, ◌||◌, str_eq, ltb, is_some,
  if◌then◌else◌, ℤ, pos,
}
use mt5_gateway.Json.{
  Message, say, lit, shown, Number, nan, infinite, Json, null, bool, int, text, array, Dict, lookup,
  get, Response, respond,
}
use mt5_gateway.Flow.{Flow, value, reply, raised, value_error}
use mt5_gateway.Money.{SymbolInfo}
use mt5_gateway.Convert.{float_of, int_of}
use mt5_gateway.PreTrade.{get_default}
use mt5_gateway.Errors.{RequestId, validation_error_response}
use mt5_gateway.Validation.{
  Verdict, amount, accepted, refused, validate_volume, validate_type_filling,
}
use mt5_gateway.Host.{
  Tick, TradeRequest, CheckRequest, CheckResult, Host, Library, Config, order_type_buy,
  order_type_sell, order_type_buy_limit, order_type_sell_limit, order_type_buy_stop,
  order_type_sell_stop, trade_action_deal, trade_action_pending, order_filling_ioc, order_time_gtc,
  trade_retcode_done,
}
use mt5_gateway.World.{World, Exec, pure, respond_with, lift, ◌>>=◌, ◌>>◌, serialized}
use mt5_gateway.OrderRequests.{build_trade_request}
use mt5_gateway.Order.Key.{invalid}
use mt5_gateway.Order.Pricing.{type_name, is_market, accept}
use mt5_gateway.Order.Prepare.{required_missing, symbol_of, comment_of, with_expiration}
use mt5_gateway.Positions.Endpoints.{handled}
use mt5_gateway.Pending.Levels.{Magnitude, magnitude, is_zero, number_of, price_verdict}
use mt5_gateway.Order.Check.Verdicts.{volume_verdict, protection_verdict}

-- `ORDER_TYPE_MAP` of this handler, without the stop-limit types.
unfoldable pub checked_type_of : String → Option ℕ
checked_type_of s =
    if str_eq s "BUY"
    then some order_type_buy
    else if str_eq s "SELL"
    then some order_type_sell
    else if str_eq s "BUY_LIMIT"
    then some order_type_buy_limit
    else if str_eq s "SELL_LIMIT"
    then some order_type_sell_limit
    else if str_eq s "BUY_STOP"
    then some order_type_buy_stop
    else if str_eq s "SELL_STOP"
    then some order_type_sell_stop
    else none

-- The keys of the request that are no numbers of the body.
unfoldable pub check_base :
    (action : ℕ) (symbol : String) (order_type : ℕ) (deviation magic : ℤ) (comment : String)
    (type_filling : ℕ)
    → TradeRequest
check_base action symbol order_type deviation magic comment type_filling =
    record (build_trade_request action symbol 0 order_type 0 deviation (int magic) comment
      order_time_gtc type_filling none none none) { volume = none; price = none }

unfoldable pub check_response : CheckResult → Response
check_response c =
    if (c.retcode == trade_retcode_done) || (c.retcode == 0)
    then respond 200 (
        ("valid", bool true)
        ∷ ("retcode", int (pos c.retcode))
        ∷ ("comment", text c.comment)
        ∷ c.rest)
    else respond 400 (
        ("valid", bool false)
        ∷ ("retcode", int (pos c.retcode))
        ∷ ("comment", text c.comment)
        ∷ ("margin", get "margin" c.rest)
        ∷ ("margin_free", get "margin_free" c.rest)
        ∷ [])

module _ {S : Type 0} (h : Host S) (lib : Library) (cfg : Config) (id : RequestId) where
  unfoldable pub known_type : Dict → Option ℕ → Flow ℕ
  known_type d none = invalid id (lit "Invalid order type: " ∷ shown (get "type" d) ∷ [])
  known_type d (some t) = value t

  unfoldable pub type_of_name : Option String → Option ℕ
  type_of_name none = none
  type_of_name (some s) = checked_type_of s

  unfoldable pub checked_type : Dict → Flow ℕ
  checked_type d = known_type d (type_of_name (type_name lib (get "type" d)))

  -- `float(v)`, unless it is zero or less
  unfoldable pub positive_number : Message → Json → Flow Magnitude
  positive_number message v = elim (float_of lib v) [
    | reply r ↦ reply r
    | raised e ↦ raised e
    | value n ↦ elim (magnitude n) [
      | none ↦ invalid id message
      | some m ↦ if is_zero m then invalid id message else value m
    ]
  ]

  unfoldable pub checked_volume : Dict → String → Exec S Magnitude
  checked_volume d symbol = do
    volume ← lift (positive_number (say "Volume must be positive") (get "volume" d))
    info ← serialized h (h.symbol_info symbol)
    verdict ← lift (volume_verdict info volume)
    accept h lib cfg id verdict
    pure volume

  unfoldable pub checked_market : ℕ → String → Exec S Magnitude
  checked_market t symbol = do
    tick ← serialized h (h.symbol_info_tick symbol)
    elim tick [
      | none ↦ lift (invalid id (lit "Failed to get symbol price for " ∷ lit symbol ∷ []))
      | some q ↦ pure (Magnitude.exactly (if t == order_type_buy then q.ask else q.bid))
    ]

  -- `validate_pending_price`
  unfoldable pub checked_against : ℕ → String → Magnitude → Option Tick → Exec S (Unit {0})
  checked_against t symbol price none = accept h lib cfg id (price_verdict t none none price)
  checked_against t symbol price (some q) = do
    info ← serialized h (h.symbol_info symbol)
    accept h lib cfg id (price_verdict t (some q) info price)

  unfoldable pub checked_pending : ℕ → String → Dict → Exec S Magnitude
  checked_pending t symbol d = elim (lookup "price" d) [
    | none ↦ lift (invalid id (say "Price required for pending orders"))
    | some v ↦ do
      price ← lift (positive_number (say "Price must be positive") v)
      tick ← serialized h (h.symbol_info_tick symbol)
      checked_against t symbol price tick
      pure price
  ]

  -- `if sl is not None: sl = float(sl)`
  unfoldable pub optional_number : Json → Flow (Option Number)
  optional_number null = value none
  optional_number v = elim (float_of lib v) [
    | value n ↦ value (some n)
    | reply r ↦ reply r
    | raised e ↦ raised e
  ]

  unfoldable pub checked_filling : Dict → Flow ℕ
  checked_filling d = elim (lookup "type_filling" d) [
    | none ↦ value order_filling_ioc
    | some v ↦ elim (validate_type_filling lib v) [
      | accepted n ↦ value n
      | refused m ↦ invalid id m
    ]
  ]

  -- From the price on.
  unfoldable pub check_request_of : Dict → String → ℕ → Magnitude → Magnitude → Exec S CheckRequest
  check_request_of d symbol t volume price = do
    sl ← lift (optional_number (get "sl" d))
    tp ← lift (optional_number (get "tp" d))
    accept h lib cfg id
        (if is_some sl || is_some tp then protection_verdict t price sl tp else none)
    type_filling ← lift (checked_filling d)
    deviation ← lift (int_of lib (get_default d "deviation" (int (pos 20))))
    magic ← lift (int_of lib (get_default d "magic" (int (pos 0))))
    comment ← lift (comment_of h lib cfg id d)
    base ← with_expiration h lib cfg id d symbol (
        check_base (if is_market t then trade_action_deal else trade_action_pending) symbol t
          deviation magic comment type_filling)
    pure (record {
      base = base;
      volume = number_of volume;
      price = number_of price;
      sl = sl;
      tp = tp;
    })

  unfoldable pub checked_order : Dict → String → Exec S CheckRequest
  checked_order d symbol = do
    t ← lift (checked_type d)
    volume ← checked_volume d symbol
    price ← (if is_market t then checked_market t symbol else checked_pending t symbol d)
    check_request_of d symbol t volume price

  unfoldable pub prepare_check : Dict → Exec S CheckRequest
  prepare_check [] = lift (invalid id (say "Order data is required"))
  prepare_check (e ∷ d) =
      if required_missing (e ∷ d)
      then respond_with (
          validation_error_response id (say "Missing required fields")
            (("required", array (text "symbol" ∷ text "volume" ∷ text "type" ∷ [])) ∷ []))
      else (symbol_of h lib cfg id (get "symbol" (e ∷ d)) >>= checked_order (e ∷ d))

  unfoldable pub checked_answer : Option CheckResult → Exec S Response
  checked_answer none = lift (invalid id (say "Order check failed - MT5 returned None"))
  checked_answer (some c) = pure (check_response c)

  unfoldable pub order_check : Dict → Exec S Response
  order_check d = do
    r ← prepare_check d
    result ← serialized h (h.order_check_numbers r)
    checked_answer result

  unfoldable pub order_check_endpoint : Dict → World S → Response × World S
  order_check_endpoint d = handled id "order_check" (order_check d)

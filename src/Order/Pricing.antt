-- ===== src/Order/Pricing.antt =====
-- The order's type, volume and price (app/routes/order.py).
use mt5_gateway.Prelude.{
  ℕ, String, Bool, Option, none, some, [], ◌∷◌, ◌==◌, ◌||◌, str_eq, if◌then◌else◌,
}
use mt5_gateway.Json.{say, lit, Json, float, text, Dict, lookup, get}
use mt5_gateway.Flow.{Flow, value, reply, raised, attribute_error}
use mt5_gateway.Money.{SymbolInfo, normalize_volume, normalize_price}
use mt5_gateway.PreTrade.{validate_price_band}
use mt5_gateway.Errors.{RequestId}
use mt5_gateway.Validation.{Verdict, amount, validate_pending_price}
use mt5_gateway.Host.{
  Host, Library, Config, order_type_buy, order_type_sell, order_type_buy_limit,
  order_type_sell_limit, order_type_buy_stop, order_type_sell_stop, order_type_buy_stop_limit,
  order_type_sell_stop_limit, trade_action_deal, trade_action_pending,
}
use mt5_gateway.World.{Exec, pure, raise, lift, ◌>>=◌, ◌>>◌, serialized}
use mt5_gateway.Order.Key.{invalid, catch_numeric, catch_pre_trade}

-- `ORDER_TYPE_MAP`
unfoldable pub order_type_of : String → Option ℕ
order_type_of s =
    if str_eq s "BUY"
    then some order_type_buy
    else if str_eq s "SELL"
    then some order_type_sell
    else if str_eq s "BUY_LIMIT"
    then some order_type_buy_limit
    else if str_eq s "SELL_LIMIT"
    then some order_type_sell_limit
    else if str_eq s "BUY_STOP"
    then some order_type_buy_stop
    else if str_eq s "SELL_STOP"
    then some order_type_sell_stop
    else if str_eq s "BUY_STOP_LIMIT"
    then some order_type_buy_stop_limit
    else if str_eq s "SELL_STOP_LIMIT"
    then some order_type_sell_stop_limit
    else none

abbrev pub is_market : ℕ → Bool
is_market t = (t == order_type_buy) || (t == order_type_sell)

abbrev pub is_stop_limit : ℕ → Bool
is_stop_limit t = (t == order_type_buy_stop_limit) || (t == order_type_sell_stop_limit)

-- `data["type"].upper() if isinstance(data["type"], str) else str(data["type"])`; no text of a
-- value that is not a string names an order type.
abbrev pub type_name : Library → Json → Option String
type_name lib (text s) = some (lib.upper s)
type_name lib _ = none

-- Action, price and stop-limit price of an order.
pub record Priced : Type 0 where
  pub action : ℕ
  pub price : ℕ
  pub stoplimit : Option ℕ

module _ {S : Type 0} (h : Host S) (lib : Library) (cfg : Config) (id : RequestId) where
  -- `is_valid, error_msg = …; if not is_valid: return validation_error_response(error_msg)`
  abbrev pub accept : Verdict → Exec S (Unit {0})
  accept none = pure tt
  accept (some m) = lift (invalid id m)

  -- A market order goes at the current quote, whatever price the body names.
  unfoldable pub market_price : ℕ → String → SymbolInfo → Exec S Priced
  market_price t symbol info = do
    tick ← serialized h (h.symbol_info_tick symbol)
    elim tick [
      | none ↦ lift (invalid id (lit "Failed to get symbol price for " ∷ lit symbol ∷ []))
      | some q ↦ do
        let quote = if t == order_type_buy then q.ask else q.bid
        price ← lift (
            catch_numeric id (normalize_price lib.parse_number (float (amount quote)) info "price"))
        pure (record { action = trade_action_deal; price = price; stoplimit = none })
    ]

  unfoldable pub stoplimit_of : ℕ → Dict → SymbolInfo → Flow (Option ℕ)
  stoplimit_of t d info =
      if is_stop_limit t
      then (elim (lookup "stoplimit" d) [
        | none ↦ invalid id (say "stoplimit required for stop-limit orders")
        | some v ↦ elim (catch_numeric id (normalize_price lib.parse_number v info "price")) [
          | value p ↦ value (some p)
          | reply r ↦ reply r
          | raised e ↦ raised e
        ]
      ])
      else value none

  -- `validate_pending_price`: the tick is asked for first, the info only if there is a tick.
  unfoldable pub check_pending : ℕ → String → ℕ → Exec S (Unit {0})
  check_pending t symbol price = do
    tick ← serialized h (h.symbol_info_tick symbol)
    elim tick [
      | none ↦ accept (validate_pending_price t none none price)
      | some q ↦ do
        info ← serialized h (h.symbol_info symbol)
        accept (validate_pending_price t (some q) info price)
    ]

  -- The market price of the band: `.ask` of None raises.
  unfoldable pub check_band : ℕ → String → ℕ → Exec S (Unit {0})
  check_band t symbol price = do
    tick ← serialized h (h.symbol_info_tick symbol)
    elim tick [
      | none ↦ raise attribute_error
      | some q ↦
          let market =
            if (t == order_type_buy_limit) || (t == order_type_buy_stop) then q.ask else q.bid in
          lift (catch_pre_trade id (validate_price_band cfg.limits price market))
    ]

  unfoldable pub pending_price : ℕ → String → SymbolInfo → Dict → Exec S Priced
  pending_price t symbol info d = elim (lookup "price" d) [
    | none ↦ lift (invalid id (say "Price required for pending orders"))
    | some v ↦ do
      price ← lift (catch_numeric id (normalize_price lib.parse_number v info "price"))
      stoplimit ← lift (stoplimit_of t d info)
      check_pending t symbol price
      check_band t symbol price
      pure (record { action = trade_action_pending; price = price; stoplimit = stoplimit })
  ]

  unfoldable pub priced_with :
      Dict → String → ℕ → Option SymbolInfo → Exec S (SymbolInfo × ℕ × Priced)
  priced_with d symbol t none = lift (invalid id (say "Symbol info unavailable"))
  priced_with d symbol t (some info) = do
    volume ← lift (catch_numeric id (normalize_volume lib.parse_number (get "volume" d) info))
    priced ← (if is_market t then market_price t symbol info else pending_price t symbol info d)
    pure (info, volume, priced)

  -- Symbol info, volume and price.
  unfoldable pub priced_order : Dict → String → ℕ → Exec S (SymbolInfo × ℕ × Priced)
  priced_order d symbol t = serialized h (h.symbol_info symbol) >>= priced_with d symbol t

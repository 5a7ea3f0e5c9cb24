-- ===== src/Order/Prepare.antt =====
-- The middle of the handler: from the body to the trade request that the broker has checked. A
-- symbol that is not a text counts as one that cannot be selected; a comment that is not a text
-- raises, as slicing None or a number does.
use mt5_gateway.Prelude.{
  ℕ, String, Bool, Option, none, some, [], ◌∷◌, ◌==◌, ◌&&◌, ◌||◌, not, if◌then◌else◌, pos, is_some,
}
use mt5_gateway.Json.{
  Message, say, lit, Json, null, int, text, array, Dict, lookup, get, shown, shown_int,
}
use mt5_gateway.Flow.{Flow, value, reply, raised, type_error}
use mt5_gateway.Money.{SymbolInfo, finite_float, normalize_price}
use mt5_gateway.Convert.{truncated}
use mt5_gateway.PreTrade.{get_default}
use mt5_gateway.Errors.{RequestId, validation_error_response}
use mt5_gateway.Validation.{
  validate_sl_tp, accepted, refused, validate_type_filling, filling_mode_of,
}
use mt5_gateway.Symbols.{validate_symbol}
use mt5_gateway.OrderRequests.{build_trade_request}
use mt5_gateway.Host.{
  CheckResult, Host, Library, Config, CallError, TradeRequest, order_time_gtc, trade_retcode_done,
}
use mt5_gateway.World.{Exec, pure, respond_with, lift, gets, ◌>>=◌, ◌>>◌, serialized}
use mt5_gateway.Order.Key.{invalid, catch_numeric, catch_offset, magic_from_key}
use mt5_gateway.Order.Pricing.{Priced, type_name, order_type_of, accept, priced_order}
use mt5_gateway.Order.Expiry.{apply_expiration}

abbrev pub error_pieces : Option CallError → Message
error_pieces none = lit "None" ∷ []
error_pieces (some e) = lit "(" ∷ shown_int e.code ∷ lit ", " ∷ lit e.message ∷ lit ")" ∷ []

-- What the broker is asked to do, and what the audit record repeats of it.
pub record Prepared : Type 0 where
  pub request : TradeRequest
  pub symbol : String
  pub side : String
  pub action : ℕ
  pub volume : ℕ
  pub price : ℕ
  pub magic : Json

abbrev pub required_missing : Dict → Bool
required_missing d =
    not (is_some (lookup "symbol" d) && is_some (lookup "volume" d) && is_some (lookup "type" d))

module _ {S : Type 0} (h : Host S) (lib : Library) (cfg : Config) (id : RequestId) where
  unfoldable pub symbol_of : Json → Exec S String
  symbol_of (text s) = do
    ok ← validate_symbol h s
    if ok
        then pure s
        else lift (invalid id (lit "Symbol not found or not selectable: " ∷ lit s ∷ []))
  symbol_of v = lift (invalid id (lit "Symbol not found or not selectable: " ∷ shown v ∷ []))

  -- `sl` or `tp` of the body, normalised where it is not null
  unfoldable pub level : Dict → SymbolInfo → String → Flow (Option ℕ)
  level d info field = elim (get field d) [
    | null ↦ value none
    | v ↦ elim (normalize_price lib.parse_number v info field) [
      | value p ↦ value (some p)
      | reply r ↦ reply r
      | raised e ↦ raised e
    ]
  ]

  unfoldable pub filling : String → Dict → Exec S ℕ
  filling symbol d = do
    info ← serialized h (h.symbol_info symbol)
    elim (lookup "type_filling" d) [
      | none ↦ pure (filling_mode_of info)
      | some v ↦ elim (validate_type_filling lib v) [
        | accepted n ↦ pure n
        | refused m ↦ lift (invalid id m)
      ]
    ]

  unfoldable pub comment_of : Dict → Flow String
  comment_of d = elim (get_default d "comment" (text "")) [
    | text s ↦ value s
    | _ ↦ raised type_error
  ]

  -- 0 and TRADE_RETCODE_DONE pass.
  unfoldable pub check_passed : Option CheckResult → Exec S (Unit {0})
  check_passed none = do
    error ← gets (λ w. w.last_call_error)
    lift (invalid id (lit "Broker pre-trade check unavailable: " ∷ error_pieces error))
  check_passed (some c) =
      if (c.retcode == 0) || (c.retcode == trade_retcode_done)
      then pure tt
      else respond_with (
          validation_error_response id
            (lit "Broker pre-trade check rejected order: " ∷ lit c.comment ∷ [])
            (("retcode", int (pos c.retcode)) ∷ []))

  unfoldable pub broker_check : TradeRequest → Exec S (Unit {0})
  broker_check request = serialized h (h.order_check request) >>= check_passed

  unfoldable pub default_magic : Option String → Json
  default_magic none = int (pos 0)
  default_magic (some key) = int (pos (magic_from_key lib key))

  unfoldable pub with_expiration : Dict → String → TradeRequest → Exec S TradeRequest
  with_expiration d symbol request w =
      let (r, w') = apply_expiration h cfg lib (get "expiration" d) symbol request w in
      (catch_offset id r, w')

  -- Protection levels, filling mode, the request itself and its expiry, and the broker's check.
  unfoldable pub checked_request :
      Dict → Option String → String → String → ℕ → SymbolInfo → ℕ → Priced → Exec S Prepared
  checked_request d key symbol side t info volume priced = do
    sl ← lift (catch_numeric id (level d info "sl"))
    tp ← lift (catch_numeric id (level d info "tp"))
    deviation ← lift (
        catch_numeric id
          (finite_float lib.parse_number (get_default d "deviation" (int (pos 20))) "deviation"))
    accept h lib cfg id
        (if is_some sl || is_some tp then validate_sl_tp t priced.price sl tp else none)
    type_filling ← filling symbol d
    comment ← lift (comment_of d)
    let magic = get_default d "magic" (default_magic key)
    request ← with_expiration d symbol (
        build_trade_request priced.action symbol volume t priced.price (truncated deviation) magic
          comment order_time_gtc type_filling sl tp priced.stoplimit)
    broker_check request
    pure (record {
      request = request;
      symbol = symbol;
      side = side;
      action = priced.action;
      volume = volume;
      price = priced.price;
      magic = magic;
    })

  -- The name of the order type, and then its number.
  unfoldable pub typed_order : Dict → Option String → String → Option String → Exec S Prepared
  typed_order d key symbol none =
      lift (invalid id (lit "Invalid order type: " ∷ shown (get "type" d) ∷ []))
  typed_order d key symbol (some side) = elim (order_type_of side) [
    | none ↦ lift (invalid id (lit "Invalid order type: " ∷ shown (get "type" d) ∷ []))
    | some t ↦ do
      (info, volume, priced) ← priced_order h lib cfg id d symbol t
      checked_request d key symbol side t info volume priced
  ]

  unfoldable pub prepare : Dict → Option String → Exec S Prepared
  prepare d key =
      if required_missing d
      then respond_with (
          validation_error_response id (say "Missing required fields")
            (("required", array (text "symbol" ∷ text "volume" ∷ text "type" ∷ [])) ∷ []))
      else do
        symbol ← symbol_of (get "symbol" d)
        typed_order d key symbol (type_name lib (get "type" d))

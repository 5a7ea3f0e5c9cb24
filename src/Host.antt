-- ===== src/Host.antt =====
-- What the gateway calls and does not implement: the MetaTrader5 package, the process's clocks, the
-- parsers and hashes of Python's library, and the environment variables that configure it.
-- `S` is the state of all that lies outside; a call may change it, answer or raise.
use mt5_gateway.Prelude.{ℕ, String, Bool, Option, List, ◌∷◌, ℤ, pos}
use mt5_gateway.Json.{Number, finite, Json, int, float, text, Dict}
use mt5_gateway.Money.{SymbolInfo}
use mt5_gateway.ServerTime.{TimeConfig}

-- The documented values of the package's constants that the gateway compares or sends.
abbrev pub order_type_buy : ℕ
order_type_buy = 0

abbrev pub order_type_sell : ℕ
order_type_sell = 1

abbrev pub order_type_buy_limit : ℕ
order_type_buy_limit = 2

abbrev pub order_type_sell_limit : ℕ
order_type_sell_limit = 3

abbrev pub order_type_buy_stop : ℕ
order_type_buy_stop = 4

abbrev pub order_type_sell_stop : ℕ
order_type_sell_stop = 5

abbrev pub order_type_buy_stop_limit : ℕ
order_type_buy_stop_limit = 6

abbrev pub order_type_sell_stop_limit : ℕ
order_type_sell_stop_limit = 7

abbrev pub trade_action_deal : ℕ
trade_action_deal = 1

abbrev pub trade_action_pending : ℕ
trade_action_pending = 5

abbrev pub trade_action_sltp : ℕ
trade_action_sltp = 6

abbrev pub trade_action_modify : ℕ
trade_action_modify = 7

abbrev pub trade_action_remove : ℕ
trade_action_remove = 8

abbrev pub order_filling_fok : ℕ
order_filling_fok = 0

abbrev pub order_filling_ioc : ℕ
order_filling_ioc = 1

abbrev pub order_filling_return : ℕ
order_filling_return = 2

abbrev pub order_time_gtc : ℕ
order_time_gtc = 0

abbrev pub order_time_specified : ℕ
order_time_specified = 2

abbrev pub trade_retcode_done : ℕ
trade_retcode_done = 10009

-- The tuple of `last_error()`.
pub record CallError : Type 0 where
  pub code : ℤ
  pub message : String

pub record Tick : Type 0 where
  pub bid : ℕ
  pub ask : ℕ
  pub time : ℕ
  pub time_msc : ℕ

-- The dict that `order_check` and `order_send` get; an absent key is none.
pub record TradeRequest : Type 0 where
  pub action : ℕ
  pub symbol : Option String
  pub volume : Option ℕ
  pub type : Option ℕ
  pub price : Option ℕ
  pub deviation : Option Json
  pub magic : Option Json
  pub comment : Option Json
  pub type_time : Option ℕ
  pub type_filling : Option ℕ
  pub sl : Option ℕ
  pub tp : Option ℕ
  pub stoplimit : Option ℕ
  pub expiration : Option ℤ
  pub position : Option ℕ
  pub order : Option ℕ

-- The dict that changes a pending order: the keys of `base`, and the three numbers, which need not be
-- finite.
pub record ModifyRequest : Type 0 where
  pub base : TradeRequest
  pub price : Number
  pub sl : Number
  pub tp : Number

-- The dict of a dry run: the keys of `base`, and the numbers of the body, which need not be finite.
pub record CheckRequest : Type 0 where
  pub base : TradeRequest
  pub volume : Number
  pub price : Number
  pub sl : Option Number
  pub tp : Option Number

-- The result of `order_check`; `rest` holds the fields that the gateway only passes on.
pub record CheckResult : Type 0 where
  pub retcode : ℕ
  pub comment : String
  pub rest : Dict

-- The result of `order_send`; `rest` holds the fields that the gateway only passes on.
pub record SendResult : Type 0 where
  pub retcode : ℕ
  pub deal : ℕ
  pub order : ℕ
  pub volume : ℕ
  pub price : ℕ
  pub comment : String
  pub rest : Dict

-- `result._asdict()`
abbrev pub as_dict : SendResult → Dict
as_dict r =
    ("retcode", int (pos r.retcode))
    ∷ ("deal", int (pos r.deal))
    ∷ ("order", int (pos r.order))
    ∷ ("volume", float (finite (pos r.volume)))
    ∷ ("price", float (finite (pos r.price)))
    ∷ ("comment", text r.comment)
    ∷ r.rest

pub record Position : Type 0 where
  pub ticket : ℕ
  pub type : ℕ
  pub symbol : String
  pub volume : ℕ
  pub price_open : ℕ
  pub price_current : ℕ
  pub sl : ℕ
  pub tp : ℕ
  pub magic : ℕ

pub record Deal : Type 0 where
  pub ticket : ℕ
  pub order : ℕ
  pub entry : ℕ
  pub price : ℕ
  pub volume : ℕ
  pub time_msc : ℕ

-- A deal with what the history endpoints read of it; `row` is its `_asdict()`.
pub record DealRow : Type 0 where
  pub time : ℕ
  pub time_msc : ℕ
  pub entry : ℕ
  pub type : ℕ
  pub symbol : String
  pub comment : String
  pub volume : ℕ
  pub price : ℕ
  pub profit : ℤ
  pub commission : ℤ
  pub swap : ℤ
  pub magic : ℤ
  pub row : Dict

-- A pending order.
pub record Order : Type 0 where
  pub ticket : ℕ
  pub type : ℕ
  pub symbol : String
  pub price_open : ℕ
  pub sl : ℕ
  pub tp : ℕ
  pub type_time : ℕ
  pub time_expiration : ℕ

-- The account's login number.
abbrev pub Account : Type 0
Account = ℕ

-- What `initialize` is called with on a reconnect: login, password and server.
abbrev pub Credentials : Type 0
Credentials = Option (ℤ × String × String)

pub data Answer {ℓ} (A : Type ℓ) : Type ℓ where
  gives : A → Answer A
  raises : String → Answer A

abbrev pub Call : Type 0 → Type 0 → Type 0
Call S A = S → Answer A × S

-- Functions of Python's library that the gateway applies to its inputs.
pub record Library : Type 0 where
  -- `Decimal(text)` and `float(text)`
  pub parse_number : String → Option Number
  -- `int(text)`
  pub parse_int : String → Option ℤ
  pub upper : String → String
  pub strip : String → String
  -- pandas' comparison of a column of integers with a value, one answer for each row
  pub column_equals : List ℕ → Json → Option (List Bool)
  -- `request_fingerprint`'s json.dumps and sha256, over the dict without `client_order_id`
  pub digest : Dict → String
  -- the four bytes of blake2s, as a number
  pub blake2s : String → ℕ

-- The pre-trade limits (app/pretrade.py), the fill confirmation and the time settings.
pub record PreTradeLimits : Type 0 where
  pub symbols : List String
  pub max_volume : ℕ
  pub max_price_deviation_pct : ℕ
  pub max_deviation : ℕ

pub record Config : Type 0 where
  pub limits : PreTradeLimits
  pub time : TimeConfig
  pub fill_confirm_timeout_ms : ℕ
  pub fill_confirm_poll_ms : ℕ
  pub derive_attempts : ℕ
  pub derive_delay_ms : ℕ
  -- the connection's settings, and the polls of a (re)connect for the broker's offset
  pub max_reconnect_attempts : ℕ
  pub base_delay_ms : ℕ
  pub verify_ttl_ms : ℕ
  pub cooldown_base_ms : ℕ
  pub cooldown_max_ms : ℕ
  pub time_derive_attempts : ℕ
  pub time_derive_delay_ms : ℕ
  pub time_reference_symbol : String

-- The outside world. `monotonic` and `clock` are the two clocks, in milliseconds.
pub record Host (S : Type 0) : Type 0 where
  pub monotonic : S → ℕ × S
  pub clock : S → ℕ × S
  pub sleep : ℕ → S → S
  pub last_error : Call S CallError
  pub symbol_select : String → Call S Bool
  pub symbol_info : String → Call S (Option SymbolInfo)
  pub symbol_info_tick : String → Call S (Option Tick)
  pub order_check : TradeRequest → Call S (Option CheckResult)
  -- the same function on the request of a dry run
  pub order_check_numbers : CheckRequest → Call S (Option CheckResult)
  pub order_send : TradeRequest → Call S (Option SendResult)
  -- the arguments after the first are symbol, volume and price(s)
  pub order_calc_margin : ℕ → String → Number → Number → Call S (Option Number)
  pub order_calc_profit : ℕ → String → Number → Number → Number → Call S (Option Number)
  -- the same function on a request that changes an order
  pub order_send_modify : ModifyRequest → Call S (Option SendResult)
  -- the ticket that the package reads from a value
  pub ticket_of_value : Json → Call S ℕ
  pub positions_get : ℕ → Call S (Option (List Position))
  pub deals_of_ticket : ℕ → Call S (Option (List Deal))
  pub deals_of_position : ℕ → Call S (Option (List Deal))
  pub orders_get : ℕ → Call S (Option (List Order))
  pub positions_total : Call S (Option ℕ)
  pub all_positions : Call S (Option (List Position))
  pub all_orders : Call S (Option (List Order))
  -- the deals between two instants, in seconds
  pub deals_between : ℕ → ℕ → Call S (Option (List Deal))
  -- the history of a position and of a range in seconds, and the orders of a ticket as dicts
  pub history_of_position : ℤ → Call S (Option (List DealRow))
  pub history_between : ℤ → ℤ → Call S (Option (List DealRow))
  pub history_orders : ℤ → Call S (Option (List Dict))
  pub initialize : Credentials → Call S Bool
  pub account_info : Call S (Option Account)
  pub terminal_info : Call S (Option Dict)
  -- the names and the visibility of the symbols
  pub symbols_get : Call S (Option (List (String × Bool)))

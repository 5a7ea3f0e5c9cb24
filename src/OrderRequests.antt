-- ===== src/OrderRequests.antt =====
-- app/order_requests.py: the builders of trade requests.
pub mod Laws
use mt5_gateway.Prelude.{
  ℕ, String, Bool, true, false, Option, none, some, List, [], ◌∷◌, ◌==◌, ◌&&◌, ◌||◌, not, is_some,
  if◌then◌else◌, ℤ, pos, negsuc,
}
use mt5_gateway.Prelude.Texts.{prefix_of}
use mt5_gateway.Json.{
  Number, finite, Message, say, lit, Json, null, bool, int, float, text, Dict, lookup,
}
use mt5_gateway.Flow.{
  Exn, order_request_error, value_error, type_error, Flow, value, reply, raised, ◌>>=◌, ◌>>◌,
  raise_if,
}
use mt5_gateway.Convert.{float_of}
use mt5_gateway.PreTrade.{get_default}
use mt5_gateway.Host.{Library, TradeRequest, Position}

abbrev pub max_comment_length : ℕ
max_comment_length = 25

-- The request with no key set.
abbrev pub bare_request : ℕ → TradeRequest
bare_request action = record {
  action = action;
  symbol = none;
  volume = none;
  type = none;
  price = none;
  deviation = none;
  magic = none;
  comment = none;
  type_time = none;
  type_filling = none;
  sl = none;
  tp = none;
  stoplimit = none;
  expiration = none;
  position = none;
  order = none;
}

unfoldable pub build_trade_request :
    (action : ℕ) (symbol : String) (volume order_type price : ℕ) (deviation : ℤ) (magic : Json)
    (comment : String) (type_time type_filling : ℕ) (sl tp stoplimit : Option ℕ)
    → TradeRequest
build_trade_request action symbol volume order_type price deviation magic comment type_time
      type_filling sl tp stoplimit =
    record (bare_request action) {
      symbol = some symbol;
      volume = some volume;
      type = some order_type;
      price = some price;
      deviation = some (int deviation);
      magic = some magic;
      comment = some (text (prefix_of max_comment_length comment));
      type_time = some type_time;
      type_filling = some type_filling;
      sl = sl;
      tp = tp;
      stoplimit = stoplimit;
    }

-- `v in (None, 0, 0.0)`; False equals 0.
abbrev is_nothing : Json → Bool
is_nothing null = true
is_nothing (bool b) = not b
is_nothing (int (pos n)) = n == 0
is_nothing (float (finite (pos n))) = n == 0
is_nothing _ = false

-- `except (TypeError, ValueError)`
abbrev numeric_field : {A : Type 0} → String → Flow A → Flow A
numeric_field field (raised value_error) =
    raised (order_request_error (lit field ∷ lit " must be numeric" ∷ []))
numeric_field field (raised type_error) =
    raised (order_request_error (lit field ∷ lit " must be numeric" ∷ []))
numeric_field field m = m

positive_level : String → String → Number → Flow ℕ
positive_level field clear_field n =
    let bad = raised (
      order_request_error (
        lit field
        ∷ lit " must be finite and positive; use "
        ∷ lit clear_field
        ∷ lit "=true to remove it"
        ∷ [])) in
    elim n [
      | finite a ↦ elim a [ pos k ↦ if k == 0 then bad else value k | negsuc k ↦ bad ]
      | _ ↦ bad
    ]

-- `if not any(field in data …): raise`
unfoldable pub require_level : Dict → Flow (Unit {0})
require_level d =
    raise_if
      (not (
        is_some (lookup "sl" d)
        || is_some (lookup "tp" d)
        || is_some (lookup "clear_sl" d)
        || is_some (lookup "clear_tp" d)))
      (order_request_error (say "Provide sl or tp, or explicitly clear one"))

module _ (lib : Library) where
  given_level : Dict → String → String → ℕ → Flow ℕ
  unfolding positive_level
  given_level d field clear_field current = elim (lookup field d) [
    | none ↦ value current
    | some v ↦ numeric_field field (float_of lib v) >>= positive_level field clear_field
  ]

  -- `clear_field` is `clear_sl` or `clear_tp`.
  unfoldable pub resolve_protection_level : Dict → String → String → ℕ → Flow ℕ
  unfolding given_level
  resolve_protection_level d field clear_field current =
      elim (get_default d clear_field (bool false)) [
        | bool clear ↦
            if clear
            then (elim (lookup field d) [
              | none ↦ value 0
              | some v ↦
                  if is_nothing v
                  then value 0
                  else raised (
                      order_request_error (
                        lit field
                        ∷ lit " cannot be set when "
                        ∷ lit clear_field
                        ∷ lit " is true"
                        ∷ []))
            ])
            else given_level d field clear_field current
        | _ ↦ raised (order_request_error (lit clear_field ∷ lit " must be a boolean" ∷ []))
      ]

  unfoldable pub build_sltp_request : Dict → Position → ℕ → Flow TradeRequest
  build_sltp_request d p action = do
    require_level d
    sl ← resolve_protection_level d "sl" "clear_sl" p.sl
    tp ← resolve_protection_level d "tp" "clear_tp" p.tp
    value (record (bare_request action) {
      symbol = some p.symbol;
      position = some p.ticket;
      sl = some sl;
      tp = some tp;
    })

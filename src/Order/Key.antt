-- ===== src/Order/Key.antt =====
-- The idempotency key of an order (app/routes/order.py), and the answers that end a handler early.
use mt5_gateway.Prelude.{
  ℕ, ◌^◌, ◌%◌, String, Bool, true, Option, none, some, [], leb, ◌==◌, ◌&&◌, not, str_eq,
  if◌then◌else◌, select,
}
use mt5_gateway.Prelude.Texts.{len}
use mt5_gateway.Json.{Message, say, Json, null, text, Dict, get, is_truthy}
use mt5_gateway.Flow.{
  numeric_validation_error, pre_trade_error, server_offset_unavailable, Flow, value, reply, raised,
}
use mt5_gateway.Errors.{RequestId, validation_error_response}
use mt5_gateway.Host.{Library}

-- `return validation_error_response(message)`
abbrev pub invalid {ℓ} : {A : Type ℓ} → RequestId → Message → Flow A
invalid id m = reply (validation_error_response id m [])

-- `except NumericValidationError as error: return validation_error_response(str(error))`, and the
-- same for PreTradeError and ServerOffsetUnavailable
abbrev pub catch_numeric : {A : Type 0} → RequestId → Flow A → Flow A
catch_numeric id (raised (numeric_validation_error m)) = invalid id m
catch_numeric id f = f

abbrev pub catch_pre_trade : {A : Type 0} → RequestId → Flow A → Flow A
catch_pre_trade id (raised (pre_trade_error m)) = invalid id m
catch_pre_trade id f = f

abbrev pub catch_offset : {A : Type 0} → RequestId → Flow A → Flow A
catch_offset id (raised (server_offset_unavailable m)) = invalid id m
catch_offset id f = f

abbrev header_value : Option String → Json
header_value none = null
header_value (some s) = text s

abbrev differs : Json → Json → Bool
differs (text s) (text t) = not (str_eq s t)
differs _ _ = true

-- `body_key and header_key and body_key != header_key`
unfoldable pub keys_differ : Json → Option String → Bool
keys_differ body header =
    is_truthy body && is_truthy (header_value header) && differs body (header_value header)

module _ (lib : Library) (id : RequestId) where
  -- From `body_key or header_key` on.
  unfoldable pub chosen_key : Json → Flow (Option String)
  chosen_key null = value none
  chosen_key (text s) =
      let key = lib.strip s in
      if leb 1 (len key) && leb (len key) 128
      then value (some key)
      else invalid id (say "client_order_id must contain 1 to 128 characters")
  chosen_key _ = invalid id (say "client_order_id must be a string")

  unfoldable pub idempotency_key : Dict → Option String → Flow (Option String)
  unfolding chosen_key keys_differ
  idempotency_key d header =
      let body = get "client_order_id" d in
      if keys_differ body header
      then invalid id (say "client_order_id and Idempotency-Key must match")
      else chosen_key (if is_truthy body then body else header_value header)

-- `request_fingerprint`: the intent without the place that the key was sent in.
unfoldable pub request_fingerprint : Library → Dict → String
request_fingerprint lib d = lib.digest (select (λ e. not (str_eq e.0 "client_order_id")) d)

-- `magic_from_key`: four bytes, and 1 for 0
unfoldable pub magic_from_key : Library → String → ℕ
magic_from_key lib key = let magic = lib.blake2s key % 2 ^ 32 in if magic == 0 then 1 else magic

-- ===== src/Order/Endpoint.antt =====
-- `send_market_order_endpoint` of app/routes/order.py. The store is a state of its own beside the
-- world, since only `begin`, `complete` and `abandon` touch it; a call of `complete` is followed by
-- the return at once, so it is made from what the body hands back. The `finally` clause abandons a
-- reservation that nothing completed.
use mt5_gateway.Prelude.{String, Option, none, some, [], ◌∷◌}
use mt5_gateway.Json.{Message, say, text, Dict, Response, respond}
use mt5_gateway.Flow.{
  Exn, order_request_error, numeric_validation_error, pre_trade_error, server_offset_unavailable,
  runtime_error, value_error, type_error, key_error, overflow_error, attribute_error, foreign_error,
  Flow, value, reply, raised, ◌>>◌ as and_then,
}
use mt5_gateway.Idempotency.{
  Decision, new, replay, conflict, StoredResponse, IdempotencyStore, begin, complete, abandon,
}
use mt5_gateway.PreTrade.{validate_order_intent}
use mt5_gateway.Errors.{RequestId, internal_error_response}
use mt5_gateway.Host.{Host, Library, Config}
use mt5_gateway.World.{World, ◌>>=◌}
use mt5_gateway.Order.Key.{invalid, catch_pre_trade, idempotency_key, request_fingerprint}
use mt5_gateway.Order.Prepare.{prepare}
use mt5_gateway.Order.Submit.{Submitted, submit}

-- `str(error)`; the texts of Python's own exceptions are not kept.
unfoldable pub exn_text : Exn → Message
exn_text (order_request_error m) = m
exn_text (numeric_validation_error m) = m
exn_text (pre_trade_error m) = m
exn_text (server_offset_unavailable m) = m
exn_text (runtime_error m) = m
exn_text (foreign_error s) = say s
exn_text value_error = say "ValueError"
exn_text type_error = say "TypeError"
exn_text key_error = say "KeyError"
exn_text overflow_error = say "OverflowError"
exn_text attribute_error = say "AttributeError"

-- The endings of the `try`: a value, an early return, and `except Exception`.
abbrev pub ending : RequestId → Flow Submitted → Submitted
ending id (value s) = s
ending id (reply r) = record { response = r; completed = none }
ending id (raised e) = record {
  response = internal_error_response id "send_order" (exn_text e);
  completed = none;
}

unfoldable pub conflict_response : String → String → Response
conflict_response error kind = respond 409 (("error", text error) ∷ ("error_type", text kind) ∷ [])

-- A begin that was not NEW: the stored response, or one of the two refusals.
unfoldable pub refusal : Decision × Option StoredResponse → Response
refusal (replay, some r) = record { status = r.status_code; body = r.payload }
refusal (conflict, _) =
    conflict_response "Idempotency key was already used with different parameters"
      "idempotency_conflict"
refusal _ =
    conflict_response "An order with this idempotency key is in progress" "idempotency_in_progress"

module _ {S : Type 0} (h : Host S) (lib : Library) (cfg : Config) (id : RequestId) where
  -- The checks before the store is asked; none for no key.
  unfoldable pub admit : Dict → Option String → Flow (Option String)
  admit [] header = invalid id (say "Order data is required")
  admit (e ∷ d) header =
      and_then (catch_pre_trade id (validate_order_intent lib cfg.limits (e ∷ d)))
        (idempotency_key lib id (e ∷ d) header)

  -- From the reservation on.
  unfoldable pub place : Dict → Option String → World S → Submitted × World S
  place d key w =
      let (result, w') = (prepare h lib cfg id d key >>= submit h cfg id key) w in
      (ending id result, w')

  -- `complete` where the body completed, `abandon` where it did not.
  unfoldable pub settle : String → String → Submitted → IdempotencyStore → IdempotencyStore
  settle key fp s store = elim s.completed [
    | some (payload, code) ↦ complete key fp payload code store
    | none ↦ abandon key fp store
  ]

  -- With a key, after `begin`: the body is carried out only if the answer is NEW.
  unfoldable pub after_begin :
      Dict
      → String
      → Decision × Option StoredResponse
      → IdempotencyStore
      → World S
      → Response × IdempotencyStore × World S
  after_begin d key (new, r) store w =
      let (done, w') = place d (some key) w in
      (done.response, settle key (request_fingerprint lib d) done store, w')
  after_begin d key answer store w = (refusal answer, store, w)

  -- `begin`, at the clock's reading.
  unfoldable pub reserved :
      Dict → String → IdempotencyStore → World S → Response × IdempotencyStore × World S
  reserved d key store w =
      let (now, s) = h.monotonic w.host in
      let (answer, store') = begin key (request_fingerprint lib d) now store in
      after_begin d key answer store' (record w { host = s })

  unfoldable pub send_market_order_endpoint :
      Dict → Option String → IdempotencyStore → World S → Response × IdempotencyStore × World S
  send_market_order_endpoint d header store w =
      let (_, s) = h.monotonic w.host in
      let started = record w { host = s } in
      elim (admit d header) [
        | reply r ↦ (r, store, started)
        | raised e ↦ (internal_error_response id "send_order" (exn_text e), store, started)
        | value key ↦ elim key [
          | none ↦ let (done, w') = place d none started in (done.response, store, w')
          | some k ↦ reserved d k store started
        ]
      ]

-- ===== src/Order/Submit.antt =====
-- The end of the handler: `order_send`, the records that are kept of it, and the response.
use mt5_gateway.Prelude.{
  ℕ, String, Option, none, some, [], ◌∷◌, ◌==◌, ◌&&◌, not, str_eq, if◌then◌else◌,
}
use mt5_gateway.Json.{
  say, lit, Json, bool, text, said, Dict, get, is_truthy, object, Response, respond,
}
use mt5_gateway.Retcodes.{is_success, is_ambiguous, classify_retcode, success_state}
use mt5_gateway.Errors.{RequestId, mt5_error_response, unknown_outcome_response}
use mt5_gateway.Host.{Host, Config, SendResult, as_dict, trade_action_deal}
use mt5_gateway.World.{AuditRecord, Exec, pure, gets, ◌>>=◌, ◌>>◌, serialized, monotonic, inc, emit}
use mt5_gateway.Order.Prepare.{Prepared}
use mt5_gateway.Order.Fill.{resolve_async_fill}

-- What `idempotency_store.complete` is called with before the handler returns: nothing, or the
-- payload and the status code.
pub record Submitted : Type 0 where
  pub response : Response
  pub completed : Option (Json × ℕ)

abbrev of_result : {A : Type 0} → Option SendResult → (SendResult → A) → Option A
of_result none f = none
of_result (some r) f = some (f r)

-- `order_audit.emit("broker_response", …)`; latency and time of the record are left out.
unfoldable pub audit_record : Option String → Prepared → Option SendResult → AuditRecord
audit_record key p r = record {
  event = "broker_response";
  client_order_id = key;
  symbol = p.symbol;
  side = p.side;
  mt5_ticket = of_result r (λ x. x.order);
  deal = of_result r (λ x. x.deal);
  volume_requested = p.volume;
  volume_filled = of_result r (λ x. x.volume);
  price_requested = p.price;
  price_filled = of_result r (λ x. x.price);
  retcode = of_result r (λ x. x.retcode);
  retcode_name = elim r [ none ↦ say "NONE" | some x ↦ (classify_retcode x.retcode).name ];
  magic = p.magic;
}

-- The response is stored as it is sent.
abbrev pub stored : Response → Submitted
stored r = record { response = r; completed = some (r.body, r.status) }

unfoldable pub action_word : ℕ → String
action_word action = if action == trade_action_deal then "executed" else "placed"

unfoldable pub success_payload : Option String → Prepared → SendResult → String → Dict → Dict
success_payload key p r source d =
    ("message", said (lit "Order " ∷ lit (action_word p.action) ∷ lit " successfully" ∷ []))
    ∷ ("state", text (success_state r.retcode))
    ∷ ("result", object d)
    ∷ ("sl_confirmed", get "sl" d)
    ∷ ("tp_confirmed", get "tp" d)
    ∷ ("partial_fill", bool (str_eq (success_state r.retcode) "partially_executed"))
    ∷ ("fill_price_source", text source)
    ∷ (elim key [ none ↦ [] | some k ↦ ("client_order_id", text k) ∷ [] ])

module _ {S : Type 0} (h : Host S) (cfg : Config) (id : RequestId) where
  -- The fill price and its source.
  unfoldable pub fill_of : Prepared → SendResult → Exec S (String × Dict)
  fill_of p r =
      if (p.action == trade_action_deal) && not (is_truthy (get "price" (as_dict r)))
      then (resolve_async_fill h cfg r (as_dict r) >>= λ found. elim found [
        | some f ↦ pure f
        | none ↦ pure ("unresolved", as_dict r)
      ])
      else pure ("order_send", as_dict r)

  unfoldable pub after_success : Option String → Prepared → SendResult → Exec S Submitted
  after_success key p r = do
    (source, d) ← fill_of p r
    pure (stored (respond 200 (success_payload key p r source d)))

  unfoldable pub after_send : Option String → Prepared → Option SendResult → Exec S Submitted
  after_send key p none = do
    error ← gets (λ w. w.last_call_error)
    pure (stored (unknown_outcome_response id "Send order" error))
  after_send key p (some r) =
      let info = classify_retcode r.retcode in
      if is_success info then after_success key p r else do
        inc "orders_failed_total" (("retcode_name", info.name) ∷ [])
        let response = mt5_error_response id "Send order" r
        pure (
            if is_ambiguous info
            then stored response
            else record { response = response; completed = none })

  unfoldable pub submit : Option String → Prepared → Exec S Submitted
  submit key p = do
    result ← serialized h (h.order_send p.request)
    latency ← monotonic h
    inc "orders_submitted_total" (("symbol", say p.symbol) ∷ ("side", say p.side) ∷ [])
    emit (audit_record key p result)
    after_send key p result

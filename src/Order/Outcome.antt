-- ===== src/Order/Outcome.antt =====
-- What becomes of an order once the broker has been asked (app/routes/order.py).
use mt5_gateway.Prelude.{
  [], ◌∷◌, ◌≡◌, refl, arith, String, Bool, true, false, Option, none, some, not, ◌&&◌, Bool-cases,
  inl, inr, if◌then◌else◌,
}
use mt5_gateway.Json.{say, Dict, Response, respond}
use mt5_gateway.Flow.{foreign_error, Flow, value, reply, raised}
use mt5_gateway.Retcodes.{is_success, is_ambiguous, classify_retcode}
use mt5_gateway.Errors.{mt5_error_response, RequestId, internal_error_response}
use mt5_gateway.Host.{Call, Host, Library, Config, SendResult, raises}
use mt5_gateway.World.{World, ◌>>=◌, serialized, inc}
use mt5_gateway.Order.Prepare.{Prepared, prepare}
use mt5_gateway.Order.Submit.{
  Submitted, stored, success_payload, fill_of, after_success, after_send, submit,
}
use mt5_gateway.Order.Endpoint.{exn_text, place}
use mt5_gateway.Order.Ends.{is_value, fill_of-Total}

-- The broker's answer says that no order was made and that none may be pending.
abbrev pub is_rejection : Option SendResult → Bool
is_rejection none = false
is_rejection (some r) =
    not (is_success (classify_retcode r.retcode)) && not (is_ambiguous (classify_retcode r.retcode))

-- What the store is told with the response.
abbrev pub kept : Option SendResult → Submitted → Submitted
kept r s =
    if is_rejection r then record { response = s.response; completed = none } else stored s.response

abbrev counted : {S : Type 0} → SendResult → World S → World S
counted r w = record w {
  metrics =
      ("orders_failed_total", ("retcode_name", (classify_retcode r.retcode).name) ∷ []) ∷ w.metrics;
}

module _ {S A : Type 0} (h : Host S) (call : Call S (Option A)) (w : World S) where
  serialized-raises :
      {e : String} {s : S}
      → call w.host ≡ (raises e, s)
      → serialized h call w ≡ (raised (foreign_error e), record w { host = s })
  unfolding serialized
  serialized-raises g = ground arith

module _ {S : Type 0} (h : Host S) (cfg : Config) (id : RequestId) where
  after_success-stored :
      (key : Option String) (p : Prepared) (r : SendResult) (w : World S)
      → (x : Response) × (v : World S) × (after_success h cfg id key p r w ≡ (value (stored x), v))
  unfolding after_success ◌>>=◌
  after_success-stored key p r w = go (fill_of h cfg id p r w) refl (fill_of-Total h cfg id p r w)
    where
      go :
          (x : Flow (String × Dict) × World S)
          → fill_of h cfg id p r w ≡ x
          → is_value x.0 ≡ true
          → (y : Response) × (v : World S) × (after_success h cfg id key p r w
              ≡ (value (stored y), v))
      go (value (source, d), v) f q = (respond 200 (success_payload key p r source d), v, rw f refl)
      go (reply b, v) f q = cc
      go (raised b, v) f q = cc

  -- Once the broker has answered `order_send`, or has given None for an answer, the handler comes
  -- to a response of its own, whatever the later look-ups for the fill answer or raise, and it
  -- stores exactly that response under the key unless the retcode is neither a success nor
  -- ambiguous; then nothing is stored.
  pub after_send_total :
      (key : Option String) (p : Prepared) (r : Option SendResult) (w : World S)
      → (s : Submitted) × (v : World S) × (after_send h cfg id key p r w ≡ (value s, v))
        × (s ≡ kept r s)
  unfolding after_send ◌>>=◌ inc
  after_send_total key p none w = (_, _, refl, refl)
  after_send_total key p (some r) w =
      let response = mt5_error_response id "Send order" r in
      elim (Bool-cases (is_success (classify_retcode r.retcode))) [
        | inl e ↦ let (x, v, f) = after_success-stored key p r w in (stored x, v, rw e f, rw e refl)
        | inr e ↦ elim (Bool-cases (is_ambiguous (classify_retcode r.retcode))) [
          | inl f ↦ (stored response, counted r w, rw (e, f) refl, rw (e, f) refl)
          | inr f ↦ (
            record { response = response; completed = none },
            counted r w,
            rw (e, f) refl,
            rw (e, f) refl,
          )
        ]
      ]

  submit-raises :
      (key : Option String) (p : Prepared) (u : World S) {e : String} {s : S}
      → h.order_send p.request u.host ≡ (raises e, s)
      → submit h cfg id key p u ≡ (raised (foreign_error e), record u { host = s })
  unfolding submit ◌>>=◌
  submit-raises key p u g = rw (serialized-raises h (h.order_send p.request) u g) refl

  -- A call of `order_send` that raises leaves the handler's body the same way that a fault before
  -- it does: with an internal error and with nothing to store.
  pub lost_send :
      (lib : Library) (d : Dict) (key : Option String) (w : World S) {p : Prepared} {u : World S}
      {e : String} {s : S}
      → prepare h lib cfg id d key w ≡ (value p, u)
      → h.order_send p.request u.host ≡ (raises e, s)
      → place h lib cfg id d key w ≡ (
        record { response = internal_error_response id "send_order" (say e); completed = none },
        record u { host = s },
      )
  unfolding place ◌>>=◌ exn_text
  lost_send lib d key w {p} {u} f g = rw (f, submit-raises key p u g) refl

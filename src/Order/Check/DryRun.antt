-- ===== src/Order/Check/DryRun.antt =====
-- A dry run sends nothing: what the terminal would do with an order makes no difference to it.
use mt5_gateway.Prelude.{
  ◌≡◌, refl, ap, ltb, ℕ, zero, suc, ◌-◌, String, Option, none, some, [], ◌∷◌, if◌then◌else◌,
}
use mathlib.Core.Path.{fun_ext}
use mt5_gateway.Json.{say, Json, null, text, array, Dict, get}
use mt5_gateway.Errors.{RequestId, validation_error_response}
use mt5_gateway.Host.{
  Call, TradeRequest, ModifyRequest, CheckRequest, SendResult, Host, Library, Config,
}
use mt5_gateway.World.{
  World, Exec, pure, respond_with, serialized, serialized_total, after_none, clock, sleep, ◌>>=◌,
  ◌>>◌,
}
use mt5_gateway.Symbols.{validate_symbol}
use mt5_gateway.Positions.Endpoints.{handled}
use mt5_gateway.Pending.Levels.{Magnitude}
use mt5_gateway.Order.Expiry.{
  advanced, read_tick_ms, derive_now, await_live_quote, derive_from_live_quote, set_expiration,
  apply_expiration,
}
use mt5_gateway.Order.Prepare.{required_missing, symbol_of, comment_of, with_expiration}
use mt5_gateway.Order.Check.{
  known_type, type_of_name, checked_type, checked_volume, checked_market, checked_against,
  checked_pending, optional_number, checked_filling, check_request_of, checked_order, prepare_check,
  checked_answer, order_check, order_check_endpoint, positive_number,
}

module _ {S : Type 0} (h : Host S) (send : TradeRequest → Call S (Option SendResult))
    (send_modify : ModifyRequest → Call S (Option SendResult)) where
  -- The same terminal, but for what it does with an order.
  abbrev pub resending : Host S
  resending = record h { order_send = send; order_send_modify = send_modify }

  module _ (cfg : Config) where
    await_live_quote-resending :
        (n : ℕ) (symbol : String) (previous : Option ℕ)
        → await_live_quote resending cfg n symbol previous
          ≡ await_live_quote h cfg n symbol previous
    unfolding await_live_quote read_tick_ms derive_now clock sleep serialized after_none
    await_live_quote-resending zero symbol previous = refl
    await_live_quote-resending (suc n) symbol previous =
        ap
          (λ (again : Option ℕ → Exec S (Unit {0})). do
            (if ltb 0 cfg.derive_delay_ms then sleep h cfg.derive_delay_ms else pure tt)
            current ← read_tick_ms h cfg symbol
            elim (advanced previous current) [
              | some t ↦ derive_now h cfg symbol (some t)
              | none ↦ again current
            ])
          (fun_ext (λ current. await_live_quote-resending n symbol current))

    derive-resending :
        (symbol : String)
        → derive_from_live_quote resending cfg symbol ≡ derive_from_live_quote h cfg symbol
    unfolding derive_from_live_quote read_tick_ms serialized after_none
    derive-resending symbol =
        ap (λ (rounds : Option ℕ → Exec S (Unit {0})). read_tick_ms h cfg symbol >>= rounds)
          (fun_ext
            (λ previous. await_live_quote-resending (cfg.derive_attempts - 1) symbol previous))

    set_expiration-resending :
        (lib : Library) (e : Json) (symbol : String) (r : TradeRequest)
        → set_expiration resending cfg lib e symbol r ≡ set_expiration h cfg lib e symbol r
    unfolding set_expiration clock
    set_expiration-resending lib e symbol r = simp (derive-resending)

    apply_expiration-resending :
        (lib : Library) (e : Json) (symbol : String) (r : TradeRequest)
        → apply_expiration resending cfg lib e symbol r ≡ apply_expiration h cfg lib e symbol r
    unfolding apply_expiration
    apply_expiration-resending lib null symbol r = refl
    apply_expiration-resending lib e symbol r = set_expiration-resending lib e symbol r

  module _ (lib : Library) (cfg : Config) (id : RequestId) where
    with_expiration-resending :
        (d : Dict) (symbol : String) (r : TradeRequest)
        → with_expiration resending lib cfg id d symbol r ≡ with_expiration h lib cfg id d symbol r
    unfolding with_expiration
    with_expiration-resending d symbol r =
        fun_ext λ w. rw (apply_expiration-resending cfg lib (get "expiration" d) symbol r) refl

    check_request_of-resending :
        (d : Dict) (symbol : String) (t : ℕ) (volume price : Magnitude)
        → check_request_of resending lib cfg id d symbol t volume price
          ≡ check_request_of h lib cfg id d symbol t volume price
    unfolding check_request_of optional_number checked_filling comment_of
    check_request_of-resending d symbol t volume price = simp (with_expiration-resending)

    checked_order-resending :
        (d : Dict) (symbol : String)
        → checked_order resending lib cfg id d symbol ≡ checked_order h lib cfg id d symbol
    unfolding checked_order checked_type known_type type_of_name checked_volume checked_market
        checked_pending checked_against positive_number serialized after_none
    checked_order-resending d symbol = simp (check_request_of-resending)

    prepare_check-resending :
        (d : Dict) → prepare_check resending lib cfg id d ≡ prepare_check h lib cfg id d
    unfolding prepare_check symbol_of validate_symbol serialized_total
    prepare_check-resending [] = refl
    prepare_check-resending (e ∷ d) =
        ap
          (λ (rest : String → Exec S CheckRequest).
            if required_missing (e ∷ d)
            then respond_with (
                validation_error_response id (say "Missing required fields")
                  (("required", array (text "symbol" ∷ text "volume" ∷ text "type" ∷ [])) ∷ []))
            else (symbol_of h lib cfg id (get "symbol" (e ∷ d)) >>= rest))
          (fun_ext (checked_order-resending (e ∷ d)))

    -- The answer and the whole effect of a dry run are the same whatever the terminal does with what
    -- it is sent, be it a trade request or the change of a pending order: nothing is sent.
    pub order_check_sends_nothing :
        (d : Dict) (w : World S)
        → order_check_endpoint resending lib cfg id d w ≡ order_check_endpoint h lib cfg id d w
    unfolding order_check_endpoint handled order_check checked_answer serialized after_none
    order_check_sends_nothing d w = simp (prepare_check-resending)

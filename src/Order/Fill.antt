-- ===== src/Order/Fill.antt =====
-- `_resolve_async_fill` of app/routes/order.py: a done market order without a price is looked up in
-- the deals and the positions until the deadline. The rounds are bounded by fuel; running out of it
-- gives none, which Order/Deadline.antt rules out for a clock that advances.
use mt5_gateway.Prelude.{
  ℕ, zero, suc, ◌+◌, String, Option, none, some, List, ◌∷◌, ltb, ◌==◌, not, if◌then◌else◌,
}
use mt5_gateway.Json.{float, Dict, get, put, is_truthy}
use mt5_gateway.Flow.{value, reply, raised}
use mt5_gateway.Validation.{amount}
use mt5_gateway.Host.{Host, Config, SendResult, Deal, Position}
use mt5_gateway.World.{Exec, pure, ◌>>=◌, ◌>>◌, serialized, monotonic, sleep}

-- `except Exception: …`, which goes on with `a`
abbrev pub rescue : {S A : Type 0} → A → Exec S A → Exec S A
rescue a m w =
    let (r, w') = m w in
    elim r [ raised e ↦ (value a, w') | value b ↦ (value b, w') | reply b ↦ (reply b, w') ]

-- Where the price came from, and the result with it filled in.
abbrev pub Found : Type 0
Found = Option (String × Dict)

-- `deals[0]`, if it has a price
unfoldable pub deal_found : Dict → Option (List Deal) → Found
deal_found d (some (x ∷ xs)) =
    if x.price == 0
    then none
    else (let priced = put "price" (float (amount x.price)) d in
        some (
          "deal",
          if is_truthy (get "volume" priced)
              then priced
              else put "volume" (float (amount x.volume)) priced,
        ))
deal_found d _ = none

unfoldable pub position_found : Dict → Option (List Position) → Found
position_found d (some (p ∷ ps)) =
    if p.price_open == 0
    then none
    else some ("position", put "price" (float (amount p.price_open)) d)
position_found d _ = none

module _ {S : Type 0} (h : Host S) (cfg : Config) (r : SendResult) where
  unfoldable pub look_at_deal : Dict → Exec S Found
  look_at_deal d =
      if r.deal == 0
      then pure none
      else do deals ← serialized h (h.deals_of_ticket r.deal); pure (deal_found d deals)

  unfoldable pub look_at_position : Dict → Exec S Found
  look_at_position d =
      if r.order == 0
      then pure none
      else do positions ← serialized h (h.positions_get r.order); pure (position_found d positions)

  -- One pass of the loop's `try`.
  unfoldable pub look : Dict → Exec S Found
  look d =
      rescue none
        do found ← look_at_deal d; elim found [ some f ↦ pure (some f) | none ↦ look_at_position d ]

  unfoldable pub poll_fill : ℕ → ℕ → Dict → Exec S (Option (String × Dict))
  poll_fill zero deadline d = pure none
  poll_fill (suc fuel) deadline d =
      let again = poll_fill fuel deadline d in
      do
        now ← monotonic h
        if not (ltb now deadline) then pure (some ("unresolved", d)) else do
          sleep h cfg.fill_confirm_poll_ms
          found ← look d
          elim found [ some f ↦ pure (some f) | none ↦ again ]

  -- A poll every millisecond at the most: the timeout bounds the rounds.
  unfoldable pub resolve_async_fill : Dict → Exec S (Option (String × Dict))
  resolve_async_fill d = do
    now ← monotonic h
    poll_fill (cfg.fill_confirm_timeout_ms + 1) (now + cfg.fill_confirm_timeout_ms) d

-- ===== src/Pending/Sound.antt =====
-- What a request that changes a pending order is known to satisfy (app/routes/order.py).
use mt5_gateway.Prelude.{◌≡◌, sym, ap, ℕ, some, List, ◌∷◌}
use mt5_gateway.Json.{Dict, get, lookup}
use mt5_gateway.Flow.{value}
use mt5_gateway.Errors.{RequestId}
use mt5_gateway.Host.{Order, ModifyRequest, TradeRequest, Host, Library, Config}
use mt5_gateway.World.{World, lift, serialized}
use mt5_gateway.Order.Steps.{after}
use mt5_gateway.Positions.Part.{value_of}
use mt5_gateway.Pending.Levels.{number_of}
use mt5_gateway.Pending.Modify.{
  Levels, new_levels, check_price, expiring, modify_base, prepare_modify,
}
use mt5_gateway.Pending.Steps.{
  Compared, Valid, Kept, AllRead, new_levels-AllRead, check_price-Compared, check_levels-Agrees,
  expiring-Kept, listed_order-value,
}

module _ {S : Type 0} (h : Host S) (lib : Library) (cfg : Config) (id : RequestId) where
  -- What a request that changes an order is known to satisfy.
  abbrev pub Sound : ℕ → Dict → Order → Levels → ModifyRequest → Type 0
  Sound ticket d o l r =
      (r.price ≡ number_of l.price)
      × (r.sl ≡ number_of l.sl)
      × (r.tp ≡ number_of l.tp)
      × AllRead h lib cfg id d o l
      × Compared h lib cfg id o l.price (lookup "price" d)
      × Valid h lib cfg id o l
      × Kept (get "expiration" d) o (modify_base ticket) r.base

  sound :
      (ticket : ℕ) (d : Dict) (o : Order) (l : Levels) (base : TradeRequest) {r : ModifyRequest}
      → AllRead h lib cfg id d o l
      → Compared h lib cfg id o l.price (lookup "price" d)
      → Valid h lib cfg id o l
      → Kept (get "expiration" d) o (modify_base ticket) base
      → record { base = base; price = number_of l.price; sl = number_of l.sl; tp = number_of l.tp }
        ≡ r
      → Sound ticket d o l r
  sound ticket d o l base {r} positive compared valid kept e =
      let same : base ≡ r.base = ap (λ x. x.base) e in
      (
        sym (ap (λ x. x.price) e),
        sym (ap (λ x. x.sl) e),
        sym (ap (λ x. x.tp) e),
        positive,
        compared,
        valid,
        rw⁻¹ same kept,
      )

  -- Where the preparation of a change ends in a request, the terminal listed an order for the ticket;
  -- each of the three numbers is the body's or, where the body has none, that order's own, none is
  -- below zero, and the price is not zero; a price that the body gives passed the comparison with a
  -- quote of the terminal; if the three numbers are finite, the levels above zero pass the check of a
  -- new order's; and without an expiry in the body the request keeps that of the order.
  pub prepare_modify-Sound :
      (ticket : ℕ) (d : Dict) (w : World S) {r : ModifyRequest} {v : World S}
      → prepare_modify h lib cfg id ticket d w ≡ (value r, v)
      → (o : Order) × (rest : List Order) × (u : World S) × (u' : World S) × (l : Levels)
        × (serialized h (h.orders_get ticket) u ≡ (value (some (o ∷ rest)), u'))
        × Sound ticket d o l r
  unfolding prepare_modify
  prepare_modify-Sound ticket d w e = after (lift _) _ e (λ _ u _ e1.
      after (serialized h (h.orders_get ticket)) _ e1 (λ orders u' asked e2.
        after (lift _) _ e2 (λ o u2 is_o e3.
          after (new_levels h lib cfg id d o) _ e3 (λ l u3 read e4.
            after (check_price h lib cfg id o l.price (lookup "price" d)) _ e4 (λ _ u4 compared e5.
              after (lift _) _ e5 (λ _ u5 checked e6.
                after (expiring h lib cfg id (get "expiration" d) o (modify_base ticket)) _ e6
                  (λ base _ kept e7.
                    let (rest, is_listed) =
                      listed_order-value h lib cfg id ticket orders (ap (λ x. x.0) is_o) in
                    (
                      o,
                      rest,
                      u,
                      u',
                      l,
                      rw is_listed at asked,
                      sound ticket d o l base (new_levels-AllRead h lib cfg id d o u2 read)
                          (check_price-Compared h lib cfg id o l.price _ u3 compared)
                          (check_levels-Agrees h lib cfg id o l.price l.sl l.tp
                            (ap (λ x. x.0) checked))
                          (expiring-Kept h lib cfg id _ o (modify_base ticket) u5 kept)
                          (value_of e7),
                    ))))))))

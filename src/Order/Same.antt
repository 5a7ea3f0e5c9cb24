-- ===== src/Order/Same.antt =====
-- What an expiry leaves as it is in a request (app/order_time.py).
use mt5_gateway.Prelude.{◌≡◌, arith, String}
use mt5_gateway.Json.{Json, null, Dict, get}
use mt5_gateway.Flow.{Flow, value}
use mt5_gateway.Errors.{RequestId}
use mt5_gateway.Host.{Host, Library, Config, TradeRequest}
use mt5_gateway.World.{gets, clock, World, lift, exec->>=-value}
use mt5_gateway.Order.Key.{catch_offset}
use mt5_gateway.Order.Expiry.{set_expiration, apply_expiration}
use mt5_gateway.Order.Prepare.{with_expiration}

module _ {S : Type 0} (h : Host S) (lib : Library) (cfg : Config) (id : RequestId) where
  catch_offset-value :
      (f : Flow TradeRequest) {r : TradeRequest} → catch_offset id f ≡ value r → f ≡ value r
  catch_offset-value f e = ground arith

  -- An expiry changes neither the volume, the comment, the symbol nor the type of a request.
  abbrev pub Same : TradeRequest → TradeRequest → Type 0
  Same r r' =
      (r'.volume ≡ r.volume)
      × (r'.comment ≡ r.comment)
      × (r'.symbol ≡ r.symbol)
      × (r'.type ≡ r.type)

  set_expiration-Same :
      (e : Json) (symbol : String) (r : TradeRequest) (w : World S) {r' : TradeRequest}
      {v : World S}
      → set_expiration h cfg lib e symbol r w ≡ (value r', v)
      → Same r r'
  unfolding set_expiration
  set_expiration-Same e symbol r w e0 =
      let (_, _, _, e1) = exec->>=-value (clock h) _ e0 in
      let (_, _, _, e2) = exec->>=-value (gets _) _ e1 in
      let (_, _, _, e3) = exec->>=-value _ _ e2 in
      let (_, _, _, e4) = exec->>=-value (clock h) _ e3 in
      let (_, _, _, e5) = exec->>=-value (gets _) _ e4 in
      let (_, _, _, e6) = exec->>=-value _ _ e5 in
      let (_, _, _, e7) = exec->>=-value (lift _) _ e6 in
      (ground (arith, e7), ground (arith, e7), ground (arith, e7), ground (arith, e7))

  apply_expiration-Same :
      (e : Json) (symbol : String) (r : TradeRequest) (w : World S) {r' : TradeRequest}
      {v : World S}
      → apply_expiration h cfg lib e symbol r w ≡ (value r', v)
      → Same r r'
  unfolding apply_expiration
  apply_expiration-Same null symbol r w e = (ground arith, ground arith, ground arith, ground arith)
  apply_expiration-Same x symbol r w e = set_expiration-Same x symbol r w e

  pub with_expiration-Same :
      (d : Dict) (symbol : String) (r : TradeRequest) (w : World S) {r' : TradeRequest}
      {v : World S}
      → with_expiration h lib cfg id d symbol r w ≡ (value r', v)
      → Same r r'
  unfolding with_expiration
  with_expiration-Same d symbol r w {r'} {v} e =
      let x = get "expiration" d in
      apply_expiration-Same x symbol r w (go (apply_expiration h cfg lib x symbol r w) e)
    where
      go :
          (o : Flow TradeRequest × World S)
          → ◌≡◌ {A = Flow TradeRequest × World S} (catch_offset id o.0, o.1) (value r', v)
          → ◌≡◌ {A = Flow TradeRequest × World S} o (value r', v)
      go (f, u) e = ground (arith, catch_offset-value f)

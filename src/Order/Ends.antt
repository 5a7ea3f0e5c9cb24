-- ===== src/Order/Ends.antt =====
-- Which parts of the order's handler always end in a value (app/routes/order.py).
use mt5_gateway.Prelude.{
  not, ◌&&◌, ltb, ℕ, zero, suc, ◌==◌, ◌≡◌, refl, inl, inr, arith, Bool, true, false, Option, some,
  none, Bool-cases, if◌then◌else◌,
}
use mt5_gateway.Json.{is_truthy, get, Dict}
use mt5_gateway.Flow.{Flow, value, reply, raised}
use mt5_gateway.Errors.{RequestId}
use mt5_gateway.Host.{trade_action_deal, Call, Host, Config, SendResult, as_dict}
use mt5_gateway.World.{after_none, World, Exec, pure, ◌>>=◌, serialized, monotonic, sleep, continue}
use mt5_gateway.Order.Prepare.{Prepared}
use mt5_gateway.Order.Fill.{
  Found, look_at_deal, look_at_position, look, poll_fill, resolve_async_fill, rescue,
}
use mt5_gateway.Order.Submit.{fill_of}

abbrev pub is_reply : {A : Type 0} → Flow A → Bool
is_reply (reply r) = true
is_reply _ = false

abbrev pub is_value : {A : Type 0} → Flow A → Bool
is_value (value a) = true
is_value _ = false

-- `m` never answers the request, and `m` always ends in a value.
abbrev pub Quiet : {S A : Type 0} → Exec S A → Type 0
Quiet {S} {A} m = (w : World S) → is_reply (m w).0 ≡ false

abbrev pub Total : {S A : Type 0} → Exec S A → Type 0
Total {S} {A} m = (w : World S) → is_value (m w).0 ≡ true

module _ {S A B : Type 0} where
  continue-Quiet :
      (r : Flow A) (f : A → Exec S B) (w : World S)
      → is_reply r ≡ false
      → ((a : A) → Quiet (f a))
      → is_reply (continue r f w).0 ≡ false
  continue-Quiet (value a) f w q h = h a w
  continue-Quiet (reply r) f w q h = cc
  continue-Quiet (raised e) f w q h = refl

  pub Quiet-bind :
      (m : Exec S A) (f : A → Exec S B) → Quiet m → ((a : A) → Quiet (f a)) → Quiet (m >>= f)
  unfolding ◌>>=◌
  Quiet-bind m f qm qf w = continue-Quiet (m w).0 f (m w).1 (qm w) qf

  continue-Total :
      (r : Flow A) (f : A → Exec S B) (w : World S)
      → is_value r ≡ true
      → ((a : A) → Total (f a))
      → is_value (continue r f w).0 ≡ true
  continue-Total (value a) f w q h = h a w
  continue-Total (reply r) f w q h = cc
  continue-Total (raised e) f w q h = cc

  pub Total-bind :
      (m : Exec S A) (f : A → Exec S B) → Total m → ((a : A) → Total (f a)) → Total (m >>= f)
  unfolding ◌>>=◌
  Total-bind m f tm tf w = continue-Total (m w).0 f (m w).1 (tm w) tf

module _ {S A : Type 0} where
  pub if-Total : (b : Bool) (m n : Exec S A) → Total m → Total n → Total (if b then m else n)
  if-Total true m n tm tn = tm
  if-Total false m n tm tn = tn

module _ {S A B : Type 0} where
  pub found-Total :
      (found : Option B) (m : Exec S A) (f : B → Exec S A)
      → Total m
      → ((b : B) → Total (f b))
      → Total (elim found as (λ x. Exec S A) [ none ↦ m | some b ↦ f b ])
  found-Total none m f tm tf = tm
  found-Total (some b) m f tm tf = tf b

module _ {S A : Type 0} where
  pub rescue-Total : (a : A) (m : Exec S A) → Quiet m → Total (rescue a m)
  rescue-Total a m q w = go (m w) refl (q w)
    where
      go :
          (r : Flow A × World S) → m w ≡ r → is_reply r.0 ≡ false → is_value (rescue a m w).0 ≡ true
      go (value b, v) e q = rw (e, rescue) refl
      go (reply b, v) e q = cc
      go (raised b, v) e q = rw (e, rescue) refl

module _ {S : Type 0} (A : Type 0) (h : Host S) where
  after_none-Quiet : (w : World S) → is_reply (after_none h {A = A} w).0 ≡ false
  unfolding after_none
  after_none-Quiet w = ground arith

  pub serialized-Quiet : (call : Call S (Option A)) → Quiet (serialized h call)
  unfolding serialized after_none
  serialized-Quiet call w = ground arith

module _ {S : Type 0} (h : Host S) (cfg : Config) (id : RequestId) where
  look_at_deal-Quiet : (r : SendResult) (d : Dict) → Quiet (look_at_deal h cfg r d)
  unfolding look_at_deal
  look_at_deal-Quiet r d w = elim (Bool-cases (r.deal == 0)) [
    | inl e ↦ ground arith
    | inr e ↦
        rw e (Quiet-bind _ _ (serialized-Quiet _ h (h.deals_of_ticket r.deal)) (λ a v. refl) w)
  ]

  look_at_position-Quiet : (r : SendResult) (d : Dict) → Quiet (look_at_position h cfg r d)
  unfolding look_at_position
  look_at_position-Quiet r d w = elim (Bool-cases (r.order == 0)) [
    | inl e ↦ ground arith
    | inr e ↦ rw e (Quiet-bind _ _ (serialized-Quiet _ h (h.positions_get r.order)) (λ a v. refl) w)
  ]

  pub look-Total : (r : SendResult) (d : Dict) → Total (look h cfg r d)
  unfolding look
  look-Total r d = rescue-Total none _ (Quiet-bind _ _ (look_at_deal-Quiet r d) go)
    where
      go :
          (found : Found)
          → Quiet (elim found as (λ x. Exec S Found) [
            | none ↦ look_at_position h cfg r d
            | some f ↦ pure (some f)
          ])
      go none = look_at_position-Quiet r d
      go (some f) = λ w. refl

  poll_fill-Total :
      (r : SendResult) (fuel deadline : ℕ) (d : Dict) → Total (poll_fill h cfg r fuel deadline d)
  unfolding poll_fill monotonic sleep
  poll_fill-Total r zero deadline d = λ w. refl
  poll_fill-Total r (suc fuel) deadline d =
      let again = poll_fill-Total r fuel deadline d in
      Total-bind (monotonic h) _ (λ w. refl)
        (λ now w. elim (Bool-cases (ltb now deadline)) [
          | inl e ↦ rw e (
              Total-bind (sleep h cfg.fill_confirm_poll_ms) _ (λ v. refl)
                (λ t. Total-bind (look h cfg r d) _ (look-Total r d) (λ found.
                  found-Total found (poll_fill h cfg r fuel deadline d) (λ f. pure (some f)) again
                    (λ f v. refl)))
                w)
          | inr e ↦ rw e refl
        ])

  resolve_async_fill-Total : (r : SendResult) (d : Dict) → Total (resolve_async_fill h cfg r d)
  unfolding resolve_async_fill monotonic
  resolve_async_fill-Total r d =
      Total-bind (monotonic h) _ (λ w. refl) (λ now. poll_fill-Total r _ _ d)

  -- Whatever the look-ups answer or raise, the fill's price ends in a value.
  pub fill_of-Total : (p : Prepared) (r : SendResult) → Total (fill_of h cfg id p r)
  unfolding fill_of
  fill_of-Total p r =
      if-Total ((p.action == trade_action_deal) && not (is_truthy (get "price" (as_dict r))))
        (resolve_async_fill h cfg r (as_dict r) >>= λ found. elim found [
          | some f ↦ pure f
          | none ↦ pure ("unresolved", as_dict r)
        ])
        (pure ("order_send", as_dict r))
        (Total-bind (resolve_async_fill h cfg r (as_dict r)) _ (resolve_async_fill-Total r _)
          (λ found.
            found-Total found (pure ("unresolved", as_dict r)) pure (λ w. refl) (λ f w. refl)))
        (λ w. refl)

-- ===== src/Connection/Attach.antt =====
-- How the attempts to attach to the terminal end (`initialize` of app/mt5_connection.py).
use mt5_gateway.Prelude.{
  ◌≡◌, ◌⊎◌, ◌<◌, arith, sym, inl, inr, refl, ℕ, zero, suc, ◌+◌, Bool, true, false, some,
  if◌then◌else◌,
}
use mathlib.Core.Path.{subst}
use mt5_gateway.Flow.{Flow, value, reply, raised}
use mt5_gateway.Host.{Credentials, Host, Library, Config}
use mt5_gateway.World.{World, Exec, pure, disconnected, continue, ◌>>=◌, ◌>>◌}
use mt5_gateway.Order.Ends.{is_value, Total-bind}
use mt5_gateway.Connection.{set_status, drop_session}
use mt5_gateway.Connection.Quiet.{attempt-Total, announce-Total, pause-Total}
use mt5_gateway.Connection.Session.{
  announce, attempt, pause, attempts, initialize, attempts_exhausted,
}

module _ {S : Type 0} (h : Host S) (lib : Library) (cfg : Config) (credentials : Credentials) where
  -- One attempt, the `number` before it, ended in this answer.
  abbrev pub Attempted : ℕ → Bool → World S → World S → Type 0
  Attempted number done w v =
      (announce h lib cfg number >>= λ _. attempt h lib cfg credentials) w ≡ (value done, v)

  -- So many attempts in a row failed, with the pause behind each.
  abbrev pub Failed : (failures number : ℕ) → World S → World S → Type 0
  Failed zero number w v = w ≡ v
  Failed (suc n) number w v =
      (u : World S) × (u' : World S) × Attempted number false w u
      × (pause h lib cfg number u ≡ (value tt, u'))
      × Failed n (number + 1) u' v

  -- The session that all attempts left behind.
  abbrev pub Exhausted : World S → Type 0
  Exhausted v = (v.status ≡ disconnected) × (v.last_error ≡ some (attempts_exhausted cfg))

  -- An attempt succeeds after fewer failures than there are attempts, or all fail.
  abbrev pub Ends : (left number : ℕ) → Flow Bool × World S → World S → Type 0
  Ends left number r w =
      ((failures : ℕ) × (u : World S) × (v : World S) × (failures < left)
        × Failed failures number w u
        × Attempted (number + failures) true u v
        × (r ≡ (value true, v)))
      ⊎ ((u : World S) × (v : World S) × Failed left number w u
          × (drop_session h (attempts_exhausted cfg) u ≡ (value false, v))
          × (r ≡ (value false, v))
          × Exhausted v)

  -- One more failure in front.
  Ends-suc :
      (left number : ℕ) (r : Flow Bool × World S) (w u u' : World S)
      → Attempted number false w u
      → pause h lib cfg number u ≡ (value tt, u')
      → Ends left (number + 1) r u'
      → Ends (suc left) number r w
  Ends-suc left number r w u u' failed paused (inl (n, x, v, less, before, done, e)) = inl (
    suc n,
    x,
    v,
    omega (arith, less),
    (u, u', failed, paused, before),
    subst (λ k. Attempted k true x v) (omega arith) done,
    e,
  )
  Ends-suc left number r w u u' failed paused (inr (x, v, before, dropped, e, gone)) =
      inr (x, v, (u, u', failed, paused, before), dropped, e, gone)

  paused-Ends :
      (left number : ℕ) (w u : World S) (p : Flow (Unit {0}) × World S)
      → Attempted number false w u
      → pause h lib cfg number u ≡ p
      → is_value p.0 ≡ true
      → ((u' : World S)
          → Ends left (number + 1) (attempts h lib cfg credentials left (number + 1) u') u')
      → Ends
          (suc left)
          number
          (continue p.0 (λ _. attempts h lib cfg credentials left (number + 1)) p.1)
          w
  paused-Ends left number w u (value t, u') failed paused total again =
      Ends-suc left number _ w u u' failed paused (again u')
  paused-Ends left number w u (reply x, u') failed paused total again = cc
  paused-Ends left number w u (raised x, u') failed paused total again = cc

  attempted-Ends :
      (left number : ℕ) (w : World S) (a : Flow Bool × World S)
      → (announce h lib cfg number >>= λ _. attempt h lib cfg credentials) w ≡ a
      → is_value a.0 ≡ true
      → ((u' : World S)
          → Ends left (number + 1) (attempts h lib cfg credentials left (number + 1) u') u')
      → Ends
          (suc left)
          number
          (continue a.0
            (λ done.
              if done
              then pure true
              else (pause h lib cfg number >> attempts h lib cfg credentials left (number + 1)))
            a.1)
          w
  unfolding ◌>>=◌
  attempted-Ends left number w (value true, u) is total again =
      inl (0, w, u, omega arith, refl, subst (λ k. Attempted k true w u) (omega arith) is, refl)
  attempted-Ends left number w (value false, u) is total again =
      paused-Ends left number w u (pause h lib cfg number u) is refl
        (pause-Total h lib cfg number u) again
  attempted-Ends left number w (reply x, u) is total again = cc
  attempted-Ends left number w (raised x, u) is total again = cc

  bind_assoc :
      {A B C : Type 0} (m : Exec S A) (f : A → Exec S B) (g : B → Exec S C) (w : World S)
      → (m >>= λ a. f a >>= g) w ≡ ((m >>= f) >>= g) w
  unfolding ◌>>=◌
  bind_assoc m f g w = go (m w)
    where
      go :
          (r : Flow _ × World S)
          → continue r.0 (λ a. f a >>= g) r.1
            ≡ continue (continue r.0 f r.1).0 g (continue r.0 f r.1).1
      go (value a, v) = refl
      go (reply a, v) = refl
      go (raised a, v) = refl

  attempts-Ends :
      (left number : ℕ) (w : World S)
      → Ends left number (attempts h lib cfg credentials left number w) w
  unfolding attempts drop_session set_status ◌>>=◌
  attempts-Ends zero number w = inr (w, _, refl, refl, refl, (refl, refl))
  attempts-Ends (suc left) number w =
      let tried = announce h lib cfg number >>= λ _. attempt h lib cfg credentials in
      subst (λ r. Ends (suc left) number r w)
        (sym (bind_assoc (announce h lib cfg number) (λ _. attempt h lib cfg credentials) _ w))
        (attempted-Ends left number w (tried w) refl
          (Total-bind (announce h lib cfg number) _ (announce-Total h lib cfg number)
            (λ t. attempt-Total h lib cfg credentials) w)
          (attempts-Ends left (number + 1)))

  -- Whatever the terminal answers or raises, attaching to it ends, and ends in an answer: true, from
  -- an attempt that answered true after fewer failed ones than the configuration has attempts; or
  -- false, after exactly as many failed attempts as it has, with the session disconnected and the
  -- error saying how many there were.
  pub initialize-Ends :
      (w : World S) → Ends cfg.max_reconnect_attempts 0 (initialize h lib cfg credentials w) w
  unfolding initialize
  initialize-Ends = attempts-Ends cfg.max_reconnect_attempts 0

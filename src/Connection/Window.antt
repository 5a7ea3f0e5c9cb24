-- ===== src/Connection/Window.antt =====
-- The back-off window after a failed reconnect (app/mt5_connection.py, app/decorators.py).
use mt5_gateway.Prelude.{
  ◌≡◌, refl, arith, ℕ, suc, ◌+◌, ◌-◌, ◌*◌, ◌^◌, ◌≤◌, ◌<◌, leb, lt→ltb, false, if◌then◌else◌,
}
use native.Mathlib.Numerals.{unary_clauses}
use mt5_gateway.Flow.{Flow, reply}
use mt5_gateway.Errors.{RequestId}
use mt5_gateway.Host.{Credentials, Host, Library, Config}
use mt5_gateway.World.{World, Exec, is_connected, ◌>>=◌, monotonic}
use mt5_gateway.Connection.{reconnect_cooling_down, reconnect_delay}
use mt5_gateway.Connection.Session.{
  usable, ensure_connection, require_mt5_connection, unavailable_response,
}

-- The lower of two times.
abbrev lower : ℕ → ℕ → ℕ
lower a b = if leb a b then a else b

lower_twice : (m p q : ℕ) → q ≡ 2 * p → lower m q ≡ lower m (2 * lower m p)
lower_twice m p q e = ground (arith, e)

regroup : (b p : ℕ) → b * (p * 2) ≡ 2 * (b * p)
regroup b p = omega arith

twice_power : (b n : ℕ) → b * 2 ^ suc n ≡ 2 * (b * 2 ^ n)
twice_power b n = simp unary_clauses (regroup b (2 ^ n))

-- The first failure waits the base time, each further one twice as long as the one before it, and
-- none longer than the maximum.
reconnect_delay_doubles :
    {S : Type 0} (h : Host S) (cfg : Config) (n : ℕ)
    → (reconnect_delay h cfg 1 ≡ lower cfg.cooldown_max_ms cfg.cooldown_base_ms)
      × (reconnect_delay h cfg (n + 2)
          ≡ lower cfg.cooldown_max_ms (2 * reconnect_delay h cfg (n + 1)))
      × (reconnect_delay h cfg n ≤ cfg.cooldown_max_ms)
unfolding reconnect_delay
reconnect_delay_doubles h cfg n =
    let e : n + 2 - 1 ≡ suc n = omega arith in
    let f : n + 1 - 1 ≡ n = omega arith in
    (
      ground arith,
      rw (e, f) (lower_twice cfg.cooldown_max_ms _ _ (twice_power cfg.cooldown_base_ms n)),
      ground arith,
    )

-- Inside the window a request on a disconnected session is answered 503 at once: its handler does
-- not run, the terminal is not called, and the clock is all that was read.
require_mt5_connection_waits :
    {S A : Type 0} (h : Host S) (lib : Library) (cfg : Config) (relogin : Flow Credentials)
    (id : RequestId) (handler : Exec S A) (w : World S)
    → is_connected w ≡ false
    → (h.monotonic w.host).0 < w.reconnect_not_before
    → require_mt5_connection h lib cfg relogin id handler w ≡ (
      reply (unavailable_response h lib cfg relogin id w.last_error w.status),
      record w { host = (h.monotonic w.host).1 },
    )
unfolding require_mt5_connection ensure_connection usable reconnect_cooling_down monotonic ◌>>=◌
require_mt5_connection_waits h lib cfg relogin id handler w down early =
    rw (down, lt→ltb _ _ early) refl

-- ===== src/Connection/Lock.antt =====
-- The reconnect lock (`ensure_connection` of app/mt5_connection.py).
use mt5_gateway.Prelude.{
  ◌≡◌, refl, ◌∙◌, inl, inr, arith, Bool, true, false, Option, none, some, if◌then◌else◌, Bool-cases,
}
use mt5_gateway.Json.{Message}
use mt5_gateway.Flow.{Flow, value, reply, raised, Exn}
use mt5_gateway.Host.{Call, Account, Credentials, Host, Library, Config}
use mt5_gateway.World.{
  ConnectionStatus, connected, disconnected, reconnecting, World, Exec, gets, is_connected,
  continue, ◌>>=◌, serialized, after_none, note_connection_failure, monotonic,
}
use mt5_gateway.Order.Endpoint.{exn_text}
use mt5_gateway.Connection.{
  on_error, set_status, drop_session, verification_fresh, probed, probe, verify_live_connection,
  reconnect_cooling_down,
}
use mt5_gateway.Connection.Session.{usable, holding_lock, try_reconnect, ensure_connection}

-- The step leaves the lock as it was, however it ends.
abbrev Keeps : {S A : Type 0} → Exec S A → Type 0
Keeps {S} m = (w : World S) → (m w).1.reconnect_locked ≡ w.reconnect_locked

module _ {S A B : Type 0} where
  continue-Keeps :
      (r : Flow A) (f : A → Exec S B) (u : World S)
      → ((a : A) → Keeps (f a))
      → (continue r f u).1.reconnect_locked ≡ u.reconnect_locked
  continue-Keeps (value a) f u k = k a u
  continue-Keeps (reply a) f u k = refl
  continue-Keeps (raised a) f u k = refl

  bind-Keeps :
      (m : Exec S A) (f : A → Exec S B) → Keeps m → ((a : A) → Keeps (f a)) → Keeps (m >>= f)
  unfolding ◌>>=◌
  bind-Keeps m f km kf w = continue-Keeps (m w).0 f (m w).1 kf ∙ km w

module _ {S A : Type 0} where
  if-Keeps : (b : Bool) (m n : Exec S A) → Keeps m → Keeps n → Keeps (if b then m else n)
  if-Keeps true m n km kn = km
  if-Keeps false m n km kn = kn

  on_error-Keeps :
      (handler : Exn → Exec S A) (m : Exec S A)
      → ((e : Exn) → Keeps (handler e))
      → Keeps m
      → Keeps (on_error handler m)
  on_error-Keeps handler m kh km w = go (m w) refl
    where
      go :
          (r : Flow A × World S)
          → m w ≡ r
          → (on_error handler m w).1.reconnect_locked ≡ w.reconnect_locked
      go (value b, v) e = rw (e, on_error) (km w)
      go (reply b, v) e = rw (e, on_error) (km w)
      go (raised b, v) e = rw (e, on_error) (kh b (m w).1 ∙ km w)

module _ {S : Type 0} (h : Host S) where
  set_status-Keeps :
      (status : ConnectionStatus) (error : Option Message) → Keeps (set_status h status error)
  unfolding set_status monotonic ◌>>=◌
  set_status-Keeps connected error w = refl
  set_status-Keeps disconnected error w = refl
  set_status-Keeps reconnecting error w = refl

  after_none-Keeps :
      (A : Type 0) (w : World S) → (after_none h {A = A} w).1.reconnect_locked ≡ w.reconnect_locked
  unfolding after_none note_connection_failure
  after_none-Keeps A w = ground arith

  serialized-Keeps : {A : Type 0} (call : Call S (Option A)) → Keeps (serialized h call)
  unfolding serialized
  serialized-Keeps {A} call w = ground (arith, after_none-Keeps A)

  module _ (cfg : Config) where
    drop_session-Keeps : (error : Message) → Keeps (drop_session h error)
    unfolding drop_session
    drop_session-Keeps error =
        bind-Keeps _ _ (set_status-Keeps disconnected (some error)) (λ t w. refl)

    probed-Keeps : (account : Option Account) → Keeps (probed h cfg account)
    unfolding probed monotonic ◌>>=◌
    probed-Keeps (some account) = λ w. refl
    probed-Keeps none = drop_session-Keeps _

    verification_fresh-Keeps : Keeps (verification_fresh h cfg)
    unfolding verification_fresh monotonic ◌>>=◌
    verification_fresh-Keeps w = refl

    cooling-Keeps : Keeps (reconnect_cooling_down h cfg)
    unfolding reconnect_cooling_down monotonic ◌>>=◌
    cooling-Keeps w = refl

    probe-Keeps : Keeps (probe h cfg)
    unfolding probe
    probe-Keeps =
        on_error-Keeps (λ e. drop_session h (exn_text e))
          (serialized h h.account_info >>= probed h cfg) (λ e. drop_session-Keeps (exn_text e))
          (bind-Keeps _ _ (serialized-Keeps h.account_info) probed-Keeps)

    verify-Keeps : Keeps (verify_live_connection h cfg)
    unfolding verify_live_connection
    verify-Keeps =
        bind-Keeps (gets is_connected) _ (λ w. refl)
          (λ up.
            if-Keeps up _ _
              (bind-Keeps _ _ verification_fresh-Keeps
                (λ fresh. if-Keeps fresh _ _ (λ w. refl) probe-Keeps))
              (λ w. refl))

module _ {S : Type 0} (h : Host S) (lib : Library) (cfg : Config) (relogin : Flow Credentials) where
  usable-Keeps : Keeps (usable h lib cfg relogin)
  unfolding usable
  usable-Keeps =
      bind-Keeps (gets is_connected) _ (λ w. refl)
        (λ up.
          if-Keeps up _ _
            (bind-Keeps _ _ (verification_fresh-Keeps h cfg)
              (λ fresh. if-Keeps fresh _ _ (λ w. refl) (verify-Keeps h cfg)))
            (λ w. refl))

  try_reconnect-Keeps : Keeps (try_reconnect h lib cfg relogin)
  unfolding try_reconnect holding_lock ◌>>=◌
  try_reconnect-Keeps w = elim (Bool-cases w.reconnect_locked) [
    | inl e ↦ rw e refl
    | inr e ↦ rw e refl
  ]

  -- However a call ends, by an answer or by an exception, the reconnect lock is held after it exactly
  -- if it was held before it: a thread that takes the lock gives it back, and a thread that finds it
  -- taken leaves it.
  pub ensure_connection-Keeps :
      (w : World S)
      → (ensure_connection h lib cfg relogin w).1.reconnect_locked ≡ w.reconnect_locked
  unfolding ensure_connection
  ensure_connection-Keeps = bind-Keeps _ _ usable-Keeps (λ ready.
      if-Keeps ready _ _ (λ w. refl)
        (bind-Keeps _ _ (cooling-Keeps h cfg)
          (λ cooling. if-Keeps cooling _ _ (λ w. refl) try_reconnect-Keeps)))

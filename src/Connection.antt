-- ===== src/Connection.antt =====
-- app/mt5_connection.py: `MT5Connection`, the one session with the terminal. Its fields are those of
-- `World`; times are in milliseconds. A step is one thread's, so `_verify_lock` has no state here and
-- `_reconnect_lock` is a flag. The session marker (a file) and the start of the thread that refreshes
-- the offset are left out.
pub mod Offsets
pub mod Reconcile
pub mod Session
pub mod Quiet
pub mod Attach
pub mod Window
pub mod Lock
pub mod Live
pub mod Counted
pub mod Outcome
use mt5_gateway.Prelude.{
  ℕ, zero, suc, ◌+◌, ◌*◌, ◌-◌, ◌^◌, String, Bool, true, false, Option, none, some, [], ◌∷◌, ltb,
  leb, if◌then◌else◌, pos,
}
use mt5_gateway.Json.{Message, say, lit, shown_int}
use mt5_gateway.Flow.{Exn, value, reply, raised}
use mt5_gateway.Host.{CallError, Account, Credentials, Host, Config}
use mt5_gateway.World.{
  ConnectionStatus, disconnected, connected, reconnecting, World, Exec, pure, ◌>>=◌, ◌>>◌, modify,
  gets, is_connected, serialized, serialized_total, monotonic, sleep,
}
use mt5_gateway.Order.Endpoint.{exn_text}

-- `except Exception as e: …`
abbrev pub on_error : {S A : Type 0} → (Exn → Exec S A) → Exec S A → Exec S A
on_error handler m w =
    let (r, w') = m w in
    elim r [ raised e ↦ handler e w' | value b ↦ (value b, w') | reply b ↦ (reply b, w') ]

module _ {S : Type 0} (h : Host S) where
  -- A connected session counts as verified now.
  unfoldable pub set_status : ConnectionStatus → Option Message → Exec S (Unit {0})
  set_status connected error = do
    now ← monotonic h
    modify (λ w. record w { status = connected; last_error = error; verified_at = now })
  set_status status error = modify (λ w. record w { status = status; last_error = error })

  unfoldable pub drop_session : Message → Exec S Bool
  drop_session error = do set_status disconnected (some error); pure false

  module _ (cfg : Config) where
    unfoldable pub reconnect_cooling_down : Exec S Bool
    reconnect_cooling_down = do now ← monotonic h; gets (λ w. ltb now w.reconnect_not_before)

    -- `min(max, base * 2 ** (failed - 1))`
    unfoldable pub reconnect_delay : ℕ → ℕ
    reconnect_delay failed =
        let delay = cfg.cooldown_base_ms * 2 ^ (failed - 1) in
        if leb cfg.cooldown_max_ms delay then cfg.cooldown_max_ms else delay

    unfoldable pub note_reconnect_outcome : Bool → Exec S (Unit {0})
    note_reconnect_outcome true =
        modify (λ w. record w { failed_reconnects = 0; reconnect_not_before = 0 })
    note_reconnect_outcome false = do
      modify (λ w. record w { failed_reconnects = w.failed_reconnects + 1 })
      now ← monotonic h
      modify (λ w. record w { reconnect_not_before = now + reconnect_delay w.failed_reconnects })

    unfoldable pub verification_fresh : Exec S Bool
    verification_fresh = do
      now ← monotonic h
      gets (λ w. ltb now (w.verified_at + cfg.verify_ttl_ms))

    -- The probe and what its answer does.
    unfoldable pub probed : Option Account → Exec S Bool
    probed (some account) = do
      now ← monotonic h
      modify (λ w. record w { verified_at = now })
      pure true
    probed none = drop_session (say "Connection lost")

    unfoldable pub probe : Exec S Bool
    probe =
        on_error (λ e. drop_session (exn_text e))
          do account ← serialized h h.account_info; probed account

    -- Both tests are repeated under the lock.
    unfoldable pub verify_live_connection : Exec S Bool
    verify_live_connection = do
      up ← gets is_connected
      if up
          then (verification_fresh >>= λ fresh. if fresh then pure true else probe)
          else pure false

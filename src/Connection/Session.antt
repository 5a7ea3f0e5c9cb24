-- ===== src/Connection/Session.antt =====
-- `initialize` and `ensure_connection` of app/mt5_connection.py, and the guard of app/decorators.py.
-- `_reconnect_credentials` reads a file and the environment; what it gives, or raises, is `relogin`.
use mt5_gateway.Prelude.{
  ℕ, zero, suc, ◌+◌, ◌*◌, ◌^◌, Bool, true, false, Option, none, some, [], ◌∷◌, ltb, if◌then◌else◌,
  pos, String,
}
use mt5_gateway.Json.{Message, lit, shown_int, Json, null, text, said, Response, respond}
use mt5_gateway.Flow.{Exn, runtime_error, Flow, value, reply, raised}
use mt5_gateway.Errors.{RequestId, with_request_id}
use mt5_gateway.Host.{CallError, Account, Credentials, Host, Library, Config}
use mt5_gateway.World.{
  ConnectionStatus, disconnected, connected, reconnecting, Exec, pure, raise, lift, respond_with,
  ◌>>=◌, ◌>>◌, gets, is_connected, serialized, serialized_total, sleep, inc, set_gauge,
}
use mt5_gateway.Order.Endpoint.{exn_text}
use mt5_gateway.Connection.{
  on_error, set_status, drop_session, reconnect_cooling_down, note_reconnect_outcome,
  verification_fresh, verify_live_connection,
}
use mt5_gateway.Connection.Offsets.{refresh_server_offset}
use mt5_gateway.Connection.Reconcile.{Snapshot, reconcile}

unfoldable pub initialization_failed : CallError → Message
initialization_failed e =
    lit "MT5 initialization failed: "
    ∷ lit e.message
    ∷ lit " (code: "
    ∷ shown_int e.code
    ∷ lit ")"
    ∷ []

unfoldable pub initialization_raised : Exn → Message
initialization_raised e = lit "Exception during MT5 initialization: " ∷ exn_text e

unfoldable pub attempts_exhausted : Config → Message
attempts_exhausted cfg =
    lit "Failed to initialize MT5 after "
    ∷ shown_int (pos cfg.max_reconnect_attempts)
    ∷ lit " attempts"
    ∷ []

-- `with self._reconnect_lock`: released however the body ends.
unfoldable pub holding_lock : {S A : Type 0} → Exec S A → Exec S A
holding_lock m w =
    let (r, w') = m (record w { reconnect_locked = true }) in
    (r, record w' { reconnect_locked = false })

unfoldable pub status_text : ConnectionStatus → String
status_text disconnected = "disconnected"
status_text connected = "connected"
status_text reconnecting = "reconnecting"

unfoldable pub last_error_text : Option Message → Json
last_error_text none = null
last_error_text (some m) = said m

module _ {S : Type 0} (h : Host S) (lib : Library) (cfg : Config) where
  -- What the terminal's answers make of one attempt.
  unfoldable pub attached : Option Account → Exec S Bool
  attached (some account) = do
    set_status h connected none
    refresh_server_offset h lib cfg
    pure true
  attached none = do
    error ← serialized_total h h.last_error
    drop_session h (initialization_failed error)

  unfoldable pub attach : Credentials → Exec S Bool
  attach credentials = do
    launched ← serialized_total h (h.initialize credentials)
    account ← if launched then serialized h h.account_info else pure none
    attached account

  unfoldable pub attempt : Credentials → Exec S Bool
  attempt credentials =
      on_error (λ e. drop_session h (initialization_raised e)) (attach credentials)

  -- `number` attempts are made; the status of the first is left as it was.
  unfoldable pub announce : ℕ → Exec S (Unit {0})
  announce zero = pure tt
  announce (suc n) = set_status h reconnecting (
      some (
        lit "Reconnection attempt "
        ∷ shown_int (pos (n + 2))
        ∷ lit "/"
        ∷ shown_int (pos cfg.max_reconnect_attempts)
        ∷ []))

  unfoldable pub pause : ℕ → Exec S (Unit {0})
  pause number =
      if ltb (number + 1) cfg.max_reconnect_attempts
      then sleep h (cfg.base_delay_ms * 2 ^ number)
      else pure tt

  -- The attempts that are left, after `number` of them.
  unfoldable pub attempts : Credentials → ℕ → ℕ → Exec S Bool
  attempts credentials zero number = drop_session h (attempts_exhausted cfg)
  attempts credentials (suc left) number =
      let again = attempts credentials left (number + 1) in
      do
        announce number
        done ← attempt credentials
        if done then pure true else (pause number >> again)

  unfoldable pub initialize : Credentials → Exec S Bool
  initialize credentials = attempts credentials cfg.max_reconnect_attempts 0

  -- A reconnect that failed, and one that was reconciled.
  unfoldable pub failed_reconnect : Exec S Bool
  failed_reconnect = do set_gauge "mt5_connected" 0; note_reconnect_outcome h cfg false; pure false

  unfoldable pub completed_reconnect : Exec S Bool
  completed_reconnect = do set_gauge "mt5_connected" 1; note_reconnect_outcome h cfg true; pure true

  -- `except RuntimeError`; what else it raises goes on.
  unfoldable pub after_reconcile : Flow Snapshot → Exec S Bool
  after_reconcile (value s) = completed_reconnect
  after_reconcile (reply r) = respond_with r
  after_reconcile (raised (runtime_error m)) = drop_session h m >>= λ _. failed_reconnect
  after_reconcile (raised e) = raise e

  unfoldable pub check_reconcile : Exec S Bool
  check_reconcile w = let (r, w') = reconcile h w in after_reconcile r w'

  unfoldable pub reconciled : Bool → Exec S Bool
  reconciled false = failed_reconnect
  reconciled true = check_reconcile

  module _ (relogin : Flow Credentials) where
    unfoldable pub reconnect : Exec S Bool
    reconnect = do
      inc "mt5_reconnects_total" []
      credentials ← lift relogin
      done ← initialize credentials
      reconciled done

    -- The body of the `try` that holds the lock.
    unfoldable pub reconnect_if_due : Exec S Bool
    reconnect_if_due = do
      up ← gets is_connected
      if up
          then pure true
          else do cooling ← reconnect_cooling_down h cfg; if cooling then pure false else reconnect

    -- `acquire(blocking=False)`
    unfoldable pub try_reconnect : Exec S Bool
    try_reconnect = do
      locked ← gets (λ w. w.reconnect_locked)
      if locked then pure false else holding_lock reconnect_if_due

    -- The cached state, or a probe of it once in a while.
    unfoldable pub usable : Exec S Bool
    usable = do
      up ← gets is_connected
      if up
          then (verification_fresh h cfg >>= λ fresh.
              if fresh then pure true else verify_live_connection h cfg)
          else pure false

    unfoldable pub ensure_connection : Exec S Bool
    ensure_connection = do
      ready ← usable
      if ready then pure true else do
        cooling ← reconnect_cooling_down h cfg
        if cooling then pure false else try_reconnect

    unfoldable pub unavailable_response : RequestId → Option Message → ConnectionStatus → Response
    unavailable_response id error status = respond 503 (
        with_request_id id (
          ("error", text "MT5 unavailable")
          ∷ ("detail", last_error_text error)
          ∷ ("mt5_status", text (status_text status))
          ∷ []))

    -- `require_mt5_connection`
    unfoldable pub require_mt5_connection : {A : Type 0} → RequestId → Exec S A → Exec S A
    require_mt5_connection id handler = do
      ready ← ensure_connection
      if ready then handler else do
        error ← gets (λ w. w.last_error)
        status ← gets (λ w. w.status)
        respond_with (unavailable_response id error status)

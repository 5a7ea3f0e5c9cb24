-- ===== src/Connection/Quiet.antt =====
-- The steps of a (re)connect never answer the request (app/mt5_connection.py).
use mt5_gateway.Prelude.{
  ◌≡◌, refl, ℕ, zero, suc, ltb, arith, String, Bool, true, false, Option, none, some, List, [], ◌∷◌,
  str_eq, if◌then◌else◌,
}
use mt5_gateway.Json.{Message}
use mt5_gateway.Flow.{Flow, value, reply, raised, Exn}
use mt5_gateway.Host.{Call, Account, Credentials, Host, Library, Config}
use mt5_gateway.World.{
  ConnectionStatus, connected, disconnected, reconnecting, World, Exec, ◌>>=◌, serialized_total,
  monotonic, clock, sleep,
}
use mt5_gateway.Order.Expiry.{read_tick_ms}
use mt5_gateway.Order.Ends.{
  is_reply, is_value, Quiet, Total, Quiet-bind, Total-bind, serialized-Quiet, rescue-Total,
}
use mt5_gateway.Connection.{on_error, set_status, drop_session}
use mt5_gateway.Connection.Offsets.{
  Readings, explicit_symbol, or_fallback, offset_reference_symbols, read_candidates, derive_live,
  live_tick, poll_offset, refresh_server_offset,
}
use mt5_gateway.Connection.Session.{
  initialization_failed, initialization_raised, attached, attach, attempt, announce, pause,
}

module _ {S A : Type 0} where
  pub Total-Quiet : (m : Exec S A) → Total m → Quiet m
  Total-Quiet m t w = go (m w).0 (t w)
    where
      go : (r : Flow A) → is_value r ≡ true → is_reply r ≡ false
      go (value a) e = refl
      go (reply a) e = cc
      go (raised a) e = refl

  pub if-Quiet : (b : Bool) (m n : Exec S A) → Quiet m → Quiet n → Quiet (if b then m else n)
  if-Quiet true m n qm qn = qm
  if-Quiet false m n qm qn = qn

  pub on_error-Total :
      (handler : Exn → Exec S A) (m : Exec S A)
      → ((e : Exn) → Total (handler e))
      → Quiet m
      → Total (on_error handler m)
  on_error-Total handler m th qm w = go (m w) refl (qm w)
    where
      go :
          (r : Flow A × World S)
          → m w ≡ r
          → is_reply r.0 ≡ false
          → is_value (on_error handler m w).0 ≡ true
      go (value b, v) e q = rw (e, on_error) refl
      go (reply b, v) e q = cc
      go (raised b, v) e q = rw (e, on_error) (th b (m w).1)

module _ {S : Type 0} (A : Type 0) (h : Host S) where
  pub serialized_total-Quiet : (call : Call S A) → Quiet (serialized_total h call)
  unfolding serialized_total
  serialized_total-Quiet call w = ground arith

module _ {S : Type 0} (h : Host S) where
  pub set_status-Total :
      (status : ConnectionStatus) (error : Option Message) → Total (set_status h status error)
  unfolding set_status monotonic
  set_status-Total connected error = Total-bind (monotonic h) _ (λ w. refl) (λ now w. refl)
  set_status-Total disconnected error = λ w. refl
  set_status-Total reconnecting error = λ w. refl

  pub drop_session-Total : (error : Message) → Total (drop_session h error)
  unfolding drop_session
  drop_session-Total error =
      Total-bind _ _ (set_status-Total disconnected (some error)) (λ t w. refl)

module _ {S : Type 0} (h : Host S) (lib : Library) (cfg : Config) where
  explicit_symbol-Quiet : Quiet (explicit_symbol h lib cfg)
  unfolding explicit_symbol
  explicit_symbol-Quiet =
      if-Quiet (str_eq (lib.strip cfg.time_reference_symbol) "") _ _ (λ w. refl)
        (Quiet-bind _ _ (serialized_total-Quiet _ h _) (λ a w. refl))

  or_fallback-Quiet : (candidates : List String) → Quiet (or_fallback h lib cfg candidates)
  unfolding or_fallback
  or_fallback-Quiet [] = Quiet-bind _ _ (serialized_total-Quiet _ h _) (λ a w. refl)
  or_fallback-Quiet (c ∷ cs) = λ w. refl

  offset_reference_symbols-Quiet : Quiet (offset_reference_symbols h lib cfg)
  unfolding offset_reference_symbols
  offset_reference_symbols-Quiet = Quiet-bind _ _ explicit_symbol-Quiet (λ explicit.
      Quiet-bind _ _ (serialized-Quiet _ h h.symbols_get) (λ watched. or_fallback-Quiet _))

  read_candidates-Quiet : (cs : List String) → Quiet (read_candidates h lib cfg cs)
  unfolding read_candidates read_tick_ms
  read_candidates-Quiet [] = λ w. refl
  read_candidates-Quiet (c ∷ cs) =
      Quiet-bind _ _ (Quiet-bind _ _ (serialized-Quiet _ h (h.symbol_info_tick c)) (λ t w. refl))
        (λ t. Quiet-bind _ _ (read_candidates-Quiet cs) (λ rest w. refl))

  derive_live-Quiet : (best : Option (String × ℕ)) → Quiet (derive_live h lib cfg best)
  unfolding derive_live clock ◌>>=◌
  derive_live-Quiet none = λ w. refl
  derive_live-Quiet (some (s, t)) = λ w. ground arith

  poll_offset-Quiet :
      (left : ℕ) (cs : List String) (previous : Readings)
      → Quiet (poll_offset h lib cfg left cs previous)
  unfolding poll_offset sleep
  poll_offset-Quiet zero cs previous = λ w. refl
  poll_offset-Quiet (suc left) cs previous = Quiet-bind _ _ (read_candidates-Quiet cs) (λ current.
      Quiet-bind _ _ (derive_live-Quiet (live_tick previous current)) (λ derived.
        if-Quiet derived _ _ (λ w. refl)
          (Quiet-bind _ _ (if-Quiet (ltb 0 left) _ _ (λ w. refl) (λ w. refl))
            (λ t. poll_offset-Quiet left cs current))))

  pub refresh_server_offset-Total : Total (refresh_server_offset h lib cfg)
  unfolding refresh_server_offset
  refresh_server_offset-Total =
      rescue-Total tt _
        (Quiet-bind _ _ offset_reference_symbols-Quiet (λ cs. poll_offset-Quiet _ cs []))

  attached-Quiet : (account : Option Account) → Quiet (attached h lib cfg account)
  unfolding attached
  attached-Quiet (some account) =
      Quiet-bind _ _ (Total-Quiet (set_status h connected none) (set_status-Total h connected none))
        (λ t.
          Quiet-bind _ _ (Total-Quiet (refresh_server_offset h lib cfg) refresh_server_offset-Total)
            (λ u w. refl))
  attached-Quiet none = Quiet-bind _ _ (serialized_total-Quiet _ h h.last_error) (λ e.
      Total-Quiet (drop_session h (initialization_failed e))
        (drop_session-Total h (initialization_failed e)))

  pub attempt-Total : (credentials : Credentials) → Total (attempt h lib cfg credentials)
  unfolding attempt attach
  attempt-Total credentials =
      on_error-Total (λ e. drop_session h (initialization_raised e)) (attach h lib cfg credentials)
        (λ e. drop_session-Total h (initialization_raised e))
        (Quiet-bind _ _ (serialized_total-Quiet _ h (h.initialize credentials)) (λ launched.
          Quiet-bind _ _ (if-Quiet launched _ _ (serialized-Quiet _ h h.account_info) (λ w. refl))
            attached-Quiet))

  pub announce-Total : (number : ℕ) → Total (announce h lib cfg number)
  unfolding announce
  announce-Total zero = λ w. refl
  announce-Total (suc n) = set_status-Total h reconnecting _

  pub pause-Total : (number : ℕ) → Total (pause h lib cfg number)
  unfolding pause sleep
  pause-Total number w = ground arith

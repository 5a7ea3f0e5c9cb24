-- ===== src/Connection/Counted.antt =====
-- Attaching to the terminal and reconciling count no failed reconnect (app/mt5_connection.py,
-- app/reconciliation.py): only `note_reconnect_outcome` does.
use mt5_gateway.Prelude.{
  ◌≡◌, refl, ◌∙◌, arith, ℕ, ◌+◌, ◌-◌, zero, suc, ltb, String, Bool, true, false, Option, none, some,
  List, [], ◌∷◌, str_eq, if◌then◌else◌,
}
use mt5_gateway.Json.{Message}
use mt5_gateway.Flow.{Flow, value, reply, raised, Exn}
use mt5_gateway.Host.{Call, Account, Credentials, Deal, Position, Order, Host, Library, Config}
use mt5_gateway.World.{
  ConnectionStatus, connected, disconnected, reconnecting, World, Exec, continue, ◌>>=◌, serialized,
  serialized_total, after_none, note_connection_failure, monotonic, clock, sleep,
}
use mt5_gateway.Order.Fill.{rescue}
use mt5_gateway.Order.Expiry.{read_tick_ms}
use mt5_gateway.Connection.{on_error, set_status, drop_session}
use mt5_gateway.Connection.Reconcile.{lookback, snapshot, reconcile}
use mt5_gateway.Connection.Offsets.{
  Readings, explicit_symbol, or_fallback, offset_reference_symbols, read_candidates, derive_live,
  live_tick, poll_offset, refresh_server_offset,
}
use mt5_gateway.Connection.Session.{
  initialization_failed, initialization_raised, attached, attach, attempt, announce, pause,
  attempts, initialize,
}

-- The step leaves the count as it was, however it ends.
abbrev pub Counts : {S A : Type 0} → Exec S A → Type 0
Counts {S} m = (w : World S) → (m w).1.failed_reconnects ≡ w.failed_reconnects

module _ {S A B : Type 0} where
  continue-Counts :
      (r : Flow A) (f : A → Exec S B) (u : World S)
      → ((a : A) → Counts (f a))
      → (continue r f u).1.failed_reconnects ≡ u.failed_reconnects
  continue-Counts (value a) f u k = k a u
  continue-Counts (reply a) f u k = refl
  continue-Counts (raised a) f u k = refl

  bind-Counts :
      (m : Exec S A) (f : A → Exec S B) → Counts m → ((a : A) → Counts (f a)) → Counts (m >>= f)
  unfolding ◌>>=◌
  bind-Counts m f km kf w = continue-Counts (m w).0 f (m w).1 kf ∙ km w

module _ {S A : Type 0} where
  if-Counts : (b : Bool) (m n : Exec S A) → Counts m → Counts n → Counts (if b then m else n)
  if-Counts true m n km kn = km
  if-Counts false m n km kn = kn

  on_error-Counts :
      (handler : Exn → Exec S A) (m : Exec S A)
      → ((e : Exn) → Counts (handler e))
      → Counts m
      → Counts (on_error handler m)
  on_error-Counts handler m kh km w = go (m w) refl
    where
      go :
          (r : Flow A × World S)
          → m w ≡ r
          → (on_error handler m w).1.failed_reconnects ≡ w.failed_reconnects
      go (value b, v) e = rw (e, on_error) (km w)
      go (reply b, v) e = rw (e, on_error) (km w)
      go (raised b, v) e = rw (e, on_error) (kh b (m w).1 ∙ km w)

  rescue-Counts : (a : A) (m : Exec S A) → Counts m → Counts (rescue a m)
  rescue-Counts a m km w = go (m w) refl
    where
      go :
          (r : Flow A × World S)
          → m w ≡ r
          → (rescue a m w).1.failed_reconnects ≡ w.failed_reconnects
      go (value b, v) e = rw (e, rescue) (km w)
      go (reply b, v) e = rw (e, rescue) (km w)
      go (raised b, v) e = rw (e, rescue) (km w)

module _ {S : Type 0} (h : Host S) where
  set_status-Counts :
      (status : ConnectionStatus) (error : Option Message) → Counts (set_status h status error)
  unfolding set_status monotonic ◌>>=◌
  set_status-Counts connected error w = refl
  set_status-Counts disconnected error w = refl
  set_status-Counts reconnecting error w = refl

  pub drop_session-Counts : (error : Message) → Counts (drop_session h error)
  unfolding drop_session
  drop_session-Counts error =
      bind-Counts _ _ (set_status-Counts disconnected (some error)) (λ t w. refl)

  after_none-Counts :
      (A : Type 0) (w : World S)
      → (after_none h {A = A} w).1.failed_reconnects ≡ w.failed_reconnects
  unfolding after_none note_connection_failure
  after_none-Counts A w = ground arith

  serialized-Counts : {A : Type 0} (call : Call S (Option A)) → Counts (serialized h call)
  unfolding serialized
  serialized-Counts {A} call w = ground (arith, after_none-Counts A)

  serialized_total-Counts : {A : Type 0} (call : Call S A) → Counts (serialized_total h call)
  unfolding serialized_total
  serialized_total-Counts {A} call w = ground arith

  snapshot-Counts :
      (as_of : ℕ) (positions : Option (List Position)) (orders : Option (List Order))
      (deals : Option (List Deal))
      → Counts (snapshot {S = S} as_of positions orders deals)
  unfolding snapshot ◌>>=◌
  snapshot-Counts as_of none orders deals w = refl
  snapshot-Counts as_of (some ps) none deals w = refl
  snapshot-Counts as_of (some ps) (some os) none w = refl
  snapshot-Counts as_of (some ps) (some os) (some ds) w = refl

  pub reconcile-Counts : Counts (reconcile h)
  unfolding reconcile clock
  reconcile-Counts =
      bind-Counts (clock h) _ (λ w. refl)
        (λ now.
          bind-Counts (clock h) _ (λ w. refl)
            (λ end.
              bind-Counts (serialized h h.all_positions) _ (serialized-Counts h.all_positions)
                (λ positions.
                  bind-Counts (serialized h h.all_orders) _ (serialized-Counts h.all_orders)
                    (λ orders.
                      bind-Counts (serialized h (h.deals_between (now - lookback) end)) _
                        (serialized-Counts (h.deals_between (now - lookback) end))
                        (snapshot-Counts end positions orders)))))

module _ {S : Type 0} (h : Host S) (lib : Library) (cfg : Config) where
  explicit_symbol-Counts : Counts (explicit_symbol h lib cfg)
  unfolding explicit_symbol
  explicit_symbol-Counts =
      if-Counts (str_eq (lib.strip cfg.time_reference_symbol) "") _ _ (λ w. refl)
        (bind-Counts _ _ (serialized_total-Counts h _) (λ a w. refl))

  or_fallback-Counts : (candidates : List String) → Counts (or_fallback h lib cfg candidates)
  unfolding or_fallback
  or_fallback-Counts [] = bind-Counts _ _ (serialized_total-Counts h _) (λ a w. refl)
  or_fallback-Counts (c ∷ cs) = λ w. refl

  offset_reference_symbols-Counts : Counts (offset_reference_symbols h lib cfg)
  unfolding offset_reference_symbols
  offset_reference_symbols-Counts = bind-Counts _ _ explicit_symbol-Counts (λ explicit.
      bind-Counts _ _ (serialized-Counts h h.symbols_get) (λ watched. or_fallback-Counts _))

  read_candidates-Counts : (cs : List String) → Counts (read_candidates h lib cfg cs)
  unfolding read_candidates read_tick_ms
  read_candidates-Counts [] = λ w. refl
  read_candidates-Counts (c ∷ cs) =
      bind-Counts _ _ (bind-Counts _ _ (serialized-Counts h (h.symbol_info_tick c)) (λ t w. refl))
        (λ t. bind-Counts _ _ (read_candidates-Counts cs) (λ rest w. refl))

  derive_live-Counts : (best : Option (String × ℕ)) → Counts (derive_live h lib cfg best)
  unfolding derive_live clock ◌>>=◌
  derive_live-Counts none = λ w. refl
  derive_live-Counts (some (s, t)) = λ w. ground arith

  poll_offset-Counts :
      (left : ℕ) (cs : List String) (previous : Readings)
      → Counts (poll_offset h lib cfg left cs previous)
  unfolding poll_offset sleep
  poll_offset-Counts zero cs previous = λ w. refl
  poll_offset-Counts (suc left) cs previous =
      bind-Counts _ _ (read_candidates-Counts cs) (λ current.
        bind-Counts _ _ (derive_live-Counts (live_tick previous current)) (λ derived.
          if-Counts derived _ _ (λ w. refl)
            (bind-Counts _ _ (if-Counts (ltb 0 left) _ _ (λ w. refl) (λ w. refl))
              (λ t. poll_offset-Counts left cs current))))

  refresh_server_offset-Counts : Counts (refresh_server_offset h lib cfg)
  unfolding refresh_server_offset
  refresh_server_offset-Counts =
      rescue-Counts tt _
        (bind-Counts _ _ offset_reference_symbols-Counts (λ cs. poll_offset-Counts _ cs []))

  attached-Counts : (account : Option Account) → Counts (attached h lib cfg account)
  unfolding attached
  attached-Counts (some account) =
      bind-Counts _ _ (set_status-Counts h connected none)
        (λ t. bind-Counts _ _ refresh_server_offset-Counts (λ u w. refl))
  attached-Counts none =
      bind-Counts _ _ (serialized_total-Counts h h.last_error)
        (λ e. drop_session-Counts h (initialization_failed e))

  module _ (credentials : Credentials) where
    attempt-Counts : Counts (attempt h lib cfg credentials)
    unfolding attempt attach
    attempt-Counts =
        on_error-Counts (λ e. drop_session h (initialization_raised e))
          (attach h lib cfg credentials) (λ e. drop_session-Counts h (initialization_raised e))
          (bind-Counts _ _ (serialized_total-Counts h (h.initialize credentials)) (λ launched.
            bind-Counts _ _
              (if-Counts launched _ _ (serialized-Counts h h.account_info) (λ w. refl))
              attached-Counts))

    announce-Counts : (number : ℕ) → Counts (announce h lib cfg number)
    unfolding announce
    announce-Counts zero = λ w. refl
    announce-Counts (suc n) = set_status-Counts h reconnecting _

    pause-Counts : (number : ℕ) → Counts (pause h lib cfg number)
    unfolding pause sleep
    pause-Counts number w = ground arith

    attempts-Counts : (left number : ℕ) → Counts (attempts h lib cfg credentials left number)
    unfolding attempts
    attempts-Counts zero number = drop_session-Counts h _
    attempts-Counts (suc left) number = bind-Counts _ _ (announce-Counts number) (λ t.
        bind-Counts _ _ attempt-Counts (λ done.
          if-Counts done _ _ (λ w. refl)
            (bind-Counts _ _ (pause-Counts number) (λ u. attempts-Counts left (number + 1)))))

    pub initialize-Counts : Counts (initialize h lib cfg credentials)
    unfolding initialize
    initialize-Counts = attempts-Counts cfg.max_reconnect_attempts 0

-- ===== src/World.antt =====
-- The state that the handlers share (the connection's status of app/mt5_connection.py, the symbol
-- cache of app/lib.py, the server offset of app/time_utils.py, the metrics and the audit log), the
-- monad of a handler's steps, and the boundary `SerializedMT5` through which every call of the
-- MetaTrader5 package goes. A step is one thread's; the boundary's lock makes each call atomic.
use mt5_gateway.Prelude.{
  ◌≡◌, refl, ap, ℕ, String, Bool, true, false, Option, none, some, List, [], ◌∷◌, ◌++◌, ℤ, negsuc,
  leb_ℤ, if◌then◌else◌,
}
use mt5_gateway.Json.{Message, lit, shown_int, Json, Response}
use mt5_gateway.Flow.{Exn, foreign_error, Flow, value, reply, raised}
use mt5_gateway.ServerTime.{Offset}
use mt5_gateway.Host.{CallError, gives, raises, Call, Host}

pub data ConnectionStatus : Type 0 where
  disconnected connected reconnecting : ConnectionStatus

-- app/audit.py: the fields of a record that the handlers fill in.
pub record AuditRecord : Type 0 where
  pub event : String
  pub client_order_id : Option String
  pub symbol : String
  pub side : String
  pub mt5_ticket : Option ℕ
  pub deal : Option ℕ
  pub volume_requested : ℕ
  pub volume_filled : Option ℕ
  pub price_requested : ℕ
  pub price_filled : Option ℕ
  pub retcode : Option ℕ
  pub retcode_name : Message
  pub magic : Json

-- app/metrics.py: one entry for each (name, labels).
abbrev pub Labels : Type 0
Labels = List (String × Message)

pub record World (S : Type 0) : Type 0 where
  pub host : S
  pub status : ConnectionStatus
  pub last_error : Option Message
  pub last_call_error : Option CallError
  pub symbols : List String
  pub offset : Offset
  -- app/mt5_connection.py: the last verification, the failed reconnects and the end of the back-off
  -- window (in milliseconds of the monotonic clock), and whether a thread holds `_reconnect_lock`.
  pub verified_at : ℕ
  pub failed_reconnects : ℕ
  pub reconnect_not_before : ℕ
  pub reconnect_locked : Bool
  pub metrics : List (String × Labels)
  pub gauges : List (String × ℕ)
  pub audit : List AuditRecord

abbrev pub Exec : Type 0 → Type 0 → Type 0
Exec S A = World S → Flow A × World S

module _ {S A : Type 0} where
  abbrev pub pure : A → Exec S A
  pure a w = (value a, w)

  -- `return response`
  abbrev pub respond_with : Response → Exec S A
  respond_with r w = (reply r, w)

  abbrev pub raise : Exn → Exec S A
  raise e w = (raised e, w)

  abbrev pub lift : Flow A → Exec S A
  lift f w = (f, w)

module _ {S A B : Type 0} where
  abbrev pub continue : Flow A → (A → Exec S B) → Exec S B
  continue (value a) f w = f a w
  continue (reply r) f w = (reply r, w)
  continue (raised e) f w = (raised e, w)

  infixl 5 ◌>>=◌
  unfoldable pub ◌>>=◌ : Exec S A → (A → Exec S B) → Exec S B
  ◌>>=◌ m f w = let (r, w') = m w in continue r f w'

infixl 5 ◌>>◌
abbrev pub ◌>>◌ : {S B : Type 0} → Exec S (Unit {0}) → Exec S B → Exec S B
m >> n = m >>= λ _. n

abbrev pub modify : {S : Type 0} → (World S → World S) → Exec S (Unit {0})
modify f w = (value tt, f w)

abbrev pub gets : {S A : Type 0} → (World S → A) → Exec S A
gets f w = (value (f w), w)

-- `MT5_IPC_FAILURE_CODE`, -10000
abbrev pub mt5_ipc_failure_code : ℤ
mt5_ipc_failure_code = negsuc 9999

unfoldable pub is_ipc_failure : CallError → Bool
is_ipc_failure e = leb_ℤ e.code mt5_ipc_failure_code

unfoldable pub is_connected : {S : Type 0} → World S → Bool
is_connected w = elim w.status [ connected ↦ true | _ ↦ false ]

unfoldable pub note_connection_failure : {S : Type 0} → CallError → World S → World S
unfolding is_connected
note_connection_failure e w =
    if is_connected w
    then record w {
      status = disconnected;
      last_error =
          some
            (lit "MT5 IPC failure: (" ∷ shown_int e.code ∷ lit ", " ∷ lit e.message ∷ lit ")" ∷ []);
    }
    else w

module _ {S : Type 0} (h : Host S) where
  -- A call that gave None: its error is kept for the thread, and an IPC failure drops the session.
  unfoldable pub after_none : {A : Type 0} → World S → Flow (Option A) × World S
  unfolding is_ipc_failure note_connection_failure
  after_none w =
      let (answer, s) = h.last_error w.host in
      elim answer [
        | raises e ↦ (raised (foreign_error e), record w { host = s })
        | gives error ↦
            let noted = record w { host = s; last_call_error = some error } in
            (
              value none,
              if is_ipc_failure error then note_connection_failure error noted else noted,
            )
      ]

  -- `SerializedMT5._wrap`
  unfoldable pub serialized : {A : Type 0} → Call S (Option A) → Exec S (Option A)
  unfolding after_none
  serialized call w =
      let (answer, s) = call w.host in
      elim answer [
        | raises e ↦ (raised (foreign_error e), record w { host = s })
        | gives result ↦ elim result [
          | none ↦ after_none (record w { host = s })
          | some a ↦ (value (some a), record w { host = s })
        ]
      ]

  -- The same for a function that never gives None.
  unfoldable pub serialized_total : {A : Type 0} → Call S A → Exec S A
  serialized_total call w =
      let (answer, s) = call w.host in
      elim answer [
        | raises e ↦ (raised (foreign_error e), record w { host = s })
        | gives a ↦ (value a, record w { host = s })
      ]

  unfoldable pub monotonic : Exec S ℕ
  monotonic w = let (t, s) = h.monotonic w.host in (value t, record w { host = s })

  unfoldable pub clock : Exec S ℕ
  clock w = let (t, s) = h.clock w.host in (value t, record w { host = s })

  unfoldable pub sleep : ℕ → Exec S (Unit {0})
  sleep ms w = (value tt, record w { host = h.sleep ms w.host })

-- `metrics.inc(name, labels)`: a counter is the number of its entries.
unfoldable pub inc : {S : Type 0} → String → Labels → Exec S (Unit {0})
inc name labels w = (value tt, record w { metrics = (name, labels) ∷ w.metrics })

-- `metrics.set(name, value)`: the newest entry of a name is its value.
unfoldable pub set_gauge : {S : Type 0} → String → ℕ → Exec S (Unit {0})
set_gauge name n w = (value tt, record w { gauges = (name, n) ∷ w.gauges })

-- `order_audit.emit`: the records in the order of the file.
unfoldable pub emit : {S : Type 0} → AuditRecord → Exec S (Unit {0})
emit r w = (value tt, record w { audit = w.audit ++ r ∷ [] })

module _ {S A B : Type 0} (m : Exec S A) (f : A → Exec S B) {w : World S} where
  -- Inversion of a bind that ends in a value.
  pub exec->>=-value :
      {b : B} {v : World S}
      → (m >>= f) w ≡ (value b, v)
      → (a : A) × (u : World S) × (m w ≡ (value a, u)) × (f a u ≡ (value b, v))
  unfolding ◌>>=◌
  exec->>=-value {b} {v} h = go (m w) refl h
    where
      go :
          (r : Flow A × World S)
          → m w ≡ r
          → continue r.0 f r.1 ≡ (value b, v)
          → (a : A) × (u : World S) × (m w ≡ (value a, u)) × (f a u ≡ (value b, v))
      go (value a, u) e k = (a, u, e, k)
      go (reply r, u) e k = cc
      go (raised x, u) e k = cc

  -- A bind whose first part gives a value goes on with it.
  pub exec->>=-run : {a : A} {u : World S} → m w ≡ (value a, u) → (m >>= f) w ≡ f a u
  unfolding ◌>>=◌
  exec->>=-run e = ap (λ r. continue r.0 f r.1) e

-- ===== src/Connection/Outcome.antt =====
-- What a reconnect leaves behind (`ensure_connection` of app/mt5_connection.py).
use mt5_gateway.Prelude.{
  ◌≡◌, ◌⊎◌, refl, ◌∙◌, sym, ap, inl, inr, ℕ, ◌+◌, String, Bool, true, false, List, ◌∷◌, Bool-cases,
  if◌then◌else◌, ltb,
}
use mathlib.Core.Path.{subst}
use mt5_gateway.Flow.{Flow, value, reply, raised, runtime_error}
use mt5_gateway.Host.{Credentials, Host, Library, Config}
use mt5_gateway.World.{
  World, Exec, pure, ◌>>=◌, exec->>=-value, is_connected, lift, monotonic, set_gauge, inc,
}
use mt5_gateway.Connection.{
  drop_session, note_reconnect_outcome, reconnect_delay, reconnect_cooling_down,
}
use mt5_gateway.Connection.Reconcile.{Snapshot, reconcile}
use mt5_gateway.Connection.Counted.{drop_session-Counts, reconcile-Counts, initialize-Counts}
use mt5_gateway.Connection.Session.{
  initialize, failed_reconnect, completed_reconnect, after_reconcile, check_reconcile, reconciled,
  reconnect, reconnect_if_due, try_reconnect, holding_lock, usable, ensure_connection,
}

-- The back-off is reset, and the gauge shows the connection.
abbrev pub Recovered : {S : Type 0} → World S → Type 0
Recovered v =
    (v.failed_reconnects ≡ 0)
    × (v.reconnect_not_before ≡ 0)
    × ((rest : List (String × ℕ)) × (v.gauges ≡ ("mt5_connected", 1) ∷ rest))

-- One failure more than `n` is counted, the window is the delay of their number from the clock's last
-- reading on, and the gauge shows no connection.
abbrev pub BackedOff : {S : Type 0} → Host S → Config → ℕ → World S → Type 0
BackedOff {S} h cfg n v =
    (v.failed_reconnects ≡ n + 1)
    × ((s : S) × (v.host ≡ (h.monotonic s).1)
        × (v.reconnect_not_before ≡ (h.monotonic s).0 + reconnect_delay h cfg v.failed_reconnects))
    × ((rest : List (String × ℕ)) × (v.gauges ≡ ("mt5_connected", 0) ∷ rest))

-- `n` failures were counted before.
abbrev pub Outcome : {S : Type 0} → Host S → Config → ℕ → Bool → World S → Type 0
Outcome h cfg n true v = Recovered v
Outcome h cfg n false v = BackedOff h cfg n v

-- The back-off and the counters are those of before.
abbrev pub Untried : {S : Type 0} → World S → World S → Type 0
Untried w v =
    (v.failed_reconnects ≡ w.failed_reconnects)
    × (v.reconnect_not_before ≡ w.reconnect_not_before)
    × (v.gauges ≡ w.gauges)
    × (v.metrics ≡ w.metrics)

module _ {S : Type 0} (h : Host S) (lib : Library) (cfg : Config) where
  -- A step whose answer is known.
  known :
      (m : Exec S Bool) (w : World S) (n : ℕ) (answer : Bool) {b : Bool} {v : World S}
      → (m w).0 ≡ value answer
      → m w ≡ (value b, v)
      → Outcome h cfg n answer (m w).1
      → Outcome h cfg n b v
  known m w n answer {b} {v} is e o =
      let e0 : (m w).0 ≡ value b = ap (λ p. p.0) e in
      let e1 : (m w).1 ≡ v = ap (λ p. p.1) e in let e2 : answer ≡ b = cc in rw⁻¹ (e1, e2) o

  -- A step that only read the clock.
  waited :
      (w : World S) (s : S) {b : Bool} {v : World S}
      → ◌≡◌ {A = Flow Bool × World S} (value false, record w { host = s }) (value b, v)
      → (b ≡ false) × Untried w v
  waited w s {b} {v} e =
      let e0 : value false ≡ value b = ap (λ p. p.0) e in
      let e1 : v ≡ record w { host = s } = sym (ap (λ p. p.1) e) in
      let e2 : b ≡ false = cc in
      (
        e2,
        (
          ap (λ x. x.failed_reconnects) e1,
          ap (λ x. x.reconnect_not_before) e1,
          ap (λ x. x.gauges) e1,
          ap (λ x. x.metrics) e1,
        ),
      )

  failed_reconnect-BackedOff :
      (w : World S) → BackedOff h cfg w.failed_reconnects (failed_reconnect h lib cfg w).1
  unfolding failed_reconnect set_gauge note_reconnect_outcome monotonic ◌>>=◌
  failed_reconnect-BackedOff w = (refl, (_, refl, refl), (_, refl))

  failed_reconnect-Outcome :
      (w : World S) {b : Bool} {v : World S}
      → failed_reconnect h lib cfg w ≡ (value b, v)
      → Outcome h cfg w.failed_reconnects b v
  unfolding failed_reconnect set_gauge note_reconnect_outcome monotonic ◌>>=◌
  failed_reconnect-Outcome w e =
      known (failed_reconnect h lib cfg) w w.failed_reconnects false refl e
        (failed_reconnect-BackedOff w)

  -- A step in front that does not count.
  recount :
      {k n m : ℕ} (b : Bool) (v : World S)
      → k ≡ n
      → k ≡ m
      → Outcome h cfg n b v
      → Outcome h cfg m b v
  recount b v e f o = subst (λ n. Outcome h cfg n b v) (sym e ∙ f) o

  after_reconcile-Outcome :
      (r : Flow Snapshot) (w : World S) {b : Bool} {v : World S}
      → after_reconcile h lib cfg r w ≡ (value b, v)
      → Outcome h cfg w.failed_reconnects b v
  unfolding after_reconcile completed_reconnect set_gauge note_reconnect_outcome ◌>>=◌
  after_reconcile-Outcome (value s) w e =
      known (completed_reconnect h lib cfg) w w.failed_reconnects true refl e
        (refl, refl, (_, refl))
  after_reconcile-Outcome (reply r) w e = cc
  after_reconcile-Outcome (raised (runtime_error m)) w {b} {v} e =
      let (_, u, dropped, rest) =
        exec->>=-value (drop_session h m) (λ _. failed_reconnect h lib cfg) e in
      recount b v (ap (λ o. o.1.failed_reconnects) dropped) (drop_session-Counts h m w)
        (failed_reconnect-Outcome u rest)
  after_reconcile-Outcome (raised x) w e = cc

  reconciled-Outcome :
      (done : Bool) (w : World S) {b : Bool} {v : World S}
      → reconciled h lib cfg done w ≡ (value b, v)
      → Outcome h cfg w.failed_reconnects b v
  unfolding reconciled check_reconcile
  reconciled-Outcome false w e = failed_reconnect-Outcome w e
  reconciled-Outcome true w {b} {v} e =
      recount b v refl (reconcile-Counts h w)
        (after_reconcile-Outcome (reconcile h w).0 (reconcile h w).1 e)

  module _ (relogin : Flow Credentials) where
    reconnect-Outcome :
        (w : World S) {b : Bool} {v : World S}
        → reconnect h lib cfg relogin w ≡ (value b, v)
        → Outcome h cfg w.failed_reconnects b v
    unfolding reconnect inc
    reconnect-Outcome w {b} {v} e =
        let (_, w1, counted, e1) = exec->>=-value (inc _ _) _ e in
        let (c, w2, read, e2) = exec->>=-value (lift relogin) _ e1 in
        let (done, u, attached, e3) = exec->>=-value (initialize h lib cfg c) _ e2 in
        recount b v (ap (λ o. o.1.failed_reconnects) attached)
          (initialize-Counts h lib cfg c w2
            ∙ sym (ap (λ o. o.1.failed_reconnects) read)
            ∙ sym (ap (λ o. o.1.failed_reconnects) counted))
          (reconciled-Outcome done u e3)

    -- The clock's reading is all that a due test changes.
    abbrev Tried : World S → Bool → World S → Type 0
    Tried w b v = ((b ≡ false) × Untried w v) ⊎ Outcome h cfg w.failed_reconnects b v

    reconnect_if_due-Tried :
        (w : World S) {b : Bool} {v : World S}
        → is_connected w ≡ false
        → reconnect_if_due h lib cfg relogin w ≡ (value b, v)
        → Tried w b v
    unfolding reconnect_if_due reconnect_cooling_down monotonic ◌>>=◌
    reconnect_if_due-Tried w down e =
        elim (Bool-cases (ltb (h.monotonic w.host).0 w.reconnect_not_before)) [
          | inl early ↦ inl (waited w _ (rw (down, early) at e))
          | inr due ↦ inr (reconnect-Outcome _ (rw (down, due) at e))
        ]

    freed :
        (n : ℕ) (b : Bool) (u : World S)
        → Outcome h cfg n b u
        → Outcome h cfg n b (record u { reconnect_locked = false })
    freed n true u o = o
    freed n false u o = o

    -- Giving the lock back changes nothing that is looked at.
    held-Tried :
        (w : World S) {b : Bool} {v : World S}
        → is_connected w ≡ false
        → holding_lock (reconnect_if_due h lib cfg relogin) w ≡ (value b, v)
        → Tried w b v
    unfolding holding_lock is_connected
    held-Tried w {b} {v} down e =
        let m = reconnect_if_due h lib cfg relogin in
        let (r, u) = m (record w { reconnect_locked = true }) in
        let same : record u { reconnect_locked = false } ≡ v = ap (λ p. p.1) e in
        let done : r ≡ value b = ap (λ p. p.0) e in
        let tried : Tried w b u =
          reconnect_if_due-Tried (record w { reconnect_locked = true }) {b = b} {v = u} down
            (ap (λ x. (x, u)) done) in
        rw⁻¹ same (unlocked u tried)
      where
        unlocked : (u : World S) → Tried w b u → Tried w b (record u { reconnect_locked = false })
        unlocked u (inl t) = inl t
        unlocked u (inr o) = inr (freed w.failed_reconnects b u o)

    try_reconnect-Tried :
        (w : World S) {b : Bool} {v : World S}
        → is_connected w ≡ false
        → try_reconnect h lib cfg relogin w ≡ (value b, v)
        → Tried w b v
    unfolding try_reconnect ◌>>=◌
    try_reconnect-Tried w {b} {v} down e = go w.reconnect_locked e
      where
        go :
            (locked : Bool)
            → (if locked then pure false else holding_lock (reconnect_if_due h lib cfg relogin)) w
              ≡ (value b, v)
            → Tried w b v
        go true e = inl (waited w w.host e)
        go false e = held-Tried w down e

    -- A call that finds the session disconnected and answers true has reset the back-off, and shows
    -- the connection in the gauge. One that answers false has either tried nothing, and left the
    -- back-off, the gauges and the counters as they were, or it counts exactly one more failure than
    -- before, keeps the next attempt off for the delay of that number from the last reading of the
    -- clock on, and shows no connection.
    pub ensure_connection_outcome :
        (w : World S) (b : Bool) (v : World S)
        → is_connected w ≡ false
        → ensure_connection h lib cfg relogin w ≡ (value b, v)
        → ((b ≡ false) × Untried w v) ⊎ Outcome h cfg w.failed_reconnects b v
    unfolding ensure_connection usable reconnect_cooling_down monotonic is_connected ◌>>=◌
    ensure_connection_outcome w b v down e =
        elim (Bool-cases (ltb (h.monotonic w.host).0 w.reconnect_not_before)) [
          | inl early ↦ inl (waited w _ (rw (down, early) at e))
          | inr due ↦
              try_reconnect-Tried (record w { host = (h.monotonic w.host).1 }) down
                (rw (down, due) at e)
        ]

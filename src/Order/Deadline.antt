-- ===== src/Order/Deadline.antt =====
-- The fill look-up of app/routes/order.py ends by its deadline, not by its fuel.
use mt5_gateway.Prelude.{
  ℕ, ◌+◌, ◌≤◌, ◌≡◌, inl, inr, refl, arith, Option, none, some, ◌==◌, Bool-cases,
}
use mt5_gateway.Json.{Dict}
use mt5_gateway.Prelude.{true, zero, suc, ◌+◌, ◌<◌, String, ltb, Bool-cases}
use mt5_gateway.World.{monotonic, sleep}
use mt5_gateway.Order.Ends.{look-Total, is_value}
use mt5_gateway.Flow.{Flow, value, reply, raised}
use mt5_gateway.Host.{Host, Call, Config, SendResult}
use mt5_gateway.World.{
  World, Exec, pure, continue, ◌>>=◌, serialized, after_none, is_ipc_failure,
  note_connection_failure, is_connected,
}
use mt5_gateway.Order.Fill.{
  poll_fill, resolve_async_fill, Found, rescue, look_at_deal, look_at_position, look,
}

-- The clock behind the host's state: a reading is its value, it never goes back, and a sleep lasts
-- at least as long as it is asked to.
pub record IsClocked {S : Type 0} (h : Host S) (time : S → ℕ) : Type 0 where
  pub reads : (s : S) → (h.monotonic s).0 ≡ time s
  pub kept : (s : S) → time s ≤ time (h.monotonic s).1
  pub sleeps : (n : ℕ) (s : S) → time s + n ≤ time (h.sleep n s)
  pub error_later : (s : S) → time s ≤ time (h.last_error s).1
  pub deals_later : (n : ℕ) (s : S) → time s ≤ time (h.deals_of_ticket n s).1
  pub positions_later : (n : ℕ) (s : S) → time s ≤ time (h.positions_get n s).1

module _ {S : Type 0} (time : S → ℕ) where
  -- `m` does not turn the clock back.
  abbrev pub Later : {A : Type 0} → Exec S A → Type 0
  Later m = (w : World S) → time w.host ≤ time (m w).1.host

  continue-Later :
      {A B : Type 0} (r : Flow A) (f : A → Exec S B) (t : ℕ) (w : World S)
      → t ≤ time w.host
      → ((a : A) → Later (f a))
      → t ≤ time (continue r f w).1.host
  continue-Later (value a) f t w l g = omega (arith, l, g a w)
  continue-Later (reply a) f t w l g = l
  continue-Later (raised a) f t w l g = l

  pub Later-bind :
      {A B : Type 0} (m : Exec S A) (f : A → Exec S B)
      → Later m
      → ((a : A) → Later (f a))
      → Later (m >>= f)
  unfolding ◌>>=◌
  Later-bind m f l g w = continue-Later (m w).0 f (time w.host) (m w).1 (l w) g

  pub rescue-Later : {A : Type 0} (a : A) (m : Exec S A) → Later m → Later (rescue a m)
  rescue-Later a m l w = go (m w) refl (l w)
    where
      go :
          (r : Flow _ × World S)
          → m w ≡ r
          → time w.host ≤ time r.1.host
          → time w.host ≤ time (rescue a m w).1.host
      go (value b, v) e q = rw (e, rescue) (l w)
      go (reply b, v) e q = rw (e, rescue) (l w)
      go (raised b, v) e q = rw (e, rescue) (l w)

  module _ (h : Host S) (c : IsClocked h time) where
    after_none-Later :
        (A : Type 0) (w : World S) → time w.host ≤ time (after_none h {A = A} w).1.host
    unfolding after_none is_ipc_failure note_connection_failure is_connected
    after_none-Later A w = ground (arith, c.error_later w.host)

    pub serialized-Later :
        (A : Type 0) (call : Call S (Option A))
        → ((s : S) → time s ≤ time (call s).1)
        → Later (serialized h call)
    unfolding serialized
    serialized-Later A call l w =
        ground (arith, l w.host, after_none-Later A (record w { host = (call w.host).1 }))

    module _ (cfg : Config) (r : SendResult) where
      look_at_deal-Later : (d : Dict) → Later (look_at_deal h cfg r d)
      unfolding look_at_deal
      look_at_deal-Later d w = elim (Bool-cases (r.deal == 0)) [
        | inl e ↦ rw (e, look_at_deal) (omega arith)
        | inr e ↦
            rw (e, look_at_deal)
              (Later-bind (serialized h (h.deals_of_ticket r.deal)) _
                (serialized-Later _ (h.deals_of_ticket r.deal) (c.deals_later r.deal))
                (λ a v. omega arith) w)
      ]

      look_at_position-Later : (d : Dict) → Later (look_at_position h cfg r d)
      unfolding look_at_position
      look_at_position-Later d w = elim (Bool-cases (r.order == 0)) [
        | inl e ↦ rw (e, look_at_position) (omega arith)
        | inr e ↦
            rw (e, look_at_position)
              (Later-bind (serialized h (h.positions_get r.order)) _
                (serialized-Later _ (h.positions_get r.order) (c.positions_later r.order))
                (λ a v. omega arith) w)
      ]

      look-Later : (d : Dict) → Later (look h cfg r d)
      unfolding look
      look-Later d =
          rescue-Later none _ (Later-bind (look_at_deal h cfg r d) _ (look_at_deal-Later d) go)
        where
          go :
              (found : Found)
              → Later (elim found as (λ x. Exec S Found) [
                | none ↦ look_at_position h cfg r d
                | some f ↦ pure (some f)
              ])
          go none = look_at_position-Later d
          go (some f) = λ w. omega arith

      abbrev Ends : Exec S (Option (String × Dict)) → World S → Type 0
      Ends m w = (x : String × Dict) × (v : World S) × (m w ≡ (value (some x), v))

      -- After a look-up, which ends in a value, the loop has its answer or goes on.
      round-Ends :
          (again : Exec S (Option (String × Dict))) (t : ℕ) (x : Flow Found × World S)
          → is_value x.0 ≡ true
          → t ≤ time x.1.host
          → ((v : World S) → t ≤ time v.host → Ends again v)
          → (y : String × Dict) × (v : World S) × (continue x.0
                (λ found. elim found as (λ z. Exec S (Option (String × Dict))) [
                  | none ↦ again
                  | some f ↦ pure (some f)
                ])
                x.1
              ≡ (value (some y), v))
      round-Ends again t (value none, v) e l k = k v l
      round-Ends again t (value (some f), v) e l k = (f, v, refl)
      round-Ends again t (reply b, v) e l k = cc
      round-Ends again t (raised b, v) e l k = cc

      -- With a round of fuel for each millisecond to the deadline, the loop ends with a source.
      poll_fill-Ends :
          (fuel deadline : ℕ) (d : Dict) (w : World S)
          → 0 < cfg.fill_confirm_poll_ms
          → 0 < fuel
          → deadline < time w.host + fuel
          → Ends (poll_fill h cfg r fuel deadline d) w
      unfolding poll_fill monotonic sleep ◌>>=◌
      poll_fill-Ends zero deadline d w step some_fuel enough = absurd (omega (arith, some_fuel))
      poll_fill-Ends (suc fuel) deadline d w step some_fuel enough =
          elim (Bool-cases (ltb (h.monotonic w.host).0 deadline)) [
            | inl e ↦
                let slept = record w {
                  host = h.sleep cfg.fill_confirm_poll_ms (h.monotonic w.host).1;
                } in
                let longer : time w.host + 1 ≤ time slept.host = omega (
                  arith,
                  step,
                  c.kept w.host,
                  c.sleeps cfg.fill_confirm_poll_ms (h.monotonic w.host).1,
                ) in
                let left : time w.host < deadline = ground (arith, c.reads w.host) in
                rw e (
                  round-Ends (poll_fill h cfg r fuel deadline d) (time slept.host)
                    (look h cfg r d slept) (look-Total h cfg none r d slept) (look-Later d slept)
                    (λ v l.
                      poll_fill-Ends fuel deadline d v step (omega (arith, left, enough))
                        (omega (arith, l, longer, enough))))
            | inr e ↦ (("unresolved", d), record w { host = (h.monotonic w.host).1 }, rw e refl)
          ]

      -- On a clock that never goes back and whose sleeps last, with a poll interval of at least a
      -- millisecond, looking for the fill always ends with a source for the price: the fuel that
      -- it runs on reaches the deadline.
      pub resolve_async_fill_ends :
          (d : Dict) (w : World S)
          → 0 < cfg.fill_confirm_poll_ms
          → (x : String × Dict) × (v : World S) × (resolve_async_fill h cfg r d w
              ≡ (value (some x), v))
      unfolding resolve_async_fill monotonic ◌>>=◌
      resolve_async_fill_ends d w step =
          let started = record w { host = (h.monotonic w.host).1 } in
          poll_fill-Ends (cfg.fill_confirm_timeout_ms + 1)
            ((h.monotonic w.host).0 + cfg.fill_confirm_timeout_ms) d started step (omega arith)
            (omega (arith, c.reads w.host, c.kept w.host))

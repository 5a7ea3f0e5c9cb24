-- ===== src/CloseConfirm/Deadline.antt =====
-- Confirming a close (app/close_confirm.py) ends by its deadline, not by its fuel.
use mt5_gateway.Prelude.{
  ℕ, zero, suc, ◌+◌, ◌≤◌, ◌<◌, ◌≡◌, refl, arith, inl, inr, String, Option, none, some, leb, ◌==◌,
  ◌&&◌, Bool-cases, if◌then◌else◌, true, false,
}
use mt5_gateway.Json.{Dict, get, is_truthy}
use mt5_gateway.Flow.{Flow, value, reply, raised}
use mt5_gateway.Host.{Host, Config, Deal}
use mt5_gateway.World.{World, Exec, pure, continue, ◌>>=◌, ◌>>◌, serialized, monotonic, sleep}
use mt5_gateway.Order.Fill.{rescue}
use mt5_gateway.Order.Ends.{is_value}
use mt5_gateway.Order.Deadline.{IsClocked, Later, Later-bind, rescue-Later, serialized-Later}
use mt5_gateway.CloseConfirm.{
  newest, closing_of, ticket_of, deal_named, closing_deal, confirmed, poll_close, confirm_close,
}
use mt5_gateway.CloseConfirm.Found.{confirm_close_total}

module _ {S : Type 0} (time : S → ℕ) (h : Host S) (c : IsClocked h time)
    (closings_later : (n : ℕ) (s : S) → time s ≤ time (h.deals_of_position n s).1) where
  deal_named-Later : (t : ℕ) → Later time (deal_named h t)
  unfolding deal_named
  deal_named-Later t w = elim (Bool-cases (t == 0)) [
    | inl e ↦ rw (e, deal_named) (omega arith)
    | inr e ↦
        rw (e, deal_named)
          (Later-bind time (serialized h (h.deals_of_ticket t)) _
            (serialized-Later time h c _ (h.deals_of_ticket t) (c.deals_later t))
            (λ a v. omega arith) w)
  ]

  closing_deal-Later : (p o t : ℕ) → Later time (closing_deal h p o t)
  unfolding closing_deal
  closing_deal-Later p o t = Later-bind time (deal_named h t) _ (deal_named-Later t) go
    where
      go :
          (named : Option Deal)
          → Later time (elim named as (λ x. Exec S (Option Deal)) [
            | some x ↦ pure (some x)
            | none ↦
                serialized h (h.deals_of_position p) >>= λ deals. pure (newest (closing_of o deals))
          ])
      go none =
          Later-bind time (serialized h (h.deals_of_position p)) _
            (serialized-Later time h c _ (h.deals_of_position p) (closings_later p))
            (λ a v. omega arith)
      go (some x) = λ w. omega arith

  module _ (cfg : Config) (position_ticket : ℕ) where
    -- What a round does with the deal that it found.
    abbrev after_look : ℕ → Dict → Exec S (String × Dict) → Option Deal → Exec S (String × Dict)
    after_look deadline d again (some x) = pure ("deal", confirmed x d)
    after_look deadline d again none = monotonic h >>= λ now.
        if leb deadline now
        then pure ("unresolved", d)
        else (sleep h cfg.fill_confirm_poll_ms >> again)

    round-same :
        (again again' : Exec S (String × Dict)) (deadline t : ℕ) (d : Dict)
        (x : Flow (Option Deal) × World S)
        → 0 < cfg.fill_confirm_poll_ms
        → t ≤ time x.1.host
        → ((v : World S) → t < deadline → t + 1 ≤ time v.host → again v ≡ again' v)
        → continue x.0 (after_look deadline d again) x.1
          ≡ continue x.0 (after_look deadline d again') x.1
    unfolding monotonic sleep ◌>>=◌
    round-same again again' deadline t d (value (some x), v) step l k = refl
    round-same again again' deadline t d (reply r, v) step l k = refl
    round-same again again' deadline t d (raised r, v) step l k = refl
    round-same again again' deadline t d (value none, v) step l k =
        elim (Bool-cases (leb deadline (h.monotonic v.host).0)) [
          | inl e ↦ rw e refl
          | inr e ↦
              let early : time v.host < deadline = ground (arith, e, c.reads v.host) in
              rw e (
                k (record v { host = h.sleep cfg.fill_confirm_poll_ms (h.monotonic v.host).1 })
                  (omega (arith, l, early))
                  (omega (
                    arith,
                    l,
                    step,
                    c.kept v.host,
                    c.sleeps cfg.fill_confirm_poll_ms (h.monotonic v.host).1,
                  )))
        ]

    -- Two loops with a round of fuel for each millisecond to the deadline do the same.
    poll_close-same :
        (fuel fuel' deadline : ℕ) (d : Dict) (w : World S)
        → 0 < cfg.fill_confirm_poll_ms
        → 0 < fuel
        → 0 < fuel'
        → deadline < time w.host + fuel
        → deadline < time w.host + fuel'
        → poll_close h cfg position_ticket fuel deadline d w
          ≡ poll_close h cfg position_ticket fuel' deadline d w
    unfolding poll_close ◌>>=◌
    poll_close-same zero fuel' deadline d w step some_fuel some_fuel' enough enough' =
        absurd (omega (arith, some_fuel))
    poll_close-same (suc fuel) zero deadline d w step some_fuel some_fuel' enough enough' =
        absurd (omega (arith, some_fuel'))
    poll_close-same (suc fuel) (suc fuel') deadline d w step some_fuel some_fuel' enough enough' =
        let found =
          closing_deal h position_ticket (ticket_of (get "order" d)) (ticket_of (get "deal" d)) in
        round-same (poll_close h cfg position_ticket fuel deadline d)
          (poll_close h cfg position_ticket fuel' deadline d) deadline (time w.host) d
          (rescue none found w) step
          (rescue-Later time none found (closing_deal-Later position_ticket _ _) w)
          (λ v early later.
            poll_close-same fuel fuel' deadline d v step (omega (arith, early, enough))
              (omega (arith, early, enough')) (omega (arith, later, enough))
              (omega (arith, later, enough')))

    -- On a clock that never goes back and whose sleeps last, with a poll interval of at least a
    -- millisecond, confirming a close always comes to a price source and a result, whatever the
    -- look-ups answer or raise; and where it looks for the deal, the loop is ended by a deal or by
    -- its deadline: with any larger fuel it gives the same result and has the same effect.
    pub confirm_close_ends :
        (more : ℕ) (d : Dict) (w : World S)
        → 0 < cfg.fill_confirm_poll_ms
        → (is_value (confirm_close h cfg position_ticket d w).0 ≡ true)
          × (is_truthy (get "price" d) && is_truthy (get "deal" d) ≡ false
              → confirm_close h cfg position_ticket d w
                ≡ (monotonic h >>= λ now.
                      poll_close h cfg position_ticket
                        (cfg.fill_confirm_timeout_ms + 1 + more)
                        (now + cfg.fill_confirm_timeout_ms)
                        d)
                    w)
    unfolding confirm_close monotonic ◌>>=◌
    confirm_close_ends more d w step = (
      confirm_close_total h cfg position_ticket d w,
      λ looks.
          let started = record w { host = (h.monotonic w.host).1 } in
          rw (confirm_close, looks)
            (poll_close-same (cfg.fill_confirm_timeout_ms + 1)
              (cfg.fill_confirm_timeout_ms + 1 + more)
              ((h.monotonic w.host).0 + cfg.fill_confirm_timeout_ms) d started step (omega arith)
              (omega arith) (omega (arith, c.reads w.host, c.kept w.host))
              (omega (arith, c.reads w.host, c.kept w.host))),
    )

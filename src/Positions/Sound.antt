-- ===== src/Positions/Sound.antt =====
-- What a request that closes a position is known to satisfy (app/lib.py, app/routes/position.py).
use mt5_gateway.Prelude.{
  ◌≡◌, refl, inl, inr, arith, ℕ, ◌==◌, ◌⊎◌, List, [], ◌∷◌, Bool, true, false, Option, none, some,
  if◌then◌else◌, Bool-cases, not, pos,
}
use mt5_gateway.Json.{Json, int, text}
use mt5_gateway.Flow.{value}
use mt5_gateway.Symbols.{validate_symbol}
use mt5_gateway.Validation.{filling_mode_of}
use mt5_gateway.Host.{
  Tick, SendResult, TradeRequest, Position, Host, order_type_buy, order_type_sell,
}
use mt5_gateway.World.{World, pure, ◌>>=◌, serialized, exec->>=-value}
use mt5_gateway.Order.Steps.{Quoted}
use mt5_gateway.Positions.{
  closing_type, closing_price, close_request, first_position, close_at, close_selected, close_found,
  close_ticket,
}

-- A deal of the other side, priced at the side of the quote that it trades at.
abbrev pub Closes : Position → Tick → TradeRequest → Type 0
Closes p tick r =
    ((p.type ≡ 0) × (r.type ≡ some order_type_sell) × (r.price ≡ some tick.bid))
    ⊎ ((p.type ≡ 1) × (r.type ≡ some order_type_buy) × (r.price ≡ some tick.ask))

pub close_request-Closes :
    (ticket : ℕ) (p : Position) (volume order_type : ℕ) (tick : Tick) (deviation comment : Json)
    (mode : ℕ)
    → closing_type p.type ≡ some order_type
    → Closes p tick (
        close_request ticket p volume order_type (closing_price p.type tick) deviation comment mode)
unfolding closing_type closing_price close_request
close_request-Closes ticket p volume order_type tick deviation comment mode e =
    elim (Bool-cases (p.type == 0)) [
      | inl z ↦ inl (ground (arith, z), ground (arith, z, e), ground (arith, z))
      | inr z ↦ inr (ground (arith, z, e), ground (arith, z, e), ground (arith, z))
    ]

module _ {S : Type 0} (h : Host S) where
  -- The last thing done was to send this request, and it was answered.
  abbrev pub Sent : TradeRequest → SendResult → World S → Type 0
  Sent q r v = (u : World S) × (serialized h (h.order_send q) u ≡ (value (some r), v))

  -- The request closes the whole of the position, and nothing else.
  abbrev pub Whole : ℕ → Position → SendResult → World S → Type 0
  Whole ticket p r v =
      (tick : Tick) × (q : TradeRequest) × Quoted h p.symbol tick
      × Closes p tick q
      × (q.position ≡ some ticket)
      × (q.volume ≡ some p.volume)
      × (q.symbol ≡ some p.symbol)
      × Sent q r v

  close_at-Whole :
      (ticket : ℕ) (p : Position) (order_type : ℕ) (deviation comment : Json) (tick : Option Tick)
      (w : World S) {r : SendResult} {v : World S}
      → ((t : Tick) → tick ≡ some t → Quoted h p.symbol t)
      → closing_type p.type ≡ some order_type
      → close_at h ticket p order_type deviation comment tick w ≡ (value (some r), v)
      → Whole ticket p r v
  unfolding close_at close_request
  close_at-Whole ticket p order_type deviation comment none w origin known e = cc
  close_at-Whole ticket p order_type deviation comment (some tick) w {r} {v} origin known e =
      go (closing_price p.type tick == 0) e
    where
      go :
          (b : Bool)
          → (if b then pure none else do
            info ← serialized h (h.symbol_info p.symbol)
            serialized h (
                h.order_send (
                  close_request ticket p p.volume order_type
                    (closing_price p.type tick)
                    deviation
                    comment
                    (filling_mode_of info))))
              w
            ≡ (value (some r), v)
          → Whole ticket p r v
      go true e1 = cc
      go false e1 =
          let (info, u, _, sent) = exec->>=-value (serialized h (h.symbol_info p.symbol)) _ e1 in
          (
            tick,
            _,
            origin tick refl,
            close_request-Closes ticket p p.volume order_type tick deviation comment
                (filling_mode_of info) known,
            refl,
            refl,
            refl,
            (u, sent),
          )

  close_found-Whole :
      (ticket : ℕ) (p : Position) (deviation comment : Json) (w : World S) {r : SendResult}
      {v : World S}
      → close_found h ticket deviation comment (some p) w ≡ (value (some r), v)
      → Whole ticket p r v
  unfolding close_found close_selected
  close_found-Whole ticket p deviation comment w {r} {v} e = go (closing_type p.type) refl e
    where
      at_quote :
          (order_type : ℕ) (known : Bool) (u : World S)
          → closing_type p.type ≡ some order_type
          → (if not known then pure none else do
            tick ← serialized h (h.symbol_info_tick p.symbol)
            close_at h ticket p order_type deviation comment tick)
              u
            ≡ (value (some r), v)
          → Whole ticket p r v
      at_quote order_type false u is e1 = cc
      at_quote order_type true u is e1 =
          let (tick, u1, asked, e2) =
            exec->>=-value (serialized h (h.symbol_info_tick p.symbol)) _ e1 in
          close_at-Whole ticket p order_type deviation comment tick u1
            (λ t is_t. (u, u1, rw is_t at asked)) is e2

      go :
          (t : Option ℕ)
          → closing_type p.type ≡ t
          → close_selected h ticket p deviation comment t w ≡ (value (some r), v)
          → Whole ticket p r v
      go none is e1 = cc
      go (some order_type) is e1 =
          let (known, u, _, e2) = exec->>=-value (validate_symbol h p.symbol) _ e1 in
          at_quote order_type known u is e2

  -- Where closing a ticket has a result, the terminal listed a position for it first, and the last
  -- thing sent was a request for that ticket, over the position's whole volume and in its symbol, of
  -- the opposite side and at the side of a quote of the terminal that the side trades at.
  pub close_ticket_sound :
      (ticket : ℕ) (w : World S) {r : SendResult} {v : World S}
      → close_ticket h ticket w ≡ (value (some r), v)
      → (p : Position) × (rest : List Position) × (u : World S) × (serialized h
            (h.positions_get ticket)
            w
          ≡ (value (some (p ∷ rest)), u))
        × Whole ticket p r v
  unfolding close_ticket close_found
  close_ticket_sound ticket w {r} {v} e =
      let (positions, u, listed, e1) = exec->>=-value (serialized h (h.positions_get ticket)) _ e in
      go positions u listed e1
    where
      go :
          (positions : Option (List Position)) (u : World S)
          → serialized h (h.positions_get ticket) w ≡ (value positions, u)
          → close_found h ticket (int (pos 20)) (text "") (first_position positions) u
            ≡ (value (some r), v)
          → (p : Position) × (rest : List Position) × (u : World S) × (serialized h
                (h.positions_get ticket)
                w
              ≡ (value (some (p ∷ rest)), u))
            × Whole ticket p r v
      go none u listed e1 = cc
      go (some []) u listed e1 = cc
      go (some (p ∷ rest)) u listed e1 = (p, rest, u, listed, close_found-Whole ticket p _ _ u e1)

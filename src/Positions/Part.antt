-- ===== src/Positions/Part.antt =====
-- What the request of a partial close is known to satisfy (app/routes/position.py).
use mt5_gateway.Prelude.{
  String, ◌≡◌, refl, ap, inl, inr, arith, ℕ, ◌<◌, List, [], ◌∷◌, Option, none, some, Option-cases,
  ℤ, pos,
}
use mt5_gateway.Json.{int, Message, Number, Json, Dict, get, finite}
use mt5_gateway.Flow.{Flow, value}
use mt5_gateway.Money.{SymbolInfo}
use mt5_gateway.Errors.{RequestId}
use mt5_gateway.Convert.{float_of, int_of}
use mt5_gateway.Symbols.{validate_symbol}
use mt5_gateway.Validation.{validate_volume, filling_mode_of}
use mt5_gateway.Host.{Tick, Position, Host, Library, Config}
use mt5_gateway.World.{World, lift, serialized, serialized_total}
use mt5_gateway.Positions.{closing_type, closing_price, close_request, first_position}
use mt5_gateway.Positions.Partial.{
  quoted, PartialClose, prepare_close, prepare_partial, must_be_numeric, positive_volume, found,
  admit_volume, less_than_position, opposite,
}
use mt5_gateway.Positions.Sound.{Closes, close_request-Closes}
use mt5_gateway.Order.Steps.{after, Quoted, Informed}

pub value_of :
    {S A : Type 0} {a b : A} {u v : World S}
    → ◌≡◌ {A = Flow A × World S} (value a, u) (value b, v)
    → a ≡ b
value_of {A} {a} {b} e = let e0 : ◌≡◌ {A = Flow A} (value a) (value b) = ap (λ x. x.0) e in cc

module _ {S : Type 0} (h : Host S) (lib : Library) (cfg : Config) (id : RequestId) where
  -- What is known of a partial close that is about to be sent.
  abbrev pub Fit : ℕ → ℕ → Position → PartialClose → Type 0
  Fit ticket volume p c =
      (info : Option SymbolInfo) × (tick : Tick) × Informed h p.symbol info
      × Quoted h p.symbol tick
      × (validate_volume info volume ≡ none)
      × (volume < p.volume)
      × Closes p tick c.request
      × (c.request.position ≡ some ticket)
      × (c.request.volume ≡ some volume)
      × (c.request.symbol ≡ some p.symbol)

  admit_volume-value :
      (verdict : Option Message) {t : Unit {0}}
      → admit_volume h lib cfg id verdict ≡ value t
      → verdict ≡ none
  unfolding admit_volume
  admit_volume-value none e = refl
  admit_volume-value (some m) e = cc

  less-value :
      (volume : ℕ) (p : Position) {t : Unit {0}}
      → less_than_position h lib cfg id volume p ≡ value t
      → volume < p.volume
  unfolding less_than_position
  less-value volume p e = ground (arith, e)

  opposite-value :
      (p : Position) {t : ℕ} → opposite h lib cfg id p ≡ value t → closing_type p.type ≡ some t
  unfolding opposite
  opposite-value p e = elim (Option-cases (closing_type p.type)) [
    | inl n ↦ ground (arith, n, e)
    | inr (t, s) ↦ ground (arith, s, e)
  ]

  quoted-value :
      (symbol : String) (asked : Option Tick) {tick : Tick}
      → quoted h lib cfg id symbol asked ≡ value tick
      → asked ≡ some tick
  unfolding quoted
  quoted-value symbol none e = cc
  quoted-value symbol (some t) e = cc

  fitted :
      (ticket volume : ℕ) (p : Position) (info : Option SymbolInfo) (tick : Tick)
      (order_type mode : ℕ) (deviation comment : Json) {c : PartialClose}
      → Informed h p.symbol info
      → Quoted h p.symbol tick
      → validate_volume info volume ≡ none
      → volume < p.volume
      → closing_type p.type ≡ some order_type
      → record {
        ticket = ticket;
        position = p;
        volume = volume;
        request =
            close_request ticket p volume order_type
              (closing_price p.type tick)
              deviation
              comment
              mode;
      }
        ≡ c
      → Fit ticket volume p c
  unfolding close_request
  fitted ticket volume p info tick order_type mode deviation comment {c} told shown fits less side
        e =
      let r : close_request ticket p volume order_type (closing_price p.type tick) deviation comment
            mode
          ≡ c.request =
        ap (λ x. x.request) e in
      (
        info,
        tick,
        told,
        shown,
        fits,
        less,
        rw⁻¹ r (close_request-Closes ticket p volume order_type tick deviation comment mode side),
        rw⁻¹ r refl,
        rw⁻¹ r refl,
        rw⁻¹ r refl,
      )

  prepare_close-Fit :
      (d : Dict) (given : ℤ) (ticket volume : ℕ) (p : Position) (w : World S) {c : PartialClose}
      {v : World S}
      → prepare_close h lib cfg id d given ticket volume p w ≡ (value c, v)
      → Fit ticket volume p c
  unfolding prepare_close
  prepare_close-Fit d given ticket volume p w e = after (lift _) _ e (λ _ _ _ e1.
      after (lift _) _ e1 (λ _ _ _ e2. after (lift _) _ e2 (λ _ _ _ e3.
        after (validate_symbol h p.symbol) _ e3 (λ _ _ _ e4. after (lift _) _ e4 (λ _ ui _ e5.
          after (serialized h (h.symbol_info p.symbol)) _ e5 (λ info ui' told e6.
            after (lift _) _ e6 (λ _ _ fits e7. after (lift _) _ e7 (λ _ uq less e8.
              after (serialized h (h.symbol_info_tick p.symbol)) _ e8 (λ asked uq' asking e9.
                after (lift _) _ e9 (λ tick _ quote e10.
                  after (lift _) _ e10 (λ order_type _ side e11.
                    after (serialized h (h.symbol_info p.symbol)) _ e11 (λ mode _ _ e12.
                      fitted ticket volume p info tick order_type (filling_mode_of mode) _ _
                        (ui, ui', told)
                        (uq, uq', rw (quoted-value p.symbol asked (ap (λ x. x.0) quote)) at asking)
                        (admit_volume-value _ (ap (λ x. x.0) fits))
                        (less-value volume p (ap (λ x. x.0) less))
                        (opposite-value p (ap (λ x. x.0) side)) (value_of e12)))))))))))))

  positive-value :
      (x : Number) {n : ℕ}
      → positive_volume h lib cfg id x ≡ value n
      → (x ≡ finite (pos n)) × (0 < n)
  unfolding positive_volume
  positive-value x e = (ground (arith, e), ground (arith, e))

  numeric-value :
      {A : Type 0} (f : Flow A) {a : A} → must_be_numeric h lib cfg id f ≡ value a → f ≡ value a
  unfolding must_be_numeric
  numeric-value f e = ground (arith, e)

  found-listed :
      (given : ℤ) (positions : Option (List Position)) {p : Position}
      → found h lib cfg id given (first_position positions) ≡ value p
      → (rest : List Position) × (positions ≡ some (p ∷ rest))
  unfolding found
  found-listed given none e = cc
  found-listed given (some []) e = cc
  found-listed given (some (q ∷ qs)) e = (qs, cc)

  -- Where the preparation of a partial close ends in a request, the body's ticket was read as a whole
  -- number, which the package turned into the ticket that it takes; the body's volume was read as a
  -- positive number that passes the check against the terminal's info of the symbol and is below the
  -- position's volume, and the request is for exactly that volume of a position that the terminal
  -- listed for that ticket, in its symbol, of the opposite side and at the side of a quote of the
  -- terminal that the side trades at.
  pub prepare_partial_sound :
      (d : Dict) (w : World S) {c : PartialClose} {v : World S}
      → prepare_partial h lib cfg id d w ≡ (value c, v)
      → (given : ℤ) × (p : Position) × (ticket : ℕ) × (volume : ℕ) × (rest : List Position)
        × (u : World S) × (u' : World S) × (int_of lib (get "ticket" d) ≡ value given)
        × ((u0 : World S) × (serialized_total h (h.ticket_of_value (int given)) u0
              ≡ (value ticket, u)))
        × (serialized h (h.positions_get ticket) u ≡ (value (some (p ∷ rest)), u'))
        × (float_of lib (get "volume" d) ≡ value (finite (pos volume)))
        × (0 < volume)
        × Fit ticket volume p c
  unfolding prepare_partial
  prepare_partial_sound d w e = after (lift _) _ e (λ _ _ _ e1.
      after (lift _) _ e1 (λ given _ whole e2. after (lift _) _ e2 (λ number _ read e3.
        after (lift _) _ e3 (λ volume u0 positive e4.
          after (serialized_total h _) _ e4 (λ ticket u turned e5.
            after (serialized h (h.positions_get ticket)) _ e5 (λ positions u' listed e6.
              after (lift _) _ e6 (λ p u'' is_p e7.
                let (rest, is_listed) = found-listed given positions (ap (λ x. x.0) is_p) in
                let (is_number, more) = positive-value number (ap (λ x. x.0) positive) in
                let read' : float_of lib (get "volume" d) ≡ value number =
                  numeric-value _ (ap (λ x. x.0) read) in
                (
                  given,
                  p,
                  ticket,
                  volume,
                  rest,
                  u,
                  u',
                  numeric-value _ (ap (λ x. x.0) whole),
                  (u0, turned),
                  rw is_listed at listed,
                  rw is_number at read',
                  more,
                  prepare_close-Fit d given ticket volume p u'' e7,
                ))))))))

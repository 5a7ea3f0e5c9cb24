-- ===== src/CloseConfirm/Found.antt =====
-- Which deal a close is confirmed from, and that looking for it never fails (app/close_confirm.py).
use mt5_gateway.Prelude.{
  ℕ, zero, suc, ◌≤◌, ◌<◌, ◌≡◌, inl, inr, ◌⊎◌, sym, refl, arith, Bool, true, Option, none, some,
  List, [], ◌∷◌, All, select, ltb, leb, ◌==◌, ◌&&◌, not, Bool-cases, if◌then◌else◌,
}
use mathlib.Core.Path.{subst}
use mt5_gateway.Json.{Dict, get, is_truthy}
use mt5_gateway.Host.{Host, Config, Deal}
use mt5_gateway.World.{World, Exec, pure, ◌>>=◌, ◌>>◌, serialized, monotonic, sleep}
use mt5_gateway.Order.Fill.{rescue}
use mt5_gateway.Order.Ends.{
  is_value, Quiet, Total, Quiet-bind, Total-bind, found-Total, rescue-Total, serialized-Quiet,
  if-Total,
}
use mt5_gateway.CloseConfirm.{
  is_closing_entry, newer, newest, closing_of, ticket_of, deal_named, closing_deal, confirmed,
  poll_close, confirm_close,
}

select-All {ℓ ℓ'} :
    {A : Type ℓ} (P : A → Type ℓ') (f : A → Bool) (xs : List A)
    → ((x : A) → f x ≡ true → P x)
    → All P (select f xs)
unfolding select
select-All P f [] h = tt
select-All P f (x ∷ xs) h = elim (Bool-cases (f x)) [
  | inl e ↦ rw (e, select) (h x e, select-All P f xs h)
  | inr e ↦ rw (e, select) (select-All P f xs h)
]

select-kept {ℓ ℓ'} :
    {A : Type ℓ} (Q P : A → Type ℓ') (f : A → Bool) (xs : List A)
    → All Q xs
    → ((x : A) → Q x → f x ≡ true → P x)
    → All P (select f xs)
unfolding select
select-kept Q P f [] q h = tt
select-kept Q P f (x ∷ xs) (q, qs) h = elim (Bool-cases (f x)) [
  | inl e ↦ rw (e, select) (h x q e, select-kept Q P f xs qs h)
  | inr e ↦ rw (e, select) (select-kept Q P f xs qs h)
]

-- What holds of each deal holds of the newest.
newer-All {ℓ} :
    (P : Deal → Type ℓ) (best : Deal) (xs : List Deal) → P best → All P xs → P (newer best xs)
unfolding newer
newer-All P best [] p h = p
newer-All P best (x ∷ xs) p (q, h) = elim (Bool-cases (ltb best.time_msc x.time_msc)) [
  | inl e ↦ rw e (newer-All P x xs q h)
  | inr e ↦ rw e (newer-All P best xs p h)
]

newer-bounds :
    (best : Deal) (xs : List Deal) {m : Deal}
    → newer best xs ≡ m
    → (best.time_msc ≤ m.time_msc) × All (λ y. y.time_msc ≤ m.time_msc) xs
unfolding newer
newer-bounds best [] {m} e = (rw e (omega arith), tt)
newer-bounds best (x ∷ xs) {m} e =
    let (a, rest) = newer-bounds (if ltb best.time_msc x.time_msc then x else best) xs e in
    (ground (arith, a), (ground (arith, a), rest))

-- A deal that closes a position, has a price, and is the given order's where there is one.
abbrev pub Closes : ℕ → Deal → Type 0
Closes order_ticket x =
    (is_closing_entry x.entry ≡ true) × (0 < x.price) × (0 < order_ticket → x.order ≡ order_ticket)

closing_of-All : (o : ℕ) (deals : List Deal) → All (Closes o) (closing_of o (some deals))
unfolding closing_of
closing_of-All o deals =
    let priced =
      select-All (Closes 0) (λ x. is_closing_entry x.entry && not (x.price == 0)) deals
        (λ x f. (ground arith, ground arith, λ l. absurd (omega (arith, l)))) in
    elim (Bool-cases (o == 0)) [
      | inl e ↦ let o_eq : o ≡ 0 = ground arith in rw (o_eq) priced
      | inr e ↦ rw e (
          select-kept (Closes 0) (Closes o) (λ x. x.order == o) _ priced
            (λ x c f. (c.0, c.1, λ l. ground arith)))
    ]

newest_of :
    (o : ℕ) (deals : List Deal) {x : Deal}
    → newest deals ≡ some x
    → All (Closes o) deals
    → Closes o x × All (λ y. y.time_msc ≤ x.time_msc) deals
unfolding newest
newest_of o [] e h = cc
newest_of o (d ∷ deals) {x} e (c, h) =
    let same : newer d deals ≡ x = ground arith in
    (rw (← same) (newer-All (Closes o) d deals c h), newer-bounds d deals same)

abbrev pub Member : Deal → List Deal → Type 0
Member x [] = ⊥
Member x (y ∷ ys) = (x ≡ y) ⊎ Member x ys

Member-mono :
    (x y : Deal) (xs ys : List Deal)
    → (Member x xs → Member x ys)
    → Member x (y ∷ xs)
    → Member x (y ∷ ys)
Member-mono x y xs ys f (inl e) = inl e
Member-mono x y xs ys f (inr m) = inr (f m)

select-Member : (f : Deal → Bool) (x : Deal) (xs : List Deal) → Member x (select f xs) → Member x xs
unfolding select
select-Member f x [] m = m
select-Member f x (y ∷ ys) m =
    let deeper = select-Member f x ys in
    elim (Bool-cases (f y)) [
      | inl e ↦ Member-mono x y (select f ys) ys deeper (rw (e, select) at m)
      | inr e ↦ inr (deeper (rw (e, select) at m))
    ]

-- What holds of each deal that passes.
select-back {ℓ} :
    (P : Deal → Type ℓ) (f : Deal → Bool) (xs : List Deal)
    → All P (select f xs)
    → All (λ y. f y ≡ true → P y) xs
unfolding select
select-back P f [] h = tt
select-back P f (y ∷ ys) h = elim (Bool-cases (f y)) [
  | inl e ↦ let k = rw (e, select) at h in ((λ _. k.0), select-back P f ys k.1)
  | inr e ↦ ((λ u. cc), select-back P f ys (rw (e, select) at h))
]

All-map {ℓ ℓ'} :
    (P : Deal → Type ℓ) (Q : Deal → Type ℓ') (xs : List Deal)
    → ((x : Deal) → P x → Q x)
    → All P xs
    → All Q xs
All-map P Q [] f h = tt
All-map P Q (x ∷ xs) f h = (f x h.0, All-map P Q xs f h.1)

newer-Member : (best : Deal) (xs : List Deal) {m : Deal} → newer best xs ≡ m → Member m (best ∷ xs)
unfolding newer
newer-Member best [] e = inl (sym e)
newer-Member best (x ∷ xs) {m} e =
    go (newer-Member (if ltb best.time_msc x.time_msc then x else best) xs e)
  where
    go :
        Member m ((if ltb best.time_msc x.time_msc then x else best) ∷ xs)
        → Member m (best ∷ x ∷ xs)
    go (inr r) = inr (inr r)
    go (inl e) = elim (Bool-cases (ltb best.time_msc x.time_msc)) [
      | inl b ↦ inr (inl (rw b at e))
      | inr b ↦ inl (rw b at e)
    ]

newest-Member : (xs : List Deal) {m : Deal} → newest xs ≡ some m → Member m xs
unfolding newest
newest-Member [] e = cc
newest-Member (x ∷ xs) {m} e = newer-Member x xs (ground arith)

module _ (o : ℕ) (deals : List Deal) where
  closing_of-Member : (x : Deal) → Member x (closing_of o (some deals)) → Member x deals
  unfolding closing_of
  closing_of-Member x m = elim (Bool-cases (o == 0)) [
    | inl e ↦ select-Member _ x deals (rw e at m)
    | inr e ↦ select-Member _ x deals (select-Member _ x _ (rw e at m))
  ]

  -- What holds of each deal that is chosen holds of each that closes.
  closing_of-back {ℓ} :
      (P : Deal → Type ℓ) → All P (closing_of o (some deals)) → All (λ y. Closes o y → P y) deals
  unfolding closing_of
  closing_of-back P h = elim (Bool-cases (o == 0)) [
    | inl e ↦
        All-map _ _ deals (λ y k c. k (ground (arith, c.0, c.1)))
          (select-back P (λ x. is_closing_entry x.entry && not (x.price == 0)) deals (rw e at h))
    | inr e ↦
        All-map _ _ deals (λ y k c. k (ground (arith, c.0, c.1)) (ground (arith, e, c.2)))
          (select-back _ (λ x. is_closing_entry x.entry && not (x.price == 0)) deals
            (select-back P (λ x. x.order == o) _ (rw e at h)))
  ]

newest-none : (xs : List Deal) → newest xs ≡ none → xs ≡ []
unfolding newest
newest-none [] e = refl
newest-none (x ∷ xs) e = cc

-- The deal that the history gives for a position and an order ticket is one of the listed deals; it
-- closes a position, has a price, and is that order's unless the ticket is 0, and no listed deal of
-- this kind is newer. Where none is given, no listed deal is of this kind.
pub newest_closing :
    (o : ℕ) (deals : List Deal)
    → ((x : Deal)
        → newest (closing_of o (some deals)) ≡ some x
        → Member x deals × Closes o x × All (λ y. Closes o y → y.time_msc ≤ x.time_msc) deals)
      × (newest (closing_of o (some deals)) ≡ none → All (λ y. ¬ Closes o y) deals)
newest_closing o deals = (
  λ x e.
      let (closes, most) = newest_of o (closing_of o (some deals)) e (closing_of-All o deals) in
      (
        closing_of-Member o deals x (newest-Member (closing_of o (some deals)) e),
        closes,
        closing_of-back o deals (λ y. y.time_msc ≤ x.time_msc) most,
      ),
  λ e.
      closing_of-back o deals (λ y. ⊥)
        (subst (All (λ y. ⊥)) (sym (newest-none (closing_of o (some deals)) e)) tt),
)

module _ {S : Type 0} (h : Host S) where
  deal_named-Quiet : (t : ℕ) → Quiet (deal_named h t)
  unfolding deal_named
  deal_named-Quiet t w = elim (Bool-cases (t == 0)) [
    | inl e ↦ ground arith
    | inr e ↦ rw e (Quiet-bind _ _ (serialized-Quiet _ h (h.deals_of_ticket t)) (λ a v. refl) w)
  ]

  closing_deal-Quiet : (p o t : ℕ) → Quiet (closing_deal h p o t)
  unfolding closing_deal
  closing_deal-Quiet p o t = Quiet-bind (deal_named h t) _ (deal_named-Quiet t) go
    where
      go :
          (named : Option Deal)
          → Quiet (elim named as (λ x. Exec S (Option Deal)) [
            | some x ↦ pure (some x)
            | none ↦
                serialized h (h.deals_of_position p) >>= λ deals. pure (newest (closing_of o deals))
          ])
      go none =
          Quiet-bind (serialized h (h.deals_of_position p)) _
            (serialized-Quiet _ h (h.deals_of_position p)) (λ a v. refl)
      go (some x) = λ w. refl

module _ {S : Type 0} (h : Host S) (cfg : Config) (position_ticket : ℕ) where
  poll_close-Total :
      (fuel deadline : ℕ) (d : Dict) → Total (poll_close h cfg position_ticket fuel deadline d)
  unfolding poll_close monotonic sleep
  poll_close-Total zero deadline d = λ w. refl
  poll_close-Total (suc fuel) deadline d =
      let again = poll_close-Total fuel deadline d in
      let found =
        closing_deal h position_ticket (ticket_of (get "order" d)) (ticket_of (get "deal" d)) in
      Total-bind (rescue none found) _ (rescue-Total none found (closing_deal-Quiet h _ _ _))
        (λ deal.
          found-Total deal
            (monotonic h >>= λ now.
              if leb deadline now
              then pure ("unresolved", d)
              else (sleep h cfg.fill_confirm_poll_ms
                  >> poll_close h cfg position_ticket fuel deadline d))
            (λ x. pure ("deal", confirmed x d))
            (Total-bind (monotonic h) _ (λ w. refl)
              (λ now.
                if-Total (leb deadline now) (pure ("unresolved", d)) _ (λ w. refl)
                  (Total-bind (sleep h cfg.fill_confirm_poll_ms) _ (λ w. refl) (λ t. again))))
            (λ x w. refl))

  -- Confirming a close always comes to a price source and a result, whatever the look-ups answer or
  -- raise.
  pub confirm_close_total :
      (d : Dict) (w : World S) → is_value (confirm_close h cfg position_ticket d w).0 ≡ true
  unfolding confirm_close monotonic
  confirm_close_total d =
      if-Total (is_truthy (get "price" d) && is_truthy (get "deal" d)) (pure ("order_send", d)) _
        (λ w. refl) (Total-bind (monotonic h) _ (λ w. refl) (λ now. poll_close-Total _ _ d))

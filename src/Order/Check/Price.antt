-- ===== src/Order/Check/Price.antt =====
-- The price of a dry run (app/routes/order.py).
use mt5_gateway.Prelude.{
  ◌≡◌, ◌≢◌, ◌⊎◌, refl, sym, inl, inr, ℕ, String, Bool, true, false, Option, none, some, [], ◌∷◌,
  ◌==◌, if◌then◌else◌,
}
use mt5_gateway.Json.{lit, Json, say, Dict, lookup}
use mt5_gateway.Flow.{value}
use mathlib.Core.Path.{subst}
use mt5_gateway.Positions.Part.{value_of}
use mt5_gateway.Order.Key.{invalid}
use mt5_gateway.Money.{SymbolInfo}
use mt5_gateway.Errors.{RequestId}
use mt5_gateway.Validation.{Verdict, validate_pending_price}
use mt5_gateway.Host.{Tick, Host, Library, Config, order_type_buy}
use mt5_gateway.World.{World, Exec, pure, ◌>>◌, lift, ◌>>=◌, serialized}
use mt5_gateway.Order.Pricing.{is_market, accept}
use mt5_gateway.Order.Steps.{after, Quoted, Informed}
use mt5_gateway.Pending.Levels.{Magnitude, exactly, unbounded, undefined, price_verdict}
use mt5_gateway.Order.Check.{checked_market, checked_against, checked_pending, positive_number}

module _ {S : Type 0} (h : Host S) (lib : Library) (cfg : Config) (id : RequestId) where
  pub accept-value :
      (verdict : Verdict) (w : World S) {t : Unit {0}} {v : World S}
      → accept h lib cfg id verdict w ≡ (value t, v)
      → verdict ≡ none
  accept-value none w e = refl
  accept-value (some m) w e = cc

  -- The price is the side of a quote of the terminal that the order would trade at, or one that passes
  -- the check against such a quote and the symbol's info.
  abbrev pub IsPriced : ℕ → String → Magnitude → Type 0
  IsPriced t symbol price =
      ((is_market t ≡ true)
        × ((q : Tick) × Quoted h symbol q
            × (price ≡ exactly (if t == order_type_buy then q.ask else q.bid))))
      ⊎ ((is_market t ≡ false)
          × ((q : Tick) × (info : Option SymbolInfo) × Quoted h symbol q
              × Informed h symbol info
              × (price_verdict t (some q) info price ≡ none)))

  checked_market-IsPriced :
      (t : ℕ) (symbol : String) (w : World S) {price : Magnitude} {v : World S}
      → is_market t ≡ true
      → checked_market h lib cfg id t symbol w ≡ (value price, v)
      → IsPriced t symbol price
  unfolding checked_market
  checked_market-IsPriced t symbol w {price} {v} market e =
      after (serialized h (h.symbol_info_tick symbol)) _ e
        (λ tick u asked rest. go tick u asked rest)
    where
      go :
          (tick : Option Tick) (u : World S)
          → serialized h (h.symbol_info_tick symbol) w ≡ (value tick, u)
          → (elim tick as (λ x. Exec S Magnitude) [
            | none ↦ lift (invalid id (lit "Failed to get symbol price for " ∷ lit symbol ∷ []))
            | some q ↦ pure (exactly (if t == order_type_buy then q.ask else q.bid))
          ])
              u
            ≡ (value price, v)
          → IsPriced t symbol price
      go none u asked rest = cc
      go (some q) u asked rest = inl (market, (q, (w, u, asked), sym (value_of rest)))

  no_quote : (t : ℕ) (price : Magnitude) → price_verdict t none none price ≢ none
  unfolding price_verdict validate_pending_price
  no_quote t (exactly n) = λ e. cc
  no_quote t unbounded = λ e. cc
  no_quote t undefined = λ e. cc

  checked_against-verdict :
      (t : ℕ) (symbol : String) (price : Magnitude) (tick : Option Tick) (w : World S)
      {x : Unit {0}} {v : World S}
      → checked_against h lib cfg id t symbol price tick w ≡ (value x, v)
      → (q : Tick) × (info : Option SymbolInfo) × (tick ≡ some q)
        × Informed h symbol info
        × (price_verdict t (some q) info price ≡ none)
  unfolding checked_against
  checked_against-verdict t symbol price none w e = absurd (no_quote t price (accept-value _ w e))
  checked_against-verdict t symbol price (some q) w e =
      after (serialized h (h.symbol_info symbol)) _ e
        (λ info u asked rest. (q, info, refl, (w, u, asked), accept-value _ u rest))

  checked_pending-IsPriced :
      (t : ℕ) (symbol : String) (d : Dict) (w : World S) {price : Magnitude} {v : World S}
      → is_market t ≡ false
      → checked_pending h lib cfg id t symbol d w ≡ (value price, v)
      → IsPriced t symbol price
  unfolding checked_pending
  checked_pending-IsPriced t symbol d w {price} {v} pending e = go (lookup "price" d) e
    where
      go :
          (o : Option Json)
          → (elim o as (λ x. Exec S Magnitude) [
            | none ↦ lift (invalid id (say "Price required for pending orders"))
            | some j ↦ do
              p ← lift (positive_number h lib cfg id (say "Price must be positive") j)
              tick ← serialized h (h.symbol_info_tick symbol)
              checked_against h lib cfg id t symbol p tick
              pure p
          ])
              w
            ≡ (value price, v)
          → IsPriced t symbol price
      go none k = cc
      go (some j) k = after (lift _) _ k (λ p u' _ e1.
          after (serialized h (h.symbol_info_tick symbol)) _ e1 (λ tick u asked e2.
            after (checked_against h lib cfg id t symbol p tick) _ e2 (λ _ _ against e3.
              let (q, info, is_q, told, fits) = checked_against-verdict t symbol p tick u against in
              inr (
                pending,
                (
                  q,
                  info,
                  (u', u, rw is_q at asked),
                  told,
                  subst (λ m. price_verdict t (some q) info m ≡ none) (value_of e3) fits,
                ),
              ))))

  pub IsPriced-either :
      (t : ℕ) (symbol : String) (d : Dict) (w : World S) {price : Magnitude} {v : World S}
      → (if is_market t
            then checked_market h lib cfg id t symbol
            else checked_pending h lib cfg id t symbol d)
          w
        ≡ (value price, v)
      → IsPriced t symbol price
  IsPriced-either t symbol d w {price} {v} e = go (is_market t) refl e
    where
      go :
          (b : Bool)
          → is_market t ≡ b
          → (if b
                then checked_market h lib cfg id t symbol
                else checked_pending h lib cfg id t symbol d)
              w
            ≡ (value price, v)
          → IsPriced t symbol price
      go true m k = checked_market-IsPriced t symbol w m k
      go false m k = checked_pending-IsPriced t symbol d w m k

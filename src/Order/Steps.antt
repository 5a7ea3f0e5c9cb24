-- ===== src/Order/Steps.antt =====
-- The steps of a handler in app/routes/order.py, taken apart.
use mt5_gateway.Prelude.{ap, Bool, true, false, [], ◌∷◌, if◌then◌else◌, ◌≡◌, String, Option, some}
use mt5_gateway.Flow.{Flow, value}
use mt5_gateway.Money.{SymbolInfo}
use mt5_gateway.Host.{Tick, Host, Library, Config}
use mt5_gateway.Errors.{RequestId}
use mt5_gateway.Json.{lit, Json, text}
use mt5_gateway.Symbols.{validate_symbol}
use mt5_gateway.Order.Key.{invalid}
use mt5_gateway.Order.Prepare.{symbol_of}
use mt5_gateway.World.{World, Exec, pure, lift, serialized, ◌>>=◌, exec->>=-value}

module _ {S A B : Type 0} (m : Exec S A) (f : A → Exec S B) where
  -- A step of a chain that ends in a value.
  pub after :
      {P : Type 0} {w : World S} {b : B} {v : World S}
      → (m >>= f) w ≡ (value b, v)
      → ((a : A) (u : World S) → m w ≡ (value a, u) → f a u ≡ (value b, v) → P)
      → P
  after e k = let (a, u, first, rest) = exec->>=-value m f e in k a u first rest

module _ {S : Type 0} (h : Host S) where
  -- The terminal answered with this quote, and with this symbol info.
  abbrev pub Quoted : String → Tick → Type 0
  Quoted symbol tick =
      (u : World S) × (u' : World S) × (serialized h (h.symbol_info_tick symbol) u
        ≡ (value (some tick), u'))

  abbrev pub Informed : String → Option SymbolInfo → Type 0
  Informed symbol info =
      (u : World S) × (u' : World S) × (serialized h (h.symbol_info symbol) u ≡ (value info, u'))

module _ {S : Type 0} (h : Host S) (lib : Library) (cfg : Config) (id : RequestId) where
  selected :
      (s : String) (ok : Bool) (w : World S) {t : String} {v : World S}
      → (if ok
            then pure s
            else lift (invalid id (lit "Symbol not found or not selectable: " ∷ lit s ∷ [])))
          w
        ≡ (value t, v)
      → ◌≡◌ {A = Json} (text s) (text t)
  selected s true w e = let e0 : ◌≡◌ {A = Flow String} (value s) (value _) = ap (λ x. x.0) e in cc
  selected s false w e = cc

  -- The symbol is the body's text.
  pub symbol_of-text :
      (j : Json) (w : World S) {s : String} {v : World S}
      → symbol_of h lib cfg id j w ≡ (value s, v)
      → j ≡ text s
  unfolding symbol_of
  symbol_of-text (text s) w e =
      after (validate_symbol h s) _ e (λ ok u _ rest. selected s ok u rest)
  symbol_of-text _ w e = cc

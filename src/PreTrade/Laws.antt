-- ===== src/PreTrade/Laws.antt =====
-- What an order intent that passes app/pretrade.py is known to satisfy.
use mt5_gateway.Prelude.{
  ℕ, ◌+◌, ◌-◌, ◌*◌, ◌^◌, ◌≤◌, ◌<◌, ◌≡◌, ◌↔◌, ◌⊎◌, refl, arith, String, Bool, true, false, some,
  List, [], ◌∷◌, ℤ, pos, negsuc, ◌≤ℤ◌, not, inl, inr, All, map, any, select, str_eq, eq_iff,
  Bool-cases,
}
use mt5_gateway.Json.{Number, finite, infinite, nan, unit, Json, int, text, Dict, lookup, get}
use mt5_gateway.Flow.{Exn, value, Flow, raise_if, >>=-eq-value}
use mt5_gateway.Convert.{exceeds, float_of, int_of}
use mt5_gateway.Host.{Library, PreTradeLimits}
use mt5_gateway.PreTrade.{
  allowed_order_fields, item, get_default, listed, unknown_fields, numeric_fields, read_numbers,
  check_numbers, validate_order_intent, validate_price_band,
}

numeric_fields-value : {A : Type 0} (m : Flow A) {a : A} → numeric_fields m ≡ value a → m ≡ value a
unfolding numeric_fields
numeric_fields-value (value a) h = h
numeric_fields-value m h = ground arith

check_numbers-bounds :
    (lib : Library) (limits : PreTradeLimits) (v : Number) (d m : ℤ)
    → check_numbers lib limits v d m ≡ value tt
    → (exceeds v limits.max_volume ≡ false)
      × (pos 0 ≤ℤ d)
      × (d ≤ℤ pos limits.max_deviation)
      × (pos 0 ≤ℤ m)
      × (m ≤ℤ pos (2 ^ 32 - 1))
unfolding check_numbers
check_numbers-bounds lib limits v d m h =
    (ground arith, ground arith, ground arith, ground arith, ground arith)

item-lookup : (d : Dict) (k : String) {v : Json} → item d k ≡ value v → lookup k d ≡ some v
item-lookup d k h = ground arith

no_unknown :
    (ks : List String) (e : Exn)
    → raise_if (elim ks [ [] ↦ false | k ∷ r ↦ true ]) e ≡ value tt
    → ks ≡ []
no_unknown [] e h = refl
no_unknown (k ∷ ks) e h = cc

allowed_symbol :
    (limits : PreTradeLimits) (d : Dict) (e : Exn)
    → raise_if
        (elim limits.symbols [ [] ↦ false | k ∷ ks ↦ not (listed (get "symbol" d) (k ∷ ks)) ])
        e
      ≡ value tt
    → (limits.symbols ≡ []) ⊎ (listed (get "symbol" d) limits.symbols ≡ true)
allowed_symbol limits d e h = ground arith

-- A text that is one of a list's.
abbrev pub Among : String → List String → Type 0
Among k [] = ⊥
Among k (n ∷ ns) = (k ≡ n) ⊎ Among k ns

any-Among : (k : String) (ns : List String) → any (str_eq k) ns ≡ true → Among k ns
any-Among k [] e = cc
any-Among k (n ∷ ns) e = elim (Bool-cases (str_eq k n)) [
  | inl same ↦ inl (ground (arith, same, eq_iff k n))
  | inr other ↦ inr (any-Among k ns (ground (arith, other, e)))
]

select-none : (f : String → Bool) (ks : List String) → select f ks ≡ [] → All (λ k. f k ≡ false) ks
unfolding select
select-none f [] e = tt
select-none f (k ∷ ks) e = elim (Bool-cases (f k)) [
  | inl t ↦ let n : k ∷ select f ks ≡ [] = rw (t, select) at e in cc
  | inr t ↦ (t, select-none f ks (rw (t, select) at e))
]

All-map {ℓ ℓ'} :
    (P : String → Type ℓ) (Q : String → Type ℓ') (xs : List String)
    → ((x : String) → P x → Q x)
    → All P xs
    → All Q xs
All-map P Q [] f h = tt
All-map P Q (x ∷ xs) f h = (f x h.0, All-map P Q xs f h.1)

not-false : (b : Bool) → not b ≡ false → b ≡ true
not-false true e = cc
not-false false e = cc

unknown_fields-none :
    (d : Dict) → unknown_fields d ≡ [] → All (λ k. Among k allowed_order_fields) (map (λ e. e.0) d)
unfolding unknown_fields
unknown_fields-none d e =
    All-map _ _ (map (λ e. e.0) d) (λ k known. any-Among k allowed_order_fields (not-false _ known))
      (select-none _ (map (λ e. e.0) d) e)

listed-Among :
    (j : Json) (names : List String)
    → listed j names ≡ true
    → (s : String) × (j ≡ text s) × Among s names
listed-Among (text s) names e = (s, refl, any-Among s names e)
listed-Among _ names e = cc

in_whitelist :
    (limits : PreTradeLimits) (d : Dict)
    → (limits.symbols ≡ []) ⊎ (listed (get "symbol" d) limits.symbols ≡ true)
    → (limits.symbols ≡ []) ⊎ ((s : String) × (get "symbol" d ≡ text s) × Among s limits.symbols)
in_whitelist limits d (inl e) = inl e
in_whitelist limits d (inr e) = inr (listed-Among (get "symbol" d) limits.symbols e)

-- The number is not above the maximum. NaN is not above anything.
abbrev pub AtMost : ℕ → Number → Type 0
AtMost m (finite (pos n)) = n ≤ m
AtMost m (finite (negsuc n)) = Unit
AtMost m (infinite negative) = negative ≡ true
AtMost m nan = Unit

exceeds-AtMost : (n : Number) (m : ℕ) → exceeds n m ≡ false → AtMost m n
exceeds-AtMost (finite (pos n)) m e = ground (arith, e)
exceeds-AtMost (finite (negsuc n)) m e = tt
exceeds-AtMost (infinite true) m e = refl
exceeds-AtMost (infinite false) m e = cc
exceeds-AtMost nan m e = tt

-- An order that passes has only known fields: each key of the body is one of the thirteen. Its symbol
-- is a text of the whitelist where there is one, its volume a number that is not above the operator's
-- maximum (NaN counts as such), and its deviation and magic number (20 and 0 where they are missing)
-- are within their limits.
pub validate_order_intent_bounds :
    (lib : Library) (limits : PreTradeLimits) (d : Dict)
    → validate_order_intent lib limits d ≡ value tt
    → (v : Json) × (volume : Number) × (deviation : ℤ) × (magic : ℤ) × All
        (λ k. Among k allowed_order_fields)
        (map (λ e. e.0) d)
      × ((limits.symbols ≡ [])
          ⊎ ((s : String) × (get "symbol" d ≡ text s) × Among s limits.symbols))
      × (lookup "volume" d ≡ some v)
      × (float_of lib v ≡ value volume)
      × (int_of lib (get_default d "deviation" (int (pos 20))) ≡ value deviation)
      × (int_of lib (get_default d "magic" (int (pos 0))) ≡ value magic)
      × AtMost limits.max_volume volume
      × (pos 0 ≤ℤ deviation)
      × (deviation ≤ℤ pos limits.max_deviation)
      × (pos 0 ≤ℤ magic)
      × (magic ≤ℤ pos (2 ^ 32 - 1))
unfolding validate_order_intent
validate_order_intent_bounds lib limits d h =
    let (_, known, h1) = >>=-eq-value (raise_if _ _) _ h in
    let (_, allowed, h2) = >>=-eq-value (raise_if _ _) _ h1 in
    let ((volume, deviation, magic), numbers, h3) = >>=-eq-value (numeric_fields _) _ h2 in
    let read = numeric_fields-value (read_numbers lib d) numbers in
    let (v, at, r1) = >>=-eq-value (item d "volume") _ read in
    let (volume', fv, r2) = >>=-eq-value (float_of lib v) _ r1 in
    let (deviation', fd, r3) =
      >>=-eq-value (int_of lib (get_default d "deviation" (int (pos 20)))) _ r2 in
    let (magic', fm, r4) = >>=-eq-value (int_of lib (get_default d "magic" (int (pos 0)))) _ r3 in
    let b = check_numbers-bounds lib limits volume deviation magic h3 in
    (
      v,
      volume,
      deviation,
      magic,
      unknown_fields-none d (no_unknown (unknown_fields d) _ known),
      in_whitelist limits d (allowed_symbol limits d _ allowed),
      item-lookup d "volume" at,
      ground (arith, fv, r4),
      ground (arith, fd, r4),
      ground (arith, fm, r4),
      exceeds-AtMost volume limits.max_volume b.0,
      b.1,
      b.2,
      b.3,
      b.4,
    )

-- A price that passes the band is at most the configured percentage away from a market price that
-- is known, and every such price passes.
validate_price_band_iff :
    (limits : PreTradeLimits) (price market : ℕ)
    → (validate_price_band limits price market ≡ value tt) ↔ (
        (0 < market)
        × (market * 100 * unit ≤ price * 100 * unit + limits.max_price_deviation_pct * market)
        × (price * 100 * unit ≤ market * 100 * unit + limits.max_price_deviation_pct * market))
unfolding validate_price_band
validate_price_band_iff limits price market =
    (λ h. (ground arith, grind arith, grind arith), λ h. grind arith)

-- ===== src/OrderRequests/Laws.antt =====
-- The trade requests that app/order_requests.py builds.
use mt5_gateway.Prelude.{
  ℕ, ◌<◌, ◌≡◌, refl, ◌⊎◌, inl, inr, arith, String, true, false, none, some, pos, Option-cases,
}
use mt5_gateway.Json.{Number, finite, Json, bool, Dict, lookup}
use mt5_gateway.Flow.{Flow, value, ◌>>=◌, >>=-eq-value}
use mt5_gateway.Convert.{float_of}
use mt5_gateway.PreTrade.{get_default}
use mt5_gateway.Host.{Library, Position, TradeRequest}
use mt5_gateway.OrderRequests.{
  require_level, numeric_field, positive_level, given_level, resolve_protection_level,
  build_sltp_request,
}

module _ (lib : Library) where
  -- What the level of a request is, by what the body says of it.
  abbrev pub Resolves : Dict → String → String → ℕ → ℕ → Type 0
  Resolves d field clear_field current n =
      ((get_default d clear_field (bool false) ≡ bool true) × (n ≡ 0))
      ⊎ ((get_default d clear_field (bool false) ≡ bool false)
          × (lookup field d ≡ none)
          × (n ≡ current))
      ⊎ ((get_default d clear_field (bool false) ≡ bool false)
          × ((v : Json) × (lookup field d ≡ some v)
              × (float_of lib v ≡ value (finite (pos n)))
              × (0 < n)))

  positive_level-value :
      (field clear_field : String) (x : Number) {n : ℕ}
      → positive_level field clear_field x ≡ value n
      → (x ≡ finite (pos n)) × (0 < n)
  unfolding positive_level
  positive_level-value field clear_field x h = (ground arith, ground arith)

  numeric_field-value :
      (field : String) (m : Flow Number) {x : Number}
      → numeric_field field m ≡ value x
      → m ≡ value x
  numeric_field-value field m h = ground arith

  given_level-Resolves :
      (d : Dict) (field clear_field : String) (current : ℕ) {n : ℕ}
      → get_default d clear_field (bool false) ≡ bool false
      → given_level lib d field clear_field current ≡ value n
      → Resolves d field clear_field current n
  unfolding given_level
  given_level-Resolves d field clear_field current {n} c h = elim (Option-cases (lookup field d)) [
    | inl e ↦ inr (inl (c, e, ground arith))
    | inr (v, e) ↦
        let steps : (numeric_field field (float_of lib v) >>= positive_level field clear_field)
            ≡ value n =
          rw (e, given_level) at h in
        let (x, read, checked) = >>=-eq-value (numeric_field field (float_of lib v)) _ steps in
        let (same, big) = positive_level-value field clear_field x checked in
        inr (
          inr
            (c, (v, e, ground (arith, numeric_field-value field (float_of lib v) read, same), big)))
  ]

  resolve-Resolves :
      (d : Dict) (field clear_field : String) (current : ℕ) (c : Json) {n : ℕ}
      → get_default d clear_field (bool false) ≡ c
      → resolve_protection_level lib d field clear_field current ≡ value n
      → Resolves d field clear_field current n
  unfolding resolve_protection_level
  resolve-Resolves d field clear_field current (bool true) c h = inl (c, ground arith)
  resolve-Resolves d field clear_field current (bool false) c h =
      given_level-Resolves d field clear_field current c (rw (c, resolve_protection_level) at h)
  resolve-Resolves d field clear_field current _ c h = absurd (ground arith)

  -- A request to change the protection levels is for the position itself, and each level is 0 if
  -- the body clears it, the position's own level if the body does not mention it, and otherwise the
  -- number that the body gives, which is finite and positive.
  build_sltp_request_levels :
      (d : Dict) (p : Position) (action : ℕ) {r : TradeRequest}
      → build_sltp_request lib d p action ≡ value r
      → (sl : ℕ) × (tp : ℕ) × (r.action ≡ action)
        × (r.position ≡ some p.ticket)
        × (r.symbol ≡ some p.symbol)
        × (r.sl ≡ some sl)
        × (r.tp ≡ some tp)
        × Resolves d "sl" "clear_sl" p.sl sl
        × Resolves d "tp" "clear_tp" p.tp tp
  unfolding build_sltp_request
  build_sltp_request_levels d p action h =
      let (_, _, h1) = >>=-eq-value (require_level d) _ h in
      let (sl, r1, h2) = >>=-eq-value (resolve_protection_level lib d "sl" "clear_sl" p.sl) _ h1 in
      let (tp, r2, h3) = >>=-eq-value (resolve_protection_level lib d "tp" "clear_tp" p.tp) _ h2 in
      (
        sl,
        tp,
        ground (arith, h3),
        ground (arith, h3),
        ground (arith, h3),
        ground (arith, h3),
        ground (arith, h3),
        resolve-Resolves d "sl" "clear_sl" p.sl _ refl r1,
        resolve-Resolves d "tp" "clear_tp" p.tp _ refl r2,
      )

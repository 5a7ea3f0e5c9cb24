-- ===== src/Order/Sound.antt =====
-- What a request that is about to be sent is known to satisfy (app/routes/order.py).
use mt5_gateway.Prelude.{
  ap, sym, ◌∙◌, [], ◌∷◌, pos, inl, inr, Bool-cases, ℕ, ◌≤◌, ◌≡◌, ◌⊎◌, refl, arith, String, Option,
  none, some,
}
use mt5_gateway.Prelude.Texts.{len, prefix_of, len-prefix_of}
use mt5_gateway.Json.{lit, shown, text, Dict, get}
use mt5_gateway.Flow.{Flow, value}
use mt5_gateway.Money.{SymbolInfo}
use mt5_gateway.Errors.{RequestId}
use mt5_gateway.Host.{Host, Library, Config, CheckResult, TradeRequest, trade_retcode_done}
use mt5_gateway.World.{World, Exec, lift, serialized, ◌>>=◌, exec->>=-value}
use mt5_gateway.OrderRequests.{build_trade_request}
use mt5_gateway.Money.{to_decimal}
use mt5_gateway.Money.Laws.{Fits, normalize_volume_bounds}
use mt5_gateway.Json.{finite}
use mt5_gateway.Order.Key.{invalid, catch_numeric}
use mt5_gateway.Money.{normalize_volume}
use mt5_gateway.Order.Pricing.{Priced, priced_with, priced_order, order_type_of}
use mt5_gateway.Order.Prepare.{prepare, typed_order, symbol_of, required_missing}
use mt5_gateway.Order.Steps.{after, Informed, symbol_of-text}
use mt5_gateway.Order.Same.{with_expiration-Same}
use mt5_gateway.Order.Prepare.{
  filling, check_passed, Prepared, broker_check, with_expiration, checked_request,
}

module _ {S : Type 0} (h : Host S) (lib : Library) (cfg : Config) (id : RequestId) where
  -- The broker was asked about exactly this request, last of all, and agreed.
  abbrev pub Checked : TradeRequest → World S → Type 0
  Checked r v =
      (u : World S) × (c : CheckResult) × (serialized h (h.order_check r) u ≡ (value (some c), v))
      × ((c.retcode ≡ 0) ⊎ (c.retcode ≡ trade_retcode_done))

  check_passed-value :
      (result : Option CheckResult) (u : World S) {t : Unit {0}} {v : World S}
      → check_passed h lib cfg id result u ≡ (value t, v)
      → (c : CheckResult) × (result ≡ some c)
        × (u ≡ v)
        × ((c.retcode ≡ 0) ⊎ (c.retcode ≡ trade_retcode_done))
  unfolding check_passed ◌>>=◌
  check_passed-value none u e = cc
  check_passed-value (some c) u e = (c, refl, ground arith, ground arith)

  broker_check-Checked :
      (r : TradeRequest) (w : World S) {t : Unit {0}} {v : World S}
      → broker_check h lib cfg id r w ≡ (value t, v)
      → Checked r v
  unfolding broker_check
  broker_check-Checked r w {t} {v} e =
      let (result, u, asked, rest) = exec->>=-value (serialized h (h.order_check r)) _ e in
      let (c, is_c, same, ok) = check_passed-value result u rest in
      (w, c, rw (asked, is_c, same) refl, ok)

  catch_numeric-value : (f : Flow ℕ) {n : ℕ} → catch_numeric id f ≡ value n → f ≡ value n
  catch_numeric-value f e = ground arith

  -- The symbol and the volume of a prepared order, and the length of its comment.
  abbrev pub Ready : Prepared → Type 0
  Ready p =
      (p.request.symbol ≡ some p.symbol)
      × (p.request.volume ≡ some p.volume)
      × ((c : String) × (p.request.comment ≡ some (text c)) × (len c ≤ 25))

  checked_request-Ready :
      (d : Dict) (key : Option String) (symbol side : String) (t : ℕ) (info : SymbolInfo)
      (volume : ℕ) (priced : Priced) (w : World S) {p : Prepared} {v : World S}
      → checked_request h lib cfg id d key symbol side t info volume priced w ≡ (value p, v)
      → (p.symbol ≡ symbol) × (p.volume ≡ volume) × Ready p × Checked p.request v
  unfolding checked_request build_trade_request
  checked_request-Ready d key symbol side t info volume priced w {p} {v} e0 =
      after (lift _) _ e0 (λ sl _ _ e1. after (lift _) _ e1 (λ tp _ _ e2.
        after (lift _) _ e2 (λ deviation _ _ e3. after _ _ e3 (λ _ _ _ e4.
          after (filling h lib cfg id symbol d) _ e4 (λ type_filling _ _ e5.
            after (lift _) _ e5 (λ comment _ _ e6.
              after (with_expiration h lib cfg id d symbol _) _ e6 (λ r u expired e7.
                after (broker_check h lib cfg id r) _ e7 (λ _ x checked e8.
                  let (same_volume, same_comment, same_symbol, _) =
                    with_expiration-Same h lib cfg id d symbol _ _ expired in
                  let short = len-prefix_of 25 comment in
                  let is_r : p.request ≡ r = ground arith in
                  let is_volume : p.volume ≡ volume = ground arith in
                  let is_symbol : p.symbol ≡ symbol = ground arith in
                  let is_v : x ≡ v = ground arith in
                  (
                    is_symbol,
                    is_volume,
                    (
                      rw (is_r, is_symbol) same_symbol,
                      rw (is_r, is_volume) same_volume,
                      (prefix_of 25 comment, rw is_r same_comment, short),
                    ),
                    rw (is_r, ← is_v) (broker_check-Checked r u checked),
                  )))))))))

  priced_with-volume :
      (d : Dict) (symbol : String) (t : ℕ) (o : Option SymbolInfo) (w : World S) {info : SymbolInfo}
      {volume : ℕ} {priced : Priced} {v : World S}
      → priced_with h lib cfg id d symbol t o w ≡ (value (info, volume, priced), v)
      → (o ≡ some info) × (normalize_volume lib.parse_number (get "volume" d) info ≡ value volume)
  unfolding priced_with
  priced_with-volume d symbol t none w e = cc
  priced_with-volume d symbol t (some i) w {info} {volume} e0 = after (lift _) _ e0 (λ n _ read e1.
      after _ _ e1 (λ priced _ _ e2.
        let is_info : i ≡ info = ground arith in
        let is_volume : n ≡ volume = ground arith in
        (
          ap some is_info,
          rw (← is_info, ← is_volume)
              (catch_numeric-value (normalize_volume lib.parse_number (get "volume" d) i)
                (ground arith)),
        )))

  priced_order-Informed :
      (d : Dict) (symbol : String) (t : ℕ) (w : World S) {info : SymbolInfo} {volume : ℕ}
      {priced : Priced} {v : World S}
      → priced_order h lib cfg id d symbol t w ≡ (value (info, volume, priced), v)
      → Informed h symbol (some info)
        × (normalize_volume lib.parse_number (get "volume" d) info ≡ value volume)
  unfolding priced_order
  priced_order-Informed d symbol t w e =
      after (serialized h (h.symbol_info symbol)) (priced_with h lib cfg id d symbol t) e
        (λ o x asked e2.
          let (is_some, read) = priced_with-volume d symbol t o x e2 in
          ((w, x, rw is_some at asked), read))

  -- What is known of a prepared order.
  abbrev Known : Dict → String → Prepared → World S → Type 0
  Known d symbol p v =
      (p.symbol ≡ symbol)
      × (info : SymbolInfo) × Informed h p.symbol (some info)
      × (normalize_volume lib.parse_number (get "volume" d) info ≡ value p.volume)
      × Ready p
      × Checked p.request v

  known :
      (d : Dict) (symbol : String) (info : SymbolInfo) (volume : ℕ) (p : Prepared) (v : World S)
      → Informed h symbol (some info)
        × (normalize_volume lib.parse_number (get "volume" d) info ≡ value volume)
      → (p.symbol ≡ symbol) × (p.volume ≡ volume) × Ready p × Checked p.request v
      → Known d symbol p v
  known d symbol info volume p v (told, read) (named, same, ready, checked) =
      (named, info, rw named told, rw same read, ready, checked)

  with_type-Known :
      (d : Dict) (key : Option String) (symbol side : String) (t : ℕ) (w : World S) {p : Prepared}
      {v : World S}
      → (priced_order h lib cfg id d symbol t >>= λ x.
            checked_request h lib cfg id d key symbol side t x.0 x.1 x.2)
          w
        ≡ (value p, v)
      → Known d symbol p v
  with_type-Known d key symbol side t w {p} {v} e =
      after (priced_order h lib cfg id d symbol t) _ e (λ x u named rest.
        known d symbol x.0 x.1 p v (priced_order-Informed d symbol t w named)
          (checked_request-Ready d key symbol side t x.0 x.1 x.2 u rest))

  typed_order-Known :
      (d : Dict) (key : Option String) (symbol : String) (side : Option String) (w : World S)
      {p : Prepared} {v : World S}
      → typed_order h lib cfg id d key symbol side w ≡ (value p, v)
      → Known d symbol p v
  unfolding typed_order
  typed_order-Known d key symbol none w e = cc
  typed_order-Known d key symbol (some side) w {p} {v} e0 = go (order_type_of side) e0
    where
      go :
          (o : Option ℕ)
          → (elim o as (λ x. Exec S Prepared) [
            | none ↦ lift (invalid id (lit "Invalid order type: " ∷ shown (get "type" d) ∷ []))
            | some t ↦ priced_order h lib cfg id d symbol t >>= λ x.
                checked_request h lib cfg id d key symbol side t x.0 x.1 x.2
          ])
              w
            ≡ (value p, v)
          → Known d symbol p v
      go none e = cc
      go (some t) e = with_type-Known d key symbol side t w e

  named_text :
      (d : Dict) (symbol : String) {s : String}
      → s ≡ symbol
      → get "symbol" d ≡ text symbol
      → get "symbol" d ≡ text s
  named_text d symbol same e = e ∙ ap text (sym same)

  -- An order whose preparation succeeds is for the symbol of the body, in the trade request too. It
  -- has the volume of the body as the limits and the lot step of that symbol's info, which the
  -- terminal gave, normalise it, the same volume in the trade request, and a comment of at most 25
  -- characters there; and the last thing that happened before is that the broker was asked to check
  -- exactly this request and answered 0 or TRADE_RETCODE_DONE.
  pub prepare_sound :
      (d : Dict) (key : Option String) (w : World S) {p : Prepared} {v : World S}
      → prepare h lib cfg id d key w ≡ (value p, v)
      → (info : SymbolInfo) × (a : ℕ) × (get "symbol" d ≡ text p.symbol)
        × Informed h p.symbol (some info)
        × (to_decimal lib.parse_number (get "volume" d) ≡ some (finite (pos a)))
        × Fits info a p.volume
        × Ready p
        × Checked p.request v
  unfolding prepare
  prepare_sound d key w {p} {v} e0 = elim (Bool-cases (required_missing d)) [
    | inl e ↦ cc (rw (e, prepare) at e0)
    | inr e ↦
        after (symbol_of h lib cfg id (get "symbol" d)) _ (rw (e, prepare) at e0)
          (λ symbol u taken e1.
            let (named, info, told, read, ready, checked) = typed_order-Known d key symbol _ u e1 in
            let (a, decimal, fits) =
              normalize_volume_bounds lib.parse_number (get "volume" d) info read in
            (
              info,
              a,
              named_text d symbol named (symbol_of-text h lib cfg id _ w taken),
              told,
              decimal,
              fits,
              ready,
              checked,
            ))
  ]

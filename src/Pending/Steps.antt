-- ===== src/Pending/Steps.antt =====
-- What the steps of `modify_order` (app/routes/order.py) establish.
use mt5_gateway.Prelude.{
  String, pos, ◌≡◌, refl, ap, inl, inr, arith, ℕ, ◌<◌, ◌==◌, ◌||◌, true, false, Option, none, some,
  List, [], ◌∷◌, if◌then◌else◌, Bool-cases,
}
use mathlib.Core.Path.{subst}
use mt5_gateway.Json.{Message, Number, finite, Json, null, Dict, lookup}
use mt5_gateway.Convert.{float_of}
use mt5_gateway.Flow.{Flow, value}
use mt5_gateway.Money.{SymbolInfo}
use mt5_gateway.Errors.{RequestId}
use mt5_gateway.Validation.{
  Verdict, amount, validate_sl_tp, check_sl, check_tp, validate_pending_price,
}
use mt5_gateway.Host.{Tick, Order, TradeRequest, Host, Library, Config}
use mt5_gateway.World.{World, lift, serialized}
use mt5_gateway.Order.Steps.{after, Quoted, Informed}
use mt5_gateway.Positions.Part.{value_of}
use mt5_gateway.Pending.{listed_order}
use mt5_gateway.Pending.Levels.{
  Magnitude, exactly, unbounded, undefined, magnitude, is_zero, is_positive, given, levels_verdict,
  price_verdict, levels_verdict-exact, given-exact,
}
use mt5_gateway.Pending.Modify.{
  not_negative, new_value, Levels, positive_price, passed, new_levels, market_checked, check_price,
  check_levels, expiring, keep_expiration,
}

-- `level if level > 0 else None`
abbrev pub if_positive : ℕ → Option ℕ
if_positive n = if n == 0 then none else some n

-- Finite levels pass the check of a new order's.
abbrev pub Agrees : Order → Magnitude → Magnitude → Magnitude → Type 0
Agrees o (exactly p) (exactly s) (exactly t) =
    validate_sl_tp o.type p (if_positive s) (if_positive t) ≡ none
Agrees o _ _ _ = Unit

-- Without an expiry in the body the order keeps its own: the kind of its lifetime, and the moment
-- where it has one; the request is for the same order as before.
abbrev pub Kept : Json → Order → TradeRequest → TradeRequest → Type 0
Kept null o r base =
    (base.type_time ≡ some o.type_time)
    × (0 < o.time_expiration → base.expiration ≡ some (pos o.time_expiration))
    × (o.time_expiration ≡ 0 → base.expiration ≡ r.expiration)
    × (base.order ≡ r.order)
    × (base.action ≡ r.action)
Kept _ o r base = Unit

keep_expiration-Kept : (o : Order) (r : TradeRequest) → Kept null o r (keep_expiration o r)
unfolding keep_expiration
keep_expiration-Kept o r =
    (ground arith, (λ l. ground (arith, l)), (λ l. ground (arith, l)), ground arith, ground arith)

module _ {S : Type 0} (h : Host S) (lib : Library) (cfg : Config) (id : RequestId) where
  passed-value :
      (verdict : Verdict) {t : Unit {0}} → passed h lib cfg id verdict ≡ value t → verdict ≡ none
  unfolding passed
  passed-value none e = refl
  passed-value (some m) e = cc

  -- A price that was compared with the market.
  abbrev pub PriceHolds : Order → Magnitude → Type 0
  PriceHolds o m =
      (tick : Tick) × (info : Option SymbolInfo) × Quoted h o.symbol tick
      × Informed h o.symbol info
      × (price_verdict o.type (some tick) info m ≡ none)

  price_verdict-ticked :
      (order_type : ℕ) (info : Option SymbolInfo) (m : Magnitude)
      → (price_verdict order_type none info m ≡ none)
      → (1 < 1)
  unfolding price_verdict validate_pending_price
  price_verdict-ticked order_type info (exactly n) e = cc
  price_verdict-ticked order_type info unbounded e = cc
  price_verdict-ticked order_type info undefined e = cc

  market_checked-PriceHolds :
      (o : Order) (m : Magnitude) (tick : Option Tick) (w : World S) {t : Unit {0}} {v : World S}
      → ((q : Tick) → tick ≡ some q → Quoted h o.symbol q)
      → market_checked h lib cfg id o m tick w ≡ (value t, v)
      → PriceHolds o m
  unfolding market_checked
  market_checked-PriceHolds o m none w origin e =
      let none_found = passed-value (price_verdict o.type none none m) (ap (λ x. x.0) e) in
      ground (arith, price_verdict-ticked o.type none m none_found)
  market_checked-PriceHolds o m (some tick) w origin e =
      after (serialized h (h.symbol_info o.symbol)) _ e (λ info u told rest.
        (tick, info, origin tick refl, (w, u, told), passed-value _ (ap (λ x. x.0) rest)))

  -- A price that the body gives was compared with the market.
  abbrev pub Compared : Order → Magnitude → Option Json → Type 0
  Compared o m none = Unit
  Compared o m (some v) = PriceHolds o m

  pub check_price-Compared :
      (o : Order) (m : Magnitude) (price : Option Json) (w : World S) {t : Unit {0}} {v : World S}
      → check_price h lib cfg id o m price w ≡ (value t, v)
      → Compared o m price
  unfolding check_price
  check_price-Compared o m none w e = tt
  check_price-Compared o m (some v) w e =
      after (serialized h (h.symbol_info_tick o.symbol)) _ e (λ tick u asked rest.
        market_checked-PriceHolds o m tick u (λ q is_q. (w, u, rw is_q at asked)) rest)

  check_levels-valid :
      (o : Order) (price sl tp : ℕ) {t : Unit {0}}
      → check_levels h lib cfg id o
          (record { price = exactly price; sl = exactly sl; tp = exactly tp })
        ≡ value t
      → validate_sl_tp o.type price (if_positive sl) (if_positive tp) ≡ none
  unfolding check_levels is_positive validate_sl_tp check_sl check_tp
  check_levels-valid o price sl tp {t} e =
      elim (Bool-cases (is_positive (exactly sl) || is_positive (exactly tp))) [
        | inl some_level ↦
            let passed =
              passed-value
                (levels_verdict o.type (exactly price) (given (exactly sl)) (given (exactly tp)))
                (rw some_level at e) in
            rw (given-exact sl, given-exact tp, levels_verdict-exact) at passed
        | inr no_level ↦
            let no_sl : (sl == 0) ≡ true = ground (arith, no_level) in
            let no_tp : (tp == 0) ≡ true = ground (arith, no_level) in rw (no_sl, no_tp) refl
      ]

  -- Finite levels are valid for the order's side, as those of a new order are.
  abbrev pub Valid : Order → Levels → Type 0
  Valid o l = Agrees o l.price l.sl l.tp

  positive_price-value :
      (m : Option Magnitude) {p : Magnitude}
      → positive_price h lib cfg id m ≡ value p
      → (m ≡ some p) × (is_zero p ≡ false)
  unfolding positive_price
  positive_price-value none e = cc
  positive_price-value (some m) e = elim (Bool-cases (is_zero m)) [
    | inl z ↦ ground (arith, z, e)
    | inr z ↦ (ground (arith, z, e), ground (arith, z, e))
  ]

  not_negative-value :
      (message : Message) (m : Option Magnitude) {p : Magnitude}
      → not_negative h lib cfg id message m ≡ value p
      → m ≡ some p
  unfolding not_negative
  not_negative-value message none e = cc
  not_negative-value message (some m) e = cc

  -- What float() makes of the body's value, or, where the body has none, the order's own number.
  abbrev pub Source : Option Json → ℕ → Number → Type 0
  Source none current n = n ≡ finite (pos current)
  Source (some v) current n = float_of lib v ≡ value n

  new_value-Source :
      (d : Dict) (key : String) (current : ℕ) {n : Number}
      → new_value h lib cfg id d key current ≡ value n
      → Source (lookup key d) current n
  unfolding new_value
  new_value-Source d key current {n} e = go (lookup key d) e
    where
      go :
          (o : Option Json)
          → ◌≡◌ {A = Flow Number}
              (elim o [ none ↦ value (amount current) | some v ↦ float_of lib v ])
              (value n)
          → Source o current n
      go none k = cc
      go (some v) k = k

  -- The body's number, or the order's own, and not below zero.
  abbrev pub Read : Dict → String → ℕ → Magnitude → Type 0
  Read d key current m = (n : Number) × Source (lookup key d) current n × (magnitude n ≡ some m)

  abbrev pub AllRead : Dict → Order → Levels → Type 0
  AllRead d o l =
      Read d "price" o.price_open l.price
      × Read d "sl" o.sl l.sl
      × Read d "tp" o.tp l.tp
      × (is_zero l.price ≡ false)

  all_read :
      (d : Dict) (o : Order) (price sl tp : Magnitude) {l : Levels}
      → Read d "price" o.price_open price
      → Read d "sl" o.sl sl
      → Read d "tp" o.tp tp
      → is_zero price ≡ false
      → record { price = price; sl = sl; tp = tp } ≡ l
      → AllRead d o l
  all_read d o price sl tp {l} p s t positive e =
      let is_price : price ≡ l.price = ap (λ x. x.price) e in
      let is_sl : sl ≡ l.sl = ap (λ x. x.sl) e in
      let is_tp : tp ≡ l.tp = ap (λ x. x.tp) e in
      (rw⁻¹ is_price p, rw⁻¹ is_sl s, rw⁻¹ is_tp t, rw⁻¹ is_price positive)

  pub new_levels-AllRead :
      (d : Dict) (o : Order) (w : World S) {l : Levels} {v : World S}
      → new_levels h lib cfg id d o w ≡ (value l, v)
      → AllRead d o l
  unfolding new_levels
  new_levels-AllRead d o w {l} e = after (lift _) _ e (λ p _ read_p e1.
      after (lift _) _ e1 (λ s _ read_s e2. after (lift _) _ e2 (λ t _ read_t e3.
        after (lift _) _ e3 (λ price _ is_price e4. after (lift _) _ e4 (λ sl _ is_sl e5.
          after (lift _) _ e5 (λ tp _ is_tp e6.
            let (reads, positive) = positive_price-value (magnitude p) (ap (λ x. x.0) is_price) in
            all_read d o price sl tp (p, new_value-Source d "price" _ (ap (λ x. x.0) read_p), reads)
              (
                s,
                new_value-Source d "sl" _ (ap (λ x. x.0) read_s),
                not_negative-value _ (magnitude s) (ap (λ x. x.0) is_sl),
              )
              (
                t,
                new_value-Source d "tp" _ (ap (λ x. x.0) read_t),
                not_negative-value _ (magnitude t) (ap (λ x. x.0) is_tp),
              )
              positive (value_of e6)))))))

  pub listed_order-value :
      (ticket : ℕ) (orders : Option (List Order)) {o : Order}
      → listed_order ticket orders ≡ value o
      → (rest : List Order) × (orders ≡ some (o ∷ rest))
  unfolding listed_order
  listed_order-value ticket none e = cc
  listed_order-value ticket (some []) e = cc
  listed_order-value ticket (some (q ∷ qs)) e = (qs, cc)

  pub check_levels-Agrees :
      (o : Order) (price sl tp : Magnitude) {t : Unit {0}}
      → check_levels h lib cfg id o (record { price = price; sl = sl; tp = tp }) ≡ value t
      → Agrees o price sl tp
  check_levels-Agrees o (exactly p) (exactly s) (exactly t) e = check_levels-valid o p s t e
  check_levels-Agrees o (exactly p) (exactly s) unbounded e = tt
  check_levels-Agrees o (exactly p) (exactly s) undefined e = tt
  check_levels-Agrees o (exactly p) unbounded t e = tt
  check_levels-Agrees o (exactly p) undefined t e = tt
  check_levels-Agrees o unbounded s t e = tt
  check_levels-Agrees o undefined s t e = tt

  pub expiring-Kept :
      (x : Json) (o : Order) (r : TradeRequest) (w : World S) {base : TradeRequest} {v : World S}
      → expiring h lib cfg id x o r w ≡ (value base, v)
      → Kept x o r base
  unfolding expiring
  expiring-Kept null o r w e = subst (Kept null o r) (value_of e) (keep_expiration-Kept o r)
  expiring-Kept _ o r w e = tt

-- ===== src/Money/Laws.antt =====
-- The amounts that app/money.py lets through to the broker.
use mt5_gateway.Prelude.{
  ℕ, ◌+◌, ◌*◌, ◌%◌, ◌-◌, ◌≤◌, ◌<◌, ◌≡◌, arith, String, Option, some, Bool-cases, ℤ, pos, negsuc,
  ltb, lt→ltb, ◌==◌, if◌then◌else◌, inl, inr,
}
use mt5_gateway.Json.{Number, finite, Json, places}
use mt5_gateway.Flow.{value, >>=-eq-value}
use mt5_gateway.Money.{
  SymbolInfo, quantum, to_decimal, finite_decimal, lots, priced, round_down, round_half_up,
  snap_price, normalize_volume, normalize_price,
}
use mt5_gateway.Money.Rounding.{
  round_half_up_above, round_half_up_below, round_half_up-mod, round_half_up_id, round_down-le,
  round_down-gt, round_down-mod, mod_trans, pow_pos,
}

abbrev pub Fits : SymbolInfo → ℕ → ℕ → Type 0
Fits info a n =
    (info.volume_min ≤ n)
    × (n ≤ info.volume_max)
    × (n ≤ a)
    × (0 < info.volume_step → (n % info.volume_step ≡ 0) × (a < n + info.volume_step))
    × (info.volume_step ≡ 0 → n ≡ a)

lots-Fits : (info : SymbolInfo) (a : ℕ) {n : ℕ} → lots info (pos a) ≡ value n → Fits info a n
unfolding lots
lots-Fits info a {n} h =
    let below : (0 < info.volume_step) → round_down a info.volume_step ≤ a =
      λ s. round_down-le a info.volume_step s in
    let above : (0 < info.volume_step) → a < round_down a info.volume_step + info.volume_step =
      λ s. round_down-gt a info.volume_step s in
    let step : (0 < info.volume_step) → round_down a info.volume_step % info.volume_step ≡ 0 =
      λ s. round_down-mod a info.volume_step s in
    elim (Bool-cases (info.volume_step == 0)) [
      | inl e ↦
          (ground arith, ground arith, ground arith, λ s. absurd (ground arith), λ s. ground arith)
      | inr e ↦
          let s : 0 < info.volume_step = ground arith in
          (
            ground (arith, below s),
            ground (arith, below s),
            ground (arith, below s),
            λ _. (ground (arith, step s), ground (arith, above s)),
            λ z. absurd (omega arith),
          )
    ]

lots-negative : (info : SymbolInfo) (a n : ℕ) → lots info (negsuc a) ≡ value n → ⊥
unfolding lots
lots-negative info a n h = ground arith

-- At most half of `q` apart.
abbrev pub Near : ℕ → ℕ → ℕ → Type 0
Near a n q = (2 * n ≤ 2 * a + q) × (2 * a ≤ 2 * n + q)

quantum_pos : (info : SymbolInfo) → 0 < quantum info
quantum_pos info = pow_pos (places - info.digits)

round_half_up-Near : (a q : ℕ) → 0 < q → Near a (round_half_up a q) q
round_half_up-Near a q h = (round_half_up_above a q h, omega (arith, round_half_up_below a q h))

snap_price-Near :
    (info : SymbolInfo) (a : ℕ)
    → (snap_price info a % quantum info ≡ 0)
      × (info.trade_tick_size ≡ 0 → Near a (snap_price info a) (quantum info))
      × (0 < info.trade_tick_size
          → info.trade_tick_size % quantum info ≡ 0
          → (snap_price info a % info.trade_tick_size ≡ 0)
            × Near a (snap_price info a) info.trade_tick_size)
unfolding snap_price
snap_price-Near info a =
    let q = quantum info in
    let q_pos : 0 < q = quantum_pos info in
    (
      round_half_up-mod
          (if ltb 0 info.trade_tick_size then round_half_up a info.trade_tick_size else a) q q_pos,
      λ z. rw z (round_half_up-Near a q q_pos),
      λ t m.
          let x = round_half_up a info.trade_tick_size in
          let on_tick : x % info.trade_tick_size ≡ 0 = round_half_up-mod a info.trade_tick_size t in
          let settled : round_half_up x q ≡ x =
            round_half_up_id x q q_pos (mod_trans x info.trade_tick_size q q_pos t on_tick m) in
          rw (lt→ltb _ _ t, settled) (on_tick, round_half_up-Near a info.trade_tick_size t),
    )

priced_pos :
    (info : SymbolInfo) (field : String) (a : ℕ) {n : ℕ}
    → priced info field (pos a) ≡ value n
    → (0 < a) × (snap_price info a ≡ n)
unfolding priced
priced_pos info field a h = (ground arith, ground arith)

priced_negative :
    (info : SymbolInfo) (field : String) (a n : ℕ) → priced info field (negsuc a) ≡ value n → ⊥
unfolding priced
priced_negative info field a n h = ground arith

module _ (parse : String → Option Number) where
  finite_decimal-to_decimal :
      (v : Json) (field : String) {n : ℤ}
      → finite_decimal parse v field ≡ value n
      → to_decimal parse v ≡ some (finite n)
  unfolding finite_decimal
  finite_decimal-to_decimal v field h = ground arith

  -- A volume that is accepted lies within the broker's limits, is a multiple of the lot step where
  -- there is one, and is the asked volume rounded down by less than a step (by nothing where the
  -- step is 0); the asked value was a finite number.
  pub normalize_volume_bounds :
      (v : Json) (info : SymbolInfo) {n : ℕ}
      → normalize_volume parse v info ≡ value n
      → (a : ℕ) × (to_decimal parse v ≡ some (finite (pos a))) × Fits info a n
  unfolding normalize_volume
  normalize_volume_bounds v info {n} h =
      let (a, d, rest) = >>=-eq-value (finite_decimal parse v "volume") (lots info) h in
      accept a (finite_decimal-to_decimal v "volume" d) rest
    where
      accept :
          (a : ℤ)
          → to_decimal parse v ≡ some (finite a)
          → lots info a ≡ value n
          → (b : ℕ) × (to_decimal parse v ≡ some (finite (pos b))) × Fits info b n
      accept (pos b) e r = (b, e, lots-Fits info b r)
      accept (negsuc b) e r = absurd (lots-negative info b n r)

  -- A price that is accepted is a positive finite number, snapped to a multiple of the displayed
  -- precision. With no tick size it moves by at most half of that precision; with a tick size that
  -- is a multiple of the precision it becomes a multiple of the tick, at most half a tick away.
  pub normalize_price_snaps :
      (v : Json) (info : SymbolInfo) (field : String) {n : ℕ}
      → normalize_price parse v info field ≡ value n
      → (a : ℕ) × (to_decimal parse v ≡ some (finite (pos a)))
        × (0 < a)
        × (n % quantum info ≡ 0)
        × (info.trade_tick_size ≡ 0 → Near a n (quantum info))
        × (0 < info.trade_tick_size
            → info.trade_tick_size % quantum info ≡ 0
            → (n % info.trade_tick_size ≡ 0) × Near a n info.trade_tick_size)
  unfolding normalize_price
  normalize_price_snaps v info field {n} h =
      let (a, d, rest) = >>=-eq-value (finite_decimal parse v field) _ h in
      accept a (finite_decimal-to_decimal v field d) rest
    where
      accept :
          (a : ℤ)
          → to_decimal parse v ≡ some (finite a)
          → priced info field a ≡ value n
          → (b : ℕ) × (to_decimal parse v ≡ some (finite (pos b)))
            × (0 < b)
            × (n % quantum info ≡ 0)
            × (info.trade_tick_size ≡ 0 → Near b n (quantum info))
            × (0 < info.trade_tick_size
                → info.trade_tick_size % quantum info ≡ 0
                → (n % info.trade_tick_size ≡ 0) × Near b n info.trade_tick_size)
      accept (pos b) e r =
          let (positive, same) = priced_pos info field b r in
          let s = snap_price-Near info b in
          (b, e, positive, rw (← same) s.0, rw (← same) s.1, rw (← same) s.2)
      accept (negsuc b) e r = absurd (priced_negative info field b n r)

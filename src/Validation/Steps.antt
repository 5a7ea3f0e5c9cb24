-- ===== src/Validation/Steps.antt =====
-- The volumes that `validate_volume` of app/lib.py accepts.
use mt5_gateway.Prelude.{
  ℕ, ◌+◌, ◌-◌, ◌*◌, ◌/◌, ◌%◌, ◌≤◌, ◌<◌, ◌≡◌, ◌↔◌, refl, arith, false, some, none, ◌==◌, ltb,
}
use mt5_gateway.Money.{SymbolInfo}
use mt5_gateway.Validation.{round_half_even, validate_volume, dist}

module _ (n q : ℕ) (h : 0 < q) where
  half_up_near :
      (2 * ((2 * n + q) / (2 * q) * q) ≤ 2 * n + q) × (2 * n < 2 * ((2 * n + q) / (2 * q) * q) + q)
  half_up_near = (grind arith, grind arith)

  half_up_unique :
      (k : ℕ) → 2 * (k * q) ≤ 2 * n + q → 2 * n < 2 * (k * q) + q → (2 * n + q) / (2 * q) ≡ k
  half_up_unique k a b = grind arith

  round_half_even_unique :
      (k : ℕ) → 2 * (k * q) < 2 * n + q → 2 * n < 2 * (k * q) + q → round_half_even n q ≡ k
  unfolding round_half_even
  round_half_even_unique k a b =
      let up : (2 * n + q) / (2 * q) ≡ k = half_up_unique k (omega arith) b in
      let split : 2 * n + q ≡ 2 * (k * q) + (2 * n + q) % (2 * q) = grind arith in
      let uneven : ((2 * n + q) % (2 * q) == 0) ≡ false = grind arith in rw (uneven, up) refl

near_cancel :
    (m v s k : ℕ)
    → m ≤ v
    → 100 * v ≤ 100 * (m + k * s) + s
    → 100 * (m + k * s) ≤ 100 * v + s
    → 0 < s
    → (2 * (k * s) < 2 * (v - m) + s) × (2 * (v - m) < 2 * (k * s) + s)
near_cancel m v s k l a b h = (omega arith, omega arith)

dist-near :
    (a b s : ℕ)
    → (ltb s (dist a b * 100) ≡ false) ↔ ((100 * a ≤ 100 * b + s) × (100 * b ≤ 100 * a + s))
dist-near a b s = (λ h. (ground arith, ground arith), λ h. ground arith)

module _ (info : SymbolInfo) (v : ℕ) where
  abbrev nearest : ℕ
  nearest =
      info.volume_min + round_half_even (v - info.volume_min) info.volume_step * info.volume_step

  validate_volume_near :
      0 < info.volume_step
      → (validate_volume (some info) v ≡ none) ↔ (
          (info.volume_min ≤ v)
          × (v ≤ info.volume_max)
          × (ltb info.volume_step (dist v nearest * 100) ≡ false))
  unfolding validate_volume
  validate_volume_near h = (λ e. (ground arith, ground arith, ground arith), λ e. ground arith)

-- With a lot step, a volume passes exactly if it is within the limits and within a hundredth of a
-- step of some whole number of steps above the minimum.
validate_volume_iff :
    (info : SymbolInfo) (v : ℕ)
    → 0 < info.volume_step
    → (validate_volume (some info) v ≡ none) ↔ (
        (info.volume_min ≤ v)
        × (v ≤ info.volume_max)
        × ((k : ℕ) × (100 * v ≤ 100 * (info.volume_min + k * info.volume_step) + info.volume_step)
            × (100 * (info.volume_min + k * info.volume_step) ≤ 100 * v + info.volume_step)))
validate_volume_iff info v h = (
  λ e.
      let (low, high, close) = (validate_volume_near info v h).0 e in
      let (a, b) = (dist-near v (nearest info v) info.volume_step).0 close in
      (low, high, (round_half_even (v - info.volume_min) info.volume_step, a, b)),
  λ e.
      let (k, a, b) = e.2 in
      let (below, above) = near_cancel info.volume_min v info.volume_step k e.0 a b h in
      let same = round_half_even_unique (v - info.volume_min) info.volume_step h k below above in
      (validate_volume_near info v h).1 (
        e.0,
        e.1,
        rw same ((dist-near v (info.volume_min + k * info.volume_step) info.volume_step).1 (a, b)),
      ),
)

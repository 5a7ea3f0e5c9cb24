-- ===== src/Money/Rounding.antt =====
-- What the two roundings of app/money.py guarantee.
use native.Mathlib.Nat.{pow-suc}
use mt5_gateway.Prelude.{zero, suc, ◌^◌, ◌/◌, ◌∙◌, ap, ℕ, ◌+◌, ◌*◌, ◌%◌, ◌≤◌, ◌<◌, ◌≡◌, arith}
use mt5_gateway.Money.{round_down, round_half_up}

module _ (p q : ℕ) (h : 0 < q) where
  pub round_half_up_above : 2 * round_half_up p q ≤ 2 * p + q
  unfolding round_half_up
  round_half_up_above = grind arith

  pub round_half_up_below : 2 * p < 2 * round_half_up p q + q + 1
  unfolding round_half_up
  round_half_up_below = grind arith

  pub round_half_up-mod : round_half_up p q % q ≡ 0
  unfolding round_half_up
  round_half_up-mod = grind arith

  pub round_down-le : round_down p q ≤ p
  unfolding round_down
  round_down-le = grind arith

  pub round_down-gt : p < round_down p q + q
  unfolding round_down
  round_down-gt = grind arith

  pub round_down-mod : round_down p q % q ≡ 0
  unfolding round_down
  round_down-mod = grind arith

  -- A multiple of the step is where it is already.
  pub round_half_up_id : p % q ≡ 0 → round_half_up p q ≡ p
  unfolding round_half_up
  round_half_up_id m = grind arith

  pub round_down_id : p % q ≡ 0 → round_down p q ≡ p
  unfolding round_down
  round_down_id m = grind arith

mul-mod : (k q : ℕ) → 0 < q → (k * q) % q ≡ 0
mul-mod k q h = grind arith

-- A multiple of a multiple.
pub mod_trans : (x t q : ℕ) → 0 < q → 0 < t → x % t ≡ 0 → t % q ≡ 0 → x % q ≡ 0
mod_trans x t q h k a b =
    let x_eq : x ≡ x / t * t = grind arith in
    let t_eq : t ≡ t / q * q = grind arith in
    let e : x ≡ (x / t * (t / q)) * q = x_eq ∙ ap (λ (z : ℕ). x / t * z) t_eq ∙ grind arith in
    rw e (mul-mod (x / t * (t / q)) q h)

-- Half a step is never reached: the price is rounded to nothing.
pub round_half_up_vanishes : (p q : ℕ) → 2 * p < q → round_half_up p q ≡ 0
unfolding round_half_up
round_half_up_vanishes p q h = grind arith

pub pow_pos : (k : ℕ) → 0 < 10 ^ k
pow_pos zero = omega arith
pow_pos (suc k) = rw pow-suc (omega (arith, pow_pos k))

-- ===== src/ServerTime/Derivation.antt =====
-- The offset that one live quote implies.
use mt5_gateway.Prelude.{
  ℕ, ◌+◌, ◌-◌, ◌*◌, ◌≤◌, ◌<◌, ◌≡◌, ◌⊎◌, inl, inr, arith, false, some, ℤ, pos, sub_ℕ, leb, tests,
  Bool-cases,
}
use mt5_gateway.ServerTime.{hour, round_hours, is_unclean, derive_offset_from_server_epoch}

-- `n` milliseconds are `k` hours up to 90 seconds.
abbrev pub Close : ℕ → ℕ → Type 0
Close n k = (n ≤ k * hour + 90000) × (k * hour ≤ n + 90000)

round_hours-Close : (n k : ℕ) → Close n k → round_hours n ≡ k
unfolding round_hours
round_hours-Close n k h = ground arith

clean_of_Close : (n k : ℕ) → Close n k → is_unclean n k ≡ false
unfolding is_unclean
clean_of_Close n k h = ground arith

Close-of_clean : (n k : ℕ) → is_unclean n k ≡ false → Close n k
unfolding is_unclean
Close-of_clean n k h = (ground arith, ground arith)

-- An offset that is derived is a whole number of hours between -12 and +14, and the quote is within
-- 90 seconds of that offset from the true time.
pub derived_offset_sound :
    (server now : ℕ) {d : ℤ}
    → derive_offset_from_server_epoch server now ≡ some d
    → (k : ℕ) × (((now ≤ server) × (d ≡ pos (k * 3600)) × (k ≤ 14) × Close (server - now) k)
        ⊎ ((server < now) × (d ≡ sub_ℕ 0 (k * 3600)) × (k ≤ 12) × Close (now - server) k))
unfolding derive_offset_from_server_epoch
derived_offset_sound server now {d} h = elim (Bool-cases (leb now server)) [
  | inl e ↦ (
    round_hours (server - now),
    inl (ground arith, ground arith, ground arith, Close-of_clean _ _ (ground arith)),
  )
  | inr e ↦ (
    round_hours (now - server),
    inr (ground arith, ground arith, ground arith, Close-of_clean _ _ (ground arith)),
  )
]

gt_of_leb : (a b : ℕ) → leb a b ≡ false → b < a
gt_of_leb a b h = ground arith

-- A quote that is at most 90 seconds late on a server that runs `k` hours ahead of UTC, or behind,
-- derives exactly that offset.
derived_offset_exact :
    (k lag server now : ℕ)
    → lag ≤ 90000
    → ((k ≤ 14) × (server + lag ≡ now + k * hour)
        → derive_offset_from_server_epoch server now ≡ some (pos (k * 3600)))
      × ((k ≤ 12) × (server + lag + k * hour ≡ now)
          → derive_offset_from_server_epoch server now ≡ some (sub_ℕ 0 (k * 3600)))
unfolding derive_offset_from_server_epoch
derived_offset_exact k lag server now late = (λ h. ahead h.0 h.1, λ h. behind h.0 h.1)
  where
    ahead :
        k ≤ 14
        → server + lag ≡ now + k * hour
        → derive_offset_from_server_epoch server now ≡ some (pos (k * 3600))
    ahead b e = elim (Bool-cases (leb now server)) [
      | inl c ↦
          rw
            (
              c,
              round_hours-Close (server - now) k (omega tests),
              clean_of_Close (server - now) k (omega tests),
            )
            (ground arith)
      | inr c ↦
          rw
            (
              c,
              round_hours-Close (now - server) 0 (omega (tests, gt_of_leb now server c)),
              clean_of_Close (now - server) 0 (omega (tests, gt_of_leb now server c)),
            )
            (ground (arith, e))
    ]

    behind :
        k ≤ 12
        → server + lag + k * hour ≡ now
        → derive_offset_from_server_epoch server now ≡ some (sub_ℕ 0 (k * 3600))
    behind b e = elim (Bool-cases (leb now server)) [
      | inl c ↦
          rw
            (
              c,
              round_hours-Close (server - now) 0 (omega tests),
              clean_of_Close (server - now) 0 (omega tests),
            )
            (ground (arith, e))
      | inr c ↦
          rw
            (
              c,
              round_hours-Close (now - server) k (omega (tests, gt_of_leb now server c)),
              clean_of_Close (now - server) k (omega (tests, gt_of_leb now server c)),
            )
            (ground arith)
    ]

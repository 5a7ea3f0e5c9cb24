-- ===== src/ServerTime/Confirmation.antt =====
-- When a reading that disagrees with the cached offset replaces it.
use native.Mathlib.Decide.{dec_lt}
use mt5_gateway.Prelude.{
  ℕ, ◌+◌, ◌<◌, ◌≡◌, ◌≢◌, refl, ◌⊎◌, inl, inr, ◌∙◌, ap, arith, String, true, some, none, ℤ, ltb,
  lt→ltb, if◌then◌else◌, eqb_ℤ, List, [], ◌∷◌, length, All, Option-cases,
}
use mt5_gateway.ServerTime.{TimeConfig, Offset, offset_confirmations, take_reading}

-- A clean reading: its symbol, its time and its offset.
abbrev pub Reading : Type 0
Reading = String × ℕ × ℤ

unfoldable pub readings : TimeConfig → List Reading → Offset → Offset
readings c [] o = o
readings c ((s, t, d) ∷ rs) o = readings c rs (take_reading c s t d o)

eqb_ℤ_iff : (a b : ℤ) → (eqb_ℤ a b ≡ true → a ≡ b) × (a ≡ b → eqb_ℤ a b ≡ true)
eqb_ℤ_iff a b = (ground arith, ground arith)

-- The candidate is never the cached value, and always short of the confirmations it needs.
pub record IsSettled (c : TimeConfig) (o : Offset) : Type 0 where
  pub short : o.pending_count < offset_confirmations c
  pub other : (d : ℤ) → o.pending_offset ≡ some d → (o.derived_offset ≡ some d → ⊥)
  pub none_counted : o.pending_offset ≡ none → o.pending_count ≡ 0

pub take_reading-IsSettled :
    (c : TimeConfig) (s : String) (t : ℕ) (d : ℤ) (o : Offset)
    → IsSettled c o
    → IsSettled c (take_reading c s t d o)
unfolding take_reading
take_reading-IsSettled c s t d o v = record {
  short = ground arith;
  other = λ e p q. ground (arith, eqb_ℤ_iff e d, v.other e);
  none_counted = λ p. ground (arith, v.none_counted);
}

-- `p` readings of `d` in a row have been counted.
abbrev Streak : ℤ → ℕ → Offset → Type 0
Streak d p o =
    ((p ≡ 0) × (o.pending_offset ≢ some d)) ⊎ ((o.pending_offset ≡ some d) × (o.pending_count ≡ p))

module _ (c : TimeConfig) (s : String) (t : ℕ) (a d : ℤ) (differ : d ≢ a) (o : Offset) where
  one_more :
      (p : ℕ)
      → o.derived_offset ≡ some a
      → Streak d p o
      → p + 1 < offset_confirmations c
      → ((take_reading c s t d o).derived_offset ≡ some a)
        × Streak d (p + 1) (take_reading c s t d o)
  unfolding take_reading
  one_more p cached (inl (z, n)) few = elim (Option-cases o.pending_offset) [
    | inl e ↦ (
      ground (arith, eqb_ℤ_iff a d),
      inr (ground (arith, eqb_ℤ_iff a d), ground (arith, eqb_ℤ_iff a d)),
    )
    | inr (b, e) ↦
        let b_ne : b ≢ d = λ same. n (e ∙ ap some same) in
        (
          ground (arith, eqb_ℤ_iff a d, eqb_ℤ_iff b d),
          inr (
            ground (arith, eqb_ℤ_iff a d, eqb_ℤ_iff b d),
            ground (arith, eqb_ℤ_iff a d, eqb_ℤ_iff b d),
          ),
        )
  ]
  one_more p cached (inr (e, k)) few = (
    ground (arith, eqb_ℤ_iff a d, eqb_ℤ_iff d d),
    inr (
      ground (arith, eqb_ℤ_iff a d, eqb_ℤ_iff d d),
      ground (arith, eqb_ℤ_iff a d, eqb_ℤ_iff d d),
    ),
  )

  adopted :
      (p : ℕ)
      → o.derived_offset ≡ some a
      → Streak d p o
      → offset_confirmations c ≡ p + 1
      → (take_reading c s t d o).derived_offset ≡ some d
  unfolding take_reading
  adopted p cached (inl (z, n)) all = elim (Option-cases o.pending_offset) [
    | inl e ↦ ground (arith, eqb_ℤ_iff a d)
    | inr (b, e) ↦
        let b_ne : b ≢ d = λ same. n (e ∙ ap some same) in
        ground (arith, eqb_ℤ_iff a d, eqb_ℤ_iff b d)
  ]
  adopted p cached (inr (e, k)) all = ground (arith, eqb_ℤ_iff a d, eqb_ℤ_iff d d)

stays :
    (c : TimeConfig) (d : ℤ) (rs : List Reading) (o : Offset)
    → All (λ r. r.2 ≡ d) rs
    → o.derived_offset ≡ some d
    → (readings c rs o).derived_offset ≡ some d
unfolding readings take_reading
stays c d [] o h e = e
stays c d ((s, t, b) ∷ rs) o (same, h) e =
    stays c d rs (take_reading c s t b o) h (ground (arith, eqb_ℤ_iff d b))

streak_lem :
    (c : TimeConfig) (a d : ℤ) (p : ℕ) (rs : List Reading) (o : Offset)
    → d ≢ a
    → All (λ r. r.2 ≡ d) rs
    → o.derived_offset ≡ some a
    → Streak d p o
    → p < offset_confirmations c
    → (readings c rs o).derived_offset
      ≡ (if ltb (p + length rs) (offset_confirmations c) then some a else some d)
unfolding readings
streak_lem c a d p [] o differ h cached run few =
    rw (lt→ltb (p + 0) (offset_confirmations c) (omega arith)) cached
streak_lem c a d p ((s, t, b) ∷ rs) o differ (same, h) cached run few =
    elim (dec_lt (p + 1) (offset_confirmations c)) [
      | yes more ↦
          let (kept, run') = one_more c s t a d differ o p cached run more in
          rw (same, streak_lem c a d (p + 1) rs (take_reading c s t d o) differ h kept run' more)
            (ground arith)
      | no last ↦
          let now_d = adopted c s t a d differ o p cached run (omega arith) in
          rw (same, stays c d rs (take_reading c s t d o) h now_d) (ground arith)
    ]

-- From a state that caches `a` and whose candidate is not `d`, a run of readings that all
-- say `d ≢ a` leaves `a` in force while the run is shorter than the confirmations that the
-- configuration asks for, and puts `d` in force from that length on.
pub run_of_readings :
    (c : TimeConfig) (a d : ℤ) (rs : List Reading) (o : Offset)
    → d ≢ a
    → All (λ r. r.2 ≡ d) rs
    → o.derived_offset ≡ some a
    → o.pending_offset ≢ some d
    → (readings c rs o).derived_offset
      ≡ (if ltb (length rs) (offset_confirmations c) then some a else some d)
run_of_readings c a d rs o differ h cached fresh =
    streak_lem c a d 0 rs o differ h cached (inl (refl, fresh)) (ground arith)
    ∙ ap (λ (n : ℕ). if ltb n (offset_confirmations c) then some a else some d) (omega arith)

-- Whatever readings come, the candidate stays different from the cached offset and its count short
-- of the confirmations.
pub readings-IsSettled :
    (c : TimeConfig) (rs : List Reading) (o : Offset)
    → IsSettled c o
    → IsSettled c (readings c rs o)
unfolding readings
readings-IsSettled c [] o v = v
readings-IsSettled c ((s, t, d) ∷ rs) o v =
    readings-IsSettled c rs (take_reading c s t d o) (take_reading-IsSettled c s t d o v)

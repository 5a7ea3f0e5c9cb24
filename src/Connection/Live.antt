-- ===== src/Connection/Live.antt =====
-- Which quote a (re)connect derives the offset from (`live_tick` of app/time_utils.py).
use mt5_gateway.Prelude.{
  ◌≡◌, refl, arith, ℕ, ◌≤◌, ◌<◌, String, Option, none, some, [], ◌∷◌, All, inl, inr, ltb,
  Bool-cases,
}
use mt5_gateway.Order.Expiry.{advanced}
use mt5_gateway.Connection.Offsets.{Readings, reading_of, better, live_from, live_tick}

-- The quote has moved since the reading before, which had one.
abbrev pub Moved : Readings → String → ℕ → Type 0
Moved before s t = (p : ℕ) × (reading_of s before ≡ some p) × (0 < p) × (p < t)

abbrev pub AllMoved : Readings → Option (String × ℕ) → Type 0
AllMoved before none = Unit
AllMoved before (some (s, t)) = Moved before s t

-- No time, or one that the choice reaches.
abbrev pub Reaches : Option (String × ℕ) → Option ℕ → Type 0
Reaches best none = Unit
Reaches none (some t) = 1 ≤ 0
Reaches (some (s, b)) (some t) = t ≤ b

-- The second choice is no older than the first.
abbrev Above : Option (String × ℕ) → Option (String × ℕ) → Type 0
Above none r = Unit
Above (some (s, b)) r = Reaches r (some b)

advanced-Moved :
    (before : Readings) (s : String) (c : Option ℕ) {t : ℕ}
    → advanced (reading_of s before) c ≡ some t
    → Moved before s t
unfolding advanced
advanced-Moved before s c {t} e = go (reading_of s before) c refl e
  where
    go : (p c : Option ℕ) → reading_of s before ≡ p → advanced p c ≡ some t → Moved before s t
    go (some p) (some c) same e = (p, same, ground (arith, e), ground (arith, e))
    go (some p) none same e = cc
    go none c same e = cc

better-Moved :
    (before : Readings) (best : Option (String × ℕ)) (s : String) (a : Option ℕ)
    → AllMoved before best
    → ((t : ℕ) → a ≡ some t → Moved before s t)
    → AllMoved before (better best s a)
unfolding better
better-Moved before none s none hb ha = hb
better-Moved before (some b) s none hb ha = hb
better-Moved before none s (some t) hb ha = ha t refl
better-Moved before (some (u, b)) s (some t) hb ha = elim (Bool-cases (ltb b t)) [
  | inl e ↦ rw e (ha t refl)
  | inr e ↦ rw e hb
]

Above-refl : (best : Option (String × ℕ)) → Above best best
Above-refl none = tt
Above-refl (some (s, b)) = omega arith

better-Above :
    (best : Option (String × ℕ)) (s : String) (a : Option ℕ)
    → Above best (better best s a) × Reaches (better best s a) a
unfolding better
better-Above none s none = (tt, tt)
better-Above (some (u, b)) s none = (omega arith, tt)
better-Above none s (some t) = (tt, omega arith)
better-Above (some (u, b)) s (some t) = elim (Bool-cases (ltb b t)) [
  | inl e ↦ rw e (ground (arith, e), ground (arith, e))
  | inr e ↦ rw e (ground (arith, e), ground (arith, e))
]

Above-trans : (a b c : Option (String × ℕ)) → Above a b → Above b c → Above a c
Above-trans none b c h k = tt
Above-trans (some (s, x)) none none h k = h
Above-trans (some (s, x)) none (some (u, z)) h k = omega (arith, h)
Above-trans (some (s, x)) (some (t, y)) none h k = omega (arith, k)
Above-trans (some (s, x)) (some (t, y)) (some (u, z)) h k = omega (arith, h, k)

Reaches-trans :
    (best r : Option (String × ℕ)) (a : Option ℕ) → Reaches best a → Above best r → Reaches r a
Reaches-trans best r none h k = tt
Reaches-trans none none (some t) h k = h
Reaches-trans none (some (u, z)) (some t) h k = omega (arith, h)
Reaches-trans (some (s, b)) none (some t) h k = omega (arith, k)
Reaches-trans (some (s, b)) (some (u, z)) (some t) h k = omega (arith, h, k)

-- The time that an entry would be chosen with.
abbrev pub advance_of : Readings → String × Option ℕ → Option ℕ
advance_of before (s, t) = advanced (reading_of s before) t

live_from_lem :
    (before : Readings) (best : Option (String × ℕ)) (after : Readings)
    → AllMoved before best
    → AllMoved before (live_from before best after)
      × Above best (live_from before best after)
      × All (λ e. Reaches (live_from before best after) (advance_of before e)) after
unfolding live_from
live_from_lem before best [] hb = (hb, Above-refl best, tt)
live_from_lem before best ((s, t) ∷ rest) hb =
    let a = advanced (reading_of s before) t in
    let next = better best s a in
    let (moved, above, reached) =
      live_from_lem before next rest
        (better-Moved before best s a hb (λ u e. advanced-Moved before s t e)) in
    let (up, here) = better-Above best s a in
    (moved, Above-trans best next _ up above, (Reaches-trans next _ a here above, reached))

-- The quote that is chosen, if any, has moved since the reading before, and every quote that has
-- moved is at most as new: none is chosen only if none has moved.
live_tick_sound :
    (before after : Readings)
    → AllMoved before (live_tick before after)
      × All (λ e. Reaches (live_tick before after) (advance_of before e)) after
unfolding live_tick
live_tick_sound before after =
    let (moved, _, reached) = live_from_lem before none after tt in (moved, reached)

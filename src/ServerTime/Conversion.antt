-- ===== src/ServerTime/Conversion.antt =====
-- When an expiry can be converted, and when the conversion can be undone.
use mt5_gateway.Prelude.{
  ℕ, ◌≡◌, ◌↔◌, ◌⊎◌, refl, sym, ◌∙◌, Bool-cases, is_some, true, false, inl, inr, arith, some, none,
  ℤ, pos_part, neg_part, ◌+ℤ◌, ◌-ℤ◌, int_laws, Option-cases, ap,
}
use mt5_gateway.Flow.{Flow, value, raised, value_error}
use mt5_gateway.ServerTime.{
  TimeConfig, Offset, is_in_range, fromtimestamp, offset_usable_for_gtd, utc_epoch_to_server,
  resolve_offset_seconds, server_epoch_to_utc, seconds_of,
}

zone_refuses :
    (c : TimeConfig) (o : Offset) (now : ℕ) (epoch : ℤ) {z : ℤ → ℤ}
    → c.zone ≡ some z
    → is_in_range epoch ≡ false
    → utc_epoch_to_server c o now epoch ≡ raised value_error
unfolding utc_epoch_to_server fromtimestamp
zone_refuses c o now epoch at out = ground (arith, at, out)

zone_converts :
    (c : TimeConfig) (o : Offset) (now : ℕ) (epoch : ℤ) {z : ℤ → ℤ}
    → c.zone ≡ some z
    → is_in_range epoch ≡ true
    → utc_epoch_to_server c o now epoch ≡ value (epoch +ℤ z epoch)
unfolding utc_epoch_to_server fromtimestamp
zone_converts c o now epoch at in_range = ground (arith, at, in_range)

-- The check that decides whether to derive an offset first agrees with the conversion of an epoch at
-- the same clock reading: it passes exactly when the conversion gives a value or, with a time zone
-- and an epoch that `datetime` does not have, raises as `datetime` does; so it fails exactly when the
-- conversion is refused for want of an offset.
pub usable_iff_converts :
    (c : TimeConfig) (o : Offset) (now : ℕ) (epoch : ℤ)
    → (offset_usable_for_gtd c o now ≡ true) ↔ (
        ((e : ℤ) × (utc_epoch_to_server c o now epoch ≡ value e))
        ⊎ ((is_some c.zone ≡ true)
            × (is_in_range epoch ≡ false)
            × (utc_epoch_to_server c o now epoch ≡ raised value_error)))
unfolding offset_usable_for_gtd utc_epoch_to_server
usable_iff_converts c o now epoch = (forward, backward)
  where
    forward :
        offset_usable_for_gtd c o now ≡ true
        → ((e : ℤ) × (utc_epoch_to_server c o now epoch ≡ value e))
          ⊎ ((is_some c.zone ≡ true)
              × (is_in_range epoch ≡ false)
              × (utc_epoch_to_server c o now epoch ≡ raised value_error))
    forward h = elim (Option-cases c.zone) [
      | inr (z, e) ↦ elim (Bool-cases (is_in_range epoch)) [
        | inl i ↦ inl (epoch +ℤ z epoch, zone_converts c o now epoch e i)
        | inr i ↦ inr (rw e refl, i, zone_refuses c o now epoch e i)
      ]
      | inl nz ↦ elim (Option-cases c.env_offset) [
        | inr (v, e) ↦ inl (epoch +ℤ v, ground arith)
        | inl ne ↦ elim (Option-cases o.derived_offset) [
          | inr (d, e) ↦ inl (epoch +ℤ d, ground arith)
          | inl nd ↦ absurd (ground arith)
        ]
      ]
    ]

    backward :
        ((e : ℤ) × (utc_epoch_to_server c o now epoch ≡ value e))
          ⊎ ((is_some c.zone ≡ true)
              × (is_in_range epoch ≡ false)
              × (utc_epoch_to_server c o now epoch ≡ raised value_error))
        → offset_usable_for_gtd c o now ≡ true
    backward (inl h) = elim (Option-cases c.zone) [
      | inr (z, e) ↦ ground (arith, e)
      | inl nz ↦ ground (arith, h.1)
    ]
    backward (inr h) = ground (arith, h.0)

+ℤ-sub_cancel : (a b : ℤ) → a +ℤ b -ℤ b ≡ a
+ℤ-sub_cancel a b = omega int_laws

-ℤ_inj : (a b c : ℤ) → a +ℤ b -ℤ c ≡ a → b ≡ c
-ℤ_inj a b c h = omega (int_laws, ap pos_part h, ap neg_part h)

-- Without a time zone, and as long as the known offset is not replaced in between, an expiry that was
-- converted comes back as it was, whatever the clock says when it is read: as the instant itself
-- where `datetime` has it, and otherwise the way back raises as `datetime` does for it.
pub conversion_roundtrip :
    (c : TimeConfig) (o : Offset) (now later : ℕ) (epoch : ℤ) {e : ℤ}
    → c.zone ≡ none
    → utc_epoch_to_server c o now epoch ≡ value e
    → server_epoch_to_utc c o later e ≡ fromtimestamp epoch
unfolding utc_epoch_to_server server_epoch_to_utc
conversion_roundtrip c o now later epoch {e} nz h = elim (Option-cases c.env_offset) [
  | inr (v, at) ↦
      let same : epoch +ℤ v ≡ e = ground arith in
      let back : e -ℤ v ≡ epoch = ground (arith, +ℤ-sub_cancel epoch v, same) in
      rw (nz, at, back) refl
  | inl ne ↦ elim (Option-cases o.derived_offset) [
    | inr (d, at) ↦
        let same : epoch +ℤ d ≡ e = ground arith in
        let back : e -ℤ d ≡ epoch = ground (arith, +ℤ-sub_cancel epoch d, same) in
        rw (nz, ne, at, back) refl
    | inl nd ↦ absurd (ground arith)
  ]
]

fromtimestamp-value : (at : ℤ) {t : ℤ} → fromtimestamp at ≡ value t → at ≡ t
unfolding fromtimestamp
fromtimestamp-value at e = ground (arith, e)

module _ (c : TimeConfig) (o : Offset) (z : ℤ → ℤ) (at : c.zone ≡ some z) where
  fromtimestamp-in_range :
      (epoch : ℤ) → is_in_range epoch ≡ true → fromtimestamp epoch ≡ value epoch
  unfolding fromtimestamp
  fromtimestamp-in_range epoch e = ground (arith, e)

  zoned_back :
      (later : ℕ) (e : ℤ)
      → server_epoch_to_utc c o later e ≡ fromtimestamp (e -ℤ z (seconds_of later))
  unfolding server_epoch_to_utc resolve_offset_seconds
  zoned_back later e = ground (arith, at)

value_inj : {a b : ℤ} → ◌≡◌ {A = Flow ℤ} (value a) (value b) → a ≡ b
value_inj e = cc

-- With a time zone the conversion uses the zone's offset at the expiry, and the way back uses its
-- offset at the moment of reading: an expiry that `datetime` has comes back exactly when these two
-- are equal.
pub zone_roundtrip_iff :
    (c : TimeConfig) (o : Offset) (now later : ℕ) (epoch : ℤ) (z : ℤ → ℤ)
    → c.zone ≡ some z
    → is_in_range epoch ≡ true
    → ((e : ℤ) × (utc_epoch_to_server c o now epoch ≡ value e)
        × (server_epoch_to_utc c o later e ≡ value epoch))
      ↔ (z epoch ≡ z (seconds_of later))
zone_roundtrip_iff c o now later epoch z at in_range =
    let there = zone_converts c o now epoch at in_range in
    (
      λ h.
          let sent : epoch +ℤ z epoch ≡ h.0 = value_inj (sym there ∙ h.1) in
          let read : h.0 -ℤ z (seconds_of later) ≡ epoch =
            fromtimestamp-value _ (sym (zoned_back c o z at later h.0) ∙ h.2) in
          -ℤ_inj epoch (z epoch) (z (seconds_of later))
            (ap (λ x. x -ℤ z (seconds_of later)) sent ∙ read),
      λ e. (
        epoch +ℤ z epoch,
        there,
        zoned_back c o z at later (epoch +ℤ z epoch)
            ∙ ap (λ x. fromtimestamp (epoch +ℤ z epoch -ℤ x)) (sym e)
            ∙ ap fromtimestamp (+ℤ-sub_cancel epoch (z epoch))
            ∙ fromtimestamp-in_range c o z at epoch in_range,
      ),
    )

-- ===== src/Idempotency/Threads/Exclusive.antt =====
-- Interleavings of request threads in which no held reservation has outlived the TTL where a `begin`
-- happens: they give one key to one thread at a time.
use mt5_gateway.Prelude.{
  ℕ, ◌+◌, ◌<◌, ◌≡◌, refl, String, true, none, some, arith, str_eq, eq_iff, if◌then◌else◌,
  Bool-cases, inl, inr, ◌&&◌, List, [], ◌∷◌, All,
}
use mt5_gateway.Idempotency.{Decision, new, conflict, in_progress, Entry, IdempotencyStore, begin}
use mt5_gateway.Idempotency.Threads.{
  System, start, enter, began, owns, leave, Unexpired, Step, begins, completes, abandons, Reach,
  here, next, pending, Holds, Distinct, IsExclusive, leave-All, leave-Distinct, others_ne,
  complete_keeps, abandon_keeps, begin_keeps, begin_new_ne, begin_new-Holds,
}

enter_keeps :
    (k fp : String) (now : ℕ) (t : System) (d : Decision)
    → (begin k fp now t.store).0.0 ≡ d
    → Unexpired now t
    → IsExclusive t
    → All (Holds (begin k fp now t.store).1) (enter k fp d t.owners)
      × Distinct (enter k fp d t.owners)
enter_keeps k fp now t new e f v = (
  (begin_new-Holds t.store k fp now e, begin_keeps t.store k fp now t.owners f v.held),
  (begin_new_ne t.store k fp now t.owners e f v.held, v.distinct),
)
enter_keeps k fp now t _ e f v = (begin_keeps t.store k fp now t.owners f v.held, v.distinct)

Step-IsExclusive : {t u : System} → Step Unexpired t u → IsExclusive t → IsExclusive u
unfolding began
Step-IsExclusive {t} (begins k fp now later f e) v =
    let (h, d) = enter_keeps k fp now t _ refl f v in rw e (record { held = h; distinct = d })
Step-IsExclusive {t} (completes k fp payload code o e) v = rw e (record {
  held =
      complete_keeps t.store k fp payload code (leave k fp t.owners)
        (leave-All (Holds t.store) k fp t.owners v.held) (others_ne k fp t.owners o v.distinct);
  distinct = leave-Distinct k fp t.owners v.distinct;
})
Step-IsExclusive {t} (abandons k fp o e) v = rw e (record {
  held =
      abandon_keeps t.store k fp (leave k fp t.owners)
        (leave-All (Holds t.store) k fp t.owners v.held) (others_ne k fp t.owners o v.distinct);
  distinct = leave-Distinct k fp t.owners v.distinct;
})

Reach-IsExclusive : {t u : System} → IsExclusive t → Reach Unexpired t u → IsExclusive u
Reach-IsExclusive v here = v
Reach-IsExclusive v (next r s) = Step-IsExclusive s (Reach-IsExclusive v r)

start-IsExclusive : (ttl : ℕ) → IsExclusive (start ttl)
unfolding start
start-IsExclusive ttl = record { held = tt; distinct = tt }

Holds-owns :
    (s : IdempotencyStore) (k fp : String) (os : List (String × String))
    → owns k fp os ≡ true
    → All (Holds s) os
    → Holds s (k, fp)
Holds-owns s k fp ((j, g) ∷ os) o (h, hs) = elim (Bool-cases (str_eq j k && str_eq g fp)) [
  | inl e ↦
      let j_eq : j ≡ k = ground (arith, eq_iff j k) in
      let g_eq : g ≡ fp = ground (arith, eq_iff g fp) in rw (← j_eq, ← g_eq) h
  | inr e ↦ Holds-owns s k fp os (ground arith) hs
]
Holds-owns s k fp [] o h = cc

unexpired_of_owns :
    (s : IdempotencyStore) (now : ℕ) (k fp : String) (os : List (String × String))
    → owns k fp os ≡ true
    → All (λ o. (e : Entry) → s.entries o.0 ≡ some e → now < e.created_at + s.ttl_seconds) os
    → (e : Entry) → s.entries k ≡ some e
    → now < e.created_at + s.ttl_seconds
unexpired_of_owns s now k fp ((j, g) ∷ os) o (h, hs) e at_k =
    elim (Bool-cases (str_eq j k && str_eq g fp)) [
      | inl hit ↦ let j_eq : j ≡ k = ground (arith, eq_iff j k) in h e (rw j_eq at_k)
      | inr miss ↦ unexpired_of_owns s now k fp os (ground arith) hs e at_k
    ]
unexpired_of_owns s now k fp [] o h e at_k = cc

-- From the empty store, after any interleaving in which every `begin` happens while each reservation
-- that a thread holds, of any key, is within the TTL: as long as that is so, every other `begin` of a
-- key that a thread holds is refused, with IN_PROGRESS for the same fingerprint and CONFLICT for
-- another.
pub no_second_submission :
    (ttl : ℕ) {t : System} (k fp gp : String) (now : ℕ)
    → Reach Unexpired (start ttl) t
    → owns k fp t.owners ≡ true
    → Unexpired now t
    → (begin k gp now t.store).0 ≡ (if str_eq fp gp then in_progress else conflict, none)
unfolding begin
no_second_submission ttl {t} k fp gp now r o f =
    let v = Reach-IsExclusive (start-IsExclusive ttl) r in
    let (c, e) = Holds-owns t.store k fp t.owners o v.held in
    let fresh = unexpired_of_owns t.store now k fp t.owners o f (pending fp c) e in
    ground (arith, e, fresh)

-- ===== src/Idempotency/Threads.antt =====
-- Request threads that share the store (app/routes/order.py: one `begin`, and for the thread that
-- is answered NEW one later `complete` or `abandon`), in any interleaving that a condition on the
-- moments of the `begin`s admits.
pub mod Exclusive
pub mod Answers
use mt5_gateway.Prelude.{
  ℕ, ◌+◌, ◌≤◌, ◌<◌, ◌≡◌, ◌≢◌, refl, sym, String, Bool, true, false, Option, none, some, arith,
  str_eq, eq_iff, eq_refl, if◌then◌else◌, Bool-cases, Option-cases, inl, inr, ◌⊎◌, ◌&&◌, List, [],
  ◌∷◌, All, length,
}
use mt5_gateway.Json.{Json}
use mt5_gateway.Idempotency.{
  Decision, new, replay, StoredResponse, Entry, IdempotencyStore, assign, unless_expired, begin,
  complete, abandon, init,
}

-- `owners`: the key and the fingerprint of each thread between its NEW and its finish.
-- `clock` is the time of the last `begin`.
pub record System : Type 0 where
  pub clock : ℕ
  pub store : IdempotencyStore
  pub owners : List (String × String)

unfoldable pub start : ℕ → System
start ttl = record { clock = 0; store = init ttl; owners = [] }

abbrev pub enter : String → String → Decision → List (String × String) → List (String × String)
enter k fp new os = (k, fp) ∷ os
enter k fp _ os = os

unfoldable pub began : String → String → ℕ → System → System
began k fp now t =
    let ((d, _), s) = begin k fp now t.store in
    record { clock = now; store = s; owners = enter k fp d t.owners }

abbrev pub owns : String → String → List (String × String) → Bool
owns k fp [] = false
owns k fp ((j, g) ∷ os) = if str_eq j k && str_eq g fp then true else owns k fp os

abbrev pub leave : String → String → List (String × String) → List (String × String)
leave k fp [] = []
leave k fp ((j, g) ∷ os) = if str_eq j k && str_eq g fp then os else (j, g) ∷ leave k fp os

-- No reservation that a thread still holds has outlived the TTL.
abbrev pub Unexpired : ℕ → System → Type 0
Unexpired now t =
    All (λ o. (e : Entry) → t.store.entries o.0 ≡ some e → now < e.created_at + t.store.ttl_seconds)
      t.owners

-- No condition on the moment of a `begin`.
abbrev pub Anytime : ℕ → System → Type 0
Anytime now t = Unit

-- The steps whose `begin`s happen at moments that `G` admits.
pub data Step (G : ℕ → System → Type 0) (t u : System) : Type 0 where
  begins : (k fp : String) (now : ℕ) → t.clock ≤ now → G now t → u ≡ began k fp now t → Step G t u
  completes :
      (k fp : String) (payload : Json) (code : ℕ)
      → owns k fp t.owners ≡ true
      → u ≡ record t { store = complete k fp payload code t.store; owners = leave k fp t.owners }
      → Step G t u
  abandons :
      (k fp : String)
      → owns k fp t.owners ≡ true
      → u ≡ record t { store = abandon k fp t.store; owners = leave k fp t.owners }
      → Step G t u

pub data Reach (G : ℕ → System → Type 0) (t : System) : System → Type 0 where
  here : Reach G t t
  next : {u v : System} → Reach G t u → Step G u v → Reach G t v

abbrev pub pending : String → ℕ → Entry
pending fp c = record { fingerprint = fp; created_at = c; response = none }

abbrev Holds : IdempotencyStore → String × String → Type 0
Holds s o = (c : ℕ) × (s.entries o.0 ≡ some (pending o.1 c))

abbrev Distinct : List (String × String) → Type 0
Distinct [] = Unit
Distinct (o ∷ os) = All (λ p. p.0 ≢ o.0) os × Distinct os

-- No two threads hold the same key, and the key of each is reserved for its own order.
record IsExclusive (t : System) : Type 0 where
  held : All (Holds t.store) t.owners
  distinct : Distinct t.owners

leave-All {ℓ} :
    (P : String × String → Type ℓ) (k fp : String) (os : List (String × String))
    → All P os
    → All P (leave k fp os)
leave-All P k fp [] h = tt
leave-All P k fp ((j, g) ∷ os) h = elim (Bool-cases (str_eq j k && str_eq g fp)) [
  | inl e ↦ rw e h.1
  | inr e ↦ rw e (h.0, leave-All P k fp os h.1)
]

leave-Distinct :
    (k fp : String) (os : List (String × String)) → Distinct os → Distinct (leave k fp os)
leave-Distinct k fp [] h = tt
leave-Distinct k fp ((j, g) ∷ os) h = elim (Bool-cases (str_eq j k && str_eq g fp)) [
  | inl e ↦ rw e h.1
  | inr e ↦ rw e (leave-All (λ p. p.0 ≢ j) k fp os h.0, leave-Distinct k fp os h.1)
]

ne_of_owns :
    (k fp i : String) (os : List (String × String))
    → owns k fp os ≡ true
    → All (λ p. p.0 ≢ i) os
    → i ≢ k
ne_of_owns k fp i ((j, g) ∷ os) h a = elim (Bool-cases (str_eq j k && str_eq g fp)) [
  | inl e ↦ ground (arith, eq_iff j k)
  | inr e ↦ ne_of_owns k fp i os (ground arith) a.1
]
ne_of_owns k fp i [] h a = cc

others_ne :
    (k fp : String) (os : List (String × String))
    → owns k fp os ≡ true
    → Distinct os
    → All (λ p. p.0 ≢ k) (leave k fp os)
others_ne k fp [] h d = cc
others_ne k fp ((j, g) ∷ os) h d = elim (Bool-cases (str_eq j k && str_eq g fp)) [
  | inl e ↦ let same : j ≡ k = ground (arith, eq_iff j k) in rw e (rw same at d.0)
  | inr e ↦
      let more : owns k fp os ≡ true = ground arith in
      rw e (ne_of_owns k fp j os more d.0, others_ne k fp os more d.1)
]

module _ (s : IdempotencyStore) (k fp : String) where
  -- A finishing thread changes no other key.
  complete_keeps :
      (payload : Json) (code : ℕ) (os : List (String × String))
      → All (Holds s) os
      → All (λ p. p.0 ≢ k) os
      → All (Holds (complete k fp payload code s)) os
  unfolding complete
  complete_keeps payload code [] h n = tt
  complete_keeps payload code ((j, g) ∷ os) ((c, e), h) (d, n) =
      ((c, ground (arith, eq_iff k j)), complete_keeps payload code os h n)

  abandon_keeps :
      (os : List (String × String))
      → All (Holds s) os
      → All (λ p. p.0 ≢ k) os
      → All (Holds (abandon k fp s)) os
  unfolding abandon
  abandon_keeps [] h n = tt
  abandon_keeps ((j, g) ∷ os) ((c, e), h) (d, n) =
      ((c, ground (arith, eq_iff k j)), abandon_keeps os h n)

  module _ (now : ℕ) where
    abbrev InTime : String × String → Type 0
    InTime o = (e : Entry) → s.entries o.0 ≡ some e → now < e.created_at + s.ttl_seconds

    begin_keeps :
        (os : List (String × String))
        → All InTime os
        → All (Holds s) os
        → All (Holds (begin k fp now s).1) os
    unfolding begin
    begin_keeps [] f h = tt
    begin_keeps ((j, g) ∷ os) (f, fs) ((c, e), h) =
        ((c, ground (arith, f (pending g c), eq_iff k j)), begin_keeps os fs h)

    -- NEW is answered only for a key that no thread holds.
    begin_new_ne :
        (os : List (String × String))
        → (begin k fp now s).0.0 ≡ new
        → All InTime os
        → All (Holds s) os
        → All (λ p. p.0 ≢ k) os
    unfolding begin
    begin_new_ne [] e f h = tt
    begin_new_ne ((j, g) ∷ os) d (f, fs) ((c, e), h) = (
      λ same.
          let there : s.entries k ≡ some (pending g c) = rw same at e in
          ground (arith, f (pending g c), same, there, eq_iff g fp),
      begin_new_ne os d fs h,
    )

    begin_new-Holds : (begin k fp now s).0.0 ≡ new → Holds (begin k fp now s).1 (k, fp)
    unfolding begin
    begin_new-Holds d = (now, ground (arith, eq_refl k))

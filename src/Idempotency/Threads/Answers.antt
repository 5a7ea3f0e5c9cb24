-- ===== src/Idempotency/Threads/Answers.antt =====
-- A stored answer outlives any interleaving of request threads, whenever their `begin`s happen, until
-- its entry passes the TTL.
use mt5_gateway.Prelude.{
  ℕ, ◌+◌, ◌≤◌, ◌<◌, ◌≡◌, ◌≢◌, refl, String, false, some, arith, eq_iff, Bool-cases, inl, inr, ◌⊎◌,
  List, All,
}
use mt5_gateway.Idempotency.{
  Decision, new, replay, StoredResponse, Entry, IdempotencyStore, is_expired, begin, complete,
  abandon,
}
use mt5_gateway.Idempotency.Threads.{
  System, Anytime, enter, began, Step, begins, completes, abandons, Reach, here, next, leave-All,
  ne_of_owns,
}

-- The entry is there and no thread holds its key, or the clock is past the entry's TTL.
abbrev Kept : String → Entry → System → Type 0
Kept k e t =
    ((t.store.entries k ≡ some e) × All (λ p. p.0 ≢ k) t.owners)
    ⊎ (e.created_at + t.store.ttl_seconds ≤ t.clock)

module _ (s : IdempotencyStore) (k : String) (e : Entry) (at_k : s.entries k ≡ some e) where
  begin_entry :
      (j fp : String) (now : ℕ)
      → is_expired s.ttl_seconds now e ≡ false
      → (begin j fp now s).1.entries k ≡ some e
  unfolding begin
  begin_entry j fp now h = ground (arith, eq_iff j k)

  enter_ne :
      (j fp : String) (now : ℕ) (os : List (String × String)) (d : Decision)
      → is_expired s.ttl_seconds now e ≡ false
      → (begin j fp now s).0.0 ≡ d
      → All (λ p. p.0 ≢ k) os
      → All (λ p. p.0 ≢ k) (enter j fp d os)
  unfolding begin
  enter_ne j fp now os new h eq a = (
    λ same.
        let at_j : s.entries j ≡ some e = rw same at_k in
        ground (arith, at_j, eq_iff e.fingerprint fp),
    a,
  )
  enter_ne j fp now os _ h eq a = a

  complete_entry :
      (j fp : String) (r : StoredResponse)
      → k ≢ j
      → (complete j fp r.payload r.status_code s).entries k ≡ some e
  unfolding complete
  complete_entry j fp r h = ground (arith, eq_iff j k)

  abandon_entry : (j fp : String) → k ≢ j → (abandon j fp s).entries k ≡ some e
  unfolding abandon
  abandon_entry j fp h = ground (arith, eq_iff j k)

begin_ttl :
    (k fp : String) (now : ℕ) (s : IdempotencyStore)
    → (begin k fp now s).1.ttl_seconds ≡ s.ttl_seconds
unfolding begin
begin_ttl k fp now s = ground arith

Step-Kept : (k : String) (e : Entry) {t u : System} → Step Anytime t u → Kept k e t → Kept k e u
unfolding began complete abandon
Step-Kept k e {t} (begins j fp now later f eq) (inr old) =
    rw eq (inr (omega (arith, begin_ttl j fp now t.store)))
Step-Kept k e {t} (begins j fp now later f eq) (inl (at_k, free)) =
    elim (Bool-cases (is_expired t.store.ttl_seconds now e)) [
      | inl gone ↦ rw eq (inr (rw (begin_ttl j fp now t.store) (ground arith)))
      | inr live ↦ rw eq (
          inl (
            begin_entry t.store k e at_k j fp now live,
            enter_ne t.store k e at_k j fp now t.owners _ live refl free,
          ))
    ]
Step-Kept k e {t} (completes j fp payload code o eq) (inl (at_k, free)) = rw eq (
    inl (
      complete_entry t.store k e at_k j fp (record { payload = payload; status_code = code })
          (ne_of_owns j fp k t.owners o free),
      leave-All (λ p. p.0 ≢ k) j fp t.owners free,
    ))
Step-Kept k e (completes j fp payload code o eq) (inr old) = rw eq (inr old)
Step-Kept k e {t} (abandons j fp o eq) (inl (at_k, free)) = rw eq (
    inl (
      abandon_entry t.store k e at_k j fp (ne_of_owns j fp k t.owners o free),
      leave-All (λ p. p.0 ≢ k) j fp t.owners free,
    ))
Step-Kept k e (abandons j fp o eq) (inr old) = rw eq (inr old)

Reach-Kept : (k : String) (e : Entry) {t u : System} → Reach Anytime t u → Kept k e t → Kept k e u
Reach-Kept k e here h = h
Reach-Kept k e (next r s) h = Step-Kept k e s (Reach-Kept k e r h)

-- Once the answer `r` to the order `fp` is stored under the key `k` and no thread holds `k`, then
-- after any interleaving, also one in which held reservations outlive the TTL, until the entry is past its TTL, `begin` of that order answers REPLAY
-- with exactly `r`.
pub answer_is_replayed :
    (k : String) (e : Entry) (r : StoredResponse) {t u : System} (now : ℕ)
    → t.store.entries k ≡ some e
    → e.response ≡ some r
    → All (λ p. p.0 ≢ k) t.owners
    → Reach Anytime t u
    → u.clock ≤ now
    → now < e.created_at + u.store.ttl_seconds
    → (begin k e.fingerprint now u.store).0 ≡ (replay, some r)
unfolding begin
answer_is_replayed k e r {t} {u} now at_k has free steps later live =
    elim (Reach-Kept k e steps (inl (at_k, free))) [
      | inl (there, _) ↦ ground (arith, there, eq_iff e.fingerprint e.fingerprint)
      | inr old ↦ absurd (omega arith)
    ]

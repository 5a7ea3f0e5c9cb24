-- ===== src/Order/Repeat.antt =====
-- What a repeated order finds in the store (app/routes/order.py over app/idempotency.py).
use mt5_gateway.Prelude.{
  Bool-cases, inl, inr, ℕ, ◌<◌, ◌≡◌, refl, arith, String, true, Option, none, some, str_eq, eq_iff,
}
use mt5_gateway.Json.{Json, Dict}
use mt5_gateway.Idempotency.{IdempotencyStore, StoredResponse, begin, complete, abandon}
use mt5_gateway.Idempotency.Slots.{
  claim, answer_of, Slot, vacant, slot, begin-slot, complete-slot, abandon-slot,
}
use mt5_gateway.Errors.{RequestId}
use mt5_gateway.Host.{Host, Library, Config}
use mt5_gateway.World.{World}
use mt5_gateway.Order.Key.{request_fingerprint}
use mt5_gateway.Order.Submit.{Submitted}
use mt5_gateway.Order.Endpoint.{conflict_response, after_begin, refusal, place, settle, reserved}

-- The store's slot for a completed order, and for one that nothing completed.
abbrev pub settled : String → Submitted → Slot
settled fp s = elim s.completed [
  | some (payload, code) ↦ Slot.answered fp (record { payload = payload; status_code = code })
  | none ↦ vacant
]

str_eq_refl : (s : String) → str_eq s s ≡ true
str_eq_refl s = (eq_iff s s).1 refl

module _ {S : Type 0} (h : Host S) (lib : Library) (cfg : Config) (id : RequestId) where
  settle-slot :
      (key fp : String) (now : ℕ) (s : Submitted) (store : IdempotencyStore)
      → slot store now key ≡ Slot.reserved fp
      → slot (settle h lib cfg id key fp s store) now key ≡ settled fp s
  unfolding settle
  settle-slot key fp now s store e = go s.completed
    where
      go :
          (c : Option (Json × ℕ))
          → slot
              (elim c [
                | some (payload, code) ↦ complete key fp payload code store
                | none ↦ abandon key fp store
              ])
              now
              key
            ≡ settled fp (record { response = s.response; completed = c })
      go none =
          rw (abandon-slot store key fp now key, e) (grind (arith, eq_iff key key, eq_iff fp fp))
      go (some (payload, code)) =
          rw (complete-slot store key fp payload code now key, e)
            (grind (arith, eq_iff key key, eq_iff fp fp))

  -- The world in which the body starts: the store has read its clock.
  abbrev pub begun : World S → World S
  begun w = record w { host = (h.monotonic w.host).1 }

  -- `begin` answers by the slot, and keeps or makes what the slot calls for.
  reserved-slot :
      (d : Dict) (key : String) (store : IdempotencyStore) (w : World S) {x : Slot}
      → 0 < store.ttl_seconds
      → slot store (h.monotonic w.host).0 key ≡ x
      → (store' : IdempotencyStore) × (slot store' (h.monotonic w.host).0 key
          ≡ claim (request_fingerprint lib d) x)
        × (reserved h lib cfg id d key store w
            ≡ after_begin h lib cfg id d key
                (answer_of (request_fingerprint lib d) x)
                store'
                (begun w))
  unfolding reserved
  reserved-slot d key store w l e =
      let fp = request_fingerprint lib d in
      let now = (h.monotonic w.host).0 in
      let (answer, slots) = begin-slot store key fp now key l in
      ((begin key fp now store).1, rw (e, str_eq_refl key) at slots, rw (← e, answer) refl)

  -- The first order under a key, with a positive TTL and a vacant slot, is carried out; its slot
  -- then holds what the body completed with, and is vacant again if the body completed nothing.
  pub first_order :
      (d : Dict) (key : String) (store : IdempotencyStore) (w : World S)
      → 0 < store.ttl_seconds
      → slot store (h.monotonic w.host).0 key ≡ vacant
      → ((reserved h lib cfg id d key store w).0
          ≡ (place h lib cfg id d (some key) (begun w)).0.response)
        × ((reserved h lib cfg id d key store w).2 ≡ (place h lib cfg id d (some key) (begun w)).1)
        × (slot (reserved h lib cfg id d key store w).1 (h.monotonic w.host).0 key
            ≡ settled (request_fingerprint lib d) (place h lib cfg id d (some key) (begun w)).0)
  unfolding after_begin place
  first_order d key store w l e =
      let (store', made, same) = reserved-slot d key store w l e in
      (
        rw (same, after_begin) refl,
        rw (same, after_begin) refl,
        rw (same, after_begin) (settle-slot key _ _ _ store' made),
      )

  -- A repeated order, with the same key and intent, whose slot holds a response gets that response,
  -- and nothing is done but reading the clocks.
  pub repeat_is_replayed :
      (d : Dict) (key : String) (r : StoredResponse) (store : IdempotencyStore) (w : World S)
      → 0 < store.ttl_seconds
      → slot store (h.monotonic w.host).0 key ≡ Slot.answered (request_fingerprint lib d) r
      → ((reserved h lib cfg id d key store w).0
          ≡ record { status = r.status_code; body = r.payload })
        × ((reserved h lib cfg id d key store w).2 ≡ begun w)
        × (slot (reserved h lib cfg id d key store w).1 (h.monotonic w.host).0 key
            ≡ Slot.answered (request_fingerprint lib d) r)
  unfolding after_begin refusal
  repeat_is_replayed d key r store w l e =
      let (store', kept, same) = reserved-slot d key store w l e in
      let equal = str_eq_refl (request_fingerprint lib d) in
      (rw (same, equal) refl, rw (same, equal) refl, rw (same, equal) kept)

  -- While the slot is reserved the order is refused with 409 and not sent again.
  repeat_in_progress :
      (d : Dict) (key fp : String) (store : IdempotencyStore) (w : World S)
      → 0 < store.ttl_seconds
      → slot store (h.monotonic w.host).0 key ≡ Slot.reserved fp
      → ((reserved h lib cfg id d key store w).0.status ≡ 409)
        × ((reserved h lib cfg id d key store w).2 ≡ begun w)
        × (slot (reserved h lib cfg id d key store w).1 (h.monotonic w.host).0 key
            ≡ Slot.reserved fp)
  unfolding after_begin refusal conflict_response
  repeat_in_progress d key fp store w l e =
      let (store', kept, same) = reserved-slot d key store w l e in
      elim (Bool-cases (str_eq fp (request_fingerprint lib d))) [
        | inl f ↦ (rw (same, f) refl, rw (same, f) refl, rw (same, f) kept)
        | inr f ↦ (rw (same, f) refl, rw (same, f) refl, rw (same, f) kept)
      ]

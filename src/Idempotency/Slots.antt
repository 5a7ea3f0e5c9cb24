-- ===== src/Idempotency/Slots.antt =====
-- What the store promises, key by key: a slot is vacant, reserved by one order's fingerprint, or
-- answered. Each method is one transition of its own key's slot and leaves the others alone.
use mt5_gateway.Prelude.{
  ℕ, ◌<◌, ◌≡◌, String, Option, none, some, arith, str_eq, eq_iff, if◌then◌else◌,
}
use mt5_gateway.Json.{Json}
use mt5_gateway.Idempotency.{
  Decision, new, replay, conflict, in_progress, StoredResponse, Entry, IdempotencyStore,
  unless_expired, begin, complete, abandon,
}

pub data Slot : Type 0 where
  vacant : Slot
  reserved : String → Slot
  answered : String → StoredResponse → Slot

abbrev pub entry_slot : Option Entry → Slot
entry_slot none = vacant
entry_slot (some e) = elim e.response [
  | none ↦ reserved e.fingerprint
  | some r ↦ answered e.fingerprint r
]

-- The slot of a key as a call at time `now` finds it: an expired entry counts as none.
abbrev pub slot : IdempotencyStore → ℕ → String → Slot
slot s now k = entry_slot (unless_expired s.ttl_seconds now (s.entries k))

-- The four answers, by what the slot holds.
abbrev pub answer_of : String → Slot → Decision × Option StoredResponse
answer_of fp vacant = (new, none)
answer_of fp (reserved g) = if str_eq g fp then (in_progress, none) else (conflict, none)
answer_of fp (answered g r) = if str_eq g fp then (replay, some r) else (conflict, none)

abbrev pub claim : String → Slot → Slot
claim fp vacant = reserved fp
claim fp (reserved g) = reserved g
claim fp (answered g r) = answered g r

abbrev pub settle : String → StoredResponse → Slot → Slot
settle fp r vacant = vacant
settle fp r (reserved g) = if str_eq g fp then answered g r else reserved g
settle fp r (answered g q) = if str_eq g fp then answered g r else answered g q

abbrev pub free : String → Slot → Slot
free fp vacant = vacant
free fp (reserved g) = if str_eq g fp then vacant else reserved g
free fp (answered g r) = answered g r

-- begin: with a positive TTL, the answer is the one that the key's slot calls for, a vacant slot
-- becomes reserved for the caller's fingerprint, and no other key's slot changes.
pub begin-slot :
    (s : IdempotencyStore) (k fp : String) (now : ℕ) (j : String)
    → 0 < s.ttl_seconds
    → ((begin k fp now s).0 ≡ answer_of fp (slot s now k))
      × (slot (begin k fp now s).1 now j
          ≡ (if str_eq k j then claim fp (slot s now k) else slot s now j))
unfolding begin
begin-slot s k fp now j h = (ground (arith, eq_iff k j), ground (arith, eq_iff k j))

-- complete: a slot that is held for the given fingerprint becomes answered with the response, any
-- other slot of that key stays as it is, and no other key's slot changes.
pub complete-slot :
    (s : IdempotencyStore) (k fp : String) (payload : Json) (code now : ℕ) (j : String)
    → slot (complete k fp payload code s) now j ≡ (
        if str_eq k j
        then settle fp (record { payload = payload; status_code = code }) (slot s now k)
        else slot s now j)
unfolding complete
complete-slot s k fp payload code now j = ground (arith, eq_iff k j)

-- abandon: a slot that is reserved for the given fingerprint becomes vacant, an answered one or
-- another order's stays as it is, and no other key's slot changes.
pub abandon-slot :
    (s : IdempotencyStore) (k fp : String) (now : ℕ) (j : String)
    → slot (abandon k fp s) now j ≡ (if str_eq k j then free fp (slot s now k) else slot s now j)
unfolding abandon
abandon-slot s k fp now j = ground (arith, eq_iff k j)

-- With a positive TTL each call does to the key's slot what the slots' own operations do, and leaves
-- every other key's slot alone: begin answers what the slot calls for and reserves a vacant one;
-- complete answers a slot that is held for the fingerprint; abandon frees one that is reserved for it.
pub store_refines_slots :
    (s : IdempotencyStore) (k fp : String) (payload : Json) (code now : ℕ) (j : String)
    → 0 < s.ttl_seconds
    → ((begin k fp now s).0 ≡ answer_of fp (slot s now k))
      × (slot (begin k fp now s).1 now j
          ≡ (if str_eq k j then claim fp (slot s now k) else slot s now j))
      × (slot (complete k fp payload code s) now j ≡ (
          if str_eq k j
          then settle fp (record { payload = payload; status_code = code }) (slot s now k)
          else slot s now j))
      × (slot (abandon k fp s) now j
          ≡ (if str_eq k j then free fp (slot s now k) else slot s now j))
store_refines_slots s k fp payload code now j positive =
    let (answer, held) = begin-slot s k fp now j positive in
    (answer, held, complete-slot s k fp payload code now j, abandon-slot s k fp now j)

-- ===== src/Idempotency.antt =====
-- app/idempotency.py: the store that reserves a client's key before an order goes to the broker.
-- `_entries` is a function from keys, since nothing depends on the order of the dict; the clock's
-- reading is an argument. Each method runs under the store's lock, so it is one step. The hash of
-- the order's fields is a parameter of the handlers (Host.antt).
pub mod Slots
pub mod Threads
use mt5_gateway.Prelude.{
  ℕ, ◌+◌, String, Bool, true, false, Option, none, some, leb, str_eq, not, ◌&&◌, if◌then◌else◌,
}
use mt5_gateway.Json.{Json}

pub data Decision : Type 0 where
  new replay conflict in_progress : Decision

pub record StoredResponse : Type 0 where
  pub payload : Json
  pub status_code : ℕ

pub record Entry : Type 0 where
  pub fingerprint : String
  pub created_at : ℕ
  pub response : Option StoredResponse

abbrev pub Entries : Type 0
Entries = String → Option Entry

-- Times are in clock ticks, which `ttl_seconds` is counted in too.
pub record IdempotencyStore : Type 0 where
  pub ttl_seconds : ℕ
  pub entries : Entries

-- `IdempotencyStore(ttl_seconds)`
abbrev pub init : ℕ → IdempotencyStore
init ttl = record { ttl_seconds = ttl; entries = λ k. none }

-- `entries[key] = entry`, and `del entries[key]` for none
abbrev pub assign : String → Option Entry → Entries → Entries
assign k v m j = if str_eq k j then v else m j

-- `now - entry.created_at >= ttl`
abbrev pub is_expired : ℕ → ℕ → Entry → Bool
is_expired ttl now e = leb (e.created_at + ttl) now

abbrev pub unless_expired : ℕ → ℕ → Option Entry → Option Entry
unless_expired ttl now none = none
unless_expired ttl now (some e) = if is_expired ttl now e then none else some e

unfoldable pub purge_expired : ℕ → IdempotencyStore → IdempotencyStore
purge_expired now s = record s { entries = λ k. unless_expired s.ttl_seconds now (s.entries k) }

-- The tests that follow the purge, on the entry of the key.
unfoldable pub decide : String → Option Entry → Decision × Option StoredResponse
decide fp none = (new, none)
decide fp (some e) =
    if not (str_eq e.fingerprint fp)
    then (conflict, none)
    else elim e.response [ none ↦ (in_progress, none) | some r ↦ (replay, some r) ]

reserve : String → String → ℕ → Option Entry → IdempotencyStore → IdempotencyStore
reserve k fp now (some e) s = s
reserve k fp now none s = record s {
  entries =
      assign k (some (record { fingerprint = fp; created_at = now; response = none })) s.entries;
}

unfoldable pub begin :
    String → String → ℕ → IdempotencyStore → (Decision × Option StoredResponse) × IdempotencyStore
unfolding purge_expired decide reserve
begin k fp now s =
    let purged = purge_expired now s in
    let entry = purged.entries k in (decide fp entry, reserve k fp now entry purged)

answered_entry : String → Json → ℕ → Option Entry → Option Entry
answered_entry fp payload code none = none
answered_entry fp payload code (some e) =
    if not (str_eq e.fingerprint fp)
    then some e
    else some (record e { response = some (record { payload = payload; status_code = code }) })

unfoldable pub complete : String → String → Json → ℕ → IdempotencyStore → IdempotencyStore
unfolding answered_entry
complete k fp payload code s = record s {
  entries = assign k (answered_entry fp payload code (s.entries k)) s.entries;
}

abandoned_entry : String → Option Entry → Option Entry
abandoned_entry fp none = none
abandoned_entry fp (some e) =
    if str_eq e.fingerprint fp && (elim e.response [ none ↦ true | some r ↦ false ])
    then none
    else some e

unfoldable pub abandon : String → String → IdempotencyStore → IdempotencyStore
unfolding abandoned_entry
abandon k fp s = record s { entries = assign k (abandoned_entry fp (s.entries k)) s.entries }

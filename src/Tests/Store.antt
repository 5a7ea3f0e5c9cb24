-- ===== src/Tests/Store.antt =====
-- The theorems on the idempotency store and the retcodes, applied.
use mt5_gateway.Prelude.{ℕ, ◌≡◌, refl, arith, none, some, []}
use mt5_gateway.Json.{text}
use mt5_gateway.Idempotency.{
  replay, in_progress, StoredResponse, Entry, IdempotencyStore, assign, begin, complete, abandon,
}
use mt5_gateway.Idempotency.Slots.{vacant, reserved, answered, slot, store_refines_slots}
use mt5_gateway.Idempotency.Threads.{
  Unexpired, Anytime, System, start, began, begins, Reach, here, next,
}
use mt5_gateway.Idempotency.Threads.Exclusive.{no_second_submission}
use mt5_gateway.Idempotency.Threads.Answers.{answer_is_replayed}

abbrev one_owner : System
one_owner = began "k" "buy" 5 (start 60)

one_owner_reached : Reach Unexpired (start 60) one_owner
unfolding start
one_owner_reached = next here (begins "k" "buy" 5 (omega arith) tt refl)

in_time : Unexpired 20 one_owner
unfolding began begin start
in_time = (λ e at. ground (arith, at), tt)

no_second_submission_example : ((begin "k" "buy" 20 one_owner.store).0 ≡ (in_progress, none))
unfolding began begin start
no_second_submission_example =
    no_second_submission 60 "k" "buy" "buy" 20 one_owner_reached refl in_time

abbrev ok : StoredResponse
ok = record { payload = text "ok"; status_code = 200 }

abbrev entry : Entry
entry = record { fingerprint = "buy"; created_at = 5; response = some ok }

abbrev answered_system : System
answered_system = record {
  clock = 5;
  store = record { ttl_seconds = 60; entries = assign "k" (some entry) (λ j. none) };
  owners = [];
}

-- Another key is begun in between.
other_begun : Reach Anytime answered_system (began "j" "sell" 30 answered_system)
other_begun = next here (begins "j" "sell" 30 (omega arith) tt refl)

answer_is_replayed_example :
    (begin "k" "buy" 40 (began "j" "sell" 30 answered_system).store).0 ≡ (replay, some ok)
unfolding began begin
answer_is_replayed_example =
    answer_is_replayed "k" entry ok 40 refl refl tt other_begun (omega arith) (omega arith)

abbrev taken : IdempotencyStore
taken = (began "k" "buy" 5 (start 60)).store

store_refines_slots_example :
    ((begin "k" "buy" 9 taken).0 ≡ (in_progress, none))
    × (slot (begin "k" "buy" 9 taken).1 9 "k" ≡ reserved "buy")
    × (slot (complete "k" "buy" (text "ok") 200 taken) 9 "k" ≡ answered "buy" ok)
    × (slot (abandon "k" "buy" taken) 9 "k" ≡ vacant)
unfolding began begin start
store_refines_slots_example =
    store_refines_slots taken "k" "buy" (text "ok") 200 9 "k" (omega arith)

abbrev done_code : ℕ
done_code = 10009

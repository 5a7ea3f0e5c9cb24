-- ===== src/History/Bounds.antt =====
-- The ranges that `history_deals_range` asks the terminal for (app/routes/history.py,
-- app/request_limits.py).
use mt5_gateway.Prelude.{
  ◌≡◌, ◌≢◌, refl, ◌∙◌, none, some, List, arith, ◌+◌, ◌*◌, ◌<◌, ◌≤◌, String, Option, ℤ,
}
use mathlib.Core.Path.{subst}
use mt5_gateway.Json.{Response}
use mt5_gateway.Flow.{Flow, value, reply, raised, >>=-eq-value}
use mt5_gateway.Errors.{RequestId}
use mt5_gateway.Host.{DealRow, Host, Library, Config}
use mt5_gateway.World.{World, Exec, lift, continue, serialized, ◌>>=◌}
use mt5_gateway.Positions.Endpoints.{handled}
use mt5_gateway.History.Window.{
  Calendar, Limits, Range, microseconds_a_day, not_before, given_dates, in_order, optional_int,
  validate_date_range,
}
use mt5_gateway.History.Endpoints.{
  unavailable, deals_response, bounded, range_arguments, history_deals_range,
  history_deals_range_endpoint,
}

-- Both ends have a zone or neither has, the start comes first, and the days between are not too many.
pub record Fits (limits : Limits) (r : Range) : Type 0 where
  pub alike : r.start.aware ≡ r.stop.aware
  pub ordered : r.start.micros < r.stop.micros
  pub short : r.stop.micros ≤ r.start.micros + limits.max_history_range_days * microseconds_a_day

-- A handler whose arguments are refused does nothing.
lift-refused :
    {S A : Type 0} (id : RequestId) (operation : String) (f : Flow A) (k : A → Exec S Response)
    (w : World S)
    → ((x : A) → f ≢ value x)
    → (handled id operation (lift f >>= k) w).1 ≡ w
unfolding handled ◌>>=◌
lift-refused id operation (value x) k w h = absurd (h x refl)
lift-refused id operation (reply r) k w h = refl
lift-refused id operation (raised e) k w h = refl

-- Answering an exception changes nothing.
handled-world :
    {S : Type 0} (id : RequestId) (operation : String) (m : Exec S Response) (w : World S)
    → (handled id operation m w).1 ≡ (m w).1
unfolding handled
handled-world {S = S} id operation m w = go (m w)
  where
    go : (o : Flow Response × World S) → (handled id operation (λ _. o) w).1 ≡ o.1
    go (value r, v) = refl
    go (reply r, v) = refl
    go (raised e, v) = refl

continue-quiet :
    {S A B : Type 0} (r : Flow A × World S) (f : A → Exec S B)
    → ((a : A) (v : World S) → (f a v).1 ≡ v)
    → (continue r.0 f r.1).1 ≡ r.1
continue-quiet (value a, v) f q = q a v
continue-quiet (reply x, v) f q = refl
continue-quiet (raised x, v) f q = refl

module _ {S : Type 0} (h : Host S) (lib : Library) (cfg : Config) (cal : Calendar)
    (id : RequestId) where
  bounded-Fits :
      (limits : Limits) (r : Range) {t : Unit {0}}
      → bounded h lib cfg cal id limits r ≡ value t
      → Fits limits r
  unfolding bounded validate_date_range not_before
  bounded-Fits limits r e = record {
    alike = ground (arith, e);
    ordered = ground (arith, e);
    short = ground (arith, e);
  }

  range_arguments-Fits :
      (limits : Limits) (from_date to_date magic : Option String) {r : Range} {m : Option ℤ}
      → range_arguments h lib cfg cal id limits from_date to_date magic ≡ value (r, m)
      → Fits limits r
  unfolding range_arguments
  range_arguments-Fits limits from_date to_date magic {r} {m} e =
      let (range, _, e1) = >>=-eq-value (given_dates lib cal id _ from_date to_date) _ e in
      let (_, _, e2) = >>=-eq-value (in_order lib cal id range) _ e1 in
      let (t, fits, e3) = >>=-eq-value (bounded h lib cfg cal id limits range) _ e2 in
      let (n, _, e4) = >>=-eq-value (optional_int lib cal id _ magic) _ e3 in
      let same : range ≡ r = cc in subst (Fits limits) same (bounded-Fits limits range fits)

  deals_response-quiet :
      (operation : String) (m : Option ℤ) (deals : Option (List DealRow)) (v : World S)
      → (deals_response h lib cfg cal id operation m deals v).1 ≡ v
  unfolding deals_response unavailable ◌>>=◌
  deals_response-quiet operation m none v = refl
  deals_response-quiet operation m (some ds) v = refl

  asks_between :
      (limits : Limits) (from_date to_date magic : Option String) (w : World S) (r : Range)
      (m : Option ℤ) (start stop : ℤ)
      → range_arguments h lib cfg cal id limits from_date to_date magic ≡ value (r, m)
      → cal.timestamp r.start ≡ value start
      → cal.timestamp r.stop ≡ value stop
      → (history_deals_range_endpoint h lib cfg cal id limits from_date to_date magic w).1
        ≡ (serialized h (h.history_between start stop) w).1
  unfolding history_deals_range_endpoint history_deals_range ◌>>=◌
  asks_between limits from_date to_date magic w r m start stop args e e' =
      handled-world id "history_deals_range" _ w
      ∙ rw (args, e, e')
          (continue-quiet (serialized h (h.history_between start stop) w)
            (deals_response h lib cfg cal id "Get deals history range" m)
            (deals_response-quiet "Get deals history range" m))

  -- The range that `history_deals_range` takes from its arguments has its start before its end, and is
  -- at most as long as the configured number of days; where both ends have a timestamp, the terminal
  -- is asked once, for the deals from the timestamp of the start to that of the end, and nothing else
  -- changes; where the arguments give no such range, the terminal is not called and nothing changes.
  pub history_deals_range_bounds :
      (limits : Limits) (from_date to_date magic : Option String) (w : World S)
      → ((x : Range × Option ℤ)
          → range_arguments h lib cfg cal id limits from_date to_date magic ≡ value x
          → Fits limits x.0
            × ((start stop : ℤ)
                → cal.timestamp x.0.start ≡ value start
                → cal.timestamp x.0.stop ≡ value stop
                → (history_deals_range_endpoint h lib cfg cal id limits from_date to_date magic w).1
                  ≡ (serialized h (h.history_between start stop) w).1))
        × (((x : Range × Option ℤ)
              → range_arguments h lib cfg cal id limits from_date to_date magic ≢ value x)
            → (history_deals_range_endpoint h lib cfg cal id limits from_date to_date magic w).1
              ≡ w)
  unfolding history_deals_range_endpoint history_deals_range
  history_deals_range_bounds limits from_date to_date magic w = (
    λ x e. (
      range_arguments-Fits limits from_date to_date magic e,
      λ start stop s t. asks_between limits from_date to_date magic w x.0 x.1 start stop e s t,
    ),
    λ refused. lift-refused id "history_deals_range" _ _ w refused,
  )

-- ===== src/Positions/Account.antt =====
-- What `close_all_positions` of app/lib.py accounts for.
use mt5_gateway.Prelude.{
  ◌≡◌, refl, ap, arith, ◌+◌, List, [], ◌∷◌, map, select, length, Bool, true, false, Option, none,
  some, if◌then◌else◌, All,
}
use mt5_gateway.Json.{Dict, put, text}
use mt5_gateway.Flow.{value}
use mt5_gateway.Retcodes.{classify_retcode, is_success}
use mt5_gateway.Host.{SendResult, Position, Host, Config}
use mt5_gateway.World.{World, pure, exec->>=-value}
use mt5_gateway.Positions.{
  Closing, ClosingEntry, closed_entry, failed_entry, with_entry, failure_of, close_ticket,
  closed_with, entry_of, close_each,
}

-- A position with the result of closing it.
abbrev pub Result : Type 0
Result = Position × Option SendResult

abbrev pub succeeded : Result → Bool
succeeded (p, none) = false
succeeded (p, some r) = is_success (classify_retcode r.retcode)

-- The failures among the results, in their order.
unfoldable pub failures : List Result → List Dict
failures [] = []
failures (x ∷ xs) =
    let rest = failures xs in if succeeded x then rest else failure_of x.0 x.1 ∷ rest

abbrev Reports : Bool → Result → ClosingEntry → Type 0
Reports true x e = (d : Dict) × (e ≡ closed_entry d)
Reports false x e = e ≡ failed_entry (failure_of x.0 x.1)

abbrev Accounted : List Result → Closing → Type 0
Accounted xs c =
    (c.failed ≡ failures xs)
    × (length c.closed ≡ length (select succeeded xs))
    × (length c.closed + length c.failed ≡ length xs)

with_entry-Accounted :
    (b : Bool) (x : Result) (xs : List Result) (e : ClosingEntry) (c : Closing)
    → succeeded x ≡ b
    → Reports b x e
    → Accounted xs c
    → Accounted (x ∷ xs) (with_entry e c)
unfolding with_entry failures select
with_entry-Accounted true x xs e c is (d, same) (failed, closed, all) = (
  rw (same, is) failed,
  rw (same, select, is) (omega (arith, closed)),
  rw same (omega (arith, all)),
)
with_entry-Accounted false x xs e c is same (failed, closed, all) = (
  rw (same, is) (ap (λ ds. failure_of x.0 x.1 ∷ ds) failed),
  rw (same, select, is) closed,
  rw same (omega (arith, all)),
)

module _ {S : Type 0} (h : Host S) (cfg : Config) where
  entry_of-Reports :
      (p : Position) (result : Option SendResult) (w : World S) {e : ClosingEntry} {v : World S}
      → entry_of h cfg p result w ≡ (value e, v)
      → Reports (succeeded (p, result)) (p, result) e
  unfolding entry_of closed_with
  entry_of-Reports p none w e = cc
  entry_of-Reports p (some r) w {e} {v} h0 = go (is_success (classify_retcode r.retcode)) h0
    where
      go :
          (b : Bool)
          → (if b then closed_with h cfg p r else pure (failed_entry (failure_of p (some r)))) w
            ≡ (value e, v)
          → Reports b (p, some r) e
      go true h1 =
          let (found, u, _, rest) = exec->>=-value _ _ h1 in
          (put "fill_price_source" (text found.0) found.1, cc)
      go false h1 = cc

  -- Each result is one that `close_position` gave for its position's ticket.
  abbrev pub Given : Result → Type 0
  Given x = (u : World S) × (v : World S) × (close_ticket h x.0.ticket u ≡ (value x.1, v))

  abbrev pub Accounts : List Position → Closing → Type 0
  Accounts ps c =
      (xs : List Result) × (map (λ x. x.0) xs ≡ ps)
      × All Given xs
      × (c.failed ≡ failures xs)
      × (length c.closed ≡ length (select succeeded xs))
      × (length c.closed + length c.failed ≡ length xs)

  one_more :
      (p : Position) (result : Option SendResult) (entry : ClosingEntry) (rest : Closing)
      {ps : List Position} {c : Closing}
      → Given (p, result)
      → Reports (succeeded (p, result)) (p, result) entry
      → with_entry entry rest ≡ c
      → Accounts ps rest
      → Accounts (p ∷ ps) c
  one_more p result entry rest given reports whole (xs, same, all_given, failed, closed, all) =
      let x : Result = (p, result) in
      let (failed', closed', all') =
        with_entry-Accounted _ x xs entry rest refl reports (failed, closed, all) in
      (
        x ∷ xs,
        ap (λ qs. p ∷ qs) same,
        (given, all_given),
        rw⁻¹ whole failed',
        rw⁻¹ whole closed',
        rw⁻¹ whole all',
      )

  -- Where the loop over the selected positions ends, there is a result for every one of them, in
  -- their order, that closing its ticket gave; the failures are reported exactly for the results that
  -- are missing or rejected, in their order, and there are as many closed entries as successes, so
  -- that every position is counted once.
  pub close_each-Accounts :
      (ps : List Position) (w : World S) {c : Closing} {v : World S}
      → close_each h cfg ps w ≡ (value c, v)
      → Accounts ps c
  unfolding close_each failures select
  close_each-Accounts [] w {c} e =
      let empty : c ≡ record { closed = []; failed = [] } = cc in
      ([], refl, tt, rw empty refl, rw empty refl, rw empty refl)
  close_each-Accounts (p ∷ ps) w {c} e =
      let (result, u1, e0, e1) = exec->>=-value (close_ticket h p.ticket) _ e in
      let (entry, _, told, e2) = exec->>=-value (entry_of h cfg p result) _ e1 in
      let (rest, _, e3, e4) = exec->>=-value (close_each h cfg ps) _ e2 in
      let whole : with_entry entry rest ≡ c = cc in
      one_more p result entry rest {ps = ps} (w, u1, e0) (entry_of-Reports p result _ told) whole
        (close_each-Accounts ps _ e3)

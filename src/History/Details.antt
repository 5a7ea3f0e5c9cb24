-- ===== src/History/Details.antt =====
-- `get_deal_from_ticket` of app/lib.py: the deals of a position in the order of their times, and the
-- one that opened and the one that closed it.
use mt5_gateway.Prelude.{
  ℕ, ◌+◌, Bool, Option, none, some, List, [], ◌∷◌, leb, ltb, ◌==◌, ◌&&◌, ◌||◌, if◌then◌else◌, ℤ,
  pos, ◌+ℤ◌, select,
}
use mt5_gateway.Host.{DealRow}

abbrev pub deal_entry_in : ℕ
deal_entry_in = 0

-- DEAL_ENTRY_OUT, DEAL_ENTRY_INOUT and DEAL_ENTRY_OUT_BY
unfoldable pub is_exit : DealRow → Bool
is_exit d = (d.entry == 1) || (d.entry == 2) || (d.entry == 3)

unfoldable pub is_entry : DealRow → Bool
is_entry d = d.entry == deal_entry_in

-- Whether the key (time, time_msc) of `a` is at most that of `b`.
unfoldable pub earlier : DealRow → DealRow → Bool
earlier a b = ltb a.time b.time || ((a.time == b.time) && leb a.time_msc b.time_msc)

-- `sorted`, which keeps the order of equal keys.
unfoldable pub put_in_order : DealRow → List DealRow → List DealRow
put_in_order d [] = d ∷ []
put_in_order d (x ∷ xs) =
    let rest = put_in_order d xs in if earlier d x then d ∷ x ∷ xs else x ∷ rest

unfoldable pub sorted : List DealRow → List DealRow
sorted [] = []
sorted (d ∷ ds) = put_in_order d (sorted ds)

abbrev pub first : List DealRow → Option DealRow
first [] = none
first (d ∷ ds) = some d

unfoldable pub last : List DealRow → Option DealRow
last [] = none
last (d ∷ ds) = let rest = last ds in elim ds [ [] ↦ some d | x ∷ xs ↦ rest ]

abbrev pub first_of : List DealRow → List DealRow → Option DealRow
first_of (d ∷ ds) rows = some d
first_of [] rows = first rows

-- `entries[0] if entries else deal_rows[0]` and `exits[-1] if exits else None`
unfoldable pub opening_deal : List DealRow → Option DealRow
opening_deal deals = first_of (select is_entry (sorted deals)) (sorted deals)

unfoldable pub closing_deal_of : List DealRow → Option DealRow
closing_deal_of deals = last (select is_exit (sorted deals))

unfoldable pub total_volume : List DealRow → ℕ
total_volume [] = 0
total_volume (d ∷ ds) = d.volume + total_volume ds

unfoldable pub total_of : (DealRow → ℤ) → List DealRow → ℤ
total_of f [] = pos 0
total_of f (d ∷ ds) = f d +ℤ total_of f ds

-- `sum(… for deal in entries) if entries else opening_deal["volume"]`
abbrev pub volume_of : List DealRow → DealRow → ℕ
volume_of [] opening = opening.volume
volume_of (e ∷ es) opening = total_volume (e ∷ es)

-- ===== src/History/Ends.antt =====
-- Which deals `get_deal_from_ticket` of app/lib.py takes for the opening and the closing one.
use mt5_gateway.Prelude.{
  ◌≡◌, ◌≢◌, ◌⊎◌, arith, ◌↔◌, refl, ap, ◌∙◌, inl, inr, Bool, true, false, none, some, List, [], ◌∷◌,
  All, Bool-cases, select,
}
use mathlib.Core.Path.{subst}
use mt5_gateway.Host.{DealRow}
use mt5_gateway.History.Details.{
  is_exit, is_entry, earlier, sorted, put_in_order, first, last, first_of, opening_deal,
  closing_deal_of,
}
use mt5_gateway.History.Sorting.{
  earlier_refl, From, IsSorted, sorted-IsSorted, sorted-All, All-sorted, In, All-map, at_In,
  In-sorted,
}

module _ (p : DealRow → Bool) where
  -- `o` is a member that passes, with the least key among those that pass.
  abbrev pub IsFirst : DealRow → List DealRow → Type 0
  IsFirst o ds = In o ds × (p o ≡ true) × All (λ d. p d ≡ true → earlier o d ≡ true) ds

  -- `c` is a member that passes, with the greatest key among those that pass.
  abbrev pub IsLast : DealRow → List DealRow → Type 0
  IsLast c ds = In c ds × (p c ≡ true) × All (λ d. p d ≡ true → earlier d c ≡ true) ds

  abbrev pub HasNone : List DealRow → Type 0
  HasNone = All (λ d. p d ≡ false)

  select-none : (xs : List DealRow) → first (select p xs) ≡ none → HasNone xs
  unfolding select
  select-none [] e = tt
  select-none (x ∷ xs) e = elim (Bool-cases (p x)) [
    | inl t ↦ let e' : some x ≡ none = rw (t, select) at e in cc
    | inr t ↦ (t, select-none xs (rw (t, select) at e))
  ]

  first-select :
      (xs : List DealRow) (o : DealRow) → IsSorted xs → first (select p xs) ≡ some o → IsFirst o xs
  unfolding select
  first-select [] o h e = cc
  first-select (x ∷ xs) o (f, h) e = elim (Bool-cases (p x)) [
    | inl t ↦
        let e' : some x ≡ some o = rw (t, select) at e in
        subst (λ z. IsFirst z (x ∷ xs)) (cc)
          (inl refl, t, ((λ _. earlier_refl x), All-map _ _ xs (λ d q _. q) f))
    | inr t ↦
        let (i, q, least) = first-select xs o h (rw (t, select) at e) in
        (inr i, q, ((λ u. cc), least))
  ]

  select-empty : (xs : List DealRow) → select p xs ≡ [] → HasNone xs
  select-empty xs e = select-none xs (ap first e)

  last_step :
      (x : DealRow) (xs : List DealRow) (c : DealRow)
      → From x xs
      → (last (select p xs) ≡ some c → IsLast c xs)
      → last (select p (x ∷ xs)) ≡ some c
      → IsLast c (x ∷ xs)
  unfolding select last
  last_step x xs c f ih e = elim (Bool-cases (p x)) [
    | inl t ↦ kept (select p xs) refl (rw (t, select, last) at e) t
    | inr t ↦ let (i, q, most) = ih (rw (t, select) at e) in (inr i, q, ((λ u. cc), most))
  ]
    where
      kept :
          (r : List DealRow)
          → select p xs ≡ r
          → last (x ∷ r) ≡ some c
          → p x ≡ true
          → IsLast c (x ∷ xs)
      kept [] r k t =
          subst (λ z. IsLast z (x ∷ xs)) (cc)
            (
              inl refl,
              t,
              (
                (λ _. earlier_refl x),
                All-map (λ d. p d ≡ false) _ xs (λ d n q. cc) (select-empty xs r),
              ),
            )
      kept (y ∷ ys) r k t =
          let (i, q, most) = ih (rw r k) in
          (inr i, q, ((λ _. at_In (λ d. earlier x d ≡ true) c xs i f), most))

  last-select :
      (xs : List DealRow) (c : DealRow) → IsSorted xs → last (select p xs) ≡ some c → IsLast c xs
  unfolding select last
  last-select [] c h e = cc
  last-select (x ∷ xs) c (f, h) e = last_step x xs c f (last-select xs c h) e

  HasNone-select : (xs : List DealRow) → HasNone xs → select p xs ≡ []
  unfolding select
  HasNone-select [] h = refl
  HasNone-select (x ∷ xs) (n, h) = rw (n, select) (HasNone-select xs h)

  last-none : (xs : List DealRow) → last xs ≡ none → xs ≡ []
  unfolding last
  last-none [] e = refl
  last-none (x ∷ []) e = cc
  last-none (x ∷ y ∷ ys) e = let n : y ∷ ys ≡ [] = last-none (y ∷ ys) e in cc

  sorted-IsFirst : (o : DealRow) (ds : List DealRow) → IsFirst o (sorted ds) → IsFirst o ds
  sorted-IsFirst o ds (i, q, least) = (In-sorted o ds i, q, All-sorted _ ds least)

  sorted-IsLast : (c : DealRow) (ds : List DealRow) → IsLast c (sorted ds) → IsLast c ds
  sorted-IsLast c ds (i, q, most) = (In-sorted c ds i, q, All-sorted _ ds most)

first-IsFirst :
    (xs : List DealRow) (o : DealRow) → IsSorted xs → first xs ≡ some o → IsFirst (λ d. true) o xs
first-IsFirst [] o h e = cc
first-IsFirst (x ∷ xs) o (f, h) e =
    subst (λ z. IsFirst (λ d. true) z (x ∷ xs)) (cc)
      (inl refl, refl, ((λ _. earlier_refl x), All-map _ _ xs (λ d q _. q) f))

opening_of :
    (ds : List DealRow) (o : DealRow) (r : List DealRow)
    → select is_entry (sorted ds) ≡ r
    → first_of r (sorted ds) ≡ some o
    → IsFirst is_entry o ds ⊎ (HasNone is_entry ds × IsFirst (λ d. true) o ds)
opening_of ds o [] r e = inr (
  All-sorted _ ds (select-empty is_entry (sorted ds) r),
  sorted-IsFirst (λ d. true) o ds (first-IsFirst (sorted ds) o (sorted-IsSorted ds) e),
)
opening_of ds o (x ∷ xs) r e = inl (
    sorted-IsFirst is_entry o ds
      (first-select is_entry (sorted ds) o (sorted-IsSorted ds) (ap first r ∙ e)))

put_in_order-first : (d : DealRow) (xs : List DealRow) → first (put_in_order d xs) ≢ none
unfolding put_in_order
put_in_order-first d [] e = cc
put_in_order-first d (x ∷ xs) e = ground (arith, e)

first_of-none : (r rows : List DealRow) → first_of r rows ≡ none → first rows ≡ none
first_of-none [] rows e = e
first_of-none (x ∷ xs) rows e = cc

sorted-nonempty : (ds : List DealRow) → first (sorted ds) ≡ none → ds ≡ []
unfolding sorted
sorted-nonempty [] e = refl
sorted-nonempty (d ∷ ds) e = absurd (put_in_order-first d (sorted ds) e)

no_deals : (ds : List DealRow) → ds ≡ [] → opening_deal ds ≡ none
unfolding opening_deal sorted select
no_deals [] e = refl
no_deals (d ∷ ds) e = cc

-- The deal taken for the opening one is, whatever the order in which the terminal lists the deals, a
-- deal of the list: an entry with the least (time, time_msc) among the entries, or, where there is no
-- entry, one with the least among all; and there is none exactly where the list is empty. The deal
-- taken for the closing one is an exit of the list with the greatest such key among the exits; and
-- there is none exactly where the list has no exit.
pub deal_ends :
    (ds : List DealRow)
    → ((o : DealRow)
        → opening_deal ds ≡ some o
        → IsFirst is_entry o ds ⊎ (HasNone is_entry ds × IsFirst (λ d. true) o ds))
      × ((opening_deal ds ≡ none) ↔ (ds ≡ []))
      × ((c : DealRow) → closing_deal_of ds ≡ some c → IsLast is_exit c ds)
      × ((closing_deal_of ds ≡ none) ↔ HasNone is_exit ds)
unfolding opening_deal closing_deal_of last
deal_ends ds = (
  λ o e. opening_of ds o (select is_entry (sorted ds)) refl e,
  (λ e. sorted-nonempty ds (first_of-none _ (sorted ds) e), no_deals ds),
  λ c e. sorted-IsLast is_exit c ds (last-select is_exit (sorted ds) c (sorted-IsSorted ds) e),
  (
    λ e. All-sorted _ ds (select-empty is_exit (sorted ds) (last-none is_exit _ e)),
    λ h. rw (HasNone-select is_exit (sorted ds) (sorted-All _ ds h)) refl,
  ),
)

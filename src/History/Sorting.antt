-- ===== src/History/Sorting.antt =====
-- The order in which `get_deal_from_ticket` of app/lib.py looks at the deals.
use mt5_gateway.Prelude.{
  ◌≡◌, ◌⊎◌, refl, arith, inl, inr, true, false, List, [], ◌∷◌, All, Bool-cases,
}
use mt5_gateway.Host.{DealRow}
use mt5_gateway.History.Details.{earlier, put_in_order, sorted}

earlier_trans : (a b c : DealRow) → earlier a b ≡ true → earlier b c ≡ true → earlier a c ≡ true
unfolding earlier
earlier_trans a b c p q = ground (arith, p, q)

earlier_total : (a b : DealRow) → earlier a b ≡ false → earlier b a ≡ true
unfolding earlier
earlier_total a b p = ground (arith, p)

pub earlier_refl : (a : DealRow) → earlier a a ≡ true
unfolding earlier
earlier_refl a = ground arith

abbrev pub From : DealRow → List DealRow → Type 0
From d = All (λ x. earlier d x ≡ true)

-- Each deal is followed by later ones, or by some of the same time.
abbrev pub IsSorted : List DealRow → Type 0
IsSorted [] = Unit
IsSorted (d ∷ ds) = From d ds × IsSorted ds

From-trans : (a b : DealRow) (ds : List DealRow) → earlier a b ≡ true → From b ds → From a ds
From-trans a b [] p h = tt
From-trans a b (x ∷ xs) p (q, h) = (earlier_trans a b x p q, From-trans a b xs p h)

module _ (P : DealRow → Type 0) where
  put_in_order-All : (d : DealRow) (xs : List DealRow) → P d → All P xs → All P (put_in_order d xs)
  unfolding put_in_order
  put_in_order-All d [] p h = (p, tt)
  put_in_order-All d (x ∷ xs) p (q, h) = elim (Bool-cases (earlier d x)) [
    | inl e ↦ rw e (p, (q, h))
    | inr e ↦ rw e (q, put_in_order-All d xs p h)
  ]

  pub sorted-All : (ds : List DealRow) → All P ds → All P (sorted ds)
  unfolding sorted
  sorted-All [] h = tt
  sorted-All (d ∷ ds) (p, h) = put_in_order-All d (sorted ds) p (sorted-All ds h)

  All-put_in_order : (d : DealRow) (xs : List DealRow) → All P (put_in_order d xs) → P d × All P xs
  unfolding put_in_order
  All-put_in_order d [] (p, h) = (p, tt)
  All-put_in_order d (x ∷ xs) h = elim (Bool-cases (earlier d x)) [
    | inl e ↦ let (p, (q, r)) = (let h' : All P (d ∷ x ∷ xs) = rw e at h in h') in (p, (q, r))
    | inr e ↦
        let h' : All P (x ∷ put_in_order d xs) = rw e at h in
        let (p, r) = All-put_in_order d xs h'.1 in (p, (h'.0, r))
  ]

  pub All-sorted : (ds : List DealRow) → All P (sorted ds) → All P ds
  unfolding sorted
  All-sorted [] h = tt
  All-sorted (d ∷ ds) h = let (p, r) = All-put_in_order d (sorted ds) h in (p, All-sorted ds r)

put_in_order-IsSorted :
    (d : DealRow) (xs : List DealRow) → IsSorted xs → IsSorted (put_in_order d xs)
unfolding put_in_order
put_in_order-IsSorted d [] h = (tt, tt)
put_in_order-IsSorted d (x ∷ xs) (f, h) = elim (Bool-cases (earlier d x)) [
  | inl e ↦ rw e ((e, From-trans d x xs e f), (f, h))
  | inr e ↦ rw e (
    put_in_order-All (λ y. earlier x y ≡ true) d xs (earlier_total d x e) f,
    put_in_order-IsSorted d xs h,
  )
]

pub sorted-IsSorted : (ds : List DealRow) → IsSorted (sorted ds)
unfolding sorted
sorted-IsSorted [] = tt
sorted-IsSorted (d ∷ ds) = put_in_order-IsSorted d (sorted ds) (sorted-IsSorted ds)

abbrev pub In : DealRow → List DealRow → Type 0
In d [] = ⊥
In d (x ∷ xs) = (d ≡ x) ⊎ In d xs

pub All-map :
    (P Q : DealRow → Type 0) (ds : List DealRow) → ((d : DealRow) → P d → Q d) → All P ds → All Q ds
All-map P Q [] f h = tt
All-map P Q (d ∷ ds) f (p, h) = (f d p, All-map P Q ds f h)

All-In : (ds : List DealRow) → All (λ d. In d ds) ds
All-In [] = tt
All-In (d ∷ ds) =
    (inl refl, All-map (λ x. In x ds) (λ x. In x (d ∷ ds)) ds (λ x i. inr i) (All-In ds))

pub at_In : (P : DealRow → Type 0) (d : DealRow) (ds : List DealRow) → In d ds → All P ds → P d
at_In P d [] i h = elim i [ ]
at_In P d (x ∷ xs) (inl e) (p, h) = rw e p
at_In P d (x ∷ xs) (inr i) (p, h) = at_In P d xs i h

pub In-sorted : (d : DealRow) (ds : List DealRow) → In d (sorted ds) → In d ds
In-sorted d ds i = at_In (λ x. In x ds) d (sorted ds) i (sorted-All (λ x. In x ds) ds (All-In ds))

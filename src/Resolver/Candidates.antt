-- ===== src/Resolver/Candidates.antt =====
-- The candidates that a boot tries (`connect_candidates` of app/broker_resolver.py).
use mt5_gateway.Prelude.{
  ◌≡◌, refl, sym, ◌∙◌, ap, inl, inr, arith, String, Bool, true, false, List, [], ◌∷◌, ◌++◌, any,
  not, str_eq, eq_iff, eq_refl, ◌&&◌, ◌||◌, Bool-cases, All, All-append,
}
use mt5_gateway.Flow.{Flow, value, reply, raised}
use mt5_gateway.Host.{Call}
use mt5_gateway.Resolver.{
  Texts, Env, BrokerTable, falsy, folded, table_access, add_item, add, resolver_urls,
  query_resolver, add_resolved, with_name, connect_candidates,
}

-- No entry stands in the list twice.
abbrev pub Distinct : List String → Type 0
Distinct [] = Unit
Distinct (x ∷ xs) = (any (str_eq x) xs ≡ false) × Distinct xs

abbrev pub Filled : List String → Type 0
Filled xs = All (λ x. str_eq x "" ≡ false) xs

-- The second list goes on where the first one ends.
abbrev pub Extends : List String → List String → Type 0
Extends xs ys = (more : List String) × (ys ≡ xs ++ more)

-- Distinct and not blank, and it goes on from `xs`.
abbrev pub Clean : List String → List String → Type 0
Clean xs ys = Distinct ys × Filled ys × Extends xs ys

any-append : (p : String → Bool) (xs ys : List String) → any p (xs ++ ys) ≡ (any p xs || any p ys)
any-append p [] ys = refl
any-append p (x ∷ xs) ys = rw (any-append p xs ys) (ground arith)

append_assoc : (xs ys zs : List String) → (xs ++ ys) ++ zs ≡ xs ++ (ys ++ zs)
append_assoc [] ys zs = refl
append_assoc (x ∷ xs) ys zs = ap (λ l. x ∷ l) (append_assoc xs ys zs)

append-nil : (xs : List String) → xs ≡ xs ++ []
append-nil [] = refl
append-nil (x ∷ xs) = ap (λ l. x ∷ l) (append-nil xs)

str_eq_flip : (a b : String) → str_eq a b ≡ false → str_eq b a ≡ false
str_eq_flip a b h = elim (Bool-cases (str_eq b a)) [
  | inl e ↦ let back : str_eq a b ≡ true = (eq_iff a b).1 (sym ((eq_iff b a).0 e)) in cc
  | inr e ↦ e
]

Distinct-append :
    (xs : List String) (x : String)
    → Distinct xs
    → any (str_eq x) xs ≡ false
    → Distinct (xs ++ x ∷ [])
Distinct-append [] x d n = (refl, tt)
Distinct-append (y ∷ ys) x (fresh, d) n =
    let apart : str_eq x y ≡ false = ground (arith, n) in
    let later : any (str_eq x) ys ≡ false = ground (arith, n) in
    (
      rw (any-append (str_eq y) ys (x ∷ []), fresh, str_eq_flip x y apart) refl,
      Distinct-append ys x d later,
    )

module _ (t : Texts) where
  add_item-Clean :
      (start : List String) (item : String) (out : List String)
      → Clean start out
      → Clean start (add_item t item out)
  unfolding add_item
  add_item-Clean start item out (d, f, (more, e)) =
      let longer : out ++ t.strip item ∷ [] ≡ start ++ (more ++ t.strip item ∷ []) =
        ap (λ l. l ++ t.strip item ∷ []) e ∙ append_assoc start more _ in
      elim (Bool-cases (not (str_eq (t.strip item) "") && not (any (str_eq (t.strip item)) out))) [
        | inl new ↦ rw new (
          Distinct-append out _ d (ground (arith, new)),
          All-append _ out _ f (ground (arith, new), tt),
          (more ++ t.strip item ∷ [], longer),
        )
        | inr old ↦ rw old (d, f, (more, e))
      ]

  add-Clean : (start items out : List String) → Clean start out → Clean start (add t items out)
  unfolding add
  add-Clean start [] out c = c
  add-Clean start (i ∷ is) out c = add-Clean start is _ (add_item-Clean start i out c)

  -- The name itself is among the candidates once it was added.
  add_item-holds :
      (name : String) (out : List String)
      → t.strip name ≡ name
      → str_eq name "" ≡ false
      → any (str_eq name) (add_item t name out) ≡ true
  unfolding add_item
  add_item-holds name out stripped filled = elim (Bool-cases (any (str_eq name) out)) [
    | inl there ↦ rw (stripped, filled, there) there
    | inr new ↦
        rw (stripped, filled, new, any-append (str_eq name) out (name ∷ []), new, eq_refl name) refl
  ]

  -- What the steps after the table make of what the table gave.
  abbrev Goal : List String → String → List String → Type 0
  Goal known name out =
      Distinct out × Filled out × Extends known out × (any (str_eq name) out ≡ true)

  module _ {S : Type 0} (fetch : String → Call S String) where
    with_name-Goal :
        (known : List String) (name : String) (found : Flow (List String)) (s : S)
        {out : List String} {s' : S}
        → t.strip name ≡ name
        → str_eq name "" ≡ false
        → ((f : List String) → found ≡ value f → Clean known f)
        → with_name t fetch name (found, s) ≡ (value out, s')
        → Goal known name out
    unfolding with_name add
    with_name-Goal known name (value f) s {out} stripped filled clean e =
        let whole : add_item t name f ≡ out = cc in
        let (distinct, full, longer) = add_item-Clean known name f (clean f refl) in
        rw⁻¹ whole (distinct, full, longer, add_item-holds name f stripped filled)
    with_name-Goal known name (reply r) s stripped filled clean e = cc
    with_name-Goal known name (raised x) s stripped filled clean e = cc

    add_resolved-Clean :
        (known : List String) (name : String) (urls out : List String) (s : S) {f : List String}
        → Clean known out
        → (add_resolved t fetch name urls out s).0 ≡ value f
        → Clean known f
    unfolding add_resolved
    add_resolved-Clean known name [] out s {f} c e = let same : out ≡ f = cc in rw⁻¹ same c
    add_resolved-Clean known name (base ∷ urls) out s {f} c e =
        go (λ found s' e1. add_resolved-Clean known name urls _ s' (add-Clean known found out c) e1)
          (query_resolver t fetch base name s) refl e
      where
        go :
            ((found : List String) (s' : S)
              → (add_resolved t fetch name urls (add t found out) s').0 ≡ value f
              → Clean known f)
            → (q : Flow (List String) × S) → query_resolver t fetch base name s ≡ q
            → (add_resolved t fetch name (base ∷ urls) out s).0 ≡ value f
            → Clean known f
        go again (value found, s') is e1 =
            again found (query_resolver t fetch base name s).1 (rw (add_resolved, is) at e1)
        go again (reply r, s') is e1 =
            let e2 : reply r ≡ value f = rw (add_resolved, is) at e1 in cc
        go again (raised x, s') is e1 =
            let e2 : raised x ≡ value f = rw (add_resolved, is) at e1 in cc

    -- Where no address is set and the name is not blank, the candidates that are found, if no
    -- answer is malformed, are distinct and not blank, those of the baked table come first and in
    -- its order, and the server's name is among them; `strip` is taken to leave alone what it made.
    connect_candidates_sound :
        (env : Env) (table : BrokerTable) (s : S) {out : List String} {s' : S}
        → ((x : String) → t.strip (t.strip x) ≡ t.strip x)
        → t.strip env.server_addr ≡ ""
        → str_eq (t.strip env.server) "" ≡ false
        → connect_candidates t fetch env table s ≡ (value out, s')
        → Distinct out
          × Filled out
          × Extends (add t (table_access t (t.strip env.server) table) []) out
          × (any (str_eq (t.strip env.server)) out ≡ true)
    unfolding connect_candidates
    connect_candidates_sound env table s {out} {s'} twice no_addr named e =
        let name = t.strip env.server in
        let known = add t (table_access t name table) [] in
        let (d, f, _) = add-Clean [] (table_access t name table) [] (tt, tt, ([], refl)) in
        let base : Clean known known = (d, f, ([], append-nil known)) in
        let e1 = rw (no_addr, named) at e in
        let (distinct, filled, longer, holds) =
          elim (Bool-cases (any (str_eq (folded t env.autoresolve)) falsy))
            as (λ x. Goal known name out) [
              | inl off ↦
                  with_name-Goal known name (value known) s (twice env.server) named
                    (λ g is. let same : known ≡ g = cc in rw⁻¹ same base) (rw off at e1)
              | inr on ↦
                  with_name-Goal known name
                    (add_resolved t fetch name (resolver_urls t env) known s).0
                    (add_resolved t fetch name (resolver_urls t env) known s).1 (twice env.server)
                    named
                    (λ g is. add_resolved-Clean known name (resolver_urls t env) known s base is)
                    (rw on at e1)
            ] in
        (distinct, filled, longer, holds)

-- ===== src/Login/Kept.antt =====
-- What `persist_algo_trading` of app/autologin.py does to the terminal's settings file: the switches
-- of the section [Experts] are set anew, and every other line stays, in its order.
use mt5_gateway.Prelude.{
  ◌≡◌, refl, ap, sym, ◌∙◌, arith, String, Bool, true, false, List, [], ◌∷◌, ◌++◌, All, not, ◌&&◌,
  if◌then◌else◌, Bool-cases, inl, inr, any, str_eq,
}
use mt5_gateway.Access.{starts_with}
use mathlib.Core.List.{append-nil}
use mt5_gateway.Prelude.Texts.{prefix_of}
use mt5_gateway.Login.Terminal.{
  settings, is_heading, is_experts, is_wanted, before_equals, scan, persist_algo_trading,
}

-- What a line is, given whether it stands in the section.
pub data Kind : Type 0 where
  heading outside setting other : Kind

abbrev pub same : Kind → Kind → Bool
same heading heading = true
same outside outside = true
same setting setting = true
same other other = true
same _ _ = false

-- The three switches: trading by programs allowed or not, and no account of their own.
abbrev pub switches : Bool → List String
switches true = "AllowLiveTrading=1" ∷ "Enabled=1" ∷ "Account=0" ∷ []
switches false = "AllowLiveTrading=0" ∷ "Enabled=0" ∷ "Account=0" ∷ []

settings-switches : (enabled : Bool) → settings enabled ≡ switches enabled
unfolding settings
settings-switches true = refl
settings-switches false = refl

module _ (strip lower : String → String) where
  -- A heading, the heading of the section, and a line that sets one of the three switches.
  unfoldable pub opens : String → Bool
  opens stripped = starts_with stripped "["

  unfoldable pub opens_experts : String → Bool
  opens_experts stripped = str_eq (lower stripped) "[experts]"

  unfoldable pub sets_switch : String → Bool
  sets_switch stripped =
      any (str_eq (before_equals stripped)) ("AllowLiveTrading" ∷ "Enabled" ∷ "Account" ∷ [])

  -- Whether the section goes on behind a line: a heading opens it or ends it.
  abbrev pub section : Bool → String → Bool
  section before stripped = if opens stripped then opens_experts stripped else before

  abbrev pub kind_of : Bool → String → Kind
  kind_of now stripped =
      if opens stripped && now
      then heading
      else if not now
      then outside
      else if sets_switch stripped
      then setting
      else other

  -- The lines of a kind, in their order.
  unfoldable pub of_kind : Kind → Bool → List String → List String
  of_kind k before [] = []
  of_kind k before (l ∷ ls) =
      let now = section before (strip l) in
      let rest = of_kind k now ls in if same k (kind_of now (strip l)) then l ∷ rest else rest

  is_heading-opens : (x : String) → is_heading strip lower x ≡ opens x
  unfolding is_heading opens
  is_heading-opens x = refl

  is_experts-opens_experts : (x : String) → is_experts strip lower x ≡ opens_experts x
  unfolding is_experts opens_experts
  is_experts-opens_experts x = refl

  is_wanted-sets_switch : (x : String) → is_wanted strip lower x ≡ sets_switch x
  unfolding is_wanted sets_switch
  is_wanted-sets_switch x = refl

  scan-of_kind :
      (before : Bool) (ls : List String)
      → scan strip lower before ls ≡ (of_kind outside before ls, of_kind other before ls)
  unfolding scan of_kind
  scan-of_kind before [] = refl
  scan-of_kind before (l ∷ ls) =
      let later = scan-of_kind (section before (strip l)) ls in
      rw
        (
          scan,
          is_heading-opens (strip l),
          is_experts-opens_experts (strip l),
          is_wanted-sets_switch (strip l),
        )
        (ground (arith, later))

  -- A line that is `outside` after the section's lines are left is so from the start of a file.
  abbrev Lies : Kind → Bool → String → Type 0
  Lies k before l =
      (section before (strip l) ≡ before) × (kind_of (section before (strip l)) (strip l) ≡ k)

  Lies-outside :
      (before : Bool) (l : String)
      → kind_of (section before (strip l)) (strip l) ≡ outside
      → Lies outside false l
  Lies-outside before l e = ground (arith, e)

  Lies-other :
      (before : Bool) (l : String)
      → kind_of (section before (strip l)) (strip l) ≡ other
      → Lies other true l
  Lies-other before l e = ground (arith, e)

  eq_of_same : (k j : Kind) → same k j ≡ true → j ≡ k
  eq_of_same heading heading e = refl
  eq_of_same outside outside e = refl
  eq_of_same setting setting e = refl
  eq_of_same other other e = refl
  eq_of_same heading outside e = cc
  eq_of_same heading setting e = cc
  eq_of_same heading other e = cc
  eq_of_same outside heading e = cc
  eq_of_same outside setting e = cc
  eq_of_same outside other e = cc
  eq_of_same setting heading e = cc
  eq_of_same setting outside e = cc
  eq_of_same setting other e = cc
  eq_of_same other heading e = cc
  eq_of_same other outside e = cc
  eq_of_same other setting e = cc

  -- The lines of a kind pass a test that each line of that kind passes.
  All-of_kind :
      (k : Kind) (P : String → Type 0)
      → ((before : Bool) (l : String) → kind_of (section before (strip l)) (strip l) ≡ k → P l)
      → (before : Bool) (ls : List String) → All P (of_kind k before ls)
  unfolding of_kind
  All-of_kind k P each before [] = tt
  All-of_kind k P each before (l ∷ ls) =
      let now = section before (strip l) in
      let rest = All-of_kind k P each now ls in
      elim (Bool-cases (same k (kind_of now (strip l)))) [
        | inl e ↦ rw e (each before l (eq_of_same k _ e), rest)
        | inr e ↦ rw e rest
      ]

  -- Lines that lie alike in front of others.
  of_kind-append :
      (j k : Kind) (before : Bool) (xs ys : List String)
      → All (Lies k before) xs
      → of_kind j before (xs ++ ys) ≡ (if same j k then xs else []) ++ of_kind j before ys
  unfolding of_kind
  of_kind-append j k before [] ys h = ground arith
  of_kind-append j k before (x ∷ xs) ys ((stays, is_kind), is_k) =
      ground (arith, of_kind-append j k before xs ys is_k, stays, is_kind)

  -- `strip` and `lower` leave the lines that the program writes as they are.
  pub record Plain : Type 0 where
    pub experts_stripped : strip "[Experts]" ≡ "[Experts]"
    pub experts_lowered : lower "[Experts]" ≡ "[experts]"
    pub settings_stripped : (enabled : Bool) → All (λ l. strip l ≡ l) (settings enabled)

  module _ (plain : Plain) where
    settings-Lies : (enabled : Bool) → All (Lies setting true) (settings enabled)
    unfolding settings opens sets_switch before_equals prefix_of
    settings-Lies true =
        let (a, (b, (c, _))) = plain.settings_stripped true in
        ((rw a refl, rw a refl), ((rw b refl, rw b refl), ((rw c refl, rw c refl), tt)))
    settings-Lies false =
        let (a, (b, (c, _))) = plain.settings_stripped false in
        ((rw a refl, rw a refl), ((rw b refl, rw b refl), ((rw c refl, rw c refl), tt)))

    heading-section : section false (strip "[Experts]") ≡ true
    unfolding opens opens_experts prefix_of
    heading-section = rw (plain.experts_stripped, plain.experts_lowered) refl

    heading-opens : opens (strip "[Experts]") ≡ true
    unfolding opens prefix_of
    heading-opens = rw plain.experts_stripped refl

    -- Behind the heading.
    of_kind-heading :
        (j : Kind) (ls : List String)
        → same j heading ≡ false
        → of_kind j false ("[Experts]" ∷ ls) ≡ of_kind j true ls
    unfolding of_kind
    of_kind-heading j ls e = rw (heading-section, heading-opens, e) refl

    of_kind-other :
        (j : Kind) (before : Bool) (ls : List String)
        → of_kind j true (of_kind other before ls)
          ≡ (if same j other then of_kind other before ls else [])
    unfolding of_kind
    of_kind-other j before ls =
        let xs : List String = of_kind other before ls in
        ap (of_kind j true) (sym (append-nil xs))
        ∙ of_kind-append j other true xs []
            (All-of_kind other (Lies other true) Lies-other before ls)
        ∙ append-nil (if same j other then xs else [])

    of_kind-persist :
        (j : Kind) (enabled : Bool) (ls : List String)
        → same j heading ≡ false
        → of_kind j false (persist_algo_trading strip lower enabled ls)
          ≡ (if same j outside then of_kind outside false ls else [])
            ++ ((if same j setting then settings enabled else [])
                ++ (if same j other then of_kind other false ls else []))
    unfolding persist_algo_trading
    of_kind-persist j enabled ls e = rw (scan-of_kind false ls) (
        rw
          (of_kind-append j outside false (of_kind outside false ls) _
            (All-of_kind outside (Lies outside false) Lies-outside false ls))
          (rw (of_kind-heading j _ e) (
            rw (of_kind-append j setting true (settings enabled) _ (settings-Lies enabled))
              (rw (of_kind-other j false ls) refl))))

    -- The result depends on the lines outside and on the other lines of the section only.
    rebuilt :
        (enabled : Bool) (ls ms : List String)
        → of_kind outside false ls ≡ of_kind outside false ms
        → of_kind other false ls ≡ of_kind other false ms
        → persist_algo_trading strip lower enabled ls ≡ persist_algo_trading strip lower enabled ms
    unfolding persist_algo_trading
    rebuilt enabled ls ms e f = rw (scan-of_kind false ls, scan-of_kind false ms, e, f) refl

    -- Where `strip` and `lower` leave the program's own lines as they are: afterwards the lines of the
    -- section [Experts] that set AllowLiveTrading, Enabled or Account are exactly three, which set the
    -- first two to 1 or 0 as wanted and the third to 0; the lines outside the section, other headings
    -- included, and the section's other lines are those from before, in their order; and doing it
    -- again gives the same lines as doing it once.
    pub persist_algo_trading_settles :
        (enabled before : Bool) (ls : List String)
        → let out = persist_algo_trading strip lower enabled ls in
          (of_kind setting false out ≡ switches enabled)
          × (of_kind outside false out ≡ of_kind outside false ls)
          × (of_kind other false out ≡ of_kind other false ls)
          × (persist_algo_trading strip lower enabled (persist_algo_trading strip lower before ls)
              ≡ out)
    persist_algo_trading_settles enabled before ls = (
      of_kind-persist setting enabled ls refl ∙ append-nil _ ∙ settings-switches enabled,
      of_kind-persist outside enabled ls refl ∙ append-nil _,
      of_kind-persist other enabled ls refl,
      again,
    )
      where
        again :
            persist_algo_trading strip lower enabled (persist_algo_trading strip lower before ls)
            ≡ persist_algo_trading strip lower enabled ls
        again =
            rebuilt enabled _ ls (of_kind-persist outside before ls refl ∙ append-nil _)
              (of_kind-persist other before ls refl)

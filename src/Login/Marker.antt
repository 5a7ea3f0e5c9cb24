-- ===== src/Login/Marker.antt =====
-- The file by which the service tells the boot script of its session (app/autologin.py). The printing
-- and the parsing of a number with three decimals and the splitting at blanks are parameters; a time is
-- a count of 10^-10 seconds.
use mt5_gateway.Prelude.{
  ◌≡◌, refl, arith, ℕ, ◌+◌, ◌*◌, ◌/◌, ◌≢◌, ◌<◌, ◌≤◌, String, Bool, true, false, Option, none, some,
  List, [], ◌∷◌, leb_ℤ, str_eq, ◌&&◌, if◌then◌else◌, pos, eq_iff, Bool-cases, inl, inr,
}
use mt5_gateway.Json.{Number, finite, infinite, nan}
use mt5_gateway.Access.{joined}
use mt5_gateway.Validation.{amount, round_half_even}

-- `linux_path.replace("/", "\\")`
unfoldable pub backslashed : String → String
backslashed String.[] = ""
backslashed (String.◌∷◌ c s) =
    let rest = backslashed s in
    if str_eq (String.◌∷◌ c String.[]) "/" then joined "\\" rest else String.◌∷◌ c rest

unfoldable pub wine_path : String → Bool → String
wine_path linux_path nt = if nt then joined "Z:" (backslashed linux_path) else linux_path

-- A millisecond.
abbrev pub millisecond : ℕ
millisecond = 10000000

-- The number that `{now:.3f}` prints.
unfoldable pub rounded : ℕ → ℕ
rounded now = round_half_even now millisecond * millisecond

rounded_near : (now : ℕ) → (now ≤ rounded now + 5000000) × (rounded now ≤ now + 5000000)
unfolding rounded round_half_even
rounded_near now = ground arith

-- `since <= n`
abbrev pub at_least : Number → ℕ → Bool
at_least (finite n) since = leb_ℤ (pos since) n
at_least (infinite negative) since = if negative then false else true
at_least nan since = false

module _ (strip : String → String) (split : String → List String) (show : ℕ → String)
    (parse : String → Option Number) where
  -- The text that is written.
  unfoldable pub write_session_marker : String → ℕ → String
  write_session_marker login now = joined login (joined " " (joined (show now) "\n"))

  unfoldable pub read_since : Option Number → ℕ → Bool
  read_since none since = false
  read_since (some n) since = at_least n since

  -- Any but two words are no marker.
  unfoldable pub recorded_since : List String → String → ℕ → Bool
  recorded_since (l ∷ t ∷ []) login since = str_eq l (strip login) && read_since (parse t) since
  recorded_since _ login since = false

  -- The content is none where the file cannot be read.
  unfoldable pub session_attached : Option String → String → ℕ → Bool
  session_attached none login since = false
  session_attached (some content) login since = recorded_since (split content) login since

  -- Where the text of the login, a blank, the number and a line feed splits into these two words, and
  -- the number is read back as it was printed, a marker that was written for the same login shows a
  -- session since any moment that is at least half a millisecond before it, and none since a moment
  -- that is more than half a millisecond after it; a marker that was written for another login shows
  -- none.
  pub session_attached-write :
      (login other : String) (now since : ℕ)
      → split (joined login (joined " " (joined (show now) "\n"))) ≡ login ∷ show now ∷ []
      → parse (show now) ≡ some (amount (rounded now))
      → (login ≡ strip other
          → since + millisecond / 2 ≤ now
          → session_attached (some (write_session_marker login now)) other since ≡ true)
        × (now + millisecond / 2 < since
            → session_attached (some (write_session_marker login now)) other since ≡ false)
        × (login ≢ strip other
            → session_attached (some (write_session_marker login now)) other since ≡ false)
  unfolding session_attached recorded_since read_since write_session_marker
  session_attached-write login other now since words number = (
    λ same early.
        let e : str_eq login (strip other) ≡ true = (eq_iff _ _).1 same in
        rw (words, number, e) (ground (arith, rounded_near now, early)),
    λ late. elim (Bool-cases (str_eq login (strip other))) [
      | inl e ↦ rw (words, number, e) (ground (arith, rounded_near now, late))
      | inr e ↦ rw (words, e) refl
    ],
    λ differ. elim (Bool-cases (str_eq login (strip other))) [
      | inl e ↦ absurd (differ ((eq_iff _ _).0 e))
      | inr e ↦ rw (words, e) refl
    ],
  )

-- ===== src/Prelude/Texts.antt =====
-- Python's `str` operations that the gateway uses, over the native strings.
use Prim.Native.Nat.{ℕ, zero, suc, ◌≤◌}
use Prim.Native.String.{String}
use native.Mathlib.Omega.{arith}

-- `len(s)`: the number of code points.
abbrev pub len : String → ℕ
len String.[] = 0
len (String.◌∷◌ c s) = suc (len s)

-- `s[:n]`
unfoldable pub prefix_of : ℕ → String → String
prefix_of zero s = String.[]
prefix_of (suc n) String.[] = String.[]
prefix_of (suc n) (String.◌∷◌ c s) = String.◌∷◌ c (prefix_of n s)

pub len-prefix_of : (n : ℕ) (s : String) → len (prefix_of n s) ≤ n
unfolding prefix_of
len-prefix_of zero s = omega arith
len-prefix_of (suc n) String.[] = omega arith
len-prefix_of (suc n) (String.◌∷◌ c s) = omega (arith, len-prefix_of n s)

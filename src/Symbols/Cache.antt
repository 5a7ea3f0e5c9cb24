-- ===== src/Symbols/Cache.antt =====
-- The bound of the cache, and when `validate_symbol` asks the terminal.
use mt5_gateway.Prelude.{
  ◌-◌, ◌≤◌, ◌≡◌, refl, arith, String, true, false, List, [], ◌∷◌, ◌++◌, length, length-append, drop,
  eq_iff,
}
use mt5_gateway.Flow.{value}
use mt5_gateway.Host.{Host}
use mt5_gateway.World.{World}
use mt5_gateway.Symbols.{symbol_select_cache_max_size, is_cached, remember, forget, validate_symbol}

length-drop_one : (xs : List String) → length (drop 1 xs) ≡ length xs - 1
length-drop_one [] = omega arith
length-drop_one (x ∷ xs) = omega arith

length-remember :
    (name : String) (cache : List String)
    → length cache ≤ symbol_select_cache_max_size
    → length (remember name cache) ≤ symbol_select_cache_max_size
unfolding remember
length-remember name cache h = ground (
  arith,
  length-drop_one cache,
  length-append (drop 1 cache) (name ∷ []),
  length-append cache (name ∷ []),
)

any-concat : (name : String) (xs : List String) → is_cached name (xs ++ name ∷ []) ≡ true
any-concat name [] = ground (arith, eq_iff name name)
any-concat name (x ∷ xs) = ground (arith, any-concat name xs)

cached-remember :
    (name : String) (cache : List String) → is_cached name (remember name cache) ≡ true
unfolding remember
cached-remember name cache = ground (arith, any-concat name (drop 1 cache), any-concat name cache)

pub cached-forget :
    (name : String) (cache : List String) → is_cached name (forget name cache) ≡ false
unfolding forget
cached-forget name [] = refl
cached-forget name (s ∷ cache) =
    ground (arith, cached-forget name cache, eq_iff s name, eq_iff name s)

forget-length : (name : String) (cache : List String) → length (forget name cache) ≤ length cache
unfolding forget
forget-length name [] = omega arith
forget-length name (s ∷ cache) = ground (arith, forget-length name cache)

module _ {S : Type 0} (h : Host S) (name : String) (w : World S) where
  -- A cached symbol costs no call of the terminal and changes nothing.
  pub validate_symbol_cached :
      is_cached name w.symbols ≡ true → validate_symbol h name w ≡ (value true, w)
  unfolding validate_symbol
  validate_symbol_cached c = ground arith

  -- The answer is yes only for a symbol that is in the cache afterwards, so that asking again is
  -- answered at once and in the same way; and the cache never grows past its bound.
  validate_symbol_caches :
      {w' : World S}
      → length w.symbols ≤ symbol_select_cache_max_size
      → validate_symbol h name w ≡ (value true, w')
      → (length w'.symbols ≤ symbol_select_cache_max_size)
        × (validate_symbol h name w' ≡ (value true, w'))
  unfolding validate_symbol
  validate_symbol_caches {w'} small e =
      let cached : is_cached name w'.symbols ≡ true =
        ground (arith, cached-remember name w.symbols) in
      (ground (arith, length-remember name w.symbols), ground (arith, cached))

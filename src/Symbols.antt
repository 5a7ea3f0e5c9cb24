-- ===== src/Symbols.antt =====
-- app/lib.py: the cache of symbols that the terminal has selected. The list is the OrderedDict's
-- keys, oldest first; the two locked regions of `validate_symbol` are two steps.
pub mod Cache
use mt5_gateway.Prelude.{
  ℕ, String, Bool, true, false, List, [], ◌∷◌, ◌++◌, any, drop, length, leb, str_eq, not,
  if◌then◌else◌,
}
use mt5_gateway.Host.{Host}
use mt5_gateway.World.{World, Exec, pure, gets, modify, ◌>>=◌, ◌>>◌, serialized_total}

abbrev pub symbol_select_cache_max_size : ℕ
symbol_select_cache_max_size = 512

abbrev pub is_cached : String → List String → Bool
is_cached name cache = any (str_eq name) cache

-- `popitem(last=False)`, then `cache[name] = None`, which leaves a key that is there in its place.
unfoldable pub remember : String → List String → List String
remember name cache =
    let room = if leb symbol_select_cache_max_size (length cache) then drop 1 cache else cache in
    if is_cached name room then room else room ++ name ∷ []

-- `cache.pop(name, None)`
unfoldable pub forget : String → List String → List String
forget name [] = []
forget name (s ∷ cache) = let rest = forget name cache in if str_eq s name then rest else s ∷ rest

module _ {S : Type 0} where
  unfoldable pub validate_symbol : Host S → String → Exec S Bool
  unfolding ◌>>=◌ remember serialized_total
  validate_symbol h name = do
    cached ← gets (λ w. is_cached name w.symbols)
    if cached then pure true else do
      selected ← serialized_total h (h.symbol_select name)
      if not selected
          then pure false
          else do modify (λ w. record w { symbols = remember name w.symbols }); pure true

  unfoldable pub invalidate_symbol : String → Exec S (Unit {0})
  unfolding forget
  invalidate_symbol name = modify (λ w. record w { symbols = forget name w.symbols })

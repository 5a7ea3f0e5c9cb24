-- ===== src/Connection/Offsets.antt =====
-- `_refresh_server_offset` and `_offset_reference_symbols` of app/mt5_connection.py, and `live_tick` of
-- app/time_utils.py: which quotes a (re)connect may derive the broker's offset from. Without
-- `MT5_TIME_REFERENCE_SYMBOL` the setting is the empty text.
use mt5_gateway.Prelude.{
  ℕ, zero, suc, String, Bool, true, false, Option, none, some, List, [], ◌∷◌, ◌++◌, any, ltb, ◌&&◌,
  not, str_eq, if◌then◌else◌,
}
use mt5_gateway.ServerTime.{derive_from_tick}
use mt5_gateway.Host.{Host, Config, Library}
use mt5_gateway.World.{
  Exec, pure, ◌>>=◌, ◌>>◌, gets, modify, serialized, serialized_total, clock, sleep,
}
use mt5_gateway.Order.Expiry.{advanced, read_tick_ms}
use mt5_gateway.Order.Fill.{rescue}

-- One reading of the candidates' ticks, in the order of the candidates.
abbrev pub Readings : Type 0
Readings = List (String × Option ℕ)

-- `before.get(symbol)`
unfoldable pub reading_of : String → Readings → Option ℕ
reading_of symbol [] = none
reading_of symbol ((s, t) ∷ rest) = if str_eq s symbol then t else reading_of symbol rest

-- `if best is None or tick_ms > best[1]: best = …`
unfoldable pub better : Option (String × ℕ) → String → Option ℕ → Option (String × ℕ)
better best symbol none = best
better none symbol (some t) = some (symbol, t)
better (some (s, b)) symbol (some t) = if ltb b t then some (symbol, t) else some (s, b)

-- The loop, from the best so far.
unfoldable pub live_from : Readings → Option (String × ℕ) → Readings → Option (String × ℕ)
live_from before best [] = best
live_from before best ((s, t) ∷ rest) =
    live_from before (better best s (advanced (reading_of s before) t)) rest

unfoldable pub live_tick : Readings → Readings → Option (String × ℕ)
live_tick before after = live_from before none after

-- The loop over Market Watch: the named and visible symbols, each once.
unfoldable pub watched_symbols : List (String × Bool) → List String → List String
watched_symbols [] candidates = candidates
watched_symbols ((name, visible) ∷ rest) candidates = watched_symbols rest (
    if not (str_eq name "") && visible && not (any (str_eq name) candidates)
    then candidates ++ name ∷ []
    else candidates)

-- `if watched:`
abbrev pub watched_infos : Option (List (String × Bool)) → List (String × Bool)
watched_infos none = []
watched_infos (some infos) = infos

module _ {S : Type 0} (h : Host S) (lib : Library) (cfg : Config) where
  unfoldable pub explicit_symbol : Exec S (List String)
  explicit_symbol =
      let explicit = lib.strip cfg.time_reference_symbol in
      if str_eq explicit ""
      then pure []
      else (serialized_total h (h.symbol_select explicit) >>= λ _. pure (explicit ∷ []))

  unfoldable pub or_fallback : List String → Exec S (List String)
  or_fallback [] = serialized_total h (h.symbol_select "EURUSD") >>= λ _. pure ("EURUSD" ∷ [])
  or_fallback candidates = pure candidates

  unfoldable pub offset_reference_symbols : Exec S (List String)
  offset_reference_symbols = do
    explicit ← explicit_symbol
    watched ← serialized h h.symbols_get
    or_fallback (watched_symbols (watched_infos watched) explicit)

  unfoldable pub read_candidates : List String → Exec S Readings
  read_candidates [] = pure []
  read_candidates (s ∷ rest) = do
    t ← read_tick_ms h cfg s
    readings ← read_candidates rest
    pure ((s, t) ∷ readings)

  -- Whether the reading derived an offset.
  unfoldable pub derive_live : Option (String × ℕ) → Exec S Bool
  derive_live none = pure false
  derive_live (some (symbol, t)) = do
    now ← clock h
    offset ← gets (λ w. w.offset)
    let (derived, offset') = derive_from_tick cfg.time symbol (some t) now offset
    modify (λ w. record w { offset = offset' })
    elim derived [ none ↦ pure false | some d ↦ pure true ]

  -- The polls that are left; the last one does not sleep.
  unfoldable pub poll_offset : ℕ → List String → Readings → Exec S (Unit {0})
  poll_offset zero candidates previous = pure tt
  poll_offset (suc left) candidates previous =
      let again = poll_offset left candidates in
      do
        current ← read_candidates candidates
        derived ← derive_live (live_tick previous current)
        if derived then pure tt else do
          (if ltb 0 left then sleep h cfg.time_derive_delay_ms else pure tt)
          again current

  unfoldable pub refresh_server_offset : Exec S (Unit {0})
  refresh_server_offset =
      rescue tt
        do candidates ← offset_reference_symbols; poll_offset cfg.time_derive_attempts candidates []

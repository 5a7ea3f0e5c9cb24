-- ===== src/Tests/Checks.antt =====
-- The theorems on the pre-trade checks, the error responses and the symbol cache, applied.
use mt5_gateway.Prelude.{
  map, none, ◌+◌, ◌&&◌, select, ◌-◌, ◌^◌, ◌≤◌, ◌≡◌, ◌⊎◌, refl, arith, true, false, some, pos, ℤ,
  ◌≤ℤ◌, [], ◌∷◌,
}
use mt5_gateway.Json.{Json, Number, int, is_truthy, get, lookup}
use mt5_gateway.Flow.{value}
use mt5_gateway.Convert.{float_of, int_of}
use mt5_gateway.PreTrade.{
  allowed_order_fields, unknown_fields, get_default, numeric_fields, read_numbers, check_numbers,
  validate_order_intent,
}
use mt5_gateway.PreTrade.Laws.{Among, AtMost, validate_order_intent_bounds}
use mt5_gateway.Prelude.{String, All, List, str_eq, eq_iff}
use mt5_gateway.Access.{Hook, Request}
use mt5_gateway.Host.{Deal}
use mt5_gateway.CloseConfirm.{closing_of, newest, newer, poll_close, confirm_close}
use mt5_gateway.CloseConfirm.Found.{Member, Closes, newest_closing}
use mt5_gateway.CloseConfirm.Deadline.{confirm_close_ends}
use mt5_gateway.World.{monotonic, ◌>>=◌}
use mt5_gateway.Tests.Orders.{terminal-IsClocked}
use mt5_gateway.Order.Ends.{is_value}
use mt5_gateway.Tests.Values.{fill, order, library, config, terminal, world}

validate_order_intent_bounds_example :
    (v : Json) × (volume : Number) × (deviation : ℤ) × (magic : ℤ) × All
      (λ k. Among k allowed_order_fields)
      (map (λ e. e.0) order)
    × ((config.limits.symbols ≡ [])
        ⊎ ((s : String) × (get "symbol" order ≡ Json.text s) × Among s config.limits.symbols))
    × (lookup "volume" order ≡ some v)
    × (float_of library v ≡ value volume)
    × (int_of library (get_default order "deviation" (int (pos 20))) ≡ value deviation)
    × (int_of library (get_default order "magic" (int (pos 0))) ≡ value magic)
    × AtMost config.limits.max_volume volume
    × (pos 0 ≤ℤ deviation)
    × (deviation ≤ℤ pos config.limits.max_deviation)
    × (pos 0 ≤ℤ magic)
    × (magic ≤ℤ pos (2 ^ 32 - 1))
unfolding validate_order_intent unknown_fields numeric_fields check_numbers float_of int_of get
    lookup read_numbers select
validate_order_intent_bounds_example = validate_order_intent_bounds library config.limits order refl

abbrev guard : Hook
guard = record { compare_digest = λ a b. value (str_eq a b); api_key = "secret"; active = true }

abbrev reading : Request
reading = record { method = "GET"; path = "/positions"; authorization = some "Bearer secret" }

digest_exact : (a b : String) → guard.compare_digest a b ≡ value true → a ≡ b
digest_exact a b h = (eq_iff a b).0 (ground arith)

-- Two deals of a position, the second of which closes it.
abbrev deals : List Deal
deals = fill ∷ record fill { ticket = 51; order = 52; entry = 1; time_msc = 1767229200000 } ∷ []

newest_closing_example :
    ((x : Deal)
      → newest (closing_of 52 (some deals)) ≡ some x
      → Member x deals × Closes 52 x × All (λ y. Closes 52 y → y.time_msc ≤ x.time_msc) deals)
    × (newest (closing_of 52 (some deals)) ≡ none → All (λ y. ¬ Closes 52 y) deals)
newest_closing_example = newest_closing 52 deals

later_is_found :
    newest (closing_of 52 (some deals))
    ≡ some (record fill { ticket = 51; order = 52; entry = 1; time_msc = 1767229200000 })
unfolding closing_of newest newer select
later_is_found = refl

-- With a larger fuel the same is looked up.
confirm_close_ends_example :
    (is_value (confirm_close terminal config 42 [] world).0 ≡ true)
    × (is_truthy (get "price" []) && is_truthy (get "deal" []) ≡ false
        → confirm_close terminal config 42 [] world
          ≡ (monotonic terminal >>= λ now.
                poll_close terminal config 42
                  (config.fill_confirm_timeout_ms + 1 + 9)
                  (now + config.fill_confirm_timeout_ms)
                  [])
              world)
confirm_close_ends_example =
    confirm_close_ends (λ s. s) terminal terminal-IsClocked (λ n s. omega arith) config 42 9 []
      world (omega arith)

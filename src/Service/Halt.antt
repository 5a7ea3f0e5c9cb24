-- ===== src/Service/Halt.antt =====
-- What the kill switch and the key of the interface keep from happening.
use mt5_gateway.Prelude.{
  ◌≡◌, ◌≢◌, refl, ◌∙◌, arith, String, Bool, true, none, some, List, [], ◌∷◌, All, inl, inr,
  Bool-cases, Option,
}
use mt5_gateway.Idempotency.{IdempotencyStore}
use mt5_gateway.World.{World}
use mt5_gateway.Errors.{RequestId}
use mt5_gateway.Json.{Response}
use mt5_gateway.Flow.{Flow, value, reply, raised}
use mt5_gateway.Access.{is_gated, authorized, enforce_security, supplied, joined}
use mt5_gateway.Access.Gate.{enforce_security_sound}
use mt5_gateway.Service.Control.{Gateway, engage}
use mt5_gateway.Service.Serve.{
  Endpoint, order, modify_sl_tp, position_close_partial, close_position, close_all_positions,
  order_check, order_calc_margin, order_calc_profit, get_deal_from_ticket, get_order_from_ticket,
  history_orders_get, history_deals_get, history_deals_range, delete_order, put_order,
  positions_total, kill, kill_release, Incoming, line, Service, hook, guarded, guarded_order,
  unguarded, with_store, run, after_hook, serve, serve_all,
}
use mt5_gateway.Service.Routes.{IsTrading, IsRelease, kill_call, IsTrading-is_gated, never_exempt}

module _ {S : Type 0} (s : Service S) where
  -- Only a request that the hook lets through has an effect.
  after_hook-same :
      (r : Incoming) (verdict : Flow (Option Response)) (g : Gateway S)
      → verdict ≢ value none
      → (after_hook s r verdict g).1 ≡ g
  unfolding after_hook
  after_hook-same r (value none) g h = absurd (h refl)
  after_hook-same r (value (some refusal)) g h = refl
  after_hook-same r (reply refusal) g h = refl
  after_hook-same r (raised e) g h = refl

  gated_is_refused :
      (r : Incoming) (g : Gateway S)
      → g.killed ≡ true
      → is_gated (line r) ≡ true
      → enforce_security (hook s g) (line r) ≢ value none
  unfolding enforce_security hook
  gated_is_refused r g on gated = go (authorized (hook s g) (line r)) refl
    where
      go :
          (a : Flow Bool)
          → authorized (hook s g) (line r) ≡ a
          → enforce_security (hook s g) (line r) ≢ value none
      go (value b) e = λ n. ground (arith, e, n, on, gated)
      go (reply x) e = λ n. ground (arith, e, n)
      go (raised x) e = λ n. ground (arith, e, n)

  with_store-killed :
      (result : Flow (Response × IdempotencyStore)) (w : World S) (g : Gateway S)
      → (with_store s result w g).1.killed ≡ g.killed
  unfolding with_store
  with_store-killed (value (r, store)) w g = refl
  with_store-killed (reply r) w g = refl
  with_store-killed (raised e) w g = refl

  run-killed :
      (e : Endpoint) (r : Incoming) (g : Gateway S)
      → ¬ IsRelease e
      → g.killed ≡ true
      → (run s e r.id g).1.killed ≡ true
  unfolding run guarded guarded_order unguarded engage
  run-killed (order d key) r g n on = with_store-killed _ _ g ∙ on
  run-killed (modify_sl_tp d) r g n on = on
  run-killed (position_close_partial d) r g n on = on
  run-killed (close_position d) r g n on = on
  run-killed (close_all_positions d) r g n on = on
  run-killed (order_check d) r g n on = on
  run-killed (order_calc_margin d) r g n on = on
  run-killed (order_calc_profit d) r g n on = on
  run-killed (get_deal_from_ticket t') r g n on = on
  run-killed (get_order_from_ticket t') r g n on = on
  run-killed (history_orders_get t') r g n on = on
  run-killed (history_deals_get x y p) r g n on = on
  run-killed (history_deals_range x y m) r g n on = on
  run-killed (delete_order segment ticket) r g n on = on
  run-killed (put_order segment ticket d) r g n on = on
  run-killed positions_total r g n on = on
  run-killed (kill flatten) r g n on = refl
  run-killed kill_release r g n on = absurd (n tt)

  after_hook-killed :
      (r : Incoming) (verdict : Flow (Option Response)) (g : Gateway S)
      → ¬ IsRelease r.endpoint
      → g.killed ≡ true
      → (after_hook s r verdict g).1.killed ≡ true
  unfolding after_hook
  after_hook-killed r (value none) g n on = run-killed r.endpoint r g n on
  after_hook-killed r (value (some refusal)) g n on = on
  after_hook-killed r (reply refusal) g n on = on
  after_hook-killed r (raised e) g n on = on

  serve_all-killed :
      (rs : List Incoming) (g : Gateway S)
      → All (λ r. ¬ IsRelease r.endpoint) rs
      → g.killed ≡ true
      → (serve_all s rs g).killed ≡ true
  unfolding serve_all serve
  serve_all-killed [] g none_releases on = on
  serve_all-killed (r ∷ rs) g none_releases on =
      serve_all-killed rs _ none_releases.1
        (after_hook-killed r (enforce_security (hook s g) (line r)) g none_releases.0 on)

  run_kill :
      (flatten : String) (a : Option String) (id : RequestId) (g : Gateway S)
      → (after_hook s (kill_call flatten a id) (value none) g).1.killed ≡ true
  unfolding after_hook run unguarded engage
  run_kill flatten a id g = refl

  kill_passes :
      (flatten : String) (a : Option String) (id : RequestId) (g : Gateway S)
      → authorized (hook s g) (line (kill_call flatten a id)) ≡ value true
      → enforce_security (hook s g) (line (kill_call flatten a id)) ≡ value none
  unfolding enforce_security is_gated hook
  kill_passes flatten a id g key = elim (Bool-cases g.killed) [
    | inl on ↦ rw (key, on) refl
    | inr off ↦ rw (key, off) refl
  ]

  engaged :
      (flatten : String) (a : Option String) (id : RequestId) (g : Gateway S)
      → authorized (hook s g) (line (kill_call flatten a id)) ≡ value true
      → (serve s (kill_call flatten a id) g).1.killed ≡ true
  unfolding serve
  engaged flatten a id g key = rw (kill_passes flatten a id g key) (run_kill flatten a id g)

  -- A call of /kill that carries the key halts trading whatever the terminal answers to the
  -- flattening, and until a call of /kill/release, whatever else is served in between, a request to
  -- one of the five gated routes (order, modify_sl_tp, position_close_partial, close_position,
  -- close_all_positions) changes nothing at all: no reservation is made and the terminal is not called.
  pub halted_until_release :
      (flatten : String) (a : Option String) (id : RequestId) (rs : List Incoming) (r : Incoming)
      (g : Gateway S)
      → authorized (hook s g) (line (kill_call flatten a id)) ≡ value true
      → All (λ x. ¬ IsRelease x.endpoint) rs
      → IsTrading r.endpoint
      → let halted = serve_all s rs (serve s (kill_call flatten a id) g).1 in
        (serve s r halted).1 ≡ halted
  unfolding serve
  halted_until_release flatten a id rs r g key none_releases trading = after_hook-same r _ _ (
      gated_is_refused r _ (serve_all-killed rs _ none_releases (engaged flatten a id g key))
        (IsTrading-is_gated r trading))

  -- Where a key is configured and the comparison accepts equal texts only, a request that does not
  -- carry the key changes nothing at all: the terminal, the reservations and the kill switch are as
  -- before.
  pub keyless_changes_nothing :
      (r : Incoming) (g : Gateway S)
      → ((a b : String) → s.compare_digest a b ≡ value true → a ≡ b)
      → s.api_key ≢ ""
      → supplied (line r) ≢ joined "Bearer " s.api_key
      → (serve s r g).1 ≡ g
  unfolding serve hook
  keyless_changes_nothing r g exact key wrong = after_hook-same r _ g λ passed.
      elim ((enforce_security_sound (hook s g) (line r) exact passed).0) [
        | inl e ↦ key e
        | inr (inl e) ↦ cc (never_exempt r.endpoint)
        | inr (inr e) ↦ wrong e
      ]

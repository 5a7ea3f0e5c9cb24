-- ===== src/Service/Routes.antt =====
-- Which routes trade, and which the hook of app/security.py knows by their paths.
use mt5_gateway.Prelude.{
  ◌≡◌, refl, ap, arith, String, true, false, str_eq, eq_iff, inl, inr, Bool-cases, Option,
}
use mt5_gateway.Prelude.Texts.{prefix_of}
use mt5_gateway.Errors.{RequestId}
use mt5_gateway.Access.{is_gated, is_auth_exempt, joined}
use mt5_gateway.Service.Serve.{
  Endpoint, order, modify_sl_tp, position_close_partial, close_position, close_all_positions,
  order_check, order_calc_margin, order_calc_profit, get_deal_from_ticket, get_order_from_ticket,
  history_orders_get, history_deals_get, history_deals_range, delete_order, put_order,
  positions_total, kill, kill_release, Incoming, line, method_of, path_of,
}

-- The requests that open, close or protect a position.
abbrev pub IsTrading : Endpoint → Type 0
IsTrading (order d key) = Unit
IsTrading (modify_sl_tp d) = Unit
IsTrading (position_close_partial d) = Unit
IsTrading (close_position d) = Unit
IsTrading (close_all_positions d) = Unit
IsTrading _ = ⊥

abbrev pub IsRelease : Endpoint → Type 0
IsRelease kill_release = Unit
IsRelease _ = ⊥

abbrev pub kill_call : String → Option String → RequestId → Incoming
kill_call flatten a id = record { endpoint = kill flatten; authorization = a; id = id }

pub IsTrading-is_gated : (r : Incoming) → IsTrading r.endpoint → is_gated (line r) ≡ true
unfolding is_gated
IsTrading-is_gated r t = go r.endpoint r.authorization t
  where
    go :
        (e : Endpoint) (a : Option String)
        → IsTrading e
        → is_gated (record { method = method_of e; path = path_of e; authorization = a }) ≡ true
    go (order d key) a t = refl
    go (modify_sl_tp d) a t = refl
    go (position_close_partial d) a t = refl
    go (close_position d) a t = refl
    go (close_all_positions d) a t = refl
    go (order_check d) a t = elim t [ ]
    go (order_calc_margin d) a t = elim t [ ]
    go (order_calc_profit d) a t = elim t [ ]
    go (get_deal_from_ticket t') a t = elim t [ ]
    go (get_order_from_ticket t') a t = elim t [ ]
    go (history_orders_get t') a t = elim t [ ]
    go (history_deals_get x y p) a t = elim t [ ]
    go (history_deals_range x y m) a t = elim t [ ]
    go (delete_order segment ticket) a t = elim t [ ]
    go (put_order segment ticket d) a t = elim t [ ]
    go positions_total a t = elim t [ ]
    go (kill flatten) a t = elim t [ ]
    go kill_release a t = elim t [ ]

-- Texts that differ in their first two characters.
differ : (a b : String) → str_eq (prefix_of 2 a) (prefix_of 2 b) ≡ false → str_eq a b ≡ false
differ a b h = elim (Bool-cases (str_eq a b)) [
  | inl e ↦
      let t : str_eq (prefix_of 2 a) (prefix_of 2 b) ≡ true =
        (eq_iff _ _).1 (ap (prefix_of 2) ((eq_iff a b).0 e)) in
      cc
  | inr e ↦ e
]

orders_exempt : (segment : String) → is_auth_exempt (joined "/orders/" segment) ≡ false
unfolding is_auth_exempt prefix_of
orders_exempt segment =
    let path = joined "/orders/" segment in
    ground (
      arith,
      differ path "/health/live" refl,
      differ (prefix_of 8 path) "/apidocs" refl,
      differ (prefix_of 9 path) "/apispec_" refl,
      differ (prefix_of 17 path) "/flasgger_static/" refl,
    )

pub never_exempt : (e : Endpoint) → is_auth_exempt (path_of e) ≡ false
unfolding is_auth_exempt prefix_of
never_exempt (order d key) = refl
never_exempt (modify_sl_tp d) = refl
never_exempt (position_close_partial d) = refl
never_exempt (close_position d) = refl
never_exempt (close_all_positions d) = refl
never_exempt (order_check d) = refl
never_exempt (order_calc_margin d) = refl
never_exempt (order_calc_profit d) = refl
never_exempt (get_deal_from_ticket t') = refl
never_exempt (get_order_from_ticket t') = refl
never_exempt (history_orders_get t') = refl
never_exempt (history_deals_get x y p) = refl
never_exempt (history_deals_range x y m) = refl
never_exempt (delete_order segment ticket) = orders_exempt segment
never_exempt (put_order segment ticket d) = orders_exempt segment
never_exempt positions_total = refl
never_exempt (kill flatten) = refl
never_exempt kill_release = refl

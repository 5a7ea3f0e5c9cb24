-- ===== src/Tests/Service.antt =====
-- Requests to the service: the kill switch, the key of the interface, and the dry runs.
use mt5_gateway.Prelude.{
  ◌≡◌, ◌≢◌, refl, ℕ, String, true, false, Option, none, some, [], ◌∷◌, str_eq, eq_iff, pos,
}
use mt5_gateway.Prelude.Texts.{prefix_of}
use mt5_gateway.Json.{float, finite, text, Dict, respond}
use mt5_gateway.Flow.{value}
use mt5_gateway.Access.{authorized, is_auth_exempt}
use mt5_gateway.Host.{raises}
use mt5_gateway.Host.{CheckRequest, trade_action_deal, order_type_buy, order_filling_ioc}
use mt5_gateway.Order.Check.{order_check_endpoint, check_base}
use mt5_gateway.Order.Check.DryRun.{resending, order_check_sends_nothing}
use mt5_gateway.Order.Calc.{order_calc_margin_endpoint, margin_ignores_side}
use mt5_gateway.Service.Control.{Gateway}
use mt5_gateway.Service.Serve.{
  order as order_route, positions_total, Incoming, line, Service, hook, serve, serve_all,
}
use mt5_gateway.Service.Routes.{kill_call}
use mt5_gateway.Service.Halt.{halted_until_release, keyless_changes_nothing}
use mt5_gateway.Tests.Values.{library, config, terminal, world, order}

abbrev service : Service ℕ
service = record {
  terminal = terminal;
  library = library;
  config = config;
  calendar = record {
    parse_date = λ s. none;
    timestamp = λ d. value (pos d.micros);
    iso = λ t. "then";
  };
  limits = record { max_num_bars = 10000; max_history_range_days = 31 };
  relogin = value none;
  compare_digest = λ a b. value (str_eq a b);
  api_key = "secret";
  lower = λ s. s;
  server_error = λ e. respond 500 [];
}

abbrev gateway : Gateway ℕ
gateway = record {
  store = record { ttl_seconds = 60; entries = λ j. none };
  killed = false;
  world = world;
}

abbrev with_key : Option String
with_key = some "Bearer secret"

abbrev total_call : Incoming
total_call = record { endpoint = positions_total; authorization = with_key; id = none }

abbrev order_call : Incoming
order_call = record { endpoint = order_route order none; authorization = with_key; id = none }

abbrev stranger_call : Incoming
stranger_call = record order_call { authorization = some "Bearer guess" }

key_is_right :
    authorized (hook service gateway) (line (kill_call "true" with_key none)) ≡ value true
unfolding authorized hook is_auth_exempt prefix_of
key_is_right = refl

halted_until_release_example :
    let halted =
      serve_all service
        (total_call ∷ [])
        (serve service (kill_call "true" with_key none) gateway).1 in
    (serve service order_call halted).1 ≡ halted
halted_until_release_example =
    halted_until_release service "true" with_key none (total_call ∷ []) order_call gateway
      key_is_right ((λ r. elim r [ ]), tt) tt

texts_differ : (a b : String) → str_eq a b ≡ false → a ≢ b
texts_differ a b e h = let t : str_eq a b ≡ true = (eq_iff a b).1 h in cc

exactly_equal : (a b : String) → service.compare_digest a b ≡ value true → a ≡ b
exactly_equal a b h = (eq_iff a b).0 (cc)

keyless_changes_nothing_example : (serve service stranger_call gateway).1 ≡ gateway
keyless_changes_nothing_example =
    keyless_changes_nothing service stranger_call gateway exactly_equal
      (texts_differ "secret" "" refl) (texts_differ "Bearer guess" "Bearer secret" refl)

-- A terminal that loses each order is as good for a dry run.
order_check_sends_nothing_example :
    order_check_endpoint
      (resending terminal (λ r s. (raises "lost", s)) (λ r s. (raises "lost", s)))
      library
      config
      none
      order
      world
    ≡ order_check_endpoint terminal library config none order world
order_check_sends_nothing_example =
    order_check_sends_nothing terminal (λ r s. (raises "lost", s)) (λ r s. (raises "lost", s))
      library config none order world

abbrev checked : CheckRequest
checked = record {
  base = check_base trade_action_deal "EURUSD" order_type_buy (pos 20) (pos 0) "" order_filling_ioc;
  volume = finite (pos 1000000000);
  price = finite (pos 11002000000);
  sl = some (finite (pos 10900000000));
  tp = none;
}

abbrev margin_body : Dict
margin_body =
    ("symbol", text "EURUSD")
    ∷ ("volume", float (finite (pos 1000000000)))
    ∷ ("price", float (finite (pos 11000000000)))
    ∷ []

margin_ignores_side_example :
    order_calc_margin_endpoint terminal library config none
      (("type", text "BUY") ∷ margin_body)
      world
    ≡ order_calc_margin_endpoint terminal library config none
        (("type", text "SELL") ∷ margin_body)
        world
margin_ignores_side_example =
    margin_ignores_side terminal library config none margin_body world refl refl

-- ===== src/Tests/Pending.antt =====
-- Runs of the change of a pending order.
use mt5_gateway.Prelude.{◌≡◌, refl, ℕ, none, some, List, [], ◌∷◌, pos}
use mt5_gateway.Json.{Dict, float, finite, nan, lookup, get}
use mt5_gateway.Flow.{value}
use mt5_gateway.Convert.{float_of}
use mt5_gateway.Validation.{validate_pending_price, is_named_buy, is_buy}
use mt5_gateway.Host.{Host, Order, ModifyRequest, gives, order_type_buy_limit, order_time_gtc}
use mt5_gateway.World.{World, serialized, ◌>>=◌}
use mt5_gateway.Pending.{listed_order}
use mt5_gateway.Pending.Levels.{
  magnitude, number_of, is_zero, is_positive, at_most, given, levels_verdict, sl_verdict,
  tp_verdict, price_verdict,
}
use mt5_gateway.Pending.Modify.{
  Levels, something_given, new_value, positive_price, not_negative, passed, new_levels,
  market_checked, check_price, check_levels, expiring, modify_base, keep_expiration, prepare_modify,
}
use mt5_gateway.Pending.Sound.{Sound, prepare_modify-Sound}
use mt5_gateway.Tests.Values.{library, config, terminal, world}

-- A limit order to buy at 1.09.
abbrev resting : Order
resting = record {
  ticket = 55;
  type = order_type_buy_limit;
  symbol = "EURUSD";
  price_open = 10900000000;
  sl = 0;
  tp = 0;
  type_time = order_time_gtc;
  time_expiration = 0;
}

abbrev orders : Host ℕ
orders = record terminal { orders_get = λ n s. (gives (some (resting ∷ [])), s) }

abbrev lower : Dict
lower = ("price", float (finite (pos 10800000000))) ∷ ("sl", float (finite (pos 10700000000))) ∷ []

abbrev lowered : ModifyRequest
lowered = record {
  base = keep_expiration resting (modify_base 55);
  price = finite (pos 10800000000);
  sl = finite (pos 10700000000);
  tp = finite (pos 0);
}

modify_run : prepare_modify orders library config none 55 lower world ≡ (value lowered, world)
unfolding prepare_modify something_given listed_order new_levels new_value positive_price
    not_negative magnitude is_zero check_price market_checked price_verdict validate_pending_price
    is_named_buy passed check_levels is_positive given levels_verdict sl_verdict tp_verdict at_most
    is_buy expiring number_of serialized float_of lookup get ◌>>=◌
modify_run = refl

prepare_modify-Sound_example :
    (o : Order) × (rest : List Order) × (u : World ℕ) × (u' : World ℕ) × (l : Levels) × (serialized
        orders
        (orders.orders_get 55)
        u
      ≡ (value (some (o ∷ rest)), u'))
    × Sound orders library config none 55 lower o l lowered
prepare_modify-Sound_example =
    prepare_modify-Sound orders library config none 55 lower world modify_run

-- A price that is not a number passes every check.
not_a_number : prepare_modify orders library config none 55 (("price", float nan) ∷ []) world ≡ (
  value (record {
    base = keep_expiration resting (modify_base 55);
    price = nan;
    sl = finite (pos 0);
    tp = finite (pos 0);
  }),
  world,
)
unfolding prepare_modify something_given listed_order new_levels new_value positive_price
    not_negative magnitude is_zero check_price market_checked price_verdict passed check_levels
    is_positive expiring number_of serialized float_of lookup get ◌>>=◌
not_a_number = refl

-- ===== src/Tests/History.antt =====
-- The deals of a position, and a range of the history.
use mt5_gateway.Prelude.{◌≡◌, ◌≢◌, ◌⊎◌, ◌↔◌, true, Option, none, some, List, [], ◌∷◌, ℤ, pos}
use mt5_gateway.Flow.{value}
use mt5_gateway.Host.{DealRow}
use mt5_gateway.History.Window.{Calendar, Limits, Range}
use mt5_gateway.History.Details.{is_entry, is_exit, opening_deal, closing_deal_of}
use mt5_gateway.History.Endpoints.{range_arguments, history_deals_range_endpoint}
use mt5_gateway.History.Ends.{IsFirst, IsLast, HasNone, deal_ends}
use mt5_gateway.History.Bounds.{Fits, history_deals_range_bounds}
use mt5_gateway.World.{serialized}
use mt5_gateway.Tests.Values.{library, config, terminal, world}

abbrev entered : DealRow
entered = record {
  time = 100;
  time_msc = 100000;
  entry = 0;
  type = 0;
  symbol = "EURUSD";
  comment = "";
  volume = 1000000000;
  price = 11000000000;
  profit = pos 0;
  commission = pos 0;
  swap = pos 0;
  magic = pos 7;
  row = [];
}

abbrev left : DealRow
left = record entered { time = 200; time_msc = 200000; entry = 1; type = 1; price = 11100000000 }

-- The exit is listed first.
abbrev deals : List DealRow
deals = left ∷ entered ∷ []

deal_ends_example :
    ((o : DealRow)
      → opening_deal deals ≡ some o
      → IsFirst is_entry o deals ⊎ (HasNone is_entry deals × IsFirst (λ d. true) o deals))
    × ((opening_deal deals ≡ none) ↔ (deals ≡ []))
    × ((c : DealRow) → closing_deal_of deals ≡ some c → IsLast is_exit c deals)
    × ((closing_deal_of deals ≡ none) ↔ HasNone is_exit deals)
deal_ends_example = deal_ends deals

abbrev calendar : Calendar
calendar = record {
  parse_date = λ s. some (record { aware = true; micros = 5 });
  timestamp = λ d. value (pos d.micros);
  iso = λ t. "then";
}

abbrev month : Limits
month = record { max_num_bars = 10000; max_history_range_days = 31 }

history_deals_range_bounds_example :
    ((x : Range × Option ℤ)
      → range_arguments terminal library config calendar none month (some "a") (some "b") none
        ≡ value x
      → Fits month x.0
        × ((start stop : ℤ)
            → calendar.timestamp x.0.start ≡ value start
            → calendar.timestamp x.0.stop ≡ value stop
            → (history_deals_range_endpoint terminal library config calendar none month
                (some "a")
                (some "b")
                none
                world).1
              ≡ (serialized terminal (terminal.history_between start stop) world).1))
    × (((x : Range × Option ℤ)
          → range_arguments terminal library config calendar none month (some "a") (some "b") none
            ≢ value x)
        → (history_deals_range_endpoint terminal library config calendar none month
            (some "a")
            (some "b")
            none
            world).1
          ≡ world)
history_deals_range_bounds_example =
    history_deals_range_bounds terminal library config calendar none month (some "a") (some "b")
      none world

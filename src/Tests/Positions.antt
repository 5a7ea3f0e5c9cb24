-- ===== src/Tests/Positions.antt =====
-- Runs of the closing of positions.
use mt5_gateway.Prelude.{ℤ, ◌≡◌, refl, ℕ, ◌<◌, false, none, some, List, [], ◌∷◌, pos}
use mt5_gateway.Json.{Dict, int, float, text, bool, finite, lookup, get, put, is_truthy}
use mt5_gateway.Flow.{value}
use mt5_gateway.Retcodes.{classify_retcode, is_success, is_named, name_in}
use mt5_gateway.Convert.{float_of, int_of}
use mt5_gateway.Validation.{validate_volume, filling_mode_of, round_half_even}
use mt5_gateway.Symbols.{validate_symbol}
use mt5_gateway.Host.{Host, Position, as_dict, gives, order_type_sell}
use mt5_gateway.World.{World, serialized, serialized_total, monotonic, ◌>>=◌}
use mt5_gateway.CloseConfirm.{
  confirm_close, poll_close, closing_deal, deal_named, named_deal, confirmed,
}
use mt5_gateway.Positions.{
  Closing, close_ticket, close_found, close_selected, close_at, close_request, closing_type,
  closing_price, close_each, entry_of, closed_with, with_entry, is_partial,
}
use mt5_gateway.Positions.Partial.{
  PartialClose, prepare_partial, prepare_close, required_fields, must_be_numeric, positive_volume,
  found, same_symbol, given_type, same_type, admit_volume, selectable, less_than_position, quoted,
  opposite,
}
use mt5_gateway.Positions.Account.{Accounts, close_each-Accounts}
use mt5_gateway.Positions.Sound.{Whole, close_ticket_sound}
use mt5_gateway.Positions.Part.{Fit, prepare_partial_sound}
use mt5_gateway.Tests.Values.{done, library, config, terminal, world}

-- A bought position of 0.2 lots.
abbrev held : Position
held = record {
  ticket = 77;
  type = 0;
  symbol = "EURUSD";
  volume = 2000000000;
  price_open = 10900000000;
  price_current = 11000000000;
  sl = 0;
  tp = 0;
  magic = 0;
}

abbrev book : Host ℕ
book = record terminal {
  positions_get = λ n s. (gives (some (held ∷ [])), s);
  ticket_of_value = λ v s. (gives 77, s);
}

close_run : close_ticket book 77 world ≡ (value (some done), world)
unfolding close_ticket close_found close_selected close_at close_request closing_type closing_price
    validate_symbol serialized ◌>>=◌
close_run = refl

close_ticket_sound_example :
    (p : Position) × (rest : List Position) × (u : World ℕ) × (serialized book
        (book.positions_get 77)
        world
      ≡ (value (some (p ∷ rest)), u))
    × Whole book 77 p done world
close_ticket_sound_example = close_ticket_sound book 77 world close_run

-- The entry of the position that was closed.
abbrev closed : Closing
closed = record {
  closed =
      put "fill_price_source" (text "deal") (
        put "deal" (int (pos 41)) (
          put "price" (float (finite (pos 11002000000)))
            (put "partial" (bool false) (as_dict done))))
      ∷ [];
  failed = [];
}

close_each_run : close_each book config (held ∷ []) world ≡ (value closed, world)
unfolding close_each close_ticket close_found close_selected close_at close_request closing_type
    closing_price validate_symbol serialized entry_of closed_with with_entry is_partial is_named
    is_success classify_retcode name_in confirm_close poll_close closing_deal deal_named named_deal
    confirmed monotonic get put lookup is_truthy ◌>>=◌
close_each_run = refl

close_each-Accounts_example : Accounts book config (held ∷ []) closed
close_each-Accounts_example = close_each-Accounts book config (held ∷ []) world close_each_run

-- Half of it is closed.
abbrev half : Dict
half = ("ticket", int (pos 77)) ∷ ("volume", float (finite (pos 1000000000))) ∷ []

abbrev half_close : PartialClose
half_close = record {
  ticket = 77;
  position = held;
  volume = 1000000000;
  request =
      close_request 77 held 1000000000 order_type_sell 11000000000 (int (pos 20))
        (text "Partial close") 1;
}

prepare_run : prepare_partial book library config none half world ≡ (value half_close, world)
unfolding prepare_partial prepare_close required_fields must_be_numeric positive_volume found
    same_symbol given_type same_type admit_volume selectable less_than_position quoted opposite
    closing_type closing_price validate_symbol validate_volume round_half_even filling_mode_of
    serialized serialized_total float_of int_of get lookup ◌>>=◌
prepare_run = refl

prepare_partial_sound_example :
    (given : ℤ) × (p : Position) × (ticket : ℕ) × (volume : ℕ) × (rest : List Position) × (u : World
      ℕ)
    × (u' : World ℕ) × (int_of library (get "ticket" half) ≡ value given)
    × ((u0 : World ℕ) × (serialized_total book (book.ticket_of_value (int given)) u0
          ≡ (value ticket, u)))
    × (serialized book (book.positions_get ticket) u ≡ (value (some (p ∷ rest)), u'))
    × (float_of library (get "volume" half) ≡ value (finite (pos volume)))
    × (0 < volume)
    × Fit book library config none ticket volume p half_close
prepare_partial_sound_example =
    prepare_partial_sound book library config none half world prepare_run

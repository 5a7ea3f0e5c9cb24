-- ===== src/Order/Check/Sound.antt =====
-- What a dry run asks the broker about (app/routes/order.py).
use mt5_gateway.Prelude.{◌≡◌, ℕ, String, Option, none, some}
use mt5_gateway.Json.{text, Dict, get}
use mt5_gateway.Flow.{value}
use mt5_gateway.Money.{SymbolInfo}
use mt5_gateway.Errors.{RequestId}
use mt5_gateway.Host.{CheckRequest, Host, Library, Config}
use mt5_gateway.World.{World}
use mt5_gateway.Order.Steps.{Informed}
use mt5_gateway.Pending.Levels.{Magnitude, number_of}
use mt5_gateway.Order.Check.Verdicts.{volume_verdict, protection_verdict}
use mt5_gateway.Order.Check.Sides.{StopSide, ProfitSide}
use mt5_gateway.Order.Check.Price.{IsPriced}
use mt5_gateway.Order.Check.{checked_type}

module _ {S : Type 0} (h : Host S) (lib : Library) (cfg : Config) (id : RequestId) where
  -- What is known of a request that the broker is asked to check.
  abbrev pub IsSound : Dict → CheckRequest → Type 0
  IsSound d r =
      (symbol : String) × (t : ℕ) × (volume : Magnitude) × (price : Magnitude) × ((get "symbol" d
          ≡ text symbol)
        × (checked_type h lib cfg id d ≡ value t))
      × ((r.base.symbol ≡ some symbol) × (r.base.type ≡ some t))
      × ((r.volume ≡ number_of volume)
          × ((info : Option SymbolInfo) × Informed h symbol info
              × (volume_verdict info volume ≡ value none)))
      × ((r.price ≡ number_of price) × IsPriced h lib cfg id t symbol price)
      × (protection_verdict t price r.sl r.tp ≡ none)
      × StopSide t price r.sl
      × ProfitSide t price r.tp

  abbrev Built : String → ℕ → Magnitude → Magnitude → CheckRequest → Type 0
  Built symbol t volume price r =
      (r.base.symbol ≡ some symbol)
      × (r.base.type ≡ some t)
      × (r.volume ≡ number_of volume)
      × (r.price ≡ number_of price)
      × (protection_verdict t price r.sl r.tp ≡ none)

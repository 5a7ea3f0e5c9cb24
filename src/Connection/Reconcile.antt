-- ===== src/Connection/Reconcile.antt =====
-- app/reconciliation.py: the broker's own view, as a reconnect asks for it (without a magic number and
-- for the last 24 hours).
use mt5_gateway.Prelude.{ℕ, ◌-◌, Option, none, some, List, [], ◌∷◌}
use mt5_gateway.Json.{Message, lit, shown_int}
use mt5_gateway.Flow.{runtime_error}
use mt5_gateway.Host.{CallError, Position, Order, Deal, Host}
use mt5_gateway.World.{Exec, pure, raise, gets, ◌>>=◌, serialized, clock}

-- 24 hours, in milliseconds
abbrev pub lookback : ℕ
lookback = 86400000

pub record Snapshot : Type 0 where
  pub as_of : ℕ
  pub positions : List Position
  pub orders : List Order
  pub deals : List Deal

abbrev shown_error : Option CallError → Message
shown_error none = lit "None" ∷ []
shown_error (some e) = lit "(" ∷ shown_int e.code ∷ lit ", " ∷ lit e.message ∷ lit ")" ∷ []

unfoldable pub reconciliation_failed : Option CallError → Message
reconciliation_failed e = lit "MT5 reconciliation failed: " ∷ shown_error e

module _ {S : Type 0} where
  -- All three answers are needed.
  unfoldable pub snapshot :
      ℕ → Option (List Position) → Option (List Order) → Option (List Deal) → Exec S Snapshot
  snapshot as_of (some positions) (some orders) (some deals) =
      pure (record { as_of = as_of; positions = positions; orders = orders; deals = deals })
  snapshot as_of _ _ _ = do
    error ← gets (λ w. w.last_call_error)
    raise (runtime_error (reconciliation_failed error))

  unfoldable pub reconcile : Host S → Exec S Snapshot
  reconcile h = do
    now ← clock h
    end ← clock h
    positions ← serialized h h.all_positions
    orders ← serialized h h.all_orders
    deals ← serialized h (h.deals_between (now - lookback) end)
    snapshot end positions orders deals

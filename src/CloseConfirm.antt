-- ===== src/CloseConfirm.antt =====
-- app/close_confirm.py: what a close that the broker acknowledged was executed at. Deals and their
-- tickets are looked up in the history until the deadline; the rounds are bounded by fuel, and
-- running out of it counts as the deadline, which CloseConfirm/Deadline.antt shows never to decide.
pub mod Found
pub mod Deadline
use mt5_gateway.Prelude.{
  ℕ, zero, suc, ◌+◌, String, Bool, Option, none, some, List, [], ◌∷◌, select, ltb, leb, ◌==◌, ◌&&◌,
  ◌||◌, not, if◌then◌else◌, pos,
}
use mt5_gateway.Json.{Json, int, float, Dict, get, put, is_truthy}
use mt5_gateway.Validation.{amount}
use mt5_gateway.Host.{Host, Config, Deal}
use mt5_gateway.World.{Exec, pure, ◌>>=◌, ◌>>◌, serialized, monotonic, sleep}
use mt5_gateway.Order.Fill.{rescue}

-- `_CLOSING_ENTRIES`
abbrev pub is_closing_entry : ℕ → Bool
is_closing_entry n = (n == 1) || (n == 2) || (n == 3)

-- `max(closing, key=…, default=None)`: the first of the newest.
unfoldable pub newer : Deal → List Deal → Deal
newer best [] = best
newer best (x ∷ xs) = newer (if ltb best.time_msc x.time_msc then x else best) xs

unfoldable pub newest : List Deal → Option Deal
newest [] = none
newest (x ∷ xs) = some (newer x xs)

-- `deals[0]`, if it has a price
unfoldable pub named_deal : Option (List Deal) → Option Deal
named_deal (some (x ∷ xs)) = if x.price == 0 then none else some x
named_deal _ = none

abbrev listed_deals : Option (List Deal) → List Deal
listed_deals none = []
listed_deals (some xs) = xs

unfoldable pub closing_of : ℕ → Option (List Deal) → List Deal
closing_of order_ticket deals =
    let closing =
      select (λ x. is_closing_entry x.entry && not (x.price == 0)) (listed_deals deals) in
    if order_ticket == 0 then closing else select (λ x. x.order == order_ticket) closing

-- `d.get(key) or 0` for a ticket
abbrev pub ticket_of : Json → ℕ
ticket_of (int (pos n)) = n
ticket_of _ = 0

module _ {S : Type 0} (h : Host S) where
  unfoldable pub deal_named : ℕ → Exec S (Option Deal)
  deal_named deal_ticket =
      if deal_ticket == 0
      then pure none
      else do deals ← serialized h (h.deals_of_ticket deal_ticket); pure (named_deal deals)

  unfoldable pub closing_deal : ℕ → ℕ → ℕ → Exec S (Option Deal)
  closing_deal position_ticket order_ticket deal_ticket = do
    named ← deal_named deal_ticket
    elim named [
      | some x ↦ pure (some x)
      | none ↦ do
        deals ← serialized h (h.deals_of_position position_ticket)
        pure (newest (closing_of order_ticket deals))
    ]

-- The result with the deal's price, ticket and, if it had none, volume.
unfoldable pub confirmed : Deal → Dict → Dict
confirmed x d =
    let priced = put "deal" (int (pos x.ticket)) (put "price" (float (amount x.price)) d) in
    if is_truthy (get "volume" priced)
    then priced
    else put "volume" (float (amount x.volume)) priced

module _ {S : Type 0} (h : Host S) (cfg : Config) (position_ticket : ℕ) where
  unfoldable pub poll_close : ℕ → ℕ → Dict → Exec S (String × Dict)
  poll_close zero deadline d = pure ("unresolved", d)
  poll_close (suc fuel) deadline d =
      let again = poll_close fuel deadline d in
      do
        deal ←
            rescue none (
              closing_deal h position_ticket (ticket_of (get "order" d)) (ticket_of (get "deal" d)))
        elim deal [
          | some x ↦ pure ("deal", confirmed x d)
          | none ↦ do
            now ← monotonic h
            if leb deadline now
                then pure ("unresolved", d)
                else (sleep h cfg.fill_confirm_poll_ms >> again)
        ]

  unfoldable pub confirm_close : Dict → Exec S (String × Dict)
  confirm_close d =
      if is_truthy (get "price" d) && is_truthy (get "deal" d) then pure ("order_send", d) else do
        now ← monotonic h
        poll_close (cfg.fill_confirm_timeout_ms + 1) (now + cfg.fill_confirm_timeout_ms) d

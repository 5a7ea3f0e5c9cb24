-- ===== src/Order/Expiry.antt =====
-- app/order_time.py: an expiry is sent as broker time, and an offset is derived from a moving quote
-- only where no usable one is known.
use mt5_gateway.Prelude.{
  pos, ℕ, zero, suc, ◌-◌, ◌*◌, String, Option, none, some, ltb, ◌==◌, not, ◌&&◌, if◌then◌else◌,
}
use mt5_gateway.Json.{Json, null}
use mt5_gateway.Convert.{int_of}
use mt5_gateway.ServerTime.{derive_from_tick, offset_usable_for_gtd, utc_epoch_to_server}
use mt5_gateway.Host.{Host, Library, Config, Tick, TradeRequest, order_time_specified}
use mt5_gateway.World.{Exec, pure, lift, gets, modify, ◌>>=◌, ◌>>◌, serialized, clock, sleep}

-- `tick_time_ms`
unfoldable pub tick_time_ms : Option Tick → Option ℕ
tick_time_ms none = none
tick_time_ms (some t) =
    if not (t.time_msc == 0)
    then some t.time_msc
    else if not (t.time == 0)
    then some (t.time * 1000)
    else none

-- `current and previous and current > previous`
unfoldable pub advanced : Option ℕ → Option ℕ → Option ℕ
advanced (some p) (some c) = if not (c == 0) && not (p == 0) && ltb p c then some c else none
advanced _ _ = none

module _ {S : Type 0} (h : Host S) (cfg : Config) where
  unfoldable pub read_tick_ms : String → Exec S (Option ℕ)
  read_tick_ms symbol = do tick ← serialized h (h.symbol_info_tick symbol); pure (tick_time_ms tick)

  -- The offset's derivation at the clock's present reading.
  unfoldable pub derive_now : String → Option ℕ → Exec S (Unit {0})
  derive_now symbol tick = do
    now ← clock h
    modify (λ w. record w { offset = (derive_from_tick cfg.time symbol tick now w.offset).1 })

  -- The rounds that are left.
  unfoldable pub await_live_quote : ℕ → String → Option ℕ → Exec S (Unit {0})
  await_live_quote zero symbol previous = pure tt
  await_live_quote (suc rounds) symbol previous =
      let again = await_live_quote rounds symbol in
      do
        (if ltb 0 cfg.derive_delay_ms then sleep h cfg.derive_delay_ms else pure tt)
        current ← read_tick_ms symbol
        elim (advanced previous current) [
          | some t ↦ derive_now symbol (some t)
          | none ↦ again current
        ]

  unfoldable pub derive_from_live_quote : String → Exec S (Unit {0})
  derive_from_live_quote symbol = do
    previous ← read_tick_ms symbol
    await_live_quote (cfg.derive_attempts - 1) symbol previous

  -- An expiry that is not null. Without an offset the conversion is refused before it reads the
  -- epoch.
  unfoldable pub set_expiration : Library → Json → String → TradeRequest → Exec S TradeRequest
  set_expiration lib expiration symbol r = do
    now ← clock h
    usable ← gets (λ w. offset_usable_for_gtd cfg.time w.offset now)
    (if usable then pure tt else derive_from_live_quote symbol)
    later ← clock h
    offset ← gets (λ w. w.offset)
    epoch ←
        (if offset_usable_for_gtd cfg.time offset later
          then lift (int_of lib expiration)
          else pure (pos 0))
    server ← lift (utc_epoch_to_server cfg.time offset later epoch)
    pure (record r { type_time = some order_time_specified; expiration = some server })

  -- `apply_expiration` for a new order: `expiration` is the body's value of that name.
  unfoldable pub apply_expiration : Library → Json → String → TradeRequest → Exec S TradeRequest
  apply_expiration lib null symbol r = pure r
  apply_expiration lib expiration symbol r = set_expiration lib expiration symbol r

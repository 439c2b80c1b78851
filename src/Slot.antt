-- ===== src/Slot.antt =====
-- internal/slot: the slot sources, and what their tickers emit.
pub mod Ticker
pub mod Unix
pub mod Tests
use broadauth.Base.{
  ℕ, ◌*◌, ◌%◌, ◌^◌, ◌>>=◌, ◌/◌, Option, some, none, Bool, ltb, nat_eqb, if◌then◌else◌, List, [],
  ◌∷◌, Result, ok, err, panic, polling_interval,
}

-- The struct `BeaconChainSlotSource`, its period in nanoseconds.
pub record BeaconChain : Type 0 where
  pub polling_period : ℕ

unfoldable pub new_beacon_chain : ℕ → Result BeaconChain
new_beacon_chain interval =
    if ltb interval 2000000000
    then err polling_interval
    else ok (record { polling_period = interval })

-- A tick of the ticker, which remembers the last slot that it emitted: the emitted slot, and the
-- slot remembered. A header that cannot be fetched skips the tick.
unfoldable pub beacon_tick : Option ℕ → ℕ → Option ℕ × ℕ
beacon_tick none last = (none, last)
beacon_tick (some slot) last = if nat_eqb slot last then (none, last) else (some slot, slot)

abbrev emitted : Option ℕ → List ℕ → List ℕ
emitted none rest = rest
emitted (some slot) rest = slot ∷ rest

-- The goroutine of `Ticker` over the headers that it sees, from `lastSlot`.
unfoldable pub beacon_ticker : List (Option ℕ) → ℕ → List ℕ
unfolding beacon_tick
beacon_ticker [] last = []
beacon_ticker (header ∷ headers) last =
    emitted (beacon_tick header last).0 (beacon_ticker headers (beacon_tick header last).1)

-- `UnixEpochSlotSource.GetSlot`, by the milliseconds of the clock; a duration of 0 panics.
unfoldable pub unix_slot : ℕ → ℕ → Result ℕ
unix_slot duration_milli now = if nat_eqb duration_milli 0 then panic else ok (now / duration_milli)

-- `time.Duration(durationMilli) * time.Millisecond`, in 64 bits, of which `NewTicker` takes only
-- positive values.
unfoldable pub unix_period : ℕ → Result ℕ
unix_period duration_milli =
    let period = (duration_milli * 1000000) % 2 ^ 64 in
    if nat_eqb period 0 then panic else (if ltb period (2 ^ 63) then ok period else panic)

abbrev pub with_slot : Result ℕ → Result (List ℕ) → Result (List ℕ)
with_slot slot rest = slot >>= λ s. rest >>= λ slots. ok (s ∷ slots)

-- The goroutine of the Unix source's `Ticker` over the milliseconds of the clock at the ticks that
-- it takes.
unfoldable pub unix_ticks : ℕ → List ℕ → Result (List ℕ)
unfolding unix_slot
unix_ticks duration_milli [] = ok []
unix_ticks duration_milli (now ∷ nows) =
    with_slot (unix_slot duration_milli now) (unix_ticks duration_milli nows)

unfoldable pub unix_ticker : ℕ → List ℕ → Result (List ℕ)
unfolding unix_period unix_ticks
unix_ticker duration_milli nows = unix_period duration_milli >>= λ _. unix_ticks duration_milli nows

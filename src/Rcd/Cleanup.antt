-- ===== src/Rcd/Cleanup.antt =====
-- `cleanupWorker`: at each tick it drops the unverified messages of the slots that are too old.
pub mod Retained
use broadauth.Base.{
  ℕ, ◌+◌, Bytes, List, [], ◌∷◌, Map, Bool, ltb, if◌then◌else◌, Result, ok, err, panic, running,
}
use broadauth.Rcd.{Env, Rcd, KeyState, add_64}
use broadauth.Rcd.Keys.{get_slot}

-- `key.(uint64)+retentionThreshold < currentSlot`.
unfoldable pub is_stale : ℕ → ℕ → ℕ → Bool
is_stale delay current slot = ltb (add_64 slot (add_64 delay 20)) current

-- `Range` with its deletions.
unfoldable pub sweep : ℕ → ℕ → Map ℕ (List Bytes) → Map ℕ (List Bytes)
sweep delay current [] = []
sweep delay current ((slot, items) ∷ m) =
    if is_stale delay current slot
    then sweep delay current m
    else (slot, items) ∷ sweep delay current m

unfoldable pub cleanup : Result ℕ × KeyState → Rcd → Rcd
unfolding sweep
cleanup (ok current, ks) r = record r {
  keys = ks;
  unverified_msgs = sweep r.disclosure_delay current r.unverified_msgs;
}
cleanup (_, ks) r = record r { keys = ks }

unfoldable pub cleanup_step : Env → Rcd → Rcd
unfolding cleanup
cleanup_step env r = cleanup (get_slot env r.keys) r

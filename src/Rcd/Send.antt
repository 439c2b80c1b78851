-- ===== src/Rcd/Send.antt =====
-- What an RCD sends of its own: `broadcast`, `broadcastDeterministic`, `bufferForBatch`,
-- `flushBatch`, and the cases of `broadcastLoop`.
pub mod Deterministic
pub mod Batch
use broadauth.Base.{
  ℕ, suc, ◌+◌, ◌-◌, ◌%◌, ◌^◌, Bytes, List, [], ◌∷◌, ◌++◌, length, replicate, overwrite, Option,
  some, none, Bool, true, false, Result, ok, err, panic, running, ltb, nat_eqb, if◌then◌else◌,
}
use broadauth.Base.State.{M, carry, ◌>>=◌, ◌>>◌, pure, lift, gets, modify, when}
use broadauth.Message.{Message, new_message, kind_hmac, kind_data}
use broadauth.Bloom.{Filter, new_filter, to_bytes}
use broadauth.Bloom.Filled.{add_all}
use broadauth.Rcd.{Env, Rcd, Mode, deterministic, probabilistic, DisclosurePayload, add_64}
use broadauth.Rcd.Metered.{
  slot_key, marshalled, timed_broadcast, count_hmac, count_data, count_overhead, enqueue,
}

-- `copy(keyArray[:], key)` into a fresh `[32]byte`.
abbrev pub key_array : Bytes → Bytes
key_array key = overwrite key (replicate 32 0)

-- `uint64` subtraction of one.
abbrev pub pred_64 : ℕ → ℕ
pred_64 a = (a + 2 ^ 64 - 1) % 2 ^ 64

unfoldable pub buffer_for_batch : Bytes → M Rcd (Unit {0})
buffer_for_batch item = modify λ r. record r { message_buffer = r.message_buffer ++ (item ∷ []) }

module _ (env : Env) where
  -- The HMAC of `covered` under the key goes out in a message for the slot, and what is to be
  -- disclosed with the key is queued: the end of `broadcastDeterministic` and of `flushBatch`.
  unfoldable pub announce : ℕ → Bytes → Bytes → M Rcd (Unit {0})
  announce slot key covered = do
    modify (count_hmac env)
    id ← gets (λ r. r.id)
    bytes ←
        marshalled env (env.codec.marshal (new_message id slot kind_hmac (env.hmac key covered)))
    modify (count_overhead (length bytes))
    timed_broadcast env bytes
    delay ← gets (λ r. r.disclosure_delay)
    enqueue (record { message = covered; key = key_array key; target_slot = add_64 slot delay })

  unfoldable pub broadcast_deterministic : ℕ → Bytes → M Rcd (Unit {0})
  unfolding announce
  broadcast_deterministic fuel item = slot_key env fuel >>= λ sk. announce sk.0 sk.1 item

  unfoldable pub authenticate : ℕ → Mode → Bytes → M Rcd (Unit {0})
  unfolding broadcast_deterministic buffer_for_batch
  authenticate fuel deterministic item = broadcast_deterministic fuel item
  authenticate fuel probabilistic item = buffer_for_batch item

  unfoldable pub broadcast : ℕ → Bytes → M Rcd (Unit {0})
  unfolding authenticate
  broadcast fuel item = do
    sk ← slot_key env fuel
    id ← gets (λ r. r.id)
    bytes ← marshalled env (env.codec.marshal (new_message id (sk.0) kind_data item))
    modify (count_data (length bytes))
    timed_broadcast env bytes
    mode ← gets (λ r. r.mode)
    authenticate fuel mode item

  -- The buffer is emptied before anything that can fail.
  unfoldable pub flush_items : ℕ → ℕ → List Bytes → M Rcd (Unit {0})
  unfolding announce
  flush_items fuel slot [] = pure tt
  flush_items fuel slot (item ∷ items) = do
    modify (λ r. record r { message_buffer = [] })
    filter ←
        lift
          (add_all (new_filter env.float64 (length (item ∷ items)) env.error_rate) (item ∷ items))
    sk ← slot_key env fuel
    announce slot (sk.1) (to_bytes filter)

  unfoldable pub flush_batch : ℕ → ℕ → M Rcd (Unit {0})
  unfolding flush_items
  flush_batch fuel slot r = flush_items fuel slot r.message_buffer r

-- The cases of `broadcastLoop`'s select.
pub data Tick : Type 0 where
  traffic : Tick
  slot_tick : ℕ → Tick

-- The loop logs an error and goes on.
abbrev logged : Result (Unit {0}) × Rcd → Rcd
logged (a, r) = r

-- The goroutine of a slot tick is taken to run before the next case.
unfoldable pub broadcast_step : Env → ℕ → Tick → Rcd → Rcd
unfolding broadcast flush_batch
broadcast_step env fuel traffic r = logged (
    broadcast env fuel (env.payload_text r.id r.message_counter)
      (record r { message_counter = add_64 r.message_counter 1 }))
broadcast_step env fuel (slot_tick slot) r = logged (flush_batch env fuel (pred_64 slot) r)

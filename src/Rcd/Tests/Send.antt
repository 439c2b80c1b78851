-- ===== src/Rcd/Tests/Send.antt =====
-- Broadcasts, batches, disclosures and a cleanup on the toy outside.
use broadauth.Base.{
  ℕ, ◌+◌, ◌<◌, ◌≤◌, ◌≡◌, refl, Bytes, List, [], ◌∷◌, ◌++◌, replicate, some, none, ok, arith, true,
  load, nat_eq,
}
use broadauth.Hashchain.Spec.{iter}
use broadauth.Message.{new_message, kind_data, kind_hmac}
use broadauth.Bloom.{new_filter}
use broadauth.Rcd.{Rcd, KeyState, DisclosurePayload, deterministic, probabilistic}
use broadauth.Rcd.Keys.{current_slot_key, slot_round, advance}
use broadauth.Rcd.Send.{broadcast, flush_batch}
use broadauth.Rcd.Send.Deterministic.{Broadcasts, broadcast-Broadcasts}
use broadauth.Rcd.Send.Batch.{Up, Flushed, flush_batch-Flushed}
use broadauth.Rcd.Disclose.{worker_step}
use broadauth.Rcd.Disclose.Due.{Discloses, worker_step-Discloses}
use broadauth.Rcd.Cleanup.{cleanup_step}
use broadauth.Rcd.Cleanup.Retained.{cleanup_step-load}
use broadauth.Rcd.Tests.{toy_32, toy_env, up_env, seed_hash, slot_5_keys, rcd_0, to_wire, digest_32}

abbrev pub item : Bytes
item = 9 ∷ []

abbrev pub key_5 : Bytes
key_5 = iter toy_32 1 seed_hash

abbrev pub keys_after : ℕ → KeyState
keys_after calls = record slot_5_keys { slot_calls = calls }

abbrev data_wire : Bytes
data_wire = 16 ∷ 5 ∷ 0 ∷ 2 ∷ (replicate 16 1 ++ item)

abbrev hmac_wire : Bytes → Bytes
hmac_wire covered = 16 ∷ 5 ∷ 0 ∷ 0 ∷ (replicate 16 1 ++ digest_32 (key_5 ++ covered))

pub first_key :
    current_slot_key up_env 1 (replicate 16 1) 3 slot_5_keys ≡ (ok (5, key_5), keys_after 1)
unfolding current_slot_key slot_round advance
first_key = refl

second_key :
    current_slot_key up_env 1 (replicate 16 1) 3 (keys_after 1) ≡ (ok (5, key_5), keys_after 2)
unfolding current_slot_key slot_round advance
second_key = refl

data_out : up_env.codec.marshal (new_message (replicate 16 1) 5 kind_data item) ≡ some data_wire
unfolding to_wire
data_out = refl

hmac_out :
    up_env.codec.marshal (new_message (replicate 16 1) 5 kind_hmac (up_env.hmac key_5 item))
    ≡ some (hmac_wire item)
unfolding to_wire
hmac_out = refl

broadcast-Broadcasts_example :
    Broadcasts up_env 5 key_5 item data_wire
      (hmac_wire item)
      (keys_after 2)
      (rcd_0 deterministic)
      (broadcast up_env 1 item (rcd_0 deterministic))
broadcast-Broadcasts_example =
    broadcast-Broadcasts up_env 1 item (rcd_0 deterministic) 5 key_5 data_wire (keys_after 1)
      first_key data_out 5 key_5 (hmac_wire item) (keys_after 2) refl refl second_key hmac_out refl

-- An RCD with two messages in its buffer.
abbrev pub buffered : Rcd
buffered = record (rcd_0 probabilistic) { message_buffer = item ∷ (8 ∷ []) ∷ [] }

pub up_env-Up : Up up_env
unfolding to_wire
up_env-Up = record { marshals = λ m. (_, refl); delivers = λ i b. refl }

pub fresh_size : (new_filter (up_env.float64) 2 (up_env.error_rate)).m ≡ 20
unfolding new_filter
fresh_size = refl

flush_batch-Flushed_example :
    Flushed up_env 4 key_5 (item ∷ (8 ∷ []) ∷ []) buffered (flush_batch up_env 1 4 buffered)
flush_batch-Flushed_example =
    flush_batch-Flushed up_env 1 4 5 item ((8 ∷ []) ∷ []) buffered key_5 (keys_after 1) up_env-Up
      refl (omega (arith, fresh_size)) (omega (arith, fresh_size)) first_key

-- Two disclosures, for the slots 4 and 7.
abbrev queued : List DisclosurePayload
queued =
    record { message = item; key = key_5; target_slot = 4 }
    ∷ record { message = item; key = key_5; target_slot = 7 }
    ∷ []

abbrev queueing : Rcd
queueing = record (rcd_0 deterministic) { disclosure_messages = queued }

worker_step-Discloses_example :
    Discloses up_env 5 queued queueing
      (worker_step up_env 5 [] queueing).pending
      (worker_step up_env 5 [] queueing).rcd
worker_step-Discloses_example = worker_step-Discloses up_env 5 [] queueing

-- Messages kept for the slots 1 and 9, at the slot 30.
abbrev keeping : Rcd
keeping = record (rcd_0 deterministic) { unverified_msgs = (1, item ∷ []) ∷ (9, item ∷ []) ∷ [] }

cleanup_step-load_example :
    (1 + 2 + 20 < 30
      → load 1 (cleanup_step (toy_env (some 30) true) keeping).unverified_msgs ≡ none)
    × (30 ≤ 1 + 2 + 20
        → load 1 (cleanup_step (toy_env (some 30) true) keeping).unverified_msgs
          ≡ load 1 keeping.unverified_msgs)
cleanup_step-load_example =
    cleanup_step-load (toy_env (some 30) true) 30 1 keeping refl (omega arith)

-- ===== src/Rcd/Tests/Batch.antt =====
-- A batch on its way from one toy RCD to another, and two batches of one slot.
use broadauth.Base.{
  ℕ, ◌<◌, sym, subst, ◌≡◌, refl, Bytes, List, [], ◌∷◌, ◌++◌, replicate, load, store, delete, ap,
  ◌∙◌, bytes_eq, arith, true, some,
}
use broadauth.Hashchain.Spec.{iter}
use broadauth.Hashchain.Tests.{digest}
use broadauth.Bloom.{new_filter, to_bytes}
use broadauth.Message.{Message, new_message, kind_key_message}
use broadauth.Rcd.{add_64, Rcd, probabilistic}
use broadauth.Rcd.Send.{flush_batch}
use broadauth.Rcd.Send.Batch.{Flushed, flush_batch-Flushed}
use broadauth.Rcd.Receive.{handle_message, get_unverified}
use broadauth.Rcd.Receive.Batch.{passing, reports}
use broadauth.Rcd.Receive.Batched.{Verifiable, Batched, handle_batch-Batched}
use broadauth.Rcd.Delivery.Second.{handle_batch_second}
use broadauth.Rcd.Delivery.Stored.{handle_all, Carries, Stored, handle_all-Stored}
use broadauth.Rcd.Delivery.Batch.{BatchSent, batch_delivered}
use broadauth.Rcd.Tests.{toy_32, up_env, seed_hash, rcd_0, to_wire, of_wire}
use broadauth.Rcd.Tests.Receive.{full, full-IsFilter}
use broadauth.Rcd.Tests.Send.{item, key_5, keys_after, buffered, first_key, up_env-Up, fresh_size}

abbrev key_at : ℕ → Bytes
key_at k = iter toy_32 k seed_hash

abbrev batch : List Bytes
batch = item ∷ (8 ∷ []) ∷ []

flushed : Flushed up_env 4 key_5 batch buffered (flush_batch up_env 1 4 buffered)
flushed =
    flush_batch-Flushed up_env 1 4 5 item ((8 ∷ []) ∷ []) buffered key_5 (keys_after 1) up_env-Up
      refl (omega (arith, fresh_size)) (omega (arith, fresh_size)) first_key

fresh_rounds : (new_filter (up_env.float64) 2 (up_env.error_rate)).k ≡ 20
unfolding new_filter
fresh_rounds = refl

-- The receiver knows hash 1 of the chain, and the batch is under hash 2.
abbrev receiver : Rcd
receiver = record (rcd_0 probabilistic) { commitment_keys = (replicate 16 1, key_at 2) ∷ [] }

abbrev data_wire : Bytes → Bytes
data_wire text = 16 ∷ 4 ∷ 0 ∷ 2 ∷ (replicate 16 1 ++ text)

abbrev data_wires : List Bytes
data_wires = data_wire item ∷ data_wire (8 ∷ []) ∷ []

abbrev batch_wire : Bytes → Bytes
batch_wire filter = 16 ∷ 6 ∷ 0 ∷ 1 ∷ (replicate 16 1 ++ (key_at 1 ++ filter))

toy_BatchSent :
    BatchSent up_env 3 2 1 4 seed_hash
      (batch_wire (to_bytes (flushed.filter)))
      batch
      data_wires
      buffered
      receiver
      (flush_batch up_env 1 4 buffered)
unfolding to_wire iter load
toy_BatchSent = record {
  flushed = flushed;
  fits_slot = omega arith;
  fits_m = omega (arith, fresh_size);
  fits_k = omega (arith, fresh_rounds);
  whole_key = refl;
  earlier = omega arith;
  within = omega arith;
  near = omega arith;
  same_delay = refl;
  carried = (refl, (5, refl, omega arith), (refl, (5, refl, omega arith), tt));
  disclosed = refl;
  committed = refl;
}

batch_delivered_example :
    (handle_message up_env
      (batch_wire (to_bytes (flushed.filter)))
      (handle_message up_env toy_BatchSent.flushed.out
        (handle_all up_env data_wires receiver)).1).1.authenticated
    ≡ reports
        (replicate 16 1)
        (passing toy_BatchSent.flushed.filter (get_unverified 4 receiver) ++ batch)
        []
batch_delivered_example =
    batch_delivered up_env 3 2 1 4 5 5 seed_hash (batch_wire (to_bytes (flushed.filter))) batch
      data_wires buffered receiver (flush_batch up_env 1 4 buffered) toy_BatchSent refl refl refl

-- Two senders with a batch each for slot 4, under a filter that everything passes; their HMACs
-- are known.
abbrev batch_from : ℕ → ℕ → Message
batch_from id k = new_message (replicate 16 id) 6 kind_key_message (key_at k ++ to_bytes full)

abbrev batch_wire_from : ℕ → ℕ → Bytes
batch_wire_from id k = 16 ∷ 6 ∷ 0 ∷ 1 ∷ (replicate 16 id ++ (key_at k ++ to_bytes full))

abbrev mac_of : ℕ → Bytes
mac_of k = up_env.hmac (key_at k) (to_bytes full)

abbrev waiting : Rcd
waiting = record (rcd_0 probabilistic) {
  commitment_keys = (replicate 16 1, key_at 2) ∷ (replicate 16 2, key_at 1) ∷ [];
  received_hmacs = (mac_of 1, true) ∷ (mac_of 0, true) ∷ [];
  unverified_msgs = (4, item ∷ []) ∷ [];
}

waiting-Verifiable :
    Verifiable up_env
      (batch_wire_from 1 1)
      (batch_from 1 1)
      5
      (key_at 1)
      (key_at 2)
      full
      true
      waiting
unfolding of_wire iter load digest to_bytes
waiting-Verifiable = record {
  arrives = record { reads = refl; at = refl };
  is_key = refl;
  is_body = refl;
  whole_key = refl;
  mode = refl;
  known = refl;
  stored = refl;
  reaches = (1, omega arith, omega arith, refl);
  is_filter = full-IsFilter;
  fits_m = omega arith;
  fits_k = omega arith;
}

abbrev after_first : Rcd
after_first = (handle_message up_env (batch_wire_from 1 1) waiting).1

first-Batched :
    Batched up_env 4
      (replicate 16 1)
      (key_at 1)
      full
      waiting
      (handle_message up_env (batch_wire_from 1 1) waiting)
first-Batched =
    handle_batch-Batched up_env (batch_wire_from 1 1) (batch_from 1 1) 5 (key_at 1) (key_at 2) full
      true waiting waiting-Verifiable

other_mac : load (mac_of 0) (delete (mac_of 1) waiting.received_hmacs) ≡ some true
unfolding load delete iter to_bytes digest
other_mac = refl

other_commitment :
    load (replicate 16 2) (store (replicate 16 1) (key_at 1) waiting.commitment_keys)
    ≡ some (key_at 1)
unfolding load delete store iter
other_commitment = refl

-- One more item of the slot comes between the batches.
abbrev between : List Bytes
between = data_wire (8 ∷ []) ∷ []

between-Carries :
    Carries up_env
      (replicate 16 1)
      4
      after_first.disclosure_delay
      after_first.keys.slot_calls
      ((8 ∷ []) ∷ [])
      between
unfolding to_wire
between-Carries =
    (refl, (5, refl, subst (λ d. 5 < add_64 4 d) (sym first-Batched.same_delay) (omega arith)), tt)

between-Stored : Stored up_env 4 ((8 ∷ []) ∷ []) after_first (handle_all up_env between after_first)
between-Stored =
    handle_all-Stored up_env (replicate 16 1) 4 ((8 ∷ []) ∷ []) between after_first between-Carries

between-Verifiable :
    Verifiable up_env
      (batch_wire_from 2 0)
      (batch_from 2 0)
      5
      (key_at 0)
      (key_at 1)
      full
      true
      (handle_all up_env between after_first)
unfolding of_wire iter
between-Verifiable = record {
  arrives = record { reads = refl; at = refl };
  is_key = refl;
  is_body = refl;
  whole_key = refl;
  mode = between-Stored.mode ∙ first-Batched.same_mode;
  known = ap (load (mac_of 0)) (between-Stored.received_hmacs ∙ first-Batched.spent) ∙ other_mac;
  stored =
      ap (load (replicate 16 2)) (between-Stored.commitment_keys ∙ first-Batched.committed)
      ∙ other_commitment;
  reaches = (1, omega arith, omega arith, refl);
  is_filter = full-IsFilter;
  fits_m = omega arith;
  fits_k = omega arith;
}

handle_batch_second_example :
    (handle_message up_env
      (batch_wire_from 2 0)
      (handle_all up_env between after_first)).1.authenticated
    ≡ reports (replicate 16 2) (passing full ((8 ∷ []) ∷ [])) after_first.authenticated
handle_batch_second_example =
    handle_batch_second up_env (batch_wire_from 1 1) (batch_wire_from 2 0) (replicate 16 1)
      (batch_from 1 1) (batch_from 2 0) 5 5 (key_at 1) (key_at 0) (key_at 2) (key_at 1) full full
      true true ((8 ∷ []) ∷ []) between waiting waiting-Verifiable between-Carries
      between-Verifiable refl

handle_batch-Batched_example :
    Batched up_env 4
      (replicate 16 1)
      (key_at 1)
      full
      waiting
      (handle_message up_env (batch_wire_from 1 1) waiting)
handle_batch-Batched_example =
    handle_batch-Batched up_env (batch_wire_from 1 1) (batch_from 1 1) 5 (key_at 1) (key_at 2) full
      true waiting waiting-Verifiable

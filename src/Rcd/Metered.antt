-- ===== src/Rcd/Metered.antt =====
-- The counters of benchmark mode, and the steps that several methods share: a call on the slot
-- keys, marshalling, a timed broadcast, and a send into the channel of disclosures.
use broadauth.Base.{
  ℕ, ◌+◌, Bytes, [], ◌∷◌, ◌++◌, length, Option, some, none, Bool, true, false, Result, ok, err,
  marshal_failed, broadcast_failed, queue_full, ltb, if◌then◌else◌,
}
use broadauth.Base.State.{M}
use broadauth.Rcd.{Env, Rcd, KeyState, DisclosurePayload, add_64}
use broadauth.Rcd.Keys.{current_slot_key}

-- A method of the fields that `chainMutex` guards.
unfoldable pub with_keys_result : {A : Type 0} → Result A × KeyState → Rcd → Result A × Rcd
with_keys_result (a, ks) r = (a, record r { keys = ks })

unfoldable pub when_benchmarking : (Rcd → Rcd) → Rcd → Rcd
when_benchmarking f r = if r.enable_benchmarking then f r else r

module _ (env : Env) where
  unfoldable pub count_hmac : Rcd → Rcd
  unfolding when_benchmarking
  count_hmac = when_benchmarking λ r. record r {
    metrics = record (r.metrics) {
      hmac_duration = add_64 r.metrics.hmac_duration (env.elapsed r.clock_reads);
      hmac_count = add_64 r.metrics.hmac_count 1;
    };
    clock_reads = r.clock_reads + 1;
  }

  unfoldable pub count_verify : Rcd → Rcd
  unfolding when_benchmarking
  count_verify = when_benchmarking λ r. record r {
    metrics = record (r.metrics) {
      verify_duration = add_64 r.metrics.verify_duration (env.elapsed r.clock_reads);
      verify_count = add_64 r.metrics.verify_count 1;
    };
    clock_reads = r.clock_reads + 1;
  }

  unfoldable pub count_broadcast : Rcd → Rcd
  unfolding when_benchmarking
  count_broadcast = when_benchmarking λ r. record r {
    metrics = record (r.metrics) {
      broadcast_duration = add_64 r.metrics.broadcast_duration (env.elapsed r.clock_reads);
      broadcast_count = add_64 r.metrics.broadcast_count 1;
    };
    clock_reads = r.clock_reads + 1;
  }

  unfoldable pub slot_key : ℕ → M Rcd (ℕ × Bytes)
  unfolding with_keys_result
  slot_key fuel r = with_keys_result (current_slot_key env fuel r.id r.hashchain_len r.keys) r

  unfoldable pub marshalled : Option Bytes → M Rcd Bytes
  marshalled none r = (err marshal_failed, r)
  marshalled (some b) r = (ok b, r)

  -- `broadcaster.Broadcast`, by whether the network takes the datagram.
  unfoldable pub transmit : Bool → Bytes → M Rcd (Unit {0})
  transmit true b r = (ok tt, record r { sent = b ∷ r.sent; sends = r.sends + 1 })
  transmit false b r = (err broadcast_failed, record r { sends = r.sends + 1 })

  unfoldable pub timed : Result (Unit {0}) × Rcd → Result (Unit {0}) × Rcd
  unfolding count_broadcast
  timed (a, r) = (a, count_broadcast r)

  unfoldable pub timed_broadcast : Bytes → M Rcd (Unit {0})
  unfolding timed transmit
  timed_broadcast b r = timed (transmit (env.network r.sends b) b r)

-- The counters of a data message, and of a message that is overhead.
unfoldable pub count_data : ℕ → Rcd → Rcd
unfolding when_benchmarking
count_data len = when_benchmarking λ r. record r {
  metrics = record (r.metrics) {
    bytes_sent = add_64 r.metrics.bytes_sent len;
    messages_sent = add_64 r.metrics.messages_sent 1;
  };
}

unfoldable pub count_overhead : ℕ → Rcd → Rcd
unfolding when_benchmarking
count_overhead len = when_benchmarking λ r. record r {
  metrics = record (r.metrics) {
    bytes_sent = add_64 r.metrics.bytes_sent len;
    overhead_bytes = add_64 r.metrics.overhead_bytes len;
  };
}

-- `select { case r.disclosureMessages <- p: default: … }`.
unfoldable pub enqueue : DisclosurePayload → M Rcd (Unit {0})
enqueue p r =
    if ltb (length r.disclosure_messages) r.queue_cap
    then (ok tt, record r { disclosure_messages = r.disclosure_messages ++ (p ∷ []) })
    else (err queue_full, r)

-- ===== src/Rcd/Benchmark.antt =====
-- `benchmarkWorker`: every five seconds a line with the rates and averages since the last one. The
-- memory statistics and the clock are taken from outside.
pub mod Telescope
use broadauth.Base.{ℕ, ◌-◌, ◌^◌, List, [], ◌∷◌, ℤ, pos, negsuc, ltb, ltb_ℤ, if◌then◌else◌}
use broadauth.Rcd.{Metrics}
use broadauth.Rcd.Receive.{sub_64}

-- Go's `float64`: the conversions of a `uint64` and of an `int64`, and division.
pub record Floats : Type 1 where
  pub F : Type 0
  pub of_uint : ℕ → F
  pub of_int : ℤ → F
  pub div : F → F → F

-- What a tick sees apart from the counters: the seconds since the start, and `m.Alloc`.
pub record Seen (fl : Floats) : Type 0 where
  pub elapsed : fl.F
  pub alloc : ℕ

-- A duration and a count, each since the last line.
pub record Work : Type 0 where
  pub duration : ℕ
  pub count : ℕ

-- What was added to the counters since the last line, in 64-bit arithmetic.
pub record Deltas : Type 0 where
  pub bytes_sent : ℕ
  pub bytes_received : ℕ
  pub messages_sent : ℕ
  pub hmac : Work
  pub verify : Work
  pub broadcast : Work

unfoldable pub deltas : Metrics → Metrics → Deltas
deltas current prev = record {
  bytes_sent = sub_64 current.bytes_sent prev.bytes_sent;
  bytes_received = sub_64 current.bytes_received prev.bytes_received;
  messages_sent = sub_64 current.messages_sent prev.messages_sent;
  hmac = record {
    duration = sub_64 current.hmac_duration prev.hmac_duration;
    count = sub_64 current.hmac_count prev.hmac_count;
  };
  verify = record {
    duration = sub_64 current.verify_duration prev.verify_duration;
    count = sub_64 current.verify_count prev.verify_count;
  };
  broadcast = record {
    duration = sub_64 current.broadcast_duration prev.broadcast_duration;
    count = sub_64 current.broadcast_count prev.broadcast_count;
  };
}

-- The `int64` of a bit pattern.
abbrev pub signed_64 : ℕ → ℤ
signed_64 a = if ltb a (2 ^ 63) then pos a else negsuc (2 ^ 64 - 1 - a)

-- A printed line, its numbers before they are rounded.
pub record Report (fl : Floats) : Type 0 where
  pub elapsed : fl.F
  pub tx_rate : fl.F
  pub rx_rate : fl.F
  pub msg_rate : fl.F
  pub mem_usage : fl.F
  pub overhead : ℕ
  pub avg_hmac : fl.F
  pub avg_verify : fl.F
  pub avg_broadcast : fl.F

module _ (fl : Floats) where
  open fl use {F, of_uint, of_int, div}

  unfoldable pub rate : ℕ → F
  rate delta = div (of_uint delta) (of_uint 5)

  -- The microseconds of one piece of work, and 0 if there was none.
  unfoldable pub average : Work → F
  average w =
      if ltb_ℤ (pos 0) (signed_64 w.count)
      then div (div (of_int (signed_64 w.duration)) (of_int (signed_64 w.count))) (of_uint 1000)
      else of_uint 0

  unfoldable pub line : Seen fl → Metrics → Deltas → Report fl
  unfolding rate average
  line seen current d = record {
    elapsed = seen.elapsed;
    tx_rate = rate d.bytes_sent;
    rx_rate = rate d.bytes_received;
    msg_rate = rate d.messages_sent;
    mem_usage = div (div (of_uint seen.alloc) (of_uint 1024)) (of_uint 1024);
    overhead = current.overhead_bytes;
    avg_hmac = average d.hmac;
    avg_verify = average d.verify;
    avg_broadcast = average d.broadcast;
  }

  -- The loop over its ticks, from the counters of the last line.
  unfoldable pub benchmark_worker : List (Seen fl × Metrics) → Metrics → List (Report fl)
  unfolding deltas line
  benchmark_worker [] prev = []
  benchmark_worker ((seen, current) ∷ ticks) prev =
      line seen current (deltas current prev) ∷ benchmark_worker ticks current

-- ===== src/Rcd/Life.antt =====
-- How an RCD is made, started and stopped: `New`, `Start`, `Stop`. What it opens is a flag for each
-- of the Ethereum client, the broadcaster and the receiver.
pub mod Made
pub mod Stopping
use broadauth.Base.{
  ℕ, ◌+◌, ◌-◌, ◌*◌, Bytes, List, [], ◌∷◌, length, replicate, ℤ, pos, negsuc, none, Bool, true,
  false, Result, Error, ok, err, panic, running, ltb, nat_eqb, ◌||◌, if◌then◌else◌, dial_failed,
  contract_failed, invalid_length,
}
use broadauth.Base.State.{M, carry, ◌>>=◌, ◌>>◌, pure, fail, lift, modify, when}
use broadauth.Broadcast.{Opening, new_udp, new_udp_receiver}
use broadauth.Slot.{new_beacon_chain}
use broadauth.Rcd.{Rcd, Mode, KeyState, Metrics}

-- `SimulationTime` is a `time.Duration`.
pub record Config : Type 0 where
  pub uuid : Bytes
  pub owner_addr : Bytes
  pub eth_url : Bytes
  pub contract_addr : Bytes
  pub hashchain_len : ℤ
  pub disclosure_delay : ℕ
  pub simulation_time : ℤ
  pub mode : Mode
  pub enable_benchmarking : Bool

pub record Handles : Type 0 where
  pub client : Bool
  pub broadcaster : Bool
  pub receiver : Bool

abbrev pub none_open : Handles
none_open = record { client = false; broadcaster = false; receiver = false }

-- What go-ethereum and `net` answer while an RCD is made.
pub record Dials : Type 0 where
  pub client : Bool
  pub contract : Bool
  pub broadcaster : Opening
  pub receiver : Opening

unfoldable pub dial : Bool → M Handles (Unit {0})
dial answer h = if answer then (ok tt, record h { client = true }) else (err dial_failed, h)

-- The contract is only bound to its address; an error closes the client.
unfoldable pub bind_contract : Bool → M Handles (Unit {0})
bind_contract answer h =
    if answer then (ok tt, h) else (err contract_failed, record h { client = false })

unfoldable pub open_broadcaster : Opening → M Handles (Unit {0})
unfolding new_udp
open_broadcaster o h =
    let (made, is_open) = new_udp o h.broadcaster in (made, record h { broadcaster = is_open })

unfoldable pub open_receiver : Opening → M Handles (Unit {0})
unfolding new_udp
open_receiver o h =
    let (made, is_open) = new_udp_receiver o h.receiver in (made, record h { receiver = is_open })

-- `cfg.HashchainLen <= 0 || cfg.HashchainLen > 10*1024`.
unfoldable pub checked_length : ℤ → Result ℕ
checked_length (pos n) = if nat_eqb n 0 || ltb (10 * 1024) n then err invalid_length else ok n
checked_length (negsuc n) = err invalid_length

-- Go's zero values for what `New` does not set.
abbrev pub zero_keys : KeyState
zero_keys = record {
  hash_chain = none;
  cached_key = replicate 32 0;
  cached_key_slot = 0;
  slot_calls = 0;
  owner_calls = 0;
}

abbrev pub zero_metrics : Metrics
zero_metrics = record {
  bytes_sent = 0;
  bytes_received = 0;
  messages_sent = 0;
  messages_received = 0;
  overhead_bytes = 0;
  hmac_duration = 0;
  hmac_count = 0;
  verify_duration = 0;
  verify_count = 0;
  broadcast_duration = 0;
  broadcast_count = 0;
}

abbrev pub fresh_rcd : Config → ℕ → Rcd
fresh_rcd cfg hashchain_len = record {
  id = cfg.uuid;
  hashchain_len = hashchain_len;
  disclosure_delay = cfg.disclosure_delay;
  message_counter = 0;
  keys = zero_keys;
  disclosure_messages = [];
  queue_cap = 1024;
  received_hmacs = [];
  commitment_keys = [];
  unverified_msgs = [];
  mode = cfg.mode;
  message_buffer = [];
  enable_benchmarking = cfg.enable_benchmarking;
  metrics = zero_metrics;
  sent = [];
  sends = 0;
  contract_calls = 0;
  clock_reads = 0;
  authenticated = [];
}

-- `New`. The slot source polls every three seconds.
unfoldable pub new_from_config : Config → Dials → M Handles Rcd
unfolding dial bind_contract open_broadcaster open_receiver checked_length new_beacon_chain
new_from_config cfg d = do
  dial (d.client)
  bind_contract (d.contract)
  open_broadcaster (d.broadcaster)
  open_receiver (d.receiver)
  hashchain_len ← lift (checked_length (cfg.hashchain_len))
  lift (new_beacon_chain 3000000000)
  pure (fresh_rcd cfg hashchain_len)

pub data Worker : Type 0 where
  benchmark_worker broadcast_loop disclosure_worker cleanup_worker : Worker

-- What runs after `Start`, and what `wg` counts. The handler of the receiver is set before the
-- receiver starts, which therefore has no error.
pub record Running : Type 0 where
  pub workers : List Worker
  pub wg : ℕ

unfoldable pub start : Rcd → Running
start r =
    let workers = broadcast_loop ∷ disclosure_worker ∷ cleanup_worker ∷ [] in
    if r.enable_benchmarking
    then record { workers = benchmark_worker ∷ workers; wg = 4 }
    else record { workers = workers; wg = 3 }

-- A worker that returns calls `wg.Done`, which panics below 0.
unfoldable pub done : ℕ → Result ℕ
done n = if nat_eqb n 0 then panic else ok (n - 1)

-- What becomes of a worker once the context is cancelled: it returns, it stays in a call that does
-- not end, such as `CurrentSlotKey` with the slot 0, or it panics, which ends the program.
pub data WorkerEnd : Type 0 where
  returns stays dies : WorkerEnd

-- The rest of the workers, unless `wg.Done` panicked.
unfoldable pub result_then : Result ℕ → (ℕ → Result ℕ) → Result ℕ
result_then (ok left) k = k left
result_then r k = r

unfoldable pub one_done : WorkerEnd → (ℕ → Result ℕ) → ℕ → Result ℕ
unfolding done result_then
one_done returns k wg = result_then (done wg) k
one_done stays k wg = k wg
one_done dies k wg = panic

unfoldable pub all_done : (Worker → WorkerEnd) → List Worker → ℕ → Result ℕ
unfolding one_done
all_done ends [] wg = ok wg
all_done ends (w ∷ ws) wg = one_done (ends w) (λ left. all_done ends ws left) wg

unfoldable pub waited : Result ℕ → M Handles (Unit {0})
waited (ok left) h = if nat_eqb left 0 then (ok tt, record h { client = false }) else (running, h)
waited _ h = (panic, h)

-- `Stop` cancels the context, waits for `wg` to be 0, and closes the client; `running` is a wait
-- that never ends.
unfoldable pub stop : (Worker → WorkerEnd) → Running → M Handles (Unit {0})
unfolding all_done waited
stop ends s h = waited (all_done ends s.workers s.wg) h

-- ===== src/Rcd.antt =====
-- internal/rcd/rcd.go: the state of an RCD and what it takes from outside. Its children hold the
-- methods: `Keys` the hash chain and the slot keys, `Send` the broadcasts, `Disclose` the worker
-- that reveals keys, `Receive` the message handler, `Cleanup` the worker that drops old messages,
-- `System` the goroutines together, `Life` the making, start and stop, `Benchmark` the report.
pub mod Keys
pub mod Metered
pub mod Send
pub mod Disclose
pub mod Receive
pub mod Cleanup
pub mod System
pub mod Life
pub mod Benchmark
pub mod Delivery
pub mod Tests
use broadauth.Base.{ℕ, ◌+◌, ◌%◌, ◌^◌, ◌≡◌, Bytes, List, ℤ, Option, some, Bool, Map, length}
use broadauth.Hashchain.{Hasher, Linear}
use broadauth.Message.{Codec}
use broadauth.Bloom.{Float64}

pub data Mode : Type 0 where
  deterministic probabilistic : Mode

-- The atomic counters, all of 64 bits.
pub record Metrics : Type 0 where
  pub bytes_sent : ℕ
  pub bytes_received : ℕ
  pub messages_sent : ℕ
  pub messages_received : ℕ
  pub overhead_bytes : ℕ
  pub hmac_duration : ℕ
  pub hmac_count : ℕ
  pub verify_duration : ℕ
  pub verify_count : ℕ
  pub broadcast_duration : ℕ
  pub broadcast_count : ℕ

pub record DisclosurePayload : Type 0 where
  pub message : Bytes
  pub key : Bytes
  pub target_slot : ℕ

-- The fields that `chainMutex` guards, with the number of answers taken so far from the slot
-- source and from the owner.
pub record KeyState : Type 0 where
  pub hash_chain : Option Linear
  pub cached_key : Bytes
  pub cached_key_slot : ℕ
  pub slot_calls : ℕ
  pub owner_calls : ℕ

-- The struct `RCD`. `queue_cap` is the capacity of the channel `disclosureMessages`. The last five fields are what it has exchanged with the outside: the
-- datagrams that went out, newest first; the calls made of the broadcaster, of the contract and
-- of the clock; and the messages reported as authentic, newest first, each with its sender.
pub record Rcd : Type 0 where
  pub id : Bytes
  pub hashchain_len : ℕ
  pub disclosure_delay : ℕ
  pub message_counter : ℕ
  pub keys : KeyState
  pub disclosure_messages : List DisclosurePayload
  pub queue_cap : ℕ
  pub received_hmacs : Map Bytes Bool
  pub commitment_keys : Map Bytes Bytes
  pub unverified_msgs : Map ℕ (List Bytes)
  pub mode : Mode
  pub message_buffer : List Bytes
  pub enable_benchmarking : Bool
  pub metrics : Metrics
  pub sent : List Bytes
  pub sends : ℕ
  pub contract_calls : ℕ
  pub clock_reads : ℕ
  pub authenticated : List (Bytes × Bytes)

-- What the RCD calls and does not implement: SHA-256 and HMAC-SHA-256, encoding/json, the floats
-- of package math, the text that `fmt.Sprintf` makes of a UUID and a counter, and the answers of the slot
-- source, the owner, the network, the contract and the clock, each given by the number of the call. `none` is a returned error. An answer of the
-- owner is as long as was asked for, since `io.ReadFull` fails otherwise.
pub record Env : Type 1 where
  pub hasher : Hasher
  pub size_32 : hasher.size ≡ 32
  pub hmac : Bytes → Bytes → Bytes
  pub length-hmac : (k b : Bytes) → length (hmac k b) ≡ 32
  pub codec : Codec
  pub float64 : Float64
  pub error_rate : float64.F
  pub get_slot : ℕ → Option ℕ
  pub owner : ℕ → Bytes → ℕ → Option Bytes
  pub owner_length :
      (i : ℕ) (req : Bytes) (n : ℕ) (b : Bytes) → owner i req n ≡ some b → length b ≡ n
  pub network : ℕ → Bytes → Bool
  pub get_key : ℕ → Bytes → Option Bytes
  pub elapsed : ℕ → ℕ
  pub payload_text : Bytes → ℕ → Bytes

-- `atomic.AddUint64`, and `AddInt64` on the bit pattern.
abbrev pub add_64 : ℕ → ℕ → ℕ
add_64 a b = (a + b) % 2 ^ 64

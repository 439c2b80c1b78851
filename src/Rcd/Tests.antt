-- ===== src/Rcd/Tests.antt =====
-- A concrete outside for an RCD and a concrete RCD, on which the children `Keys`, `Send` and
-- `Receive` run its methods: a toy hash of 32 bytes, messages as plain sequences, floats that are
-- whole numbers, an owner that serves one chain of three hashes.
pub mod Keys
pub mod Send
pub mod Receive
pub mod Delivery
pub mod Batch
pub mod System
pub mod Life
use Prim.Native.Nat.{◌*◌, ◌/◌, ◌^◌}
use broadauth.Base.{
  ℕ, zero, suc, ◌+◌, ◌*◌, ◌%◌, ◌≡◌, refl, ap, ◌∙◌, [], ◌∷◌, ◌++◌, Bytes, length, take, drop,
  take-append, drop-append, replicate, sym, Option, some, none, Bool, true, false, nat_eqb,
  nat_eqb_iff, if◌then◌else◌, arith, ℤ, pos, negsuc, Bool-cases, inl, inr,
}
use mathlib.Core.Option.{some-injective}
use broadauth.Hashchain.{Hasher}
use broadauth.Hashchain.Spec.{iter, hashes, linear_at, length-hashes}
use broadauth.Hashchain.Tests.{digest}
use broadauth.Message.{Message, Codec}
use broadauth.Bloom.{Float64}
use broadauth.Rcd.{Env, Rcd, KeyState, Mode, Metrics}

abbrev pub digest_32 : Bytes → Bytes
digest_32 b = digest 1 b % 256 ∷ replicate 31 ((digest 2 b + 1) % 256)

abbrev pub toy_32 : Hasher
toy_32 = record { size = 32; sum = digest_32; size_pos = omega arith; length-sum = λ b. refl }

-- A kind as two numbers.
abbrev kind_part : ℤ → ℕ × ℕ
kind_part (pos n) = (0, n)
kind_part (negsuc n) = (1, n)

abbrev kind_of : ℕ → ℕ → ℤ
kind_of zero n = pos n
kind_of (suc _) n = negsuc n

kind_of-kind_part : (k : ℤ) → kind_of (kind_part k).0 (kind_part k).1 ≡ k
kind_of-kind_part (pos n) = refl
kind_of-kind_part (negsuc n) = refl

unfoldable pub to_wire : Message → Option Bytes
to_wire m = some (
    length m.sender_id
    ∷ m.slot
    ∷ (kind_part m.kind).0
    ∷ (kind_part m.kind).1
    ∷ (m.sender_id ++ m.body))

unfoldable pub of_wire : Bytes → Option Message
of_wire (n ∷ slot ∷ sign ∷ size ∷ rest) =
    some (record {
      sender_id = take n rest;
      slot = slot;
      kind = kind_of sign size;
      body = drop n rest;
    })
of_wire _ = none

pub of_wire-to_wire : (m : Message) (b : Bytes) → to_wire m ≡ some b → of_wire b ≡ some m
unfolding of_wire to_wire
of_wire-to_wire m b e =
    ap of_wire (sym (some-injective _ _ e))
    ∙ ap some (λ i. record {
      sender_id = take-append (length m.sender_id) m.sender_id m.body refl i;
      slot = m.slot;
      kind = kind_of-kind_part m.kind i;
      body = drop-append (length m.sender_id) m.sender_id m.body refl i;
    })

abbrev pub toy_codec : Codec
toy_codec = record { marshal = to_wire; unmarshal = of_wire; unmarshal-marshal = of_wire-to_wire }

abbrev pub whole_floats : Float64
whole_floats = record {
  F = ℕ;
  of_nat = λ n. n;
  neg_one = 1;
  two = 2;
  mul = λ a b. a * b;
  div = λ a b. a / b;
  log = λ a. a;
  pow = λ a b. a ^ b;
  ceil = λ a. a;
  to_uint = λ a. a;
}

-- The last hash of the chain that the owner serves.
abbrev pub seed_hash : Bytes
seed_hash = replicate 32 7

unfoldable pub toy_owner : ℕ → Bytes → ℕ → Option Bytes
toy_owner i req n = if nat_eqb n 128 then some (hashes toy_32 3 seed_hash) else none

pub toy_owner-length :
    (i : ℕ) (req : Bytes) (n : ℕ) (b : Bytes) → toy_owner i req n ≡ some b → length b ≡ n
unfolding toy_owner
toy_owner-length i req n b e =
    ground (arith, length-hashes toy_32 3 seed_hash refl, nat_eqb_iff n 128)

-- The outside with a slot source that gives `slot` each time, and a network that takes every
-- datagram or none.
abbrev pub toy_env : Option ℕ → Bool → Env
toy_env slot up = record {
  hasher = toy_32;
  size_32 = refl;
  hmac = λ k b. digest_32 (k ++ b);
  length-hmac = λ k b. refl;
  codec = toy_codec;
  float64 = whole_floats;
  error_rate = 40;
  get_slot = λ i. slot;
  owner = toy_owner;
  owner_length = toy_owner-length;
  network = λ i b. up;
  get_key = λ i id. none;
  elapsed = λ i. 1;
  payload_text = λ id n. n ∷ [];
}

abbrev pub up_env : Env
up_env = toy_env (some 5) true

-- No slot yet, and the state with the key of slot 5, the second hash of the chain.
abbrev pub no_keys : KeyState
no_keys = record {
  hash_chain = none;
  cached_key = replicate 32 0;
  cached_key_slot = 0;
  slot_calls = 0;
  owner_calls = 0;
}

abbrev pub slot_5_keys : KeyState
slot_5_keys = record {
  hash_chain = some (linear_at toy_32 3 seed_hash 2);
  cached_key = iter toy_32 1 seed_hash;
  cached_key_slot = 5;
  slot_calls = 0;
  owner_calls = 0;
}

abbrev pub metrics_0 : Metrics
metrics_0 = record {
  bytes_sent = 0;
  bytes_received = 0;
  messages_sent = 0;
  messages_received = 0;
  overhead_bytes = 0;
  hmac_duration = 0;
  hmac_count = 0;
  verify_duration = 0;
  verify_count = 0;
  broadcast_duration = 0;
  broadcast_count = 0;
}

-- An RCD as `New` and `Start` leave it, but for the key of slot 5.
abbrev pub rcd_0 : Mode → Rcd
rcd_0 mode = record {
  id = replicate 16 1;
  hashchain_len = 3;
  disclosure_delay = 2;
  message_counter = 0;
  keys = slot_5_keys;
  disclosure_messages = [];
  queue_cap = 1024;
  received_hmacs = [];
  commitment_keys = [];
  unverified_msgs = [];
  mode = mode;
  message_buffer = [];
  enable_benchmarking = true;
  metrics = metrics_0;
  sent = [];
  sends = 0;
  contract_calls = 0;
  clock_reads = 0;
  authenticated = [];
}

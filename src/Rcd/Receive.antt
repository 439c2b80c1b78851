-- ===== src/Rcd/Receive.antt =====
-- The message handler of an RCD: `handleMessage`, `storeUnverifiedMessage`,
-- `getUnverifiedMessages`, `verifyKey`. Each call of the handler runs to its end before the next.
pub mod Keys
pub mod Accept
pub mod Spent
pub mod Verdict
pub mod Late
pub mod Batch
pub mod Batched
pub mod Race
use broadauth.Base.{
  ℕ, zero, suc, ◌+◌, ◌-◌, ◌%◌, ◌^◌, Bytes, List, [], ◌∷◌, ◌++◌, length, replicate, overwrite,
  Option, some, none, Bool, true, false, ◌&&◌, Result, ok, err, panic, running, ltb, leb, ◌==◌,
  nat_eq, int_eq, bytes_eq, if◌then◌else◌, Map, load, store, delete, slice, ℤ,
}
use broadauth.Base.State.{M, carry, ◌>>=◌, ◌>>◌, pure, lift, gets, modify, when}
use broadauth.Message.{Message, kind_key_message, kind_data}
use broadauth.Bloom.{Filter, from_bytes, check}
use broadauth.Rcd.{Env, Rcd, Mode, deterministic, probabilistic, KeyState, add_64}
use broadauth.Rcd.Keys.{get_slot}
use broadauth.Rcd.Metered.{with_keys_result, when_benchmarking, count_hmac, count_verify}

-- `uint64` subtraction.
abbrev pub sub_64 : ℕ → ℕ → ℕ
sub_64 a b = (a + 2 ^ 64 - b % 2 ^ 64) % 2 ^ 64

-- `copy` into a fresh array of 32 bytes.
abbrev pub array_32 : Bytes → Bytes
array_32 b = overwrite b (replicate 32 0)

abbrev pub or_empty : Option (List Bytes) → List Bytes
or_empty none = []
or_empty (some items) = items

-- `LoadOrStore` with an empty list, `append`, `Store`.
unfoldable pub store_unverified : ℕ → Bytes → Rcd → Rcd
store_unverified slot item r = record r {
  unverified_msgs =
      store slot (or_empty (load slot r.unverified_msgs) ++ (item ∷ [])) r.unverified_msgs;
}

unfoldable pub get_unverified : ℕ → Rcd → List Bytes
get_unverified slot r = or_empty (load slot r.unverified_msgs)

unfoldable pub set_commitment : Bytes → Bytes → Rcd → Rcd
set_commitment sender key r = record r { commitment_keys = store sender key r.commitment_keys }

unfoldable pub count_received : ℕ → Rcd → Rcd
unfolding when_benchmarking
count_received len = when_benchmarking λ r. record r {
  metrics = record (r.metrics) {
    bytes_received = add_64 r.metrics.bytes_received len;
    messages_received = add_64 r.metrics.messages_received 1;
  };
}

unfoldable pub report : Bytes → Bytes → Rcd → Rcd
report sender item r = record r { authenticated = (sender, item) ∷ r.authenticated }

-- `bf.Check` over the messages of the slot: those that pass are reported.
unfoldable pub check_items : Filter → Bytes → List Bytes → M Rcd (Unit {0})
check_items bf sender [] = pure tt
check_items bf sender (item ∷ items) = do
  hit ← lift (check bf item)
  when hit (modify (report sender item)) (pure tt)
  check_items bf sender items

module _ (env : Env) where
  open env use {hasher, hmac}

  -- `len(currentKey) == len(commitmentKey) && hmac.Equal(currentKey, commitmentKey)`.
  abbrev pub keys_equal : Bytes → Bytes → Bool
  keys_equal a b = length a == length b && a == b

  -- The loop of `verifyKey`, with the rounds that are left: on a match the key itself becomes the
  -- commitment.
  unfoldable pub hash_back : ℕ → Bytes → Bytes → Bytes → Bytes → M Rcd Bool
  hash_back zero sender key commitment current r = (ok false, r)
  hash_back (suc left) sender key commitment current r =
      let current' = hasher.sum current in
      let rest = hash_back left sender key commitment current' r in
      if keys_equal current' commitment then (ok true, set_commitment sender key r) else rest

  unfoldable pub verify_against : Bytes → Bytes → Bytes → M Rcd Bool
  unfolding hash_back
  verify_against sender key commitment r =
      let current = array_32 key in
      if keys_equal current commitment
      then (ok true, set_commitment sender current r)
      else hash_back (r.hashchain_len + 1) sender key commitment current r

  -- A commitment key from the contract: an error or an empty string is no key.
  unfoldable pub from_contract : Option Bytes → Bytes → Bytes → M Rcd Bool
  unfolding verify_against set_commitment
  from_contract none sender key r = (ok false, r)
  from_contract (some []) sender key r = (ok false, r)
  from_contract (some (b ∷ bs)) sender key r =
      verify_against sender key (b ∷ bs) (set_commitment sender (b ∷ bs) r)

  unfoldable pub verify_known : Option Bytes → Bytes → Bytes → M Rcd Bool
  unfolding from_contract
  verify_known (some commitment) sender key r = verify_against sender key commitment r
  verify_known none sender key r =
      from_contract (env.get_key r.contract_calls sender) sender key
        (record r { contract_calls = r.contract_calls + 1 })

  unfoldable pub verify_key : Bytes → Bytes → M Rcd Bool
  unfolding verify_known
  verify_key sender key r = verify_known (load sender r.commitment_keys) sender key r

  -- `verifyCount` and its duration are counted once the key has been judged.
  unfoldable pub timed_verify : Bytes → Bytes → M Rcd Bool
  timed_verify sender key =
      verify_key sender key >>= λ verified. modify (count_verify env) >> pure verified

  unfoldable pub batch_of : Option Filter → Message → M Rcd (Unit {0})
  batch_of none m = pure tt
  batch_of (some bf) m = do
    delay ← gets (λ r. r.disclosure_delay)
    items ← gets (λ r. get_unverified (sub_64 (m.slot) delay) r)
    check_items bf (m.sender_id) items
    modify (λ r. record r { unverified_msgs = delete (sub_64 (m.slot) delay) r.unverified_msgs })

  unfoldable pub accept : Mode → Message → Bytes → M Rcd (Unit {0})
  unfolding batch_of
  accept deterministic m payload = modify (report m.sender_id payload)
  accept probabilistic m payload = batch_of (from_bytes payload) m

  -- After `LoadAndDelete` of the HMAC: whether it had been received.
  unfoldable pub disclosed : Option Bool → Message → Bytes → Bytes → M Rcd (Unit {0})
  disclosed none m key payload = pure tt
  disclosed (some _) m key payload = do
    verified ← timed_verify (m.sender_id) key
    mode ← gets (λ r. r.mode)
    when verified (accept mode m payload) (pure tt)

  unfoldable pub handle_key_message : Message → M Rcd (Unit {0})
  handle_key_message m = do
    key ← lift (slice (m.body) 0 32)
    payload ← lift (slice (m.body) 32 (length (m.body)))
    modify (count_hmac env)
    let mac = array_32 (hmac key payload)
    known ← gets (λ r. load mac r.received_hmacs)
    modify (λ r. record r { received_hmacs = delete mac r.received_hmacs })
    disclosed known m key payload

  unfoldable pub handle_data : Message → ℕ → Rcd → Rcd
  handle_data m current_slot r =
      if leb (add_64 m.slot r.disclosure_delay) current_slot
      then r
      else store_unverified m.slot m.body r

  unfoldable pub handle_hmac : Message → Rcd → Rcd
  handle_hmac m r = record r { received_hmacs = store (array_32 m.body) true r.received_hmacs }

  unfoldable pub dispatch : Message → ℕ → M Rcd (Unit {0})
  unfolding handle_data handle_hmac handle_key_message
  dispatch m current_slot =
      if m.kind == kind_data
      then modify (handle_data m current_slot)
      else (if m.kind == kind_key_message then handle_key_message m else modify (handle_hmac m))

  -- An unreadable datagram, or no slot from the slot source, is logged and dropped.
  unfoldable pub on_slot : Message → Result ℕ × KeyState → M Rcd (Unit {0})
  unfolding dispatch
  on_slot m (ok current_slot, ks) r = dispatch m current_slot (record r { keys = ks })
  on_slot m (err e, ks) r = (ok tt, record r { keys = ks })
  on_slot m (panic, ks) r = (panic, record r { keys = ks })
  on_slot m (running, ks) r = (running, record r { keys = ks })

  unfoldable pub on_message : Option Message → M Rcd (Unit {0})
  unfolding on_slot
  on_message none r = (ok tt, r)
  on_message (some m) r = on_slot m (get_slot env r.keys) r

  unfoldable pub handle_message : Bytes → M Rcd (Unit {0})
  unfolding on_message
  handle_message datagram r =
      on_message (env.codec.unmarshal datagram) (count_received (length datagram) r)

-- ===== src/Rcd/System/Bounded.antt =====
-- What every method of an RCD keeps.
use broadauth.Base.{
  ℕ, ◌≤◌, ◌<◌, ◌^◌, ◌≡◌, Bytes, List, [], ◌∷◌, ◌++◌, length, length-append, length-overwrite,
  replicate, All, Option, some, none, arith,
}
use broadauth.Base.State.{carry-keeps, Post-state}
use broadauth.Message.{new_message, kind_hmac}
use broadauth.Rcd.{Env, Rcd, Metrics, DisclosurePayload}
use broadauth.Rcd.Keys.{current_slot_key}
use broadauth.Rcd.Keys.Slots.{KeyInv}
use broadauth.Rcd.Metered.{
  slot_key, marshalled, timed_broadcast, count_hmac, count_verify, count_broadcast, count_data,
  count_overhead, enqueue,
}
use broadauth.Rcd.Send.{announce, key_array}
use broadauth.Rcd.Keys.Sound.{Answer, current_slot_key-Answer}

-- Every counter fits 64 bits.
pub record Fits (m : Metrics) : Type 0 where
  pub bytes_sent : m.bytes_sent < 2 ^ 64
  pub bytes_received : m.bytes_received < 2 ^ 64
  pub messages_sent : m.messages_sent < 2 ^ 64
  pub messages_received : m.messages_received < 2 ^ 64
  pub overhead_bytes : m.overhead_bytes < 2 ^ 64
  pub hmac_duration : m.hmac_duration < 2 ^ 64
  pub hmac_count : m.hmac_count < 2 ^ 64
  pub verify_duration : m.verify_duration < 2 ^ 64
  pub verify_count : m.verify_count < 2 ^ 64
  pub broadcast_duration : m.broadcast_duration < 2 ^ 64
  pub broadcast_count : m.broadcast_count < 2 ^ 64

-- A key of 32 bytes, and a slot of 64 bits.
abbrev pub IsPayload : DisclosurePayload → Type 0
IsPayload d = (length d.key ≡ 32) × (d.target_slot < 2 ^ 64)

pub record Bounded (env : Env) (r : Rcd) : Type 0 where
  pub keys : KeyInv env r.keys
  pub queue : length r.disclosure_messages ≤ r.queue_cap
  pub payloads : All IsPayload r.disclosure_messages
  pub fits : Fits r.metrics
  pub counter : r.message_counter < 2 ^ 64

module _ (env : Env) where
  pub count_hmac-Bounded : (r : Rcd) → Bounded env r → Bounded env (count_hmac env r)
  unfolding count_hmac
  count_hmac-Bounded r b = ground arith

  pub count_verify-Bounded : (r : Rcd) → Bounded env r → Bounded env (count_verify env r)
  unfolding count_verify
  count_verify-Bounded r b = ground arith

  count_broadcast-Bounded : (r : Rcd) → Bounded env r → Bounded env (count_broadcast env r)
  unfolding count_broadcast
  count_broadcast-Bounded r b = ground arith

  pub count_data-Bounded : (n : ℕ) (r : Rcd) → Bounded env r → Bounded env (count_data n r)
  unfolding count_data
  count_data-Bounded n r b = ground arith

  pub count_overhead-Bounded : (n : ℕ) (r : Rcd) → Bounded env r → Bounded env (count_overhead n r)
  unfolding count_overhead
  count_overhead-Bounded n r b = ground arith

  pub All-snoc :
      (ds : List DisclosurePayload) (d : DisclosurePayload)
      → All IsPayload ds
      → IsPayload d
      → All IsPayload (ds ++ (d ∷ []))
  All-snoc [] d h p = (p, tt)
  All-snoc (x ∷ ds) d h p = (h.0, All-snoc ds d h.1 p)

  pub enqueue-Bounded :
      (d : DisclosurePayload) (r : Rcd) → IsPayload d → Bounded env r → Bounded env (enqueue d r).1
  unfolding enqueue
  enqueue-Bounded d r p b =
      let more = All-snoc r.disclosure_messages d b.payloads p in
      let len = length-append r.disclosure_messages (d ∷ []) in ground arith

  pub marshalled-Bounded :
      (o : Option Bytes) (r : Rcd) → Bounded env r → Bounded env (marshalled env o r).1
  unfolding marshalled
  marshalled-Bounded none r b = b
  marshalled-Bounded (some x) r b = b

  pub timed_broadcast-Bounded :
      (bytes : Bytes) (r : Rcd) → Bounded env r → Bounded env (timed_broadcast env bytes r).1
  unfolding timed_broadcast
  timed_broadcast-Bounded bytes r b = ground arith

  pub slot_key-Bounded : (fuel : ℕ) (r : Rcd) → Bounded env r → Bounded env (slot_key env fuel r).1
  unfolding slot_key
  slot_key-Bounded fuel r b =
      let kept =
        Post-state (Answer env) (KeyInv env) (KeyInv env)
          (current_slot_key env fuel r.id r.hashchain_len r.keys)
          (current_slot_key-Answer env fuel r.id r.hashchain_len r.keys b.keys) (λ a s p. p.0)
          (λ s p. p) in
      record {
        keys = kept;
        queue = b.queue;
        payloads = b.payloads;
        fits = b.fits;
        counter = b.counter;
      }

  length-key_array : (key : Bytes) → length (key_array key) ≡ 32
  length-key_array key = length-overwrite key (replicate 32 0)

  pub announce-Bounded :
      (slot : ℕ) (key covered : Bytes) (r : Rcd)
      → Bounded env r
      → Bounded env (announce env slot key covered r).1
  unfolding announce
  announce-Bounded slot key covered r b =
      let r1 = count_hmac env r in
      carry-keeps (Bounded env)
        (marshalled env
          (env.codec.marshal (new_message r1.id slot kind_hmac (env.hmac key covered))) r1)
        _ (marshalled-Bounded _ r1 (count_hmac-Bounded r b))
        λ bytes r2 b2.
          carry-keeps (Bounded env) (timed_broadcast env bytes (count_overhead (length bytes) r2)) _
            (timed_broadcast-Bounded bytes _ (count_overhead-Bounded (length bytes) r2 b2))
            λ _ r3 b3. enqueue-Bounded _ r3 (length-key_array key, omega arith) b3

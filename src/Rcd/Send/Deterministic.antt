-- ===== src/Rcd/Send/Deterministic.antt =====
-- What `broadcast` sends and queues.
use broadauth.Base.{
  ℕ, ◌+◌, ◌≡◌, sym, ap, subst, ◌∙◌, Bytes, [], ◌∷◌, ◌++◌, length, some, true, false, Result, ok,
  err, ltb, if◌then◌else◌, arith, broadcast_failed, queue_full,
}
use broadauth.Message.{new_message, kind_hmac, kind_data}
use broadauth.Rcd.{Env, Rcd, KeyState, deterministic, probabilistic, DisclosurePayload, add_64}
use broadauth.Rcd.Keys.{current_slot_key}
use broadauth.Rcd.Metered.{
  slot_key, marshalled, timed_broadcast, count_hmac, count_data, count_overhead, enqueue,
}
use broadauth.Rcd.Send.{announce, broadcast, authenticate, key_array}

module _ (env : Env) where
  -- What is queued for a slot, a key and the text that its HMAC covers.
  abbrev pub payload : Rcd → ℕ → Bytes → Bytes → DisclosurePayload
  payload r slot key covered = record {
    message = covered;
    key = key_array key;
    target_slot = add_64 slot r.disclosure_delay;
  }

  -- What `announce` does once the message has gone out: the queue decides the result.
  pub record Announced (slot : ℕ) (key covered out : Bytes) (r : Rcd)
      (done : Result (Unit {0}) × Rcd) : Type 0 where
    pub result :
        done.0 ≡ (if ltb (length r.disclosure_messages) r.queue_cap then ok tt else err queue_full)
    pub sent : done.1.sent ≡ out ∷ r.sent
    pub queued : done.1.disclosure_messages ≡ (
        if ltb (length r.disclosure_messages) r.queue_cap
        then r.disclosure_messages ++ (payload r slot key covered ∷ [])
        else r.disclosure_messages)
    pub same_keys : done.1.keys ≡ r.keys
    pub same_buffer : done.1.message_buffer ≡ r.message_buffer

  pub announce-Announced :
      (slot : ℕ) (key covered out : Bytes) (r : Rcd)
      → env.codec.marshal (new_message r.id slot kind_hmac (env.hmac key covered)) ≡ some out
      → env.network r.sends out ≡ true
      → Announced slot key covered out r (announce env slot key covered r)
  unfolding announce count_hmac marshalled count_overhead timed_broadcast enqueue
  announce-Announced slot key covered out r e n = ground arith

  -- A data message goes out and then the message with its HMAC, under the key of the slot when
  -- the HMAC is made; the item and that key are queued for `disclosure_delay` slots later.
  pub record Broadcasts (slot : ℕ) (key item bytes out : Bytes) (ks : KeyState) (r : Rcd)
      (done : Result (Unit {0}) × Rcd) : Type 0 where
    pub result :
        done.0 ≡ (if ltb (length r.disclosure_messages) r.queue_cap then ok tt else err queue_full)
    pub sent : done.1.sent ≡ out ∷ bytes ∷ r.sent
    pub queued : done.1.disclosure_messages ≡ (
        if ltb (length r.disclosure_messages) r.queue_cap
        then r.disclosure_messages ++ (payload r slot key item ∷ [])
        else r.disclosure_messages)
    pub keys : done.1.keys ≡ ks
    pub same_buffer : done.1.message_buffer ≡ r.message_buffer

  module _ (fuel : ℕ) (item : Bytes) (r : Rcd) (slot₁ : ℕ) (key₁ bytes : Bytes) (ks₁ : KeyState)
      (first_key : current_slot_key env fuel r.id r.hashchain_len r.keys ≡ (ok (slot₁, key₁), ks₁))
      (data_out : env.codec.marshal (new_message r.id slot₁ kind_data item) ≡ some bytes) where
    -- The state after the data message.
    data_sent : Rcd
    data_sent = (timed_broadcast env bytes (count_data (length bytes) (record r { keys = ks₁ }))).1

    broadcast_data :
        env.network r.sends bytes ≡ true
        → broadcast env fuel item r ≡ authenticate env fuel r.mode item data_sent
    unfolding broadcast slot_key marshalled count_data timed_broadcast data_sent
    broadcast_data n = ground arith

    -- What the data message leaves alone.
    record Kept (t : Rcd) : Type 0 where
      sent : t.sent ≡ bytes ∷ r.sent
      sends : t.sends ≡ r.sends + 1
      keys : t.keys ≡ ks₁
      id : t.id ≡ r.id
      hashchain_len : t.hashchain_len ≡ r.hashchain_len
      disclosure_delay : t.disclosure_delay ≡ r.disclosure_delay
      disclosure_messages : t.disclosure_messages ≡ r.disclosure_messages
      queue_cap : t.queue_cap ≡ r.queue_cap
      message_buffer : t.message_buffer ≡ r.message_buffer

    data_sent-Kept : env.network r.sends bytes ≡ true → Kept data_sent
    unfolding data_sent count_data timed_broadcast
    data_sent-Kept n = ground arith

    -- In deterministic mode, with a key at hand before each of the two datagrams and both taken
    -- by the network, the item goes out and then its HMAC under the second key; the item and that
    -- key are queued for `disclosureDelay` slots later, or the result is the queue's error. The
    -- buffer is as it was.
    pub broadcast-Broadcasts :
        (slot : ℕ) (key out : Bytes) (ks : KeyState)
        → r.mode ≡ deterministic
        → env.network r.sends bytes ≡ true
        → current_slot_key env fuel r.id r.hashchain_len ks₁ ≡ (ok (slot, key), ks)
        → env.codec.marshal (new_message r.id slot kind_hmac (env.hmac key item)) ≡ some out
        → env.network (r.sends + 1) out ≡ true
        → Broadcasts slot key item bytes out ks r (broadcast env fuel item r)
    broadcast-Broadcasts slot key out ks m n second e n' =
        subst (Broadcasts slot key item bytes out ks r)
          (sym (broadcast_data n ∙ ap (λ t. authenticate env fuel t item data_sent) m ∙ keyed))
          (ground (arith, kept, a))
      where
        kept : Kept data_sent
        kept = data_sent-Kept n

        keyed_data : Rcd
        keyed_data = record data_sent { keys = ks }

        keyed :
            authenticate env fuel deterministic item data_sent
            ≡ announce env slot key item keyed_data
        keyed = unfold authenticate slot_key in ground (arith, kept)

        a : Announced slot key item out keyed_data (announce env slot key item keyed_data)
        a =
            announce-Announced slot key item out keyed_data
              (ap (λ t. env.codec.marshal (new_message t slot kind_hmac (env.hmac key item)))
                  kept.id
                ∙ e)
              (ap (λ t. env.network t out) kept.sends ∙ n')

    -- In probabilistic mode, with a key at hand and the data message taken by the network, only
    -- that message goes out, the item is kept for the batch and nothing is queued.
    pub broadcast_probabilistic :
        r.mode ≡ probabilistic
        → env.network r.sends bytes ≡ true
        → ((broadcast env fuel item r).0 ≡ ok tt)
          × ((broadcast env fuel item r).1.sent ≡ bytes ∷ r.sent)
          × ((broadcast env fuel item r).1.message_buffer ≡ r.message_buffer ++ (item ∷ []))
          × ((broadcast env fuel item r).1.disclosure_messages ≡ r.disclosure_messages)
    unfolding authenticate
    broadcast_probabilistic m n = rw (broadcast_data n, m) (ground (arith, data_sent-Kept n))

    -- With a key at hand, a data message that the network refuses gives an error; the item is
    -- neither sent, nor kept for a batch, nor queued.
    pub broadcast_refused :
        env.network r.sends bytes ≡ false
        → ((broadcast env fuel item r).0 ≡ err broadcast_failed)
          × ((broadcast env fuel item r).1.sent ≡ r.sent)
          × ((broadcast env fuel item r).1.message_buffer ≡ r.message_buffer)
          × ((broadcast env fuel item r).1.disclosure_messages ≡ r.disclosure_messages)
    unfolding broadcast slot_key marshalled count_data timed_broadcast
    broadcast_refused n = ground arith

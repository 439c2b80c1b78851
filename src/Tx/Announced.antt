-- ===== src/Tx/Announced.antt =====
-- What `Tx.Broadcast` sends and queues, and what it leaves after an error.
use broadauth.Base.{
  ℕ, ◌≤◌, ◌<◌, ◌≡◌, ◌≢◌, ◌⊎◌, refl, Bytes, [], ◌∷◌, ◌++◌, length, Option, some, none, Bool-cases,
  Option-cases, inl, inr, Result, ok, err, panic, running, ltb, ltb→lt, ltb→le,
}
use mathlib.Core.List.{cons-ne-nil}
use broadauth.Base.State.{Post, Post-weaken, carry}
use broadauth.Hashchain.{Linear, next_hash}
use broadauth.Message.{new_message, kind_hmac}
use broadauth.Rcd.{DisclosurePayload, add_64}
use broadauth.Rcd.Send.{key_array}
use broadauth.Tx.{Tx, TxOutside, give_out, announce, from_next, from_slot, broadcast_data, enqueue}

abbrev pub queued : Tx → ℕ → Bytes → Bytes → DisclosurePayload
queued t slot item key = record {
  message = item;
  key = key_array key;
  target_slot = add_64 slot t.disclosure_delay;
}

module _ (out : TxOutside) where
  -- The datagram `bytes` with the HMAC under `key` went out, and the text is queued with the key.
  pub record Out (slot : ℕ) (item key bytes : Bytes) (t after : Tx) : Type 0 where
    pub wire : out.codec.marshal (new_message t.id slot kind_hmac (out.hmac key item)) ≡ some bytes
    pub sent : after.sent ≡ bytes ∷ t.sent
    pub queue : after.disclosure_messages ≡ t.disclosure_messages ++ (queued t slot item key ∷ [])
    pub room : length t.disclosure_messages < t.queue_cap
    pub chain : after.hashchain ≡ t.hashchain

  -- Nothing is queued, and at most one datagram went out, which happens if the queue is full.
  pub record Lost (t after : Tx) : Type 0 where
    pub queue : after.disclosure_messages ≡ t.disclosure_messages
    pub sent :
        (after.sent ≡ t.sent)
        ⊎ ((b : Bytes) × (after.sent ≡ b ∷ t.sent) × (t.queue_cap ≤ length t.disclosure_messages))

  announce-Out :
      (slot : ℕ) (item key : Bytes) (t : Tx)
      → Post (λ _ s. (b : Bytes) × Out slot item key b t s) (Lost t) (announce out slot item key t)
  unfolding announce give_out enqueue
  announce-Out slot item key t = elim (Option-cases wire) [
    | inl e ↦ rw e (record { queue = refl; sent = inl refl })
    | inr (b, e) ↦ elim (Bool-cases (out.network t.sends b)) [
      | inl taken ↦ elim (Bool-cases (ltb (length t.disclosure_messages) t.queue_cap)) [
        | inl free ↦
            rw (e, taken, free)
              (
                b,
                record {
                  wire = e;
                  sent = refl;
                  queue = refl;
                  room = ltb→lt (length t.disclosure_messages) t.queue_cap free;
                  chain = refl;
                },
              )
        | inr full ↦
            rw (e, taken, full)
              (record {
                queue = refl;
                sent = inr (b, refl, ltb→le (length t.disclosure_messages) t.queue_cap full);
              })
      ]
      | inr refused ↦ rw (e, refused) (record { queue = refl; sent = inl refl })
    ]
  ]
    where
      wire : Option Bytes
      wire = out.codec.marshal (new_message t.id slot kind_hmac (out.hmac key item))

  -- A slot and a next key were there, and the key is used up.
  pub record Announced (slot : Option ℕ) (item : Bytes) (t after : Tx) : Type 0 where
    pub at : ℕ
    pub key : Bytes
    pub chain : Linear
    pub bytes : Bytes
    pub slot_given : slot ≡ some at
    pub key_given : next_hash out.hasher t.hashchain ≡ ok (key, chain)
    pub key_there : key ≢ []
    pub done : Out at item key bytes (record t { hashchain = chain }) after

  with_key :
      (slot : ℕ) (item : Bytes) (t : Tx) (r : Result (Bytes × Linear))
      → next_hash out.hasher t.hashchain ≡ r
      → Post
          (λ _ s. Announced (some slot) item t s)
          (Lost t)
          (carry (from_next r t) (announce out slot item))
  unfolding from_next
  with_key slot item t (ok ([], chain)) e = record { queue = refl; sent = inl refl }
  with_key slot item t (ok (b ∷ bs, chain)) e =
      Post-weaken (λ _ s. (b' : Bytes) × Out slot item (b ∷ bs) b' keyed s)
        (λ _ s. Announced (some slot) item t s) (Lost keyed) (Lost t)
        (announce out slot item (b ∷ bs) keyed) (announce-Out slot item (b ∷ bs) keyed)
        (λ _ s p. record {
          at = slot;
          key = b ∷ bs;
          chain = chain;
          bytes = p.0;
          slot_given = refl;
          key_given = e;
          key_there = cons-ne-nil b bs;
          done = p.1;
        })
        (λ s l. record { queue = l.queue; sent = l.sent })
    where
      keyed : Tx
      keyed = record t { hashchain = chain }
  with_key slot item t (err x) e = record { queue = refl; sent = inl refl }
  with_key slot item t panic e = record { queue = refl; sent = inl refl }
  with_key slot item t running e = record { queue = refl; sent = inl refl }

  -- `Broadcast` succeeds only if there was a slot and a key: it has then sent the HMAC of the text
  -- under that key, in a message for the slot, and queued the text with the key, within the
  -- capacity of the channel. After any other outcome nothing is queued, and nothing was sent,
  -- unless the channel was full.
  pub broadcast_data-Announced :
      (slot : Option ℕ) (item : Bytes) (t : Tx)
      → Post (λ _ s. Announced slot item t s) (Lost t) (broadcast_data out slot item t)
  unfolding broadcast_data from_slot
  broadcast_data-Announced none item t = record { queue = refl; sent = inl refl }
  broadcast_data-Announced (some slot) item t =
      with_key slot item t (next_hash out.hasher t.hashchain) refl

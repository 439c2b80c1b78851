-- ===== src/Tx.antt =====
-- internal/tx/tx.go: the older sender of the chat tool, which signs each text with the next key of
-- a chain and gives the key out some slots later.
pub mod Make
pub mod Announced
pub mod Pending
pub mod Tests
use broadauth.Base.{
  ℕ, ◌+◌, Bytes, List, [], ◌∷◌, ◌++◌, length, drop, Option, some, none, Bool, true, false, Result,
  ok, err, panic, running, ltb, if◌then◌else◌, no_slot, keys_exhausted, marshal_failed,
  broadcast_failed, queue_full, ◌≡◌,
}
use broadauth.Base.State.{M, carry, ◌>>=◌, ◌>>◌, pure, fail, lift, gets, modify, when}
use broadauth.Hashchain.{Hasher, Linear, next_hash}
use broadauth.Message.{Codec, new_message, kind_hmac, kind_key_message}
use broadauth.Rcd.{DisclosurePayload, add_64}
use broadauth.Rcd.Send.{key_array}

-- The struct `Tx`, whose slots have `slot_duration` milliseconds; its `DisclosurePayload` has the
-- fields of the one of an RCD. `queue_cap` is the capacity of the channel. The last two fields are
-- the datagrams that went out, newest first, and the number of calls of the broadcaster.
pub record Tx : Type 0 where
  pub id : Bytes
  pub hashchain : Linear
  pub slot_duration : ℕ
  pub disclosure_delay : ℕ
  pub disclosure_messages : List DisclosurePayload
  pub queue_cap : ℕ
  pub sent : List Bytes
  pub sends : ℕ

-- SHA-256, HMAC-SHA-256, encoding/json and the network, by the number of the call.
pub record TxOutside : Type 0 where
  pub hasher : Hasher
  pub size_32 : hasher.size ≡ 32
  pub hmac : Bytes → Bytes → Bytes
  pub length-hmac : (k b : Bytes) → length (hmac k b) ≡ 32
  pub codec : Codec
  pub network : ℕ → Bytes → Bool

unfoldable pub enqueue : DisclosurePayload → M Tx (Unit {0})
enqueue d t =
    if ltb (length t.disclosure_messages) t.queue_cap
    then (ok tt, record t { disclosure_messages = t.disclosure_messages ++ (d ∷ []) })
    else (err queue_full, t)

-- `Next`, which moves the chain on; an empty key is an error.
unfoldable pub from_next : Result (Bytes × Linear) → M Tx Bytes
from_next (ok ([], chain)) t = (err keys_exhausted, record t { hashchain = chain })
from_next (ok (b ∷ bs, chain)) t = (ok (b ∷ bs), record t { hashchain = chain })
from_next (err e) t = (err e, t)
from_next panic t = (panic, t)
from_next running t = (running, t)

unfoldable pub from_slot : Option ℕ → Result ℕ
from_slot none = err no_slot
from_slot (some slot) = ok slot

-- After a success `readyIdx` is past the item; a failure goes on and leaves it.
abbrev pub ready_after {ℓ} : {A : Type ℓ} → Result A → ℕ → ℕ → ℕ
ready_after (ok a) i ready_idx = i + 1
ready_after r i ready_idx = ready_idx

module _ (out : TxOutside) where
  open out use {hasher, hmac, codec}

  -- `Marshal` and then `Broadcast` of the broadcaster.
  unfoldable pub give_out : Option Bytes → M Tx (Unit {0})
  give_out none t = (err marshal_failed, t)
  give_out (some bytes) t =
      if out.network t.sends bytes
      then (ok tt, record t { sent = bytes ∷ t.sent; sends = t.sends + 1 })
      else (err broadcast_failed, record t { sends = t.sends + 1 })

  -- The HMAC of the text goes out, and the text is queued with its key.
  unfoldable pub announce : ℕ → Bytes → Bytes → M Tx (Unit {0})
  unfolding give_out enqueue
  announce current_slot item key = do
    id ← gets (λ t. t.id)
    give_out (codec.marshal (new_message id current_slot kind_hmac (hmac key item)))
    delay ← gets (λ t. t.disclosure_delay)
    enqueue
        (record { message = item; key = key_array key; target_slot = add_64 current_slot delay })

  -- `Tx.Broadcast`, by the answer of the slot source.
  unfoldable pub broadcast_data : Option ℕ → Bytes → M Tx (Unit {0})
  unfolding from_slot from_next announce
  broadcast_data slot item = do
    current_slot ← lift (from_slot slot)
    key ← λ t. from_next (next_hash hasher t.hashchain) t
    announce current_slot item key

  -- The message with a key and its text.
  unfoldable pub disclose : ℕ → DisclosurePayload → M Tx (Unit {0})
  unfolding give_out
  disclose current_slot d t =
      give_out (codec.marshal (new_message t.id current_slot kind_key_message (d.key ++ d.message)))
        t

  -- The loop over `pendingDisclosures` at index `i`.
  unfoldable pub process :
      ℕ → ℕ → ℕ → List DisclosurePayload → Tx → record { ready_idx : ℕ; tx : Tx }
  process current_slot i ready_idx [] t = record { ready_idx = ready_idx; tx = t }
  process current_slot i ready_idx (d ∷ ds) t =
      let (r, t') = disclose current_slot d t in
      let rest = process current_slot (i + 1) (ready_after r i ready_idx) ds t' in
      if ltb current_slot d.target_slot then record { ready_idx = i; tx = t } else rest

  -- The case of a new slot of `DisclosureBroadcastWorker`.
  unfoldable pub worker_step :
      ℕ → List DisclosurePayload → Tx → record { pending : List DisclosurePayload; tx : Tx }
  unfolding process
  worker_step current_slot pending t =
      let all = pending ++ t.disclosure_messages in
      let done = process current_slot 0 0 all (record t { disclosure_messages = [] }) in
      record {
        pending = if ltb 0 done.ready_idx then drop done.ready_idx all else all;
        tx = done.tx;
      }

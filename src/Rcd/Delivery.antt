-- ===== src/Rcd/Delivery.antt =====
-- A message from its broadcast to its acceptance: what a sender announces and discloses, at a
-- receiver that has an earlier key of the chain.
pub mod Stored
pub mod Batch
pub mod Second
use broadauth.Base.{
  ℕ, ◌+◌, ◌-◌, ◌≤◌, ◌≡◌, refl, ap, ◌∙◌, Bytes, ◌∷◌, ◌++◌, length, some, load, bytes_eq, arith,
}
use broadauth.Hashchain.Spec.{iter, iter-iter}
use broadauth.Message.{Message, new_message, kind_hmac, kind_key_message}
use broadauth.Rcd.{Env, Rcd, deterministic}
use broadauth.Rcd.Send.{key_array}
use broadauth.Rcd.Send.Deterministic.{payload}
use broadauth.Rcd.Receive.{handle_message}
use broadauth.Rcd.Receive.Accept.{Arrives}
use broadauth.Rcd.Receive.Keys.{array_32_whole}
use broadauth.Rcd.Receive.Late.{Noted, handle_hmac-Noted, handle_message_pair}

module _ (env : Env) where
  open env use {hasher, hmac}

  -- The sender `s` holds a chain of `n` hashes that ends in `last`, of which it announced `item`
  -- under hash `i` at the slot `slot` and disclosed at the slot `now`; `mac` and `out` are the two
  -- datagrams. The receiver `r` has hash `j` as the commitment of the sender, not too far back.
  pub record Sent (n i j slot now : ℕ) (last item mac out : Bytes) (s r : Rcd) : Type 0 where
    pub whole_key : length (iter hasher (n - i) last) ≡ 32
    pub earlier : j ≤ i
    pub within : i ≤ n
    pub near : i ≤ j + (r.hashchain_len + 1)
    pub announced :
        env.codec.marshal (new_message s.id slot kind_hmac (hmac (iter hasher (n - i) last) item))
        ≡ some mac
    pub disclosed :
        env.codec.marshal (
          new_message s.id now kind_key_message (
            (payload env s slot (iter hasher (n - i) last) item).key
            ++ (payload env s slot (iter hasher (n - i) last) item).message))
        ≡ some out
    pub committed : load s.id r.commitment_keys ≡ some (iter hasher (n - j) last)

  -- A receiver in deterministic mode whose commitment is an earlier key of the sender's chain, at
  -- most `hashchainLen + 1` keys back, and that gets both datagrams, the one with the HMAC first,
  -- with an answer of its slot source each time, reports the item as authentic from the sender.
  pub delivered :
      (n i j slot now at at' : ℕ) (last item mac out : Bytes) (s r : Rcd)
      → Sent n i j slot now last item mac out s r
      → r.mode ≡ deterministic
      → env.get_slot r.keys.slot_calls ≡ some at
      → env.get_slot (r.keys.slot_calls + 1) ≡ some at'
      → (handle_message env out (handle_message env mac r).1).1.authenticated
        ≡ (s.id, item) ∷ r.authenticated
  delivered n i j slot now at at' last item mac out s r sent det slot_at slot_at' =
      handle_message_pair env mac out m m' at at' r key item (iter hasher (n - j) last) arrives refl
        refl arrives' refl whole sent.whole_key det sent.committed
        (i - j, omega arith, omega (arith, sent.near), joined)
    where
      key : Bytes
      key = iter hasher (n - i) last

      m : Message
      m = new_message s.id slot kind_hmac (hmac key item)

      m' : Message
      m' = new_message s.id now kind_key_message (key_array key ++ item)

      whole : m'.body ≡ key ++ item
      whole = ap (λ k. k ++ item) (array_32_whole key sent.whole_key)

      arrives : Arrives env mac m at r
      arrives = record { reads = env.codec.unmarshal-marshal m mac sent.announced; at = slot_at }

      noted : Noted env (hmac key item) r (handle_message env mac r).1
      noted =
          handle_hmac-Noted env mac m at r (hmac key item) arrives refl refl
            (env.length-hmac key item)

      arrives' : Arrives env out m' at' (handle_message env mac r).1
      arrives' = record {
        reads = env.codec.unmarshal-marshal m' out sent.disclosed;
        at = ap env.get_slot noted.slot_calls ∙ slot_at';
      }

      joined : iter hasher (i - j) key ≡ iter hasher (n - j) last
      joined =
          let sum_of : (n - i) + (i - j) ≡ n - j = omega (arith, sent.earlier, sent.within) in
          iter-iter hasher (i - j) (n - i) last ∙ ap (λ t. iter hasher t last) sum_of

-- ===== src/Rcd/Receive/Accept.antt =====
-- What the handler does with each kind of message.
use broadauth.Base.{
  ℕ, ◌+◌, ◌<◌, ◌≡◌, Bytes, [], ◌∷◌, ◌++◌, length, some, ok, panic, if◌then◌else◌, arith, load,
  store, ltb, bytes_eq, nat_eq,
}
use broadauth.Message.{Message, kind_key_message, kind_data}
use broadauth.Rcd.{Env, Rcd, add_64}
use broadauth.Rcd.Keys.{get_slot}
use broadauth.Rcd.Receive.{count_received, dispatch, handle_message, store_unverified, or_empty}

module _ (env : Env) where
  open env use {hasher, hmac}

  -- A datagram that carries the message `m`, read at the slot `now`.
  pub record Arrives (datagram : Bytes) (m : Message) (now : ℕ) (r : Rcd) : Type 0 where
    pub reads : env.codec.unmarshal datagram ≡ some m
    pub at : env.get_slot r.keys.slot_calls ≡ some now

  -- The state when the kind of the message is looked at.
  unfoldable pub arrived : Bytes → Rcd → Rcd
  arrived datagram r =
      let r' = count_received (length datagram) r in
      record r' { keys = record (r'.keys) { slot_calls = r'.keys.slot_calls + 1 } }

  pub handle_arrived :
      (datagram : Bytes) (m : Message) (now : ℕ) (r : Rcd)
      → Arrives datagram m now r
      → handle_message env datagram r ≡ dispatch env m now (arrived datagram r)
  unfolding handle_message get_slot count_received arrived
  handle_arrived datagram m now r a = rw a.reads (ground (arith, a.at))

  -- A data message that is read, with an answer of the slot source, is kept exactly if it comes
  -- before the slot in which its key may be out, the sum taken in 64 bits; otherwise nothing is
  -- kept. It reports nothing.
  pub handle_data_cutoff :
      (datagram : Bytes) (m : Message) (now : ℕ) (r : Rcd)
      → Arrives datagram m now r
      → m.kind ≡ kind_data
      → ((handle_message env datagram r).0 ≡ ok tt)
        × ((handle_message env datagram r).1.unverified_msgs ≡ (
            if ltb now (add_64 m.slot r.disclosure_delay)
            then store m.slot
                (or_empty (load m.slot r.unverified_msgs) ++ (m.body ∷ []))
                r.unverified_msgs
            else r.unverified_msgs))
        × ((handle_message env datagram r).1.authenticated ≡ r.authenticated)
  unfolding dispatch arrived count_received store_unverified
  handle_data_cutoff datagram m now r a k = ground (arith, handle_arrived datagram m now r a)

  -- A key message with fewer than 32 bytes that is read, with an answer of the slot source, makes
  -- the handler panic, whoever sends it.
  pub handle_short_key_panics :
      (datagram : Bytes) (m : Message) (now : ℕ) (r : Rcd)
      → Arrives datagram m now r
      → m.kind ≡ kind_key_message
      → length m.body < 32
      → (handle_message env datagram r).0 ≡ panic
  unfolding dispatch
  handle_short_key_panics datagram m now r a k short =
      ground (arith, handle_arrived datagram m now r a)

-- ===== src/Rcd/Receive/Late.antt =====
-- An HMAC that comes after its key is out.
use broadauth.Base.{
  subst, sym, ℕ, ◌+◌, ◌≡◌, refl, ap, ◌∙◌, inl, inr, Bytes, ◌∷◌, ◌++◌, length, some, true, arith,
  load, load-store, eqb_refl, bytes_eq,
}
use broadauth.Hashchain.Spec.{iter}
use broadauth.Message.{Message, kind_key_message, kind_hmac}
use broadauth.Rcd.{Env, Rcd, deterministic}
use broadauth.Rcd.Receive.{handle_message, handle_hmac, dispatch, count_received}
use broadauth.Rcd.Receive.Keys.{Reaches, array_32_whole}
use broadauth.Rcd.Receive.Accept.{Arrives, arrived, handle_arrived}
use broadauth.Rcd.Receive.Verdict.{Judged, handle_key_message-Judged}

module _ (env : Env) where
  open env use {hmac}

  -- What a message with an HMAC changes, whatever its slot.
  pub record Noted (mac : Bytes) (r s : Rcd) : Type 0 where
    pub known : load mac s.received_hmacs ≡ some true
    pub commitment_keys : s.commitment_keys ≡ r.commitment_keys
    pub authenticated : s.authenticated ≡ r.authenticated
    pub mode : s.mode ≡ r.mode
    pub hashchain_len : s.hashchain_len ≡ r.hashchain_len
    pub disclosure_delay : s.disclosure_delay ≡ r.disclosure_delay
    pub unverified_msgs : s.unverified_msgs ≡ r.unverified_msgs
    pub slot_calls : s.keys.slot_calls ≡ r.keys.slot_calls + 1

  pub handle_hmac-Noted :
      (datagram : Bytes) (m : Message) (now : ℕ) (r : Rcd) (mac : Bytes)
      → Arrives env datagram m now r
      → m.kind ≡ kind_hmac
      → m.body ≡ mac
      → length mac ≡ 32
      → Noted mac r (handle_message env datagram r).1
  unfolding dispatch handle_hmac arrived count_received
  handle_hmac-Noted datagram m now r mac a k e len = ground (
    arith,
    handle_arrived env datagram m now r a,
    array_32_whole mac len,
    load-store mac mac true r.received_hmacs,
    eqb_refl mac,
  )

  -- A message with an HMAC and then one with its key, which hashes to the commitment.
  pub handle_message_pair :
      (datagram datagram' : Bytes) (m m' : Message) (now now' : ℕ) (r : Rcd)
      (key payload commitment : Bytes)
      → Arrives env datagram m now r
      → m.kind ≡ kind_hmac
      → m.body ≡ hmac key payload
      → Arrives env datagram' m' now' (handle_message env datagram r).1
      → m'.kind ≡ kind_key_message
      → m'.body ≡ key ++ payload
      → length key ≡ 32
      → r.mode ≡ deterministic
      → load m'.sender_id r.commitment_keys ≡ some commitment
      → Reaches env 0 (r.hashchain_len + 1) key commitment
      → (handle_message env datagram' (handle_message env datagram r).1).1.authenticated
        ≡ (m'.sender_id, payload) ∷ r.authenticated
  handle_message_pair datagram datagram' m m' now now' r key payload commitment a k e a' k' e' len
        det stored reaches =
      elim j.verdict [
        | inl (_, reported, _) ↦ reported ∙ ap (◌∷◌ (m'.sender_id, payload)) n.authenticated
        | inr (never, _, _) ↦ absurd (
            never (subst (λ l. Reaches env 0 (l + 1) key commitment) (sym n.hashchain_len) reaches))
      ]
    where
      s : Rcd
      s = (handle_message env datagram r).1

      n : Noted (hmac key payload) r s
      n = handle_hmac-Noted datagram m now r (hmac key payload) a k e (env.length-hmac key payload)

      j :
          Judged env
            (Reaches env 0 (s.hashchain_len + 1) key commitment)
            m'.sender_id
            key
            payload
            s
            (handle_message env datagram' s)
      j =
          handle_key_message-Judged env datagram' m' now' s key payload commitment true a' k' e' len
            (n.mode ∙ det) n.known (ap (load m'.sender_id) n.commitment_keys ∙ stored)

  -- In deterministic mode, once a key is the commitment of a sender, an HMAC under that key is
  -- still taken at any slot that the source answers: followed by a message with the key, any text
  -- is reported as authentic from that sender.
  pub handle_message-forged :
      (datagram datagram' : Bytes) (m m' : Message) (now now' : ℕ) (r : Rcd) (key forged : Bytes)
      → Arrives env datagram m now r
      → m.kind ≡ kind_hmac
      → m.body ≡ hmac key forged
      → Arrives env datagram' m' now' (handle_message env datagram r).1
      → m'.kind ≡ kind_key_message
      → m'.body ≡ key ++ forged
      → length key ≡ 32
      → r.mode ≡ deterministic
      → load m'.sender_id r.commitment_keys ≡ some key
      → (handle_message env datagram' (handle_message env datagram r).1).1.authenticated
        ≡ (m'.sender_id, forged) ∷ r.authenticated
  handle_message-forged datagram datagram' m m' now now' r key forged a k e a' k' e' len det
        stored =
      handle_message_pair datagram datagram' m m' now now' r key forged key a k e a' k' e' len det
        stored (0, omega arith, omega arith, unfold iter in refl)

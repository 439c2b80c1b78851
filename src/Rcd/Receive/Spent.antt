-- ===== src/Rcd/Receive/Spent.antt =====
-- A key message up to the lookup of its HMAC: the parts of its body, and what the lookup leaves.
use broadauth.Base.{
  ℕ, ◌-◌, ◌≡◌, refl, ap, ◌∙◌, Bytes, ◌++◌, length, length-append, take, take_all, take-append,
  drop-append, Map, Bool, ok, arith, load, delete, slice, slice_lem, bytes_eq, nat_eq,
}
use broadauth.Message.{Message, kind_key_message}
use broadauth.Rcd.{Env, Rcd}
use broadauth.Rcd.Metered.{count_hmac}
use broadauth.Rcd.Receive.{count_received, disclosed, handle_key_message, dispatch, handle_message}
use broadauth.Rcd.Receive.Keys.{array_32_whole}
use broadauth.Rcd.Receive.Accept.{Arrives, arrived, handle_arrived}

key_part : (key payload : Bytes) → length key ≡ 32 → slice (key ++ payload) 0 32 ≡ ok key
key_part key payload e =
    slice_lem (key ++ payload) 0 32 (omega arith) (omega (arith, length-append key payload))
    ∙ ap ok (take-append 32 key payload e)

payload_part :
    (key payload : Bytes)
    → length key ≡ 32
    → slice (key ++ payload) 32 (length (key ++ payload)) ≡ ok payload
payload_part key payload e =
    slice_lem (key ++ payload) 32 (length (key ++ payload))
      (omega (arith, length-append key payload)) (omega arith)
    ∙ ap ok (
        ap (take (length (key ++ payload) - 32)) (drop-append 32 key payload e)
        ∙ take_all (length (key ++ payload) - 32) payload
            (omega (arith, length-append key payload)))

module _ (env : Env) where
  open env use {hasher, hmac}

  -- The state in which the HMAC has been looked up and removed.
  pub taken : Bytes → Bytes → Rcd → Rcd
  taken key payload r =
      let r' = count_hmac env r in
      record r' { received_hmacs = delete (hmac key payload) r'.received_hmacs }

  handle_key_lem :
      (m : Message) (key payload : Bytes) (r : Rcd)
      → m.body ≡ key ++ payload
      → length key ≡ 32
      → handle_key_message env m r
        ≡ disclosed env
            (load (hmac key payload) r.received_hmacs)
            m
            key
            payload
            (taken key payload r)
  unfolding handle_key_message taken count_hmac
  handle_key_lem m key payload r e len =
      rw
        (
          e,
          key_part key payload len,
          payload_part key payload len,
          array_32_whole (hmac key payload) (env.length-hmac key payload),
        )
        (ground arith)

  arrived_hmacs :
      (datagram : Bytes) (r : Rcd) → (arrived env datagram r).received_hmacs ≡ r.received_hmacs
  unfolding arrived count_received
  arrived_hmacs datagram r = ground arith

  dispatch_key :
      (m : Message) (now : ℕ) (r : Rcd)
      → m.kind ≡ kind_key_message
      → dispatch env m now r ≡ handle_key_message env m r
  unfolding dispatch
  dispatch_key m now r k = rw k refl

  pub handle_key_run :
      (datagram : Bytes) (m : Message) (now : ℕ) (r : Rcd) (key payload : Bytes)
      → Arrives env datagram m now r
      → m.kind ≡ kind_key_message
      → m.body ≡ key ++ payload
      → length key ≡ 32
      → handle_message env datagram r
        ≡ disclosed env
            (load (hmac key payload) r.received_hmacs)
            m
            key
            payload
            (taken key payload (arrived env datagram r))
  handle_key_run datagram m now r key payload a k e len =
      handle_arrived env datagram m now r a
      ∙ dispatch_key m now (arrived env datagram r) k
      ∙ handle_key_lem m key payload (arrived env datagram r) e len
      ∙ ap
          (λ macs.
            disclosed env (load (hmac key payload) macs) m key payload
              (taken key payload (arrived env datagram r)))
          (arrived_hmacs datagram r)

  -- What the arrival and the lookup of the HMAC leave alone.
  pub record Unjudged (r s : Rcd) (left : Map Bytes Bool) : Type 0 where
    pub macs : s.received_hmacs ≡ left
    pub items : s.unverified_msgs ≡ r.unverified_msgs
    pub hashchain_len : s.hashchain_len ≡ r.hashchain_len
    pub commitment_keys : s.commitment_keys ≡ r.commitment_keys
    pub authenticated : s.authenticated ≡ r.authenticated
    pub mode : s.mode ≡ r.mode
    pub disclosure_delay : s.disclosure_delay ≡ r.disclosure_delay

  pub taken-Unjudged :
      (datagram key payload : Bytes) (r : Rcd)
      → Unjudged r
          (taken key payload (arrived env datagram r))
          (delete (hmac key payload) r.received_hmacs)
  unfolding taken count_hmac arrived count_received
  taken-Unjudged datagram key payload r = ground arith

-- ===== src/Rcd/Receive/Batched.antt =====
-- A key message in probabilistic mode: the batch of its slot, judged by the filter that the
-- message carries.
use broadauth.Base.{
  ℕ, ◌+◌, ◌^◌, ◌<◌, ◌≡◌, inl, inr, refl, sym, ap, ◌∙◌, subst, Bytes, ◌++◌, length, some, Bool, true,
  Result, ok, arith, load, store, delete, bytes_eq, nat_eq,
}
use broadauth.Message.{Message, kind_key_message}
use broadauth.Bloom.{Filter, to_bytes}
use broadauth.Bloom.Filled.{IsFilter}
use broadauth.Rcd.{Env, Rcd, probabilistic}
use broadauth.Rcd.Metered.{count_verify}
use broadauth.Rcd.Receive.{
  sub_64, set_commitment, verify_key, timed_verify, accept, disclosed, get_unverified,
  handle_message,
}
use broadauth.Rcd.Receive.Keys.{Reaches, verify_key_known}
use broadauth.Rcd.Receive.Accept.{Arrives, arrived}
use broadauth.Rcd.Receive.Spent.{taken, handle_key_run, Unjudged, taken-Unjudged}
use broadauth.Rcd.Receive.Batch.{passing, reports, accept_batch}

module _ (env : Env) where
  open env use {hmac}

  -- What a verified batch for the slot `slot` leaves.
  pub record Batched (slot : ℕ) (sender key : Bytes) (f : Filter) (r : Rcd)
      (done : Result (Unit {0}) × Rcd) : Type 0 where
    pub returns : done.0 ≡ ok tt
    pub reported :
        done.1.authenticated ≡ reports sender (passing f (get_unverified slot r)) r.authenticated
    pub dropped : done.1.unverified_msgs ≡ delete slot r.unverified_msgs
    pub spent : done.1.received_hmacs ≡ delete (hmac key (to_bytes f)) r.received_hmacs
    pub committed : done.1.commitment_keys ≡ store sender key r.commitment_keys
    pub same_delay : done.1.disclosure_delay ≡ r.disclosure_delay
    pub same_mode : done.1.mode ≡ r.mode
    pub same_len : done.1.hashchain_len ≡ r.hashchain_len

  verified_run :
      (m : Message) (key payload : Bytes) (s : Rcd) (b : Bool)
      → s.mode ≡ probabilistic
      → verify_key env m.sender_id key s ≡ (ok true, set_commitment m.sender_id key s)
      → disclosed env (some b) m key payload s
        ≡ accept env probabilistic m payload (count_verify env (set_commitment m.sender_id key s))
  unfolding disclosed timed_verify count_verify set_commitment
  verified_run m key payload s b e v = ground (arith, e, v)

  -- The state in which the filter is read.
  judged : Bytes → Bytes → Rcd → Rcd
  judged sender key s = count_verify env (set_commitment sender key s)

  judged-Batched :
      (slot : ℕ) (sender key : Bytes) (f : Filter) (r s : Rcd)
      → Unjudged env r s (delete (hmac key (to_bytes f)) r.received_hmacs)
      → Batched slot sender key f r (
        ok tt,
        record (judged sender key s) {
          authenticated =
              reports sender
                (passing f (get_unverified slot (judged sender key s)))
                (judged sender key s).authenticated;
          unverified_msgs = delete slot (judged sender key s).unverified_msgs;
        },
      )
  unfolding judged count_verify set_commitment get_unverified
  judged-Batched slot sender key f r s u = record {
    returns = refl;
    reported = ground (arith, u);
    dropped = ground (arith, u);
    spent = ground (arith, u);
    committed = ground (arith, u);
    same_delay = ground (arith, u);
    same_mode = ground (arith, u);
    same_len = ground (arith, u);
  }

  judged-delay :
      (sender key : Bytes) (s : Rcd) → (judged sender key s).disclosure_delay ≡ s.disclosure_delay
  unfolding judged count_verify set_commitment
  judged-delay sender key s = ground arith

  -- A datagram with a batch that can be verified: it is read, the slot source answers, the
  -- filter is well-sized with numbers of 32 bits, its HMAC is known, and the key leads to the
  -- commitment of the sender in at most `hashchainLen + 1` hashes.
  pub record Verifiable (datagram : Bytes) (m : Message) (now : ℕ) (key commitment : Bytes)
      (f : Filter) (b : Bool) (r : Rcd) : Type 0 where
    pub arrives : Arrives env datagram m now r
    pub is_key : m.kind ≡ kind_key_message
    pub is_body : m.body ≡ key ++ to_bytes f
    pub whole_key : length key ≡ 32
    pub mode : r.mode ≡ probabilistic
    pub known : load (hmac key (to_bytes f)) r.received_hmacs ≡ some b
    pub stored : load m.sender_id r.commitment_keys ≡ some commitment
    pub reaches : Reaches env 0 (r.hashchain_len + 1) key commitment
    pub is_filter : IsFilter f
    pub fits_m : f.m < 2 ^ 32
    pub fits_k : f.k < 2 ^ 32

  -- In probabilistic mode a batch that can be verified reports exactly the messages stored for
  -- its slot less the disclosure delay that pass the filter, in order. Everything stored for
  -- that slot is dropped, the HMAC is spent and the key becomes the commitment.
  pub handle_batch-Batched :
      (datagram : Bytes) (m : Message) (now : ℕ) (key commitment : Bytes) (f : Filter) (b : Bool)
      (r : Rcd)
      → Verifiable datagram m now key commitment f b r
      → Batched
          (sub_64 m.slot r.disclosure_delay)
          m.sender_id
          key
          f
          r
          (handle_message env datagram r)
  handle_batch-Batched datagram m now key commitment f b r v =
      subst (Batched (sub_64 m.slot r.disclosure_delay) m.sender_id key f r) (sym run) (
        subst
          (λ d. Batched (sub_64 m.slot r.disclosure_delay) m.sender_id key f r (
            ok tt,
            record j {
              authenticated =
                  reports m.sender_id (passing f (get_unverified (sub_64 m.slot d) j))
                    j.authenticated;
              unverified_msgs = delete (sub_64 m.slot d) j.unverified_msgs;
            },
          ))
          (sym (judged-delay m.sender_id key s ∙ u.disclosure_delay))
          (judged-Batched (sub_64 m.slot r.disclosure_delay) m.sender_id key f r s u))
    where
      s : Rcd
      s = taken env key (to_bytes f) (arrived env datagram r)

      j : Rcd
      j = judged m.sender_id key s

      u : Unjudged env r s (delete (hmac key (to_bytes f)) r.received_hmacs)
      u = taken-Unjudged env datagram key (to_bytes f) r

      verified : verify_key env m.sender_id key s ≡ (ok true, set_commitment m.sender_id key s)
      verified =
          elim (verify_key_known env m.sender_id key commitment s v.whole_key
            (ap (load m.sender_id) u.commitment_keys ∙ v.stored)) [
              | inl (_, run) ↦ run
              | inr (never, _) ↦ absurd (
                  never (
                    subst (λ n. Reaches env 0 (n + 1) key commitment) (sym u.hashchain_len)
                      v.reaches))
            ]

      run : handle_message env datagram r ≡ (
        ok tt,
        record j {
          authenticated =
              reports m.sender_id
                (passing f (get_unverified (sub_64 m.slot j.disclosure_delay) j))
                j.authenticated;
          unverified_msgs = delete (sub_64 m.slot j.disclosure_delay) j.unverified_msgs;
        },
      )
      run =
          handle_key_run env datagram m now r key (to_bytes f) v.arrives v.is_key v.is_body
            v.whole_key
          ∙ ap (λ o. disclosed env o m key (to_bytes f) s) v.known
          ∙ verified_run m key (to_bytes f) s b (u.mode ∙ v.mode) verified
          ∙ (unfold judged in (accept_batch env m f j v.is_filter v.fits_m v.fits_k).0)

-- ===== src/Rcd/Receive/Verdict.antt =====
-- What the handler decides on a key message.
use broadauth.Base.{
  ℕ, ◌+◌, ◌≡◌, ◌⊎◌, inl, inr, refl, sym, ap, ◌∙◌, subst, Bytes, ◌∷◌, ◌++◌, length, some, Bool, true,
  false, Result, ok, arith, load, store, delete, bytes_eq, nat_eq,
}
use broadauth.Message.{Message, kind_key_message}
use broadauth.Rcd.{Env, Rcd, deterministic}
use broadauth.Rcd.Metered.{count_verify}
use broadauth.Rcd.Receive.{
  set_commitment, report, verify_key, timed_verify, accept, disclosed, handle_message,
}
use broadauth.Rcd.Receive.Keys.{Reaches, verify_key_known}
use broadauth.Rcd.Receive.Accept.{Arrives, arrived}
use broadauth.Rcd.Receive.Spent.{taken, handle_key_run, Unjudged, taken-Unjudged}

module _ (env : Env) where
  open env use {hmac}

  -- What is left of a key message that was judged by `P`: the HMAC is spent either way; the
  -- payload is reported, and the key becomes the commitment, only if `P` holds.
  pub record Judged (P : Type 0) (sender key payload : Bytes) (r : Rcd)
      (done : Result (Unit {0}) × Rcd) : Type 0 where
    pub returns : done.0 ≡ ok tt
    pub spent : done.1.received_hmacs ≡ delete (hmac key payload) r.received_hmacs
    pub same_items : done.1.unverified_msgs ≡ r.unverified_msgs
    pub verdict :
        (P
          × (done.1.authenticated ≡ (sender, payload) ∷ r.authenticated)
          × (done.1.commitment_keys ≡ store sender key r.commitment_keys))
        ⊎ ((¬ P)
            × (done.1.authenticated ≡ r.authenticated)
            × (done.1.commitment_keys ≡ r.commitment_keys))

  accepted_run :
      (m : Message) (key payload : Bytes) (s : Rcd) (b : Bool)
      → s.mode ≡ deterministic
      → verify_key env m.sender_id key s ≡ (ok true, set_commitment m.sender_id key s)
      → disclosed env (some b) m key payload s
        ≡ (ok tt, report m.sender_id payload (count_verify env (set_commitment m.sender_id key s)))
  unfolding disclosed timed_verify accept count_verify set_commitment
  accepted_run m key payload s b e v = ground (arith, e, v)

  refused_run :
      (m : Message) (key payload : Bytes) (s : Rcd) (b : Bool)
      → verify_key env m.sender_id key s ≡ (ok false, s)
      → disclosed env (some b) m key payload s ≡ (ok tt, count_verify env s)
  unfolding disclosed timed_verify
  refused_run m key payload s b v = ground (arith, v)

  Judged-yes :
      (sender key payload : Bytes) (r s : Rcd) (P : Type 0)
      → Unjudged env r s (delete (hmac key payload) r.received_hmacs)
      → P
      → Judged P sender key payload r
          (ok tt, report sender payload (count_verify env (set_commitment sender key s)))
  unfolding report count_verify set_commitment
  Judged-yes sender key payload r s P u p = record {
    returns = refl;
    spent = ground (arith, u);
    same_items = ground (arith, u);
    verdict = inl (p, ground (arith, u), ground (arith, u));
  }

  Judged-no :
      (sender key payload : Bytes) (r s : Rcd) (P : Type 0)
      → Unjudged env r s (delete (hmac key payload) r.received_hmacs)
      → ¬ P
      → Judged P sender key payload r (ok tt, count_verify env s)
  unfolding count_verify
  Judged-no sender key payload r s P u p = record {
    returns = refl;
    spent = ground (arith, u);
    same_items = ground (arith, u);
    verdict = inr (p, ground (arith, u), ground (arith, u));
  }

  -- In deterministic mode a key message that is read, with an answer of the slot source, an HMAC
  -- that is known and a commitment of the sender, is reported as authentic exactly if at most
  -- `hashchainLen + 1` hashes lead from its key to the commitment, and then the key becomes the
  -- commitment. Its HMAC is spent either way, and nothing else is reported.
  pub handle_key_message-Judged :
      (datagram : Bytes) (m : Message) (now : ℕ) (r : Rcd) (key payload commitment : Bytes)
      (b : Bool)
      → Arrives env datagram m now r
      → m.kind ≡ kind_key_message
      → m.body ≡ key ++ payload
      → length key ≡ 32
      → r.mode ≡ deterministic
      → load (hmac key payload) r.received_hmacs ≡ some b
      → load m.sender_id r.commitment_keys ≡ some commitment
      → Judged
          (Reaches env 0 (r.hashchain_len + 1) key commitment)
          m.sender_id
          key
          payload
          r
          (handle_message env datagram r)
  handle_key_message-Judged datagram m now r key payload commitment b a k e len det known stored =
      subst (Judged P m.sender_id key payload r) (sym run)
        (elim (verify_key_known env m.sender_id key commitment s len
          (ap (load m.sender_id) u.commitment_keys ∙ stored)) [
            | inl (p, v) ↦
                subst (Judged P m.sender_id key payload r)
                  (sym (accepted_run m key payload s b (u.mode ∙ det) v))
                  (Judged-yes m.sender_id key payload r s P u (bound p))
            | inr (p, v) ↦
                subst (Judged P m.sender_id key payload r) (sym (refused_run m key payload s b v))
                  (Judged-no m.sender_id key payload r s P u (λ q. p (bound' q)))
          ])
    where
      s : Rcd
      s = taken env key payload (arrived env datagram r)

      P : Type 0
      P = Reaches env 0 (r.hashchain_len + 1) key commitment

      u : Unjudged env r s (delete (hmac key payload) r.received_hmacs)
      u = taken-Unjudged env datagram key payload r

      bound : Reaches env 0 (s.hashchain_len + 1) key commitment → P
      bound = subst (λ n. Reaches env 0 (n + 1) key commitment) u.hashchain_len

      bound' : P → Reaches env 0 (s.hashchain_len + 1) key commitment
      bound' = subst (λ n. Reaches env 0 (n + 1) key commitment) (sym u.hashchain_len)

      run : handle_message env datagram r ≡ disclosed env (some b) m key payload s
      run =
          handle_key_run env datagram m now r key payload a k e len
          ∙ ap (λ o. disclosed env o m key payload s) known

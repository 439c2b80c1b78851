-- ===== src/Rcd/System/Verified.antt =====
-- The check of a key and what follows it keep the bounds.
use broadauth.Base.{
  nat_eq, ℕ, zero, suc, ◌+◌, Bytes, List, [], ◌∷◌, Option, some, none, Bool, true, false, arith,
  int_eq, load, delete, bytes_eq,
}
use broadauth.Base.State.{carry-keeps, when, modify, pure}
use broadauth.Message.{Message}
use broadauth.Bloom.{Filter, check, from_bytes}
use broadauth.Rcd.{Env, Rcd, Mode, deterministic, probabilistic}
use broadauth.Rcd.Receive.{
  array_32, sub_64, set_commitment, report, check_items, get_unverified, hash_back, verify_against,
  from_contract, verify_known, verify_key, timed_verify, batch_of, accept,
}
use broadauth.Rcd.System.Bounded.{Bounded, count_verify-Bounded}

module _ (env : Env) where
  open env use {hasher, hmac}

  hash_back-Bounded :
      (left : ℕ) (sender key commitment current : Bytes) (r : Rcd)
      → Bounded env r
      → Bounded env (hash_back env left sender key commitment current r).1
  unfolding hash_back set_commitment
  hash_back-Bounded zero sender key commitment current r b = b
  hash_back-Bounded (suc left) sender key commitment current r b =
      ground (arith, hash_back-Bounded left sender key commitment (hasher.sum current) r b)

  verify_against-Bounded :
      (sender key commitment : Bytes) (r : Rcd)
      → Bounded env r
      → Bounded env (verify_against env sender key commitment r).1
  unfolding verify_against set_commitment
  verify_against-Bounded sender key commitment r b =
      ground
        (arith, hash_back-Bounded (r.hashchain_len + 1) sender key commitment (array_32 key) r b)

  from_contract-Bounded :
      (o : Option Bytes) (sender key : Bytes) (r : Rcd)
      → Bounded env r
      → Bounded env (from_contract env o sender key r).1
  unfolding from_contract
  from_contract-Bounded none sender key r b = b
  from_contract-Bounded (some []) sender key r b = b
  from_contract-Bounded (some (x ∷ xs)) sender key r b =
      let b' : Bounded env (set_commitment sender (x ∷ xs) r) =
        unfold set_commitment in ground arith in
      verify_against-Bounded sender key (x ∷ xs) _ b'

  verify_known-Bounded :
      (o : Option Bytes) (sender key : Bytes) (r : Rcd)
      → Bounded env r
      → Bounded env (verify_known env o sender key r).1
  unfolding verify_known
  verify_known-Bounded (some commitment) sender key r b =
      verify_against-Bounded sender key commitment r b
  verify_known-Bounded none sender key r b =
      let b' : Bounded env (record r { contract_calls = r.contract_calls + 1 }) = ground arith in
      from_contract-Bounded _ sender key _ b'

  pub timed_verify-Bounded :
      (sender key : Bytes) (r : Rcd) → Bounded env r → Bounded env (timed_verify env sender key r).1
  unfolding timed_verify verify_key
  timed_verify-Bounded sender key r b =
      carry-keeps (Bounded env) (verify_key env sender key r) _
        (verify_known-Bounded (load sender r.commitment_keys) sender key r b)
        λ _ r1 b1. count_verify-Bounded env r1 b1

  marked-Bounded :
      (hit : Bool) (sender item : Bytes) (r : Rcd)
      → Bounded env r
      → Bounded env (when hit (modify (report sender item)) (pure tt) r).1
  unfolding report
  marked-Bounded true sender item r b = ground arith
  marked-Bounded false sender item r b = b

  check_items-Bounded :
      (f : Filter) (sender : Bytes) (items : List Bytes) (r : Rcd)
      → Bounded env r
      → Bounded env (check_items f sender items r).1
  unfolding check_items
  check_items-Bounded f sender [] r b = b
  check_items-Bounded f sender (item ∷ items) r b =
      carry-keeps (Bounded env) (check f item, r) _ b
        λ hit r1 b1.
          carry-keeps (Bounded env) (when hit (modify (report sender item)) (pure tt) r1) _
            (marked-Bounded hit sender item r1 b1)
            λ _ r2 b2. check_items-Bounded f sender items r2 b2

  batch_of-Bounded :
      (o : Option Filter) (m : Message) (r : Rcd)
      → Bounded env r
      → Bounded env (batch_of env o m r).1
  unfolding batch_of
  batch_of-Bounded none m r b = b
  batch_of-Bounded (some f) m r b =
      carry-keeps (Bounded env)
        (check_items f m.sender_id (get_unverified (sub_64 m.slot r.disclosure_delay) r) r) _
        (check_items-Bounded f m.sender_id _ r b) λ _ r1 b1. dropped r1 b1
    where
      dropped :
          (s : Rcd)
          → Bounded env s
          → Bounded env (record s {
            unverified_msgs = delete (sub_64 m.slot r.disclosure_delay) s.unverified_msgs;
          })
      dropped s b = ground arith

  pub accept-Bounded :
      (mode : Mode) (m : Message) (payload : Bytes) (r : Rcd)
      → Bounded env r
      → Bounded env (accept env mode m payload r).1
  unfolding accept report
  accept-Bounded deterministic m payload r b = ground arith
  accept-Bounded probabilistic m payload r b = batch_of-Bounded (from_bytes payload) m r b

  pub judged-Bounded :
      (verified : Bool) (mode : Mode) (m : Message) (payload : Bytes) (r : Rcd)
      → Bounded env r
      → Bounded env (when verified (accept env mode m payload) (pure tt) r).1
  judged-Bounded true mode m payload r b = accept-Bounded mode m payload r b
  judged-Bounded false mode m payload r b = b

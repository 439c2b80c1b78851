-- ===== src/Rcd/Keys/Rounds.antt =====
-- A request that the owner serves at once, and the rounds of `CurrentSlotKey`.
use broadauth.Base.{
  ℕ, suc, ◌+◌, ◌-◌, ◌*◌, ◌≤◌, ◌≡◌, ◌≢◌, inl, inr, Bytes, ◌++◌, length, arith, some, false, ok,
  Bool-cases, nat_eqb, nat_eqb_iff, ltb,
}
use broadauth.Hashchain.Spec.{hashes, linear_at}
use broadauth.Hashchain.Existing.{existing-hashes}
use broadauth.Hashchain.Drain.{next_hash-linear_at}
use broadauth.Rcd.{Env, KeyState}
use broadauth.Rcd.Keys.{
  be_bytes, get_slot, set_chain, read_chain, request_hash_chain_once, attempts, request_hash_chain,
  set_slot, refill, slot_round, current_slot_key,
}
use broadauth.Rcd.Keys.Advance.{at_hash, next_key_lem}

module _ (env : Env) where
  open env use {hasher}

  -- The owner's answer is a chain of `len` hashes, as `NewLinear` makes it.
  abbrev pub Serves : ℕ → Type 0
  Serves len =
      (i : ℕ) (req : Bytes)
      → (x : Bytes) × (length x ≡ hasher.size)
        × (env.owner i req ((len + 1) * 32) ≡ some (hashes hasher len x))

  -- The state after a request that was served at once, and its first key.
  abbrev pub refilled : KeyState → ℕ → Bytes → ℕ → KeyState
  refilled s len x slot =
      at_hash env (record s { slot_calls = s.slot_calls + 1; owner_calls = s.owner_calls + 1 }) len
        x 1 slot

  pub refill_lem :
      (id : Bytes) (len b : ℕ) (s : KeyState)
      → 1 ≤ len
      → length s.cached_key ≡ hasher.size
      → Serves len
      → env.get_slot s.slot_calls ≡ some b
      → (x : Bytes) × (length x ≡ hasher.size) × (refill env id len s ≡ (ok tt, refilled s len x b))
  refill_lem id len b s pos whole serves at = go (serves s.owner_calls (id ++ be_bytes 32 b))
    where
      enough : ltb (len - 0) 1 ≡ false
      enough = ground arith

      asked : Bytes → KeyState
      asked x = record s {
        hash_chain = some (linear_at hasher len x 0);
        slot_calls = s.slot_calls + 1;
        owner_calls = s.owner_calls + 1;
      }

      go :
          (x : Bytes) × (length x ≡ hasher.size)
            × (env.owner s.owner_calls (id ++ be_bytes 32 b) ((len + 1) * 32)
                ≡ some (hashes hasher len x))
          → (x : Bytes) × (length x ≡ hasher.size)
            × (refill env id len s ≡ (ok tt, refilled s len x b))
      go (x, l, e) = (
        x,
        l,
        unfold refill get_slot request_hash_chain attempts request_hash_chain_once read_chain
              set_chain set_slot in
            rw (at, e, existing-hashes hasher len x l)
              (rw (
                (next_hash-linear_at hasher len 0 x l (omega arith)).1,
                enough,
                next_key_lem env len 0 x (asked x) l whole pos,
              )),
      )

  -- A round that leaves a slot ends the loop, and any other goes round again.
  pub round_ends :
      (fuel : ℕ) (id : Bytes) (len : ℕ) (s t : KeyState)
      → slot_round env id len s ≡ (ok tt, t)
      → t.cached_key_slot ≢ 0
      → current_slot_key env (suc fuel) id len s ≡ (ok (t.cached_key_slot, t.cached_key), t)
  unfolding current_slot_key
  round_ends fuel id len s t e ne = elim (Bool-cases (nat_eqb t.cached_key_slot 0)) [
    | inl z ↦ absurd (ne ((nat_eqb_iff t.cached_key_slot 0).0 z))
    | inr more ↦ rw (e, more)
  ]

  pub round_again :
      (fuel : ℕ) (id : Bytes) (len : ℕ) (s t : KeyState)
      → slot_round env id len s ≡ (ok tt, t)
      → t.cached_key_slot ≡ 0
      → current_slot_key env (suc fuel) id len s ≡ current_slot_key env fuel id len t
  round_again fuel id len s t e z =
      let zero_slot = (nat_eqb_iff t.cached_key_slot 0).1 z in
      unfold current_slot_key in rw (e, zero_slot)

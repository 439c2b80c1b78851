-- ===== src/Rcd/Keys.antt =====
-- The hash chain of an RCD and the key of each slot: `RequestHashChain`, `requestHashChainOnce`
-- and `CurrentSlotKey`.
pub mod Advance
pub mod Slots
pub mod CatchUp
pub mod Sound
pub mod Rounds
pub mod Total
pub mod Spin
use broadauth.Base.{
  ℕ, zero, suc, ◌+◌, ◌-◌, ◌*◌, ◌/◌, ◌%◌, Bytes, ◌++◌, [], ◌∷◌, take, drop, Option, some, none, Bool,
  true, false, ◌||◌, Result, ok, err, panic, running, no_slot, no_chain, short_chain,
  request_failed, ltb, ltb_ℤ, pos, ◌==◌, nat_eq, int_eq, overwrite, if◌then◌else◌,
}
use broadauth.Base.State.{M, carry, ◌>>=◌, ◌>>◌, pure, fail, lift, gets, modify, when, on_error}
use broadauth.Hashchain.{Linear, next_hash, remaining, new_linear_from_existing}
use broadauth.Rcd.{Env, KeyState}

-- `big.Int.FillBytes` into `n` bytes.
unfoldable pub be_bytes : ℕ → ℕ → Bytes
be_bytes zero v = []
be_bytes (suc n) v = be_bytes n (v / 256) ++ (v % 256 ∷ [])

abbrev pub answered : Option ℕ → M KeyState ℕ
answered none s = (err no_slot, s)
answered (some slot) s = (ok slot, s)

module _ (env : Env) where
  unfoldable pub get_slot : M KeyState ℕ
  get_slot s =
      let s' = record s { slot_calls = s.slot_calls + 1 } in answered (env.get_slot s.slot_calls) s'

  -- The chain of the owner's answer, which must have a hash to give out.
  unfoldable pub set_chain : Result Linear → M KeyState (Unit {0})
  set_chain (ok chain) s =
      if ltb_ℤ (remaining env.hasher chain) (pos 1)
      then (err short_chain, s)
      else (ok tt, record s { hash_chain = some chain })
  set_chain (err e) s = (err e, s)
  set_chain panic s = (panic, s)
  set_chain running s = (running, s)

  unfoldable pub read_chain : Option Bytes → M KeyState (Unit {0})
  unfolding set_chain
  read_chain none s = (err no_chain, s)
  read_chain (some answer) s = set_chain (new_linear_from_existing env.hasher answer) s

  unfoldable pub request_hash_chain_once : Bytes → ℕ → ℕ → M KeyState (Unit {0})
  unfolding read_chain
  request_hash_chain_once id hashchain_len current_slot s =
      read_chain
        (env.owner s.owner_calls (id ++ be_bytes 32 current_slot) ((hashchain_len + 1) * 32))
        (record s { owner_calls = s.owner_calls + 1 })

  -- The loop of `RequestHashChain`, with the attempts that are left. An error is retried.
  unfoldable pub attempts : ℕ → Bytes → ℕ → ℕ → M KeyState (Unit {0})
  attempts zero id len slot s = (err request_failed, s)
  attempts (suc left) id len slot s =
      on_error (request_hash_chain_once id len slot s) (λ s'. attempts left id len slot s')

  unfoldable pub request_hash_chain : Bytes → ℕ → ℕ → M KeyState (Unit {0})
  unfolding attempts
  request_hash_chain = attempts 3

  -- `copy(r.cachedKey[:], key)` of a hash that was given out.
  unfoldable pub store_key : Result (Bytes × Linear) → M KeyState (Unit {0})
  store_key (ok (key, chain)) s =
      (ok tt, record s { hash_chain = some chain; cached_key = overwrite key s.cached_key })
  store_key (err e) s = (err e, s)
  store_key panic s = (panic, s)
  store_key running s = (running, s)

  -- `r.hashChain.Next()`, stored; a nil chain panics.
  unfoldable pub next_key : Option Linear → M KeyState (Unit {0})
  unfolding store_key
  next_key none s = (panic, s)
  next_key (some chain) s = store_key (next_hash env.hasher chain) s

  unfoldable pub set_slot : ℕ → M KeyState (Unit {0})
  set_slot slot s = (ok tt, record s { cached_key_slot = slot })

  -- The chain is requested from the slot that the source gives now, and its first key is the key
  -- of that slot.
  unfoldable pub refill : Bytes → ℕ → M KeyState (Unit {0})
  unfolding get_slot set_slot
  refill id len = do
    begin ← get_slot
    request_hash_chain id len begin
    chain ← gets (λ s. s.hash_chain)
    next_key chain
    set_slot begin

  unfoldable pub exhausted : Option Linear → Bool
  exhausted none = false
  exhausted (some chain) = remaining env.hasher chain == pos 0

  -- `for r.cachedKeySlot < currentSlot`, which makes as many rounds as the cached slot is behind:
  -- each adds one to it, and an exhausted chain ends the loop.
  unfoldable pub advance : ℕ → M KeyState (Unit {0})
  advance zero s = (ok tt, s)
  advance (suc left) s =
      let more : M KeyState (Unit {0}) = (λ s'. advance left s') in
      if exhausted s.hash_chain
      then (ok tt, record s { cached_key_slot = 0 })
      else carry (next_key s.hash_chain s)
          (λ _ s'. more (record s' { cached_key_slot = s'.cached_key_slot + 1 }))

  unfoldable pub is_missing : Option Linear → Bool
  is_missing none = true
  is_missing (some chain) = false

  -- One round of the outer loop; the state is returned if it has a slot.
  unfoldable pub slot_round : Bytes → ℕ → M KeyState (Unit {0})
  unfolding get_slot is_missing
  slot_round id len = do
    missing ← gets (λ s. is_missing s.hash_chain || s.cached_key_slot == 0)
    when missing (refill id len) (pure tt)
    current ← get_slot
    behind ← gets (λ s. current - s.cached_key_slot)
    advance behind

  -- `for { … }` with fuel.
  unfoldable pub current_slot_key : ℕ → Bytes → ℕ → M KeyState (ℕ × Bytes)
  current_slot_key zero id len s = (running, s)
  current_slot_key (suc fuel) id len s =
      let again : M KeyState (ℕ × Bytes) = (λ s'. current_slot_key fuel id len s') in
      carry (slot_round id len s) (λ _ s'.
        if s'.cached_key_slot == 0 then again s' else (ok (s'.cached_key_slot, s'.cached_key), s'))

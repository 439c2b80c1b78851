-- ===== src/Owner.antt =====
-- internal/owner/owner.go: the owner, which makes a hash chain for each request of an RCD, puts
-- its first hash into the contract and sends the chain. The manager, the contract and the random
-- source are what it calls.
pub mod Written
pub mod Life
pub mod Chain
pub mod Serve
pub mod Books
pub mod Attempt
pub mod Listen
pub mod Lasting
pub mod Race
pub mod Tests
use broadauth.Base.{
  ℕ, zero, suc, ◌+◌, ◌*◌, ◌%◌, ◌^◌, Bytes, [], ◌∷◌, ◌++◌, take, drop, length, Map, load, store,
  bytes_eq, Option, some, none, Bool, true, false, Result, Error, ok, err, ltb, ltb_ℤ, nat_eqb, ◌≡◌,
  if◌then◌else◌, ℤ, pos, negsuc, sub_ℕ, List, replicate, overwrite, no_request, unknown_rcd,
  registration_failed, no_seed, store_failed, not_mined, change_failed,
}
use broadauth.Base.State.{M, carry, ◌>>=◌, ◌>>◌, lift, gets, modify, when, pure, fail}
use broadauth.Hashchain.{Hasher, new_linear, first}
use Written.{send_chain}

-- The struct `rcdState`.
pub record RcdState : Type 0 where
  pub registered : Bool
  pub current_index : ℕ
  pub last_start_time : ℕ
  pub last_end_time : ℕ
  pub last_disclosure_delay : ℕ

-- The arguments of the contract's `StoreKey`.
pub record KeyEntry : Type 0 where
  pub rcd : Bytes
  pub index : ℕ
  pub key : Bytes
  pub start_time : ℕ
  pub end_time : ℤ
  pub disclosure_delay : ℕ

-- A call of `StoreKey` or `ChangeCurrentIndex`.
pub data Transaction : Type 0 where
  storing : KeyEntry → Transaction
  switching : Bytes → Transaction

-- The struct `Owner`, the number of calls it has made of the outside, and the calls of the
-- contract for which `WaitMined` gave a receipt, newest first. The code does not look whether a
-- receipt is one of a success.
pub record Owner : Type 0 where
  pub address : Bytes
  pub rcds : Map Bytes RcdState
  pub hashchain_len : ℤ
  pub disclosure_delay : ℕ
  pub calls : ℕ
  pub log : List Transaction

-- SHA-256, and the outside by the number of the call: whether the manager answers a registration
-- with success, 32 random bytes or an error, whether a transaction is sent and whether the wait
-- for it gives a receipt, and the low 64 bits that `big.Int.Uint64` gives.
pub record Outside : Type 0 where
  pub hasher : Hasher
  pub size_32 : hasher.size ≡ 32
  pub register : ℕ → Bytes → Bool
  pub random : ℕ → Option Bytes
  pub store_key : ℕ → KeyEntry → Bool
  pub change_index : ℕ → Bytes → Bool
  pub mined : ℕ → Bool
  pub to_uint64 : ℤ → ℕ

-- `big.Int.SetBytes`.
unfoldable pub of_be : ℕ → Bytes → ℕ
of_be acc [] = acc
of_be acc (x ∷ xs) = of_be (acc * 256 + x) xs

abbrev pub fresh_state : Bool → RcdState
fresh_state registered = record {
  registered = registered;
  current_index = 0;
  last_start_time = 0;
  last_end_time = 0;
  last_disclosure_delay = 0;
}

-- `NewRCD`, with the identifier that `uuid.New` gives.
unfoldable pub new_rcd : Bytes → Owner → Owner
new_rcd id o = record o { rcds = store id (fresh_state false) o.rcds }

-- The payload of `registerRCD`: 36 bytes with the address and the identifier.
unfoldable pub registration : Bytes → Bytes → Bytes
registration address id = overwrite address (replicate 20 0) ++ overwrite id (replicate 16 0)

-- `blockNum + (hashchainLen - 1)`.
unfoldable pub end_of : ℕ → ℤ → ℤ
end_of block_num (pos n) = sub_ℕ (block_num + n) 1
end_of block_num (negsuc n) = sub_ℕ block_num (n + 2)

-- A call that failed ends the handler.
unfoldable pub require : Bool → Error → M Owner (Unit {0})
require true e o = (ok tt, o)
require false e o = (err e, o)

module _ (out : Outside) where
  open out use {hasher}

  -- A call of the outside that answers by a Boolean.
  unfoldable pub call : (ℕ → Bool) → M Owner Bool
  call answer o = (ok (answer o.calls), record o { calls = o.calls + 1 })

  unfoldable pub register_rcd : Bytes → M Owner Bool
  unfolding call registration
  register_rcd id o = call (λ i. out.register i (registration o.address id)) o

  -- The state of the RCD, registered if it was not.
  unfoldable pub ensure_registered : Bytes → RcdState → M Owner RcdState
  unfolding register_rcd
  ensure_registered id s o =
      if s.registered
      then (ok s, o)
      else carry (register_rcd id o) λ done o'.
        if done
        then (ok (fresh_state true), record o' { rcds = store id (fresh_state true) o'.rcds })
        else (err registration_failed, o')

  unfoldable pub seed : M Owner Bytes
  seed o =
      let o' = record o { calls = o.calls + 1 } in
      elim (out.random o.calls) [ none ↦ (err no_seed, o') | some b ↦ (ok b, o') ]

  unfoldable pub entry : Bytes → RcdState → Bytes → ℕ → Owner → KeyEntry
  entry id s key block_num o = record {
    rcd = id;
    index = (s.current_index + 1) % 2 ^ 64;
    key = key;
    start_time = block_num;
    end_time = end_of block_num o.hashchain_len;
    disclosure_delay = o.disclosure_delay;
  }

  -- `StoreKey`, waiting for its receipt.
  unfoldable pub publish : KeyEntry → M Owner (Unit {0})
  unfolding call require
  publish e = do
    taken ← call (λ i. out.store_key i e)
    require taken store_failed
    mined ← call out.mined
    require mined not_mined
    modify (λ o. record o { log = storing e ∷ o.log })

  -- `ChangeCurrentIndex`, from the second chain on.
  unfoldable pub change_current_index : Bytes → RcdState → M Owner (Unit {0})
  unfolding call require
  change_current_index id s = when (nat_eqb s.current_index 0) (pure tt) do
    taken ← call (λ i. out.change_index i id)
    require taken change_failed
    mined ← call out.mined
    require mined not_mined
    modify (λ o. record o { log = switching id ∷ o.log })

  unfoldable pub update_state : Bytes → RcdState → KeyEntry → Owner → Owner
  update_state id s e o = record o {
    rcds =
        store id
          (record s {
            current_index = (s.current_index + 1) % 2 ^ 64;
            last_start_time = out.to_uint64 (pos e.start_time);
            last_end_time = out.to_uint64 e.end_time;
            last_disclosure_delay = o.disclosure_delay;
          })
          o.rcds;
  }

  unfoldable pub serve : Bytes → ℕ → RcdState → M Owner Bytes
  unfolding ensure_registered seed entry publish change_current_index update_state send_chain
  serve id block_num stored = do
    s ← ensure_registered id stored
    b ← seed
    len ← gets (λ o. o.hashchain_len)
    chain ← lift (new_linear hasher b len)
    key ← lift (first hasher chain)
    e ← gets (entry id s key block_num)
    publish e
    change_current_index id s
    modify (update_state id s e)
    lift (send_chain hasher key chain)

  unfoldable pub serve_known : Bytes → ℕ → Option RcdState → M Owner Bytes
  unfolding serve
  serve_known id block_num none o = (err unknown_rcd, o)
  serve_known id block_num (some s) o = serve id block_num s o

  -- A request that was read whole has 48 bytes: the identifier and the block number. An error
  -- closes the connection with nothing written.
  unfoldable pub handle_rcd : Option Bytes → M Owner Bytes
  unfolding serve_known of_be
  handle_rcd none o = (err no_request, o)
  handle_rcd (some buf) o =
      serve_known (take 16 buf) (of_be 0 (drop 16 buf)) (load (take 16 buf) o.rcds) o

-- ===== src/Contract.antt =====
-- contracts/src/InfTESLAPlusPlus.sol: the contract that holds the owner of each RCD and the first
-- keys of its chains. A transaction that reverts changes nothing.
pub mod Effect
pub mod Frozen
pub mod Chained
pub mod Disjoint
pub mod Owned
pub mod InStep
pub mod Gap
pub mod Tests
use broadauth.Base.{
  ℕ, ◌+◌, ◌-◌, ◌^◌, Bytes, List, [], ◌∷◌, Option, some, none, Bool, true, false, not, ◌==◌, nat_eq,
  bytes_eq, nat_eqb, ltb, ◌||◌, if◌then◌else◌, Map, load, store,
}

-- The entries of the five mappings of an RCD at an index. An index with no entry reads as zeros,
-- an empty key and `isIndexExist` false.
pub record Chain : Type 0 where
  pub key : Bytes
  pub start_time : ℕ
  pub end_time : ℕ
  pub disclosure_delay : ℕ

-- The struct `rcd`.
pub record ContractRcd : Type 0 where
  pub is_taken : Bool
  pub owner : Bytes
  pub chains : Map ℕ Chain
  pub current_index : ℕ

abbrev pub zero_chain : Chain
zero_chain = record { key = []; start_time = 0; end_time = 0; disclosure_delay = 0 }

abbrev pub zero_rcd : ContractRcd
zero_rcd = record { is_taken = false; owner = []; chains = []; current_index = 0 }

abbrev pub or_else {ℓ} : {A : Type ℓ} → A → Option A → A
or_else a none = a
or_else a (some b) = b

abbrev pub is_some {ℓ} : {A : Type ℓ} → Option A → Bool
is_some none = false
is_some (some a) = true

pub record Contract : Type 0 where
  pub cm : Bytes
  pub rcds : Map ℕ ContractRcd

abbrev pub rcd_at : ℕ → Contract → ContractRcd
rcd_at id c = or_else zero_rcd (load id c.rcds)

abbrev pub chain_at : ℕ → ContractRcd → Chain
chain_at i r = or_else zero_chain (load i r.chains)

-- `isIndexExist`.
abbrev pub exists_at : ℕ → ContractRcd → Bool
exists_at i r = is_some (load i r.chains)

unfoldable pub put : ℕ → ContractRcd → Contract → Contract
put id r c = record c { rcds = store id r c.rcds }

-- A call of the contract with its sender or its block.
pub data Call : Type 0 where
  reg_owner : (sender owner : Bytes) (rcd : ℕ) → Call
  store_key : (sender : Bytes) (rcd index : ℕ) (chain : Chain) → Call
  change_current_index : (rcd block : ℕ) → Call

-- Each `require` in turn; `none` is a revert.
unfoldable pub require : Bool → Option Contract → Option Contract
require true k = k
require false k = none

unfoldable pub registered : Bytes → ContractRcd → ContractRcd
registered owner r = record r { owner = owner; is_taken = true; current_index = 0 }

unfoldable pub stored : ℕ → Chain → ContractRcd → ContractRcd
stored index chain r = record r {
  chains = store index chain r.chains;
  current_index = if nat_eqb r.current_index 0 then 1 else r.current_index;
}

-- The index is at most 2^256 - 1, so that one more does not fit only there.
unfoldable pub advanced : ContractRcd → ContractRcd
advanced r = record r { current_index = r.current_index + 1 }

unfoldable pub exec : Call → Contract → Option Contract
exec (reg_owner sender owner rcd) c =
    require (sender == c.cm)
      (require (not (rcd_at rcd c).is_taken) (some (put rcd (registered owner (rcd_at rcd c)) c)))
exec (store_key sender rcd index chain) c =
    let r = rcd_at rcd c in
    require r.is_taken (
      require (r.owner == sender) (
        require (ltb r.current_index index) (
          require
            (nat_eqb r.current_index 0 || ltb (chain_at (index - 1) r).end_time chain.start_time)
            (some (put rcd (stored index chain r) c)))))
exec (change_current_index rcd block) c =
    let r = rcd_at rcd c in
    require (ltb (chain_at r.current_index r).end_time block) (
      require (ltb (r.current_index + 1) (2 ^ 256))
        (require (exists_at (r.current_index + 1) r) (some (put rcd (advanced r) c))))

-- `getKey`.
unfoldable pub get_key : ℕ → Contract → Chain
get_key rcd c = chain_at (rcd_at rcd c).current_index (rcd_at rcd c)

-- The state after a call that may revert, and after any calls.
unfoldable pub after : Call → Contract → Contract
unfolding exec
after call c = or_else c (exec call c)

unfoldable pub after_all : List Call → Contract → Contract
after_all [] c = c
after_all (call ∷ calls) c = after_all calls (after call c)

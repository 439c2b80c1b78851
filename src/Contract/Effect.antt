-- ===== src/Contract/Effect.antt =====
-- Which states a call that does not revert can leave.
use mathlib.Core.Option.{some-injective}
use broadauth.Base.{
  ℕ, ◌+◌, ◌-◌, ◌<◌, ◌≡◌, refl, subst, Bytes, Bool, true, false, ltb, ltb→lt, nat_eqb, ◌||◌, Option,
  some, bytes_eq, arith,
}
use broadauth.Contract.{
  Contract, Chain, Call, reg_owner, store_key, change_current_index, rcd_at, chain_at, exists_at,
  put, require, registered, stored, advanced, exec,
}

pub data Effect (c : Contract) : Call → Contract → Type 0 where
  registers :
      (sender owner : Bytes) (rcd : ℕ)
      → (rcd_at rcd c).is_taken ≡ false
      → Effect c (reg_owner sender owner rcd) (put rcd (registered owner (rcd_at rcd c)) c)
  stores :
      (sender : Bytes) (rcd index : ℕ) (chain : Chain)
      → (rcd_at rcd c).is_taken ≡ true
      → (rcd_at rcd c).current_index < index
      → (nat_eqb (rcd_at rcd c).current_index 0
          || ltb (chain_at (index - 1) (rcd_at rcd c)).end_time chain.start_time)
        ≡ true
      → Effect c (store_key sender rcd index chain) (put rcd (stored index chain (rcd_at rcd c)) c)
  advances :
      (rcd block : ℕ)
      → exists_at ((rcd_at rcd c).current_index + 1) (rcd_at rcd c) ≡ true
      → Effect c (change_current_index rcd block) (put rcd (advanced (rcd_at rcd c)) c)

require-inv :
    (b : Bool) (k : Option Contract) (d : Contract)
    → require b k ≡ some d
    → (b ≡ true) × (k ≡ some d)
unfolding require
require-inv true k d e = (refl, e)
require-inv false k d e = ground (arith, e)

pub exec-Effect : (call : Call) (c d : Contract) → exec call c ≡ some d → Effect c call d
unfolding exec
exec-Effect (reg_owner sender owner rcd) c d e =
    let (_, e') = require-inv _ _ d e in
    let (free, e'') = require-inv _ _ d e' in
    subst (Effect c (reg_owner sender owner rcd)) (some-injective _ d e'')
      (registers sender owner rcd (ground (arith, free)))
exec-Effect (store_key sender rcd index chain) c d e =
    let (taken, e1) = require-inv _ _ d e in
    let (_, e2) = require-inv _ _ d e1 in
    let (later, e3) = require-inv _ _ d e2 in
    let (started, e4) = require-inv _ _ d e3 in
    subst (Effect c (store_key sender rcd index chain)) (some-injective _ d e4)
      (stores sender rcd index chain taken (ltb→lt _ index later) started)
exec-Effect (change_current_index rcd block) c d e =
    let (_, e1) = require-inv _ _ d e in
    let (_, e2) = require-inv _ _ d e1 in
    let (there, e3) = require-inv _ _ d e2 in
    subst (Effect c (change_current_index rcd block)) (some-injective _ d e3)
      (advances rcd block there)

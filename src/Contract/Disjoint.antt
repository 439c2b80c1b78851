-- ===== src/Contract/Disjoint.antt =====
-- The chains of an RCD whose keys are stored one after the other.
use broadauth.Base.{
  ℕ, ◌+◌, ◌≡◌, refl, sym, subst, List, [], ◌∷◌, Bool, true, false, ◌==◌, nat_eq, if◌then◌else◌,
  some, none, Option,
}
use broadauth.Contract.{
  Contract, ContractRcd, Call, store_key, rcd_at, put, registered, stored, advanced, exec, after,
  after_all, or_else,
}
use broadauth.Contract.Effect.{Effect, registers, stores, advances, exec-Effect}
use broadauth.Contract.Frozen.{rcd_at-put}
use broadauth.Contract.Chained.{Chained, registered-Chained, stored-Chained, advanced-Chained}

put-Chained :
    (id : ℕ) (r : ContractRcd) (c : Contract)
    → ((j : ℕ) → Chained (rcd_at j c))
    → Chained r
    → (j : ℕ) → Chained (rcd_at j (put id r c))
put-Chained id r c v w j = subst Chained (sym (rcd_at-put id j r c)) (by_same (id == j))
  where
    by_same : (b : Bool) → Chained (if b then r else rcd_at j c)
    by_same true = w
    by_same false = v j

unfoldable AllChained : Contract → Type 0
AllChained c = (j : ℕ) → Chained (rcd_at j c)

-- Where a call stores a key, it is at the index after the current one.
unfoldable pub InTurn : Call → Contract → Type 0
InTurn (store_key sender rcd index chain) c = index ≡ (rcd_at rcd c).current_index + 1
InTurn call c = Unit

Effect-AllChained :
    (call : Call) (c d : Contract) → InTurn call c → AllChained c → Effect c call d → AllChained d
unfolding InTurn AllChained
Effect-AllChained call c d turn v (registers sender owner rcd free) =
    put-Chained rcd (registered owner (rcd_at rcd c)) c v
      (registered-Chained owner (rcd_at rcd c) free (v rcd))
Effect-AllChained call c d turn v (stores sender rcd index chain taken later started) =
    put-Chained rcd (stored index chain (rcd_at rcd c)) c v
      (stored-Chained index chain (rcd_at rcd c) taken turn started (v rcd))
Effect-AllChained call c d turn v (advances rcd block there) =
    put-Chained rcd (advanced (rcd_at rcd c)) c v (advanced-Chained (rcd_at rcd c) there (v rcd))

-- Each call of a run in its turn.
unfoldable pub Orderly : List Call → Contract → Type 0
Orderly [] c = Unit
Orderly (call ∷ calls) c = InTurn call c × Orderly calls (after call c)

after-AllChained :
    (call : Call) (c : Contract) → InTurn call c → AllChained c → AllChained (after call c)
unfolding after
after-AllChained call c turn v = go (exec call c) refl
  where
    go : (o : Option Contract) → exec call c ≡ o → AllChained (or_else c o)
    go none e = v
    go (some d) e = Effect-AllChained call c d turn v (exec-Effect call c d e)

-- If every key is stored at the index after the current one, then whatever the calls of the
-- contract and their reverts, from a contract of which this holds: the chains of each RCD have the
-- indices from 1 to the current one, and perhaps the next, and the period of each ends before that
-- of the next one starts.
pub after_all-Chained :
    (calls : List Call) (c : Contract)
    → Orderly calls c
    → ((j : ℕ) → Chained (rcd_at j c))
    → (j : ℕ) → Chained (rcd_at j (after_all calls c))
unfolding after_all Orderly InTurn AllChained
after_all-Chained [] c turns v = v
after_all-Chained (call ∷ calls) c (turn, turns) v =
    after_all-Chained calls (after call c) turns (after-AllChained call c turn v)

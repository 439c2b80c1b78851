-- ===== src/Contract/InStep.antt =====
-- The contract as an owner drives it, request after request: the calls that the owner made are
-- run on it.
use broadauth.Base.{
  ℕ, ◌+◌, ◌^◌, ◌<◌, ◌≡◌, refl, sym, ap, ◌∙◌, subst, Bytes, List, [], ◌∷◌, ◌++◌, length, true, false,
  Bool, nat_eq, nat_eqb, bytes_eq, some, load, arith, pos,
}
use broadauth.Owner.{
  Owner, Outside, RcdState, KeyEntry, Transaction, storing, switching, of_be, entry, handle_rcd,
}
use broadauth.Owner.Serve.{Mining, Served, with_switch, handle_rcd-Served}
use broadauth.Contract.{Contract, Call, store_key, change_current_index, rcd_at, after, after_all}
use broadauth.Hashchain.Spec.{iter}
use broadauth.Contract.Owned.{Ready, Posted, posted, as_chain, calls_of}

-- A call of the owner as the contract gets it: the identifier is a number, and a switch runs in
-- the block `mined`.
unfoldable pub call_of : Bytes → ℕ → Transaction → Call
call_of sender mined (storing e) = store_key sender (of_be 0 e.rcd) e.index (as_chain e)
call_of sender mined (switching id) = change_current_index (of_be 0 id) mined

-- The contract after a log of such calls, newest first, each of which may revert.
unfoldable pub replay : Bytes → ℕ → List Transaction → Contract → Contract
unfolding call_of
replay sender mined [] c = c
replay sender mined (t ∷ log) c = after (call_of sender mined t) (replay sender mined log c)

-- The entries of a log.
abbrev pub entries : List Transaction → List KeyEntry
entries [] = []
entries (storing e ∷ log) = e ∷ entries log
entries (switching id ∷ log) = entries log

-- What a request left with the owner, and the contract after the calls that it added to the log.
pub record InStep (id : Bytes) (o : Owner) (mined : ℕ) (c : Contract) (done : Owner) : Type 0 where
  pub added : List Transaction
  pub logged : done.log ≡ added ++ o.log
  pub entry : KeyEntry
  pub one_entry : entries added ≡ entry ∷ []
  pub state : RcdState
  pub counted : load id done.rcds ≡ some state
  pub posted :
      Posted
        (of_be 0 id)
        state.current_index
        o.address
        (as_chain entry)
        (replay o.address mined added c)

-- The calls of a request that was served, in the order in which the contract gets them.
replay-calls_of :
    (sender : Bytes) (mined : ℕ) (id : Bytes) (s : RcdState) (e : KeyEntry) (c : Contract)
    → e.rcd ≡ id
    → replay sender mined (with_switch id s (storing e ∷ [])) c
      ≡ after_all (calls_of sender (of_be 0 id) s.current_index e mined) c
unfolding replay after_all
replay-calls_of sender mined id s e c same = go (nat_eqb s.current_index 0) refl
  where
    stores :
        after (store_key sender (of_be 0 e.rcd) e.index (as_chain e)) c
        ≡ after (store_key sender (of_be 0 id) e.index (as_chain e)) c
    stores = ap (λ j. after (store_key sender (of_be 0 j) e.index (as_chain e)) c) same

    go :
        (z : Bool)
        → nat_eqb s.current_index 0 ≡ z
        → replay sender mined (with_switch id s (storing e ∷ [])) c
          ≡ after_all (calls_of sender (of_be 0 id) s.current_index e mined) c
    go true z = rw z stores
    go false z = rw z (ap (after (change_current_index (of_be 0 id) mined)) stores)

with_switch-append :
    (id : Bytes) (s : RcdState) (e : KeyEntry) (log : List Transaction)
    → with_switch id s (storing e ∷ log) ≡ with_switch id s (storing e ∷ []) ++ log
with_switch-append id s e log = ground arith

entries-with_switch :
    (id : Bytes) (s : RcdState) (e : KeyEntry)
    → entries (with_switch id s (storing e ∷ [])) ≡ e ∷ []
entries-with_switch id s e = ground arith

-- An owner and the contract stay in step: let both have the same index for an RCD of the owner,
-- and the old chain, if there is one, be over before the block of the request and before the block
-- of the switch. Where the node takes every transaction, every wait gives a receipt, the random
-- source gives a seed and the chain length `n` is not negative, the calls that the owner adds to
-- its log at a request hold just one entry, and run on the contract they leave it with the owner's
-- new index for the RCD and with that entry as what it gives for it.
pub handle_rcd-InStep :
    (n : ℕ) (out : Outside) (id block b : Bytes) (s : RcdState) (o : Owner) (mined : ℕ)
    (c : Contract)
    → Mining out
    → length id ≡ 16
    → load id o.rcds ≡ some s
    → s.registered ≡ true
    → out.random o.calls ≡ some b
    → o.hashchain_len ≡ pos n
    → Ready (of_be 0 id) o.address (of_be 0 block) mined c
    → (rcd_at (of_be 0 id) c).current_index ≡ s.current_index
    → s.current_index + 1 < 2 ^ 64
    → InStep id o mined c (handle_rcd out (some (id ++ block)) o).1
unfolding entry
handle_rcd-InStep n out id block b s o mined c mining len known reg random l ready same fits =
    record {
      added = with_switch id s (storing e ∷ []);
      logged = served.logged ∙ with_switch-append id s e o.log;
      entry = e;
      one_entry = entries-with_switch id s e;
      state = served.indexed.0;
      counted = served.indexed.1;
      posted =
          subst (Posted (of_be 0 id) served.indexed.0.current_index o.address (as_chain e))
            (sym (replay-calls_of o.address mined id s e c refl))
            (subst
              (λ i.
                Posted (of_be 0 id) i o.address (as_chain e)
                  (after_all (calls_of o.address (of_be 0 id) s.current_index e mined) c))
              (sym served.indexed.2)
              (subst
                (λ i.
                  Posted (of_be 0 id) e.index o.address (as_chain e)
                    (after_all (calls_of o.address (of_be 0 id) i e mined) c))
                same (posted o.address (of_be 0 id) mined e c ready (omega (arith, same, fits)))));
    }
  where
    e : KeyEntry
    e = entry out id s (iter out.hasher n (out.hasher.sum b)) (of_be 0 block) o

    served : Served out n id block b s o (handle_rcd out (some (id ++ block)) o)
    served = handle_rcd-Served out n id block b s o mining len known reg random l

-- ===== src/Owner/Serve.antt =====
-- What a request of a registered RCD gets, the calls of the contract that it makes, and what the
-- owner then holds.
use broadauth.Base.{
  ℕ, ◌+◌, ◌%◌, ◌^◌, ◌≡◌, refl, sym, ap, ℤ, ◌∙◌, subst, Bytes, ◌∷◌, ◌++◌, length, List, take-append,
  drop-append, some, true, load, store, load-store, bytes_eq, eqb_refl, Result, ok, nat_eqb,
  if◌then◌else◌, arith, pos,
}
use broadauth.Hashchain.{new_linear, new_linear_from_existing}
use broadauth.Hashchain.Spec.{iter, hashes, linear_at}
use broadauth.Hashchain.Build.{new_linear-pos}
use broadauth.Hashchain.Existing.{existing-hashes}
use broadauth.Hashchain.Drain.{first-last}
use broadauth.Owner.{
  Outside, Owner, RcdState, KeyEntry, Transaction, storing, switching, of_be, entry, publish,
  change_current_index, update_state, ensure_registered, seed, serve, handle_rcd,
}
use broadauth.Owner.Chain.{send_chain-hashes}

-- The calls of the contract with the switch to the new chain, which the first chain does without.
abbrev pub with_switch : Bytes → RcdState → List Transaction → List Transaction
with_switch id s log = if nat_eqb s.current_index 0 then log else switching id ∷ log

module _ (out : Outside) where
  open out use {hasher}

  -- The node takes every transaction, and every wait gives a receipt.
  pub record Mining : Type 0 where
    pub stores : (i : ℕ) (e : KeyEntry) → out.store_key i e ≡ true
    pub changes : (i : ℕ) (id : Bytes) → out.change_index i id ≡ true
    pub mines : (i : ℕ) → out.mined i ≡ true

  -- A request that was served from the seed `b`: the chain of `n` hashes that is written, which the
  -- RCD accepts; the calls of `StoreKey` with its first hash, under the next index and from the
  -- block of the request, and of `ChangeCurrentIndex`, but for the first chain; and the next index
  -- in the owner's state.
  pub record Served (n : ℕ) (id block b : Bytes) (s : RcdState) (o : Owner)
      (done : Result Bytes × Owner) : Type 0 where
    pub written : done.0 ≡ ok (hashes hasher n (hasher.sum b))
    pub accepted :
        new_linear_from_existing hasher (hashes hasher n (hasher.sum b))
        ≡ ok (linear_at hasher n (hasher.sum b) 0)
    pub logged :
        done.1.log
        ≡ with_switch id s
            (storing (entry out id s (iter hasher n (hasher.sum b)) (of_be 0 block) o) ∷ o.log)
    pub indexed :
        (after : RcdState) × (load id done.1.rcds ≡ some after)
        × (after.current_index ≡ (s.current_index + 1) % 2 ^ 64)

  pub new_linear-of :
      (n : ℕ) (b : Bytes) (len : ℤ)
      → len ≡ pos n
      → new_linear hasher b len ≡ ok (linear_at hasher n (hasher.sum b) 0)
  new_linear-of n b len e = ap (new_linear hasher b) e ∙ new_linear-pos hasher b n

  pub ensure_registered_lem :
      (id : Bytes) (s : RcdState) (o : Owner)
      → s.registered ≡ true
      → ensure_registered out id s o ≡ (ok s, o)
  unfolding ensure_registered
  ensure_registered_lem id s o reg = ground (arith, reg)

  pub seed_lem :
      (b : Bytes) (o : Owner)
      → out.random o.calls ≡ some b
      → seed out o ≡ (ok b, record o { calls = o.calls + 1 })
  unfolding seed
  seed_lem b o e = ground (arith, e)

  unfoldable pub published : KeyEntry → Owner → Owner
  published e o = record o { calls = o.calls + 1 + 1; log = storing e ∷ o.log }

  publish_lem : (e : KeyEntry) (o : Owner) → Mining → publish out e o ≡ (ok tt, published e o)
  unfolding publish published
  publish_lem e o m = ground (arith, m.stores o.calls e, m.mines (o.calls + 1))

  unfoldable pub switched : Bytes → RcdState → Owner → Owner
  switched id s o =
      if nat_eqb s.current_index 0
      then o
      else record o { calls = o.calls + 1 + 1; log = switching id ∷ o.log }

  change_lem :
      (id : Bytes) (s : RcdState) (o : Owner)
      → Mining
      → change_current_index out id s o ≡ (ok tt, switched id s o)
  unfolding change_current_index switched
  change_lem id s o m = ground (arith, m.changes o.calls id, m.mines (o.calls + 1))

  -- The owner after a request that was served.
  unfoldable pub after : ℕ → Bytes → Bytes → ℕ → RcdState → Owner → Owner
  after n id b block_num s o =
      let e = entry out id s (iter hasher n (hasher.sum b)) block_num o in
      update_state out id s e (switched id s (published e (record o { calls = o.calls + 1 })))

  serve_run :
      (n : ℕ) (id b : Bytes) (block_num : ℕ) (s : RcdState) (o : Owner)
      → Mining
      → s.registered ≡ true
      → out.random o.calls ≡ some b
      → o.hashchain_len ≡ pos n
      → serve out id block_num s o
        ≡ (ok (hashes hasher n (hasher.sum b)), after n id b block_num s o)
  unfolding serve after entry
  serve_run n id b block_num s o m reg random e =
      rw
        (
          ensure_registered_lem id s o reg,
          seed_lem b o random,
          new_linear-of n b o.hashchain_len e,
          (first-last hasher n 0 (hasher.sum b) (hasher.length-sum b)).0,
          publish_lem (entry out id s (iter hasher n (hasher.sum b)) block_num o)
              (record o { calls = o.calls + 1 }) m,
          change_lem id s
              (published (entry out id s (iter hasher n (hasher.sum b)) block_num o)
                (record o { calls = o.calls + 1 }))
              m,
          send_chain-hashes hasher n (hasher.sum b) (hasher.length-sum b),
        )
        refl

  pub handle_run :
      (id block : Bytes) (s : RcdState) (o : Owner)
      → length id ≡ 16
      → load id o.rcds ≡ some s
      → handle_rcd out (some (id ++ block)) o ≡ serve out id (of_be 0 block) s o
  unfolding handle_rcd
  handle_run id block s o len known =
      rw (take-append 16 id block len, drop-append 16 id block len, known) refl

  pub after-Served :
      (n : ℕ) (id block b : Bytes) (s : RcdState) (o : Owner)
      → Served n id block b s o
          (ok (hashes hasher n (hasher.sum b)), after n id b (of_be 0 block) s o)
  after-Served n id block b s o = record {
    written = refl;
    accepted = existing-hashes hasher n (hasher.sum b) (hasher.length-sum b);
    logged = unfold after update_state switched published in ground arith;
    indexed = unfold after update_state in (_, load_stored _, refl);
  }
    where
      load_stored : {v : RcdState} (m : List (Bytes × RcdState)) → load id (store id v m) ≡ some v
      load_stored {v} m = rw (load-store id id v m, eqb_refl id)

  pub handle_rcd-Served :
      (n : ℕ) (id block b : Bytes) (s : RcdState) (o : Owner)
      → Mining
      → length id ≡ 16
      → load id o.rcds ≡ some s
      → s.registered ≡ true
      → out.random o.calls ≡ some b
      → o.hashchain_len ≡ pos n
      → Served n id block b s o (handle_rcd out (some (id ++ block)) o)
  handle_rcd-Served n id block b s o m len known reg random e =
      subst (Served n id block b s o)
        (sym
          (handle_run id block s o len known ∙ serve_run n id b (of_be 0 block) s o m reg random e))
        (after-Served n id block b s o)

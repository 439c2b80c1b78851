-- ===== src/Owner/Attempt.antt =====
-- A request of a registered RCD, whatever the outside answers.
use broadauth.Base.{
  ℕ, ◌+◌, ◌≡◌, ◌⊎◌, inl, inr, refl, sym, ap, ◌∙◌, subst, Bytes, ◌∷◌, ◌++◌, length, Option, some,
  none, true, load, bytes_eq, no_seed, Result, ok, err, panic, arith, ℤ, pos, negsuc,
}
use broadauth.Base.State.{Post, Post-carry, Post-weaken, carry}
use broadauth.Hashchain.Spec.{iter, hashes}
use broadauth.Hashchain.Build.{new_linear-hashes}
use broadauth.Hashchain.{new_linear}
use broadauth.Hashchain.Drain.{first-last}
use broadauth.Owner.{
  Outside, Owner, RcdState, KeyEntry, storing, of_be, entry, publish, change_current_index,
  update_state, seed, serve, handle_rcd,
}
use broadauth.Owner.Chain.{send_chain-hashes}
use broadauth.Owner.Serve.{
  Served, new_linear-of, ensure_registered_lem, seed_lem, published, switched, after, handle_run,
  after-Served,
}
use broadauth.Owner.Books.{SameBooks, publish-Post, change-Post}

module _ (out : Outside) where
  open out use {hasher}

  -- What a request that was not served leaves: the owner's states as they were, and of the calls of
  -- the contract that got a receipt at most one more, which stores an entry under the next index.
  pub record Unserved (id : Bytes) (block_num : ℕ) (s : RcdState) (o o' : Owner) : Type 0 where
    pub rcds : o'.rcds ≡ o.rcds
    pub log :
        (o'.log ≡ o.log)
        ⊎ ((key : Bytes) × (o'.log ≡ storing (entry out id s key block_num o) ∷ o.log))

  -- The hash chain of the seed `b` is written, and the owner is as after a request served.
  abbrev Done : Bytes → ℕ → RcdState → Owner → Bytes → Owner → Type 0
  Done id block_num s o bytes o' =
      (n : ℕ) × (b : Bytes) × (o.hashchain_len ≡ pos n)
      × (out.random o.calls ≡ some b)
      × (bytes ≡ hashes hasher n (hasher.sum b))
      × (o' ≡ after out n id b block_num s o)

  -- `serve` once it has a seed: the entry is stored, switched to and counted, and the chain sent.
  finish : Bytes → RcdState → KeyEntry → Bytes → ℕ → Owner → Result Bytes × Owner
  finish id s e last n o = carry (publish out e o) λ _ o₂.
      carry (change_current_index out id s o₂)
        λ _ o₃. (ok (hashes hasher n last), update_state out id s e o₃)

  serve-finish :
      (n : ℕ) (id b : Bytes) (block_num : ℕ) (s : RcdState) (o : Owner)
      → s.registered ≡ true
      → out.random o.calls ≡ some b
      → o.hashchain_len ≡ pos n
      → serve out id block_num s o
        ≡ finish id s
            (entry out id s (iter hasher n (hasher.sum b)) block_num o)
            (hasher.sum b)
            n
            (record o { calls = o.calls + 1 })
  unfolding serve finish entry
  serve-finish n id b block_num s o reg random e =
      rw
        (
          ensure_registered_lem out id s o reg,
          seed_lem out b o random,
          new_linear-of out n b o.hashchain_len e,
          (first-last hasher n 0 (hasher.sum b) (hasher.length-sum b)).0,
          send_chain-hashes hasher n (hasher.sum b) (hasher.length-sum b),
        )
        refl

  finish-Post :
      (n : ℕ) (id b : Bytes) (block_num : ℕ) (s : RcdState) (o : Owner)
      → Post
          (λ bytes o'.
            (bytes ≡ hashes hasher n (hasher.sum b)) × (o' ≡ after out n id b block_num s o))
          (Unserved id block_num s o)
          (finish id s
            (entry out id s (iter hasher n (hasher.sum b)) block_num o)
            (hasher.sum b)
            n
            (record o { calls = o.calls + 1 }))
  unfolding finish
  finish-Post n id b block_num s o =
      Post-carry (λ _ o₂. o₂ ≡ published out e o₁) Final (Unserved id block_num s o)
        (publish out e o₁) _
        (Post-weaken (λ _ o₂. o₂ ≡ published out e o₁) (λ _ o₂. o₂ ≡ published out e o₁)
          (SameBooks out o₁) (Unserved id block_num s o) (publish out e o₁) (publish-Post out e o₁)
          (λ _ _ p. p) (λ o₂ k. record { rcds = k.rcds; log = inl k.log }))
        (λ _ o₂ p.
          Post-carry (λ _ o₃. o₃ ≡ switched out id s o₂) Final (Unserved id block_num s o)
            (change_current_index out id s o₂) _
            (Post-weaken (λ _ o₃. o₃ ≡ switched out id s o₂) (λ _ o₃. o₃ ≡ switched out id s o₂)
              (SameBooks out o₂) (Unserved id block_num s o) (change_current_index out id s o₂)
              (change-Post out id s o₂) (λ _ _ q. q) (λ o₃ k. not_switched o₂ o₃ p k))
            (λ _ o₃ q.
              (refl, unfold after in ap (update_state out id s e) (q ∙ ap (switched out id s) p))))
    where
      e : KeyEntry
      e = entry out id s (iter hasher n (hasher.sum b)) block_num o

      o₁ : Owner
      o₁ = record o { calls = o.calls + 1 }

      Final : Bytes → Owner → Type 0
      Final bytes o' =
          (bytes ≡ hashes hasher n (hasher.sum b)) × (o' ≡ after out n id b block_num s o)

      not_switched :
          (o₂ o₃ : Owner)
          → o₂ ≡ published out e o₁
          → SameBooks out o₂ o₃
          → Unserved id block_num s o o₃
      not_switched o₂ o₃ p k = record {
        rcds = k.rcds ∙ ap (λ x. x.rcds) p ∙ (unfold published in refl);
        log =
            inr (
              iter hasher n (hasher.sum b),
              k.log ∙ ap (λ x. x.log) p ∙ (unfold published in refl),
            );
      }

  pub seed-none :
      (o : Owner)
      → out.random o.calls ≡ none
      → seed out o ≡ (err no_seed, record o { calls = o.calls + 1 })
  unfolding seed
  seed-none o e = ground (arith, e)

  serve-panics :
      (n : ℕ) (id b : Bytes) (block_num : ℕ) (s : RcdState) (o : Owner)
      → s.registered ≡ true
      → out.random o.calls ≡ some b
      → o.hashchain_len ≡ negsuc n
      → serve out id block_num s o ≡ (panic, record o { calls = o.calls + 1 })
  unfolding serve
  serve-panics n id b block_num s o reg random e =
      let panics : new_linear hasher b o.hashchain_len ≡ panic =
        ap (new_linear hasher b) e ∙ (new_linear-hashes hasher b).1 n in
      rw (ensure_registered_lem out id s o reg, seed_lem out b o random, panics) refl

  serve-Post :
      (id : Bytes) (block_num : ℕ) (s : RcdState) (o : Owner)
      → s.registered ≡ true
      → Post (Done id block_num s o) (Unserved id block_num s o) (serve out id block_num s o)
  serve-Post id block_num s o reg = go (out.random o.calls) refl
    where
      seedless :
          out.random o.calls ≡ none
          → serve out id block_num s o ≡ (err no_seed, record o { calls = o.calls + 1 })
      seedless e = unfold serve in rw (ensure_registered_lem out id s o reg, seed-none o e) refl

      go :
          (answer : Option Bytes)
          → out.random o.calls ≡ answer
          → Post (Done id block_num s o) (Unserved id block_num s o) (serve out id block_num s o)
      go none e =
          subst (Post (Done id block_num s o) (Unserved id block_num s o)) (sym (seedless e))
            (record { rcds = refl; log = inl refl })
      go (some b) e = by_length o.hashchain_len refl
        where
          by_length :
              (len : ℤ)
              → o.hashchain_len ≡ len
              → Post
                  (Done id block_num s o)
                  (Unserved id block_num s o)
                  (serve out id block_num s o)
          by_length (pos n) l =
              subst (Post (Done id block_num s o) (Unserved id block_num s o))
                (sym (serve-finish n id b block_num s o reg e l))
                (Post-weaken _ (Done id block_num s o) _ (Unserved id block_num s o) _
                  (finish-Post n id b block_num s o) (λ bytes o' p. (n, b, l, e, p.0, p.1))
                  (λ _ p. p))
          by_length (negsuc n) l =
              subst (Post (Done id block_num s o) (Unserved id block_num s o))
                (sym (serve-panics n id b block_num s o reg e l))
                (record { rcds = refl; log = inl refl })

  -- Whatever the random source and the node answer, a request of a registered RCD either is served,
  -- which needs a chain length that is not negative, or leaves the owner's state of every RCD as it
  -- was: no index is counted, and of the calls of the contract that got a receipt at most one is
  -- new, a `StoreKey` under the next index, which the owner has not counted.
  pub handle_rcd_attempt :
      (id block : Bytes) (s : RcdState) (o : Owner)
      → length id ≡ 16
      → load id o.rcds ≡ some s
      → s.registered ≡ true
      → Post
          (λ bytes o'.
            (n : ℕ) × (b : Bytes) × (o.hashchain_len ≡ pos n)
            × (out.random o.calls ≡ some b)
            × Served out n id block b s o (ok bytes, o'))
          (Unserved id (of_be 0 block) s o)
          (handle_rcd out (some (id ++ block)) o)
  handle_rcd_attempt id block s o len known reg =
      subst (Post Q (Unserved id (of_be 0 block) s o)) (sym (handle_run out id block s o len known))
        (Post-weaken (Done id (of_be 0 block) s o) Q (Unserved id (of_be 0 block) s o)
          (Unserved id (of_be 0 block) s o) (serve out id (of_be 0 block) s o)
          (serve-Post id (of_be 0 block) s o reg)
          (λ bytes o' (n, b, l, e, p, q). (
            n,
            b,
            l,
            e,
            subst (Served out n id block b s o) (λ i. (ok (sym p i), sym q i))
                (after-Served out n id block b s o),
          ))
          (λ _ p. p))
    where
      Q : Bytes → Owner → Type 0
      Q bytes o' =
          (n : ℕ) × (b : Bytes) × (o.hashchain_len ≡ pos n)
          × (out.random o.calls ≡ some b)
          × Served out n id block b s o (ok bytes, o')

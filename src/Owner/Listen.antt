-- ===== src/Owner/Listen.antt =====
-- `ListenAndServe`: each connection gets a handler, which here runs to its end before the next is
-- accepted; `Race` has two handlers at once.
use broadauth.Base.{
  ok, Bytes, List, [], ◌∷◌, Option, some, none, Bool, true, false, err, running, ◌≡◌, refl, sym, ap,
  ◌∙◌, accept_failed, unknown_rcd, panic, Result, ℕ, load, store, load-store, bytes_eq, Bool-cases,
  inl, inr, bytes_eqb_iff, arith, take, drop, ◌==◌,
}
use broadauth.Base.State.{M, carry-keeps, Post-state}
use broadauth.Hashchain.{new_linear, first}
use broadauth.Owner.{
  Outside, Owner, RcdState, KeyEntry, entry, of_be, call, register_rcd, ensure_registered, seed,
  publish, change_current_index, update_state, registration, fresh_state, serve, serve_known,
  handle_rcd,
}
use broadauth.Owner.Serve.{published, switched}
use broadauth.Owner.Books.{SameBooks, publish-Post, change-Post}

-- What follows a handler: a panic in its goroutine ends the program.
unfoldable pub handler_done : Result Bytes × Owner → M Owner (Unit {0}) → Result (Unit {0}) × Owner
handler_done (ok bytes, o) k = k o
handler_done (err e, o) k = k o
handler_done (panic, o) k = (panic, o)
handler_done (running, o) k = k o

module _ (out : Outside) where
  -- What `Accept` returns, in order: an error, or a connection with the request that is read from
  -- it.
  unfoldable pub listen_and_serve : List (Option (Option Bytes)) → M Owner (Unit {0})
  unfolding handler_done
  listen_and_serve [] o = (running, o)
  listen_and_serve (none ∷ accepts) o = (err accept_failed, o)
  listen_and_serve (some request ∷ accepts) o =
      handler_done (handle_rcd out request o) (λ o'. listen_and_serve accepts o')

handler_done-keeps :
    (P : Owner → Type 0) (r : Result Bytes × Owner) (k : M Owner (Unit {0}))
    → P r.1
    → ((o : Owner) → P o → P (k o).1)
    → P (handler_done r k).1
unfolding handler_done
handler_done-keeps P (ok bytes, o) k p h = h o p
handler_done-keeps P (err e, o) k p h = h o p
handler_done-keeps P (panic, o) k p h = p
handler_done-keeps P (running, o) k p h = h o p

abbrev pub is_some {ℓ} : {A : Type ℓ} → Option A → Bool
is_some none = false
is_some (some a) = true

-- Whether the owner knows an RCD.
abbrev pub knows : Bytes → Owner → Bool
knows id o = is_some (load id o.rcds)

-- The same RCDs are known.
abbrev pub SameKnown : Owner → Owner → Type 0
SameKnown o o' = (id : Bytes) → knows id o' ≡ knows id o

store-known :
    (id j : Bytes) (s : RcdState) (rcds : List (Bytes × RcdState))
    → is_some (load id rcds) ≡ true
    → is_some (load j (store id s rcds)) ≡ is_some (load j rcds)
store-known id j s rcds known = elim (Bool-cases (id == j)) [
  | inl same ↦
      let e = (bytes_eqb_iff id j).0 same in
      rw (load-store id j s rcds, same) (sym known ∙ ap (λ k. is_some (load k rcds)) e)
  | inr other ↦ rw (load-store id j s rcds, other) refl
]

module _ (out : Outside) (o : Owner) (id : Bytes) (known : knows id o ≡ true) where
  stored-SameKnown :
      (s : RcdState) (o' : Owner)
      → SameKnown o o'
      → SameKnown o (record o' { rcds = store id s o'.rcds })
  stored-SameKnown s o' p j = store-known id j s o'.rcds (p id ∙ known) ∙ p j

  ensure-SameKnown : (s : RcdState) → SameKnown o (ensure_registered out id s o).1
  unfolding ensure_registered register_rcd call
  ensure-SameKnown s = elim (Bool-cases s.registered) [
    | inl reg ↦ rw reg (λ j. refl)
    | inr not_reg ↦
        rw not_reg (elim (Bool-cases (out.register o.calls (registration o.address id))) [
          | inl done ↦ rw done (λ j. store-known id j (fresh_state true) o.rcds known)
          | inr failed ↦ rw failed (λ j. refl)
        ])
  ]

  same_rcds : (o' o'' : Owner) → SameKnown o o' → o''.rcds ≡ o'.rcds → SameKnown o o''
  same_rcds o' o'' p e j = ap (λ rcds. is_some (load j rcds)) e ∙ p j

  seed-rcds : (o' : Owner) → (seed out o').1.rcds ≡ o'.rcds
  unfolding seed
  seed-rcds o' = go (out.random o'.calls) refl
    where
      go : (b : Option Bytes) → out.random o'.calls ≡ b → (seed out o').1.rcds ≡ o'.rcds
      go none e = ground (arith, e)
      go (some b) e = ground (arith, e)

  publish-rcds : (e : KeyEntry) (o' : Owner) → (publish out e o').1.rcds ≡ o'.rcds
  publish-rcds e o' =
      Post-state (λ _ o''. o'' ≡ published out e o') (SameBooks out o') (λ o''. o''.rcds ≡ o'.rcds)
        (publish out e o') (publish-Post out e o')
        (λ _ o'' p. ap (λ x. x.rcds) p ∙ (unfold published in refl)) (λ o'' k. k.rcds)

  change-rcds : (s : RcdState) (o' : Owner) → (change_current_index out id s o').1.rcds ≡ o'.rcds
  change-rcds s o' =
      Post-state (λ _ o''. o'' ≡ switched out id s o') (SameBooks out o')
        (λ o''. o''.rcds ≡ o'.rcds) (change_current_index out id s o') (change-Post out id s o')
        (λ _ o'' p. ap (λ x. x.rcds) p ∙ switched-rcds s o') (λ o'' k. k.rcds)
    where
      switched-rcds : (s' : RcdState) (x : Owner) → (switched out id s' x).rcds ≡ x.rcds
      switched-rcds s' x = unfold switched in ground arith

  serve-SameKnown : (block_num : ℕ) (s : RcdState) → SameKnown o (serve out id block_num s o).1
  unfolding serve
  serve-SameKnown block_num s =
      carry-keeps (SameKnown o) (ensure_registered out id s o) _ (ensure-SameKnown s) λ s' o₁ p₁.
        carry-keeps (SameKnown o) (seed out o₁) _ (same_rcds o₁ (seed out o₁).1 p₁ (seed-rcds o₁))
          λ b o₂ p₂.
            carry-keeps (SameKnown o) (new_linear out.hasher b o₂.hashchain_len, o₂) _ p₂
              λ chain o₃ p₃.
                carry-keeps (SameKnown o) (first out.hasher chain, o₃) _ p₃
                  λ key o₄ p₄.
                    carry-keeps (SameKnown o) (publish out (entry out id s' key block_num o₄) o₄) _
                      (same_rcds o₄ (publish out (entry out id s' key block_num o₄) o₄).1 p₄
                        (publish-rcds (entry out id s' key block_num o₄) o₄))
                      λ _ o₅ p₅.
                        carry-keeps (SameKnown o) (change_current_index out id s' o₅) _
                          (same_rcds o₅ (change_current_index out id s' o₅).1 p₅
                            (change-rcds s' o₅))
                          λ _ o₆ p₆. (unfold update_state in stored-SameKnown _ o₆ p₆)

module _ (out : Outside) where
  handle_rcd-SameKnown :
      (request : Option Bytes) (o : Owner) → SameKnown o (handle_rcd out request o).1
  unfolding handle_rcd serve_known
  handle_rcd-SameKnown none o = λ j. refl
  handle_rcd-SameKnown (some buf) o = go (load (take 16 buf) o.rcds) refl
    where
      go :
          (s : Option RcdState)
          → load (take 16 buf) o.rcds ≡ s
          → SameKnown o (serve_known out (take 16 buf) (of_be 0 (drop 16 buf)) s o).1
      go none e = λ j. refl
      go (some s) e = serve-SameKnown out o (take 16 buf) (ap is_some e) (of_be 0 (drop 16 buf)) s

  listen-SameKnown :
      (accepts : List (Option (Option Bytes))) (o : Owner)
      → SameKnown o (listen_and_serve out accepts o).1
  unfolding listen_and_serve
  listen-SameKnown [] o = λ j. refl
  listen-SameKnown (none ∷ accepts) o = λ j. refl
  listen-SameKnown (some request ∷ accepts) o =
      handler_done-keeps (SameKnown o) (handle_rcd out request o) _ (handle_rcd-SameKnown request o)
        (λ o' p j. listen-SameKnown accepts o' j ∙ p j)

  unknown_run :
      (buf : Bytes) (o : Owner)
      → knows (take 16 buf) o ≡ false
      → handle_rcd out (some buf) o ≡ (err unknown_rcd, o)
  unfolding handle_rcd serve_known
  unknown_run buf o e = go (load (take 16 buf) o.rcds) e
    where
      go :
          (s : Option RcdState)
          → is_some s ≡ false
          → serve_known out (take 16 buf) (of_be 0 (drop 16 buf)) s o ≡ (err unknown_rcd, o)
      go none e' = refl
      go (some s) e' = cc e'

  -- Whatever connections are accepted, the owner knows afterwards the RCDs that it knew before,
  -- and a request of any other RCD is refused and changes nothing.
  pub listen_and_serve-SameKnown :
      (accepts : List (Option (Option Bytes))) (o : Owner)
      → SameKnown o (listen_and_serve out accepts o).1
        × ((buf : Bytes)
            → knows (take 16 buf) o ≡ false
            → handle_rcd out (some buf) (listen_and_serve out accepts o).1
              ≡ (err unknown_rcd, (listen_and_serve out accepts o).1))
  listen_and_serve-SameKnown accepts o = (
    listen-SameKnown accepts o,
    λ buf unknown.
        unknown_run buf (listen_and_serve out accepts o).1
          (listen-SameKnown accepts o (take 16 buf) ∙ unknown),
  )

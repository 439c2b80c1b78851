-- ===== src/Owner/Lasting.antt =====
-- A request does not panic where the length of a hash chain is not negative.
use broadauth.Base.{
  ℕ, ◌+◌, ◌≡◌, ◌≢◌, refl, sym, subst, ap, ◌∙◌, Bytes, List, [], ◌∷◌, Option, some, none, Bool, true,
  false, Result, ok, err, panic, running, pos, nat_eqb, load, bytes_eq, take, drop,
}
use broadauth.Base.State.{M, carry}
use broadauth.Hashchain.{new_linear, first}
use broadauth.Hashchain.Spec.{iter, linear_at}
use broadauth.Hashchain.Drain.{first-last}
use broadauth.Owner.{
  Outside, Owner, RcdState, KeyEntry, of_be, entry, call, require, register_rcd, registration,
  ensure_registered, seed, publish, change_current_index, update_state, serve, serve_known,
  handle_rcd,
}
use broadauth.Owner.Written.{send_chain}
use broadauth.Owner.Chain.{send_chain-hashes}
use broadauth.Owner.Serve.{new_linear-of, seed_lem}
use broadauth.Owner.Attempt.{seed-none}
use broadauth.Owner.Listen.{listen_and_serve, handler_done}

module _ (n : ℕ) where
  -- A value with the property or an error, and the length still `n`.
  abbrev pub Lasts : {A : Type 0} → (A → Type 0) → Result A × Owner → Type 0
  Lasts Q (ok a, o) = Q a × (o.hashchain_len ≡ pos n)
  Lasts Q (err e, o) = o.hashchain_len ≡ pos n
  Lasts Q (panic, o) = ⊥
  Lasts Q (running, o) = ⊥

  abbrev Any : {A : Type 0} → A → Type 0
  Any a = Unit

  Lasts-carry :
      {A B : Type 0} (Q : A → Type 0) (R : B → Type 0) (r : Result A × Owner) (f : A → M Owner B)
      → Lasts Q r
      → ((a : A) (o : Owner) → Q a → o.hashchain_len ≡ pos n → Lasts R (f a o))
      → Lasts R (carry r f)
  Lasts-carry Q R (ok a, o) f p k = k a o p.0 p.1
  Lasts-carry Q R (err e, o) f p k = p
  Lasts-carry Q R (panic, o) f p k = elim p [ ]
  Lasts-carry Q R (running, o) f p k = elim p [ ]

  module _ (out : Outside) where
    open out use {hasher}

    ensure-Lasts :
        (id : Bytes) (s : RcdState) (o : Owner)
        → o.hashchain_len ≡ pos n
        → Lasts Any (ensure_registered out id s o)
    unfolding ensure_registered register_rcd call
    ensure-Lasts id s o l =
        go s.registered (out.register o.calls (registration o.address id)) refl refl
      where
        go :
            (reg done : Bool)
            → s.registered ≡ reg
            → out.register o.calls (registration o.address id) ≡ done
            → Lasts Any (ensure_registered out id s o)
        go true done p q = rw p (tt, l)
        go false true p q = rw (p, q) (tt, l)
        go false false p q = rw (p, q) l

    seed-Lasts : (o : Owner) → o.hashchain_len ≡ pos n → Lasts Any (seed out o)
    seed-Lasts o l = go (out.random o.calls) refl
      where
        go : (b : Option Bytes) → out.random o.calls ≡ b → Lasts Any (seed out o)
        go none e = subst (Lasts Any) (sym (seed-none out o e)) l
        go (some b) e = subst (Lasts Any) (sym (seed_lem out b o e)) (tt, l)

    publish-Lasts :
        (e : KeyEntry) (o : Owner) → o.hashchain_len ≡ pos n → Lasts Any (publish out e o)
    unfolding publish call require
    publish-Lasts e o l = go (out.store_key o.calls e) (out.mined (o.calls + 1)) refl refl
      where
        go :
            (t m : Bool)
            → out.store_key o.calls e ≡ t
            → out.mined (o.calls + 1) ≡ m
            → Lasts Any (publish out e o)
        go false m p q = rw p l
        go true false p q = rw (p, q) l
        go true true p q = rw (p, q) (tt, l)

    change-Lasts :
        (id : Bytes) (s : RcdState) (o : Owner)
        → o.hashchain_len ≡ pos n
        → Lasts Any (change_current_index out id s o)
    unfolding change_current_index call require
    change-Lasts id s o l =
        go (nat_eqb s.current_index 0) (out.change_index o.calls id) (out.mined (o.calls + 1)) refl
          refl refl
      where
        go :
            (z t m : Bool)
            → nat_eqb s.current_index 0 ≡ z
            → out.change_index o.calls id ≡ t
            → out.mined (o.calls + 1) ≡ m
            → Lasts Any (change_current_index out id s o)
        go true t m z p q = rw z (tt, l)
        go false false m z p q = rw (z, p) l
        go false true false z p q = rw (z, p, q) l
        go false true true z p q = rw (z, p, q) (tt, l)

    serve-Lasts :
        (id : Bytes) (block_num : ℕ) (s : RcdState) (o : Owner)
        → o.hashchain_len ≡ pos n
        → Lasts Any (serve out id block_num s o)
    unfolding serve
    serve-Lasts id block_num s o l =
        Lasts-carry Any Any (ensure_registered out id s o) _ (ensure-Lasts id s o l) λ s' o₁ _ l₁.
          Lasts-carry Any Any (seed out o₁) _ (seed-Lasts o₁ l₁) λ b o₂ _ l₂.
            let x = hasher.sum b in
            Lasts-carry (λ c. c ≡ linear_at hasher n x 0) Any
              (new_linear hasher b o₂.hashchain_len, o₂) _
              (subst (λ c. Lasts (λ c'. c' ≡ linear_at hasher n x 0) (c, o₂))
                (sym (new_linear-of out n b o₂.hashchain_len l₂)) (refl, l₂))
              λ chain o₃ is_chain l₃.
                Lasts-carry (λ k. k ≡ iter hasher n x) Any (first hasher chain, o₃) _
                  (subst (λ c. Lasts (λ k. k ≡ iter hasher n x) (c, o₃))
                    (sym (
                      ap (first hasher) is_chain
                      ∙ (first-last hasher n 0 x (hasher.length-sum b)).0))
                    (refl, l₃))
                  λ key o₄ is_key l₄.
                    let e = entry out id s' key block_num o₄ in
                    Lasts-carry Any Any (publish out e o₄) _ (publish-Lasts e o₄ l₄) λ _ o₅ _ l₅.
                      Lasts-carry Any Any (change_current_index out id s' o₅) _
                        (change-Lasts id s' o₅ l₅)
                        λ _ o₆ _ l₆.
                          subst (λ c. Lasts Any (c, update_state out id s' e o₆))
                            (sym (
                              (λ i. send_chain hasher (is_key i) (is_chain i))
                              ∙ send_chain-hashes hasher n x (hasher.length-sum b)))
                            (tt, (unfold update_state in l₆))

    handle_rcd-Lasts :
        (request : Option Bytes) (o : Owner)
        → o.hashchain_len ≡ pos n
        → Lasts Any (handle_rcd out request o)
    unfolding handle_rcd serve_known
    handle_rcd-Lasts none o l = l
    handle_rcd-Lasts (some buf) o l = go (load (take 16 buf) o.rcds)
      where
        go :
            (s : Option RcdState)
            → Lasts Any (serve_known out (take 16 buf) (of_be 0 (drop 16 buf)) s o)
        go none = l
        go (some s) = serve-Lasts (take 16 buf) (of_be 0 (drop 16 buf)) s o l

    handler-Lasts :
        (r : Result Bytes × Owner) (k : M Owner (Unit {0}))
        → Lasts Any r
        → ((o : Owner) → o.hashchain_len ≡ pos n → (k o).0 ≢ panic)
        → (handler_done r k).0 ≢ panic
    unfolding handler_done
    handler-Lasts (ok b, o) k p h = h o p.1
    handler-Lasts (err e, o) k p h = h o p
    handler-Lasts (panic, o) k p h = elim p [ ]
    handler-Lasts (running, o) k p h = elim p [ ]

    -- Whatever connections are accepted, no handler panics.
    pub listen_and_serve_lasts :
        (accepts : List (Option (Option Bytes))) (o : Owner)
        → o.hashchain_len ≡ pos n
        → (listen_and_serve out accepts o).0 ≢ panic
    unfolding listen_and_serve
    listen_and_serve_lasts [] o l = λ e. cc e
    listen_and_serve_lasts (none ∷ accepts) o l = λ e. cc e
    listen_and_serve_lasts (some request ∷ accepts) o l =
        handler-Lasts (handle_rcd out request o) _ (handle_rcd-Lasts request o l)
          (λ o'. listen_and_serve_lasts accepts o')

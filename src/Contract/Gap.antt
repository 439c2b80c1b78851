-- ===== src/Contract/Gap.antt =====
-- An index that an RCD in the contract can never get past, since it has no chain there.
use broadauth.Base.{
  ℕ, ◌+◌, ◌<◌, ◌≡◌, ◌≢◌, refl, sym, ap, subst, ◌∙◌, List, [], ◌∷◌, All, Bool, true, false, ◌==◌,
  bytes_eq, nat_eq, nat_eqb_iff, if◌then◌else◌, some, none, load, load-store, arith, Option,
  Bool-cases, nat_eqb, inl, inr,
}
use broadauth.Contract.Effect.{Effect, registers, stores, advances, exec-Effect}
use broadauth.Contract.Frozen.{rcd_at-put, Frozen, after_all-Frozen}
use broadauth.Contract.{
  Contract, ContractRcd, Chain, Call, reg_owner, store_key, change_current_index, rcd_at, put,
  registered, stored, advanced, exec, after, after_all, or_else, chain_at, exists_at, get_key,
  is_some,
}

-- No chain is stored for the RCD under the index.
abbrev pub Skips : ℕ → ℕ → Call → Type 0
Skips id i (store_key sender rcd index chain) = rcd ≡ id → index ≢ i
Skips id i _ = Unit

-- A taken RCD at an index of at least 1 and below `i`, which has no chain.
pub record Gap (i : ℕ) (r : ContractRcd) : Type 0 where
  pub taken : r.is_taken ≡ true
  pub started : 0 < r.current_index
  pub below : r.current_index < i
  pub empty : load i r.chains ≡ none

put-Gap :
    (i id j : ℕ) (r : ContractRcd) (c : Contract)
    → Gap i (rcd_at j c)
    → (id ≡ j → Gap i r)
    → Gap i (rcd_at j (put id r c))
put-Gap i id j r c g same = subst (Gap i) (sym (rcd_at-put id j r c)) (by_same (id == j) refl)
  where
    by_same : (b : Bool) → (id == j) ≡ b → Gap i (if b then r else rcd_at j c)
    by_same true e = same ((nat_eqb_iff id j).0 e)
    by_same false e = g

stored-Gap :
    (i index : ℕ) (chain : Chain) (r : ContractRcd)
    → index ≢ i
    → Gap i r
    → Gap i (stored index chain r)
unfolding stored
stored-Gap i index chain r ne g = record {
  taken = g.taken;
  started = ground (arith, g.started);
  below = ground (arith, g.started, g.below);
  empty = load-store index i chain r.chains ∙ ground (arith, g.empty, ne, nat_eqb_iff index i);
}

-- An RCD that moves on moves to an index with a chain.
advanced-Gap :
    (i : ℕ) (r : ContractRcd)
    → exists_at (r.current_index + 1) r ≡ true
    → Gap i r
    → Gap i (advanced r)
unfolding advanced
advanced-Gap i r there g = record {
  taken = g.taken;
  started = omega arith;
  below = elim (Bool-cases (nat_eqb (r.current_index + 1) i)) [
    | inl same ↦ absurd (not_there ((nat_eqb_iff (r.current_index + 1) i).0 same))
    | inr other ↦ ground (arith, g.below, other)
  ];
  empty = g.empty;
}
  where
    not_there : r.current_index + 1 ≡ i → ⊥
    not_there e = cc (sym there ∙ ap (λ k. exists_at k r) e ∙ ap is_some g.empty)

Effect-Gap :
    (i j : ℕ) (call : Call) (c d : Contract)
    → Skips j i call
    → Gap i (rcd_at j c)
    → Effect c call d
    → Gap i (rcd_at j d)
Effect-Gap i j (reg_owner _ _ _) c d skips g (registers sender owner rcd free) =
    put-Gap i rcd j (registered owner (rcd_at rcd c)) c g
      (λ e. cc (sym free ∙ ap (λ k. (rcd_at k c).is_taken) e ∙ g.taken))
Effect-Gap i j (store_key _ _ _ _) c d skips g (stores sender rcd index chain taken later started) =
    put-Gap i rcd j (stored index chain (rcd_at rcd c)) c g (λ e.
      stored-Gap i index chain (rcd_at rcd c) (skips e) (subst (λ k. Gap i (rcd_at k c)) (sym e) g))
Effect-Gap i j (change_current_index _ _) c d skips g (advances rcd block there) =
    put-Gap i rcd j (advanced (rcd_at rcd c)) c g
      (λ e. advanced-Gap i (rcd_at rcd c) there (subst (λ k. Gap i (rcd_at k c)) (sym e) g))

after-Gap :
    (i j : ℕ) (call : Call) (c : Contract)
    → Skips j i call
    → Gap i (rcd_at j c)
    → Gap i (rcd_at j (after call c))
unfolding after
after-Gap i j call c skips g = go (exec call c) refl
  where
    go : (o : Option Contract) → exec call c ≡ o → Gap i (rcd_at j (or_else c o))
    go none e = g
    go (some d) e = Effect-Gap i j call c d skips g (exec-Effect call c d e)

Gap-kept :
    (i j : ℕ) (calls : List Call) (c : Contract)
    → All (Skips j i) calls
    → Gap i (rcd_at j c)
    → Gap i (rcd_at j (after_all calls c))
unfolding after_all
Gap-kept i j [] c skips g = g
Gap-kept i j (call ∷ calls) c (skip, skips) g =
    Gap-kept i j calls (after call c) skips (after-Gap i j call c skip g)

-- Where a taken RCD is at an index of at least 1 and below `i`, and has no chain at `i`, whatever
-- is called, but for a chain stored for it at `i`, leaves it below `i` with no chain there: it
-- never gets past the index, whatever is stored above. At `i - 1` the contract gives the same
-- chain for ever.
pub after_all-Gap :
    (i j : ℕ) (calls : List Call) (c : Contract)
    → Gap i (rcd_at j c)
    → All (Skips j i) calls
    → Gap i (rcd_at j (after_all calls c))
      × ((rcd_at j c).current_index + 1 ≡ i → get_key j (after_all calls c) ≡ get_key j c)
unfolding get_key
after_all-Gap i j calls c g skips = (later, same)
  where
    later : Gap i (rcd_at j (after_all calls c))
    later = Gap-kept i j calls c skips g

    frozen : Frozen (rcd_at j c) (rcd_at j (after_all calls c))
    frozen = after_all-Frozen calls j c

    same :
        (rcd_at j c).current_index + 1 ≡ i
        → chain_at (rcd_at j (after_all calls c)).current_index (rcd_at j (after_all calls c))
          ≡ chain_at (rcd_at j c).current_index (rcd_at j c)
    same e =
        ap (λ k. chain_at k (rcd_at j (after_all calls c))) at
        ∙ ap (or_else _) (frozen.chains g.taken (rcd_at j c).current_index (omega arith))
      where
        at : (rcd_at j (after_all calls c)).current_index ≡ (rcd_at j c).current_index
        at = omega (arith, later.below, frozen.index g.taken, e)

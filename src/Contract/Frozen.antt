-- ===== src/Contract/Frozen.antt =====
-- What no call of the contract can change.
use broadauth.Base.{
  ℕ, ◌≤◌, ◌<◌, ◌≡◌, refl, sym, subst, ◌∙◌, Bytes, List, [], ◌∷◌, Bool, true, false, ◌==◌, bytes_eq,
  nat_eq, nat_eqb_iff, if◌then◌else◌, some, none, load, load-store, arith, Option,
}
use broadauth.Contract.Effect.{Effect, registers, stores, advances, exec-Effect}
use broadauth.Contract.{
  Contract, ContractRcd, Chain, Call, reg_owner, store_key, change_current_index, rcd_at, put,
  registered, stored, advanced, exec, after, after_all, or_else,
}

-- Of an RCD that is taken: its owner, and the chains up to its index, which does not fall.
pub record Frozen (r s : ContractRcd) : Type 0 where
  pub taken : r.is_taken ≡ true → s.is_taken ≡ true
  pub owner : r.is_taken ≡ true → s.owner ≡ r.owner
  pub index : r.is_taken ≡ true → r.current_index ≤ s.current_index
  pub chains : r.is_taken ≡ true → (i : ℕ) → i ≤ r.current_index → load i s.chains ≡ load i r.chains

Frozen-refl : (r : ContractRcd) → Frozen r r
Frozen-refl r = record {
  taken = λ e. e;
  owner = λ e. refl;
  index = λ e. omega arith;
  chains = λ e i le. refl;
}

Frozen-trans : (r s t : ContractRcd) → Frozen r s → Frozen s t → Frozen r t
Frozen-trans r s t f g = record {
  taken = λ e. g.taken (f.taken e);
  owner = λ e. g.owner (f.taken e) ∙ f.owner e;
  index = λ e. omega (arith, f.index e, g.index (f.taken e));
  chains = λ e i le. g.chains (f.taken e) i (omega (arith, f.index e)) ∙ f.chains e i le;
}

pub rcd_at-put :
    (id j : ℕ) (r : ContractRcd) (c : Contract)
    → rcd_at j (put id r c) ≡ (if id == j then r else rcd_at j c)
unfolding put
rcd_at-put id j r c = ground (arith, load-store id j r c.rcds)

put-Frozen :
    (id j : ℕ) (r : ContractRcd) (c : Contract)
    → Frozen (rcd_at id c) r
    → Frozen (rcd_at j c) (rcd_at j (put id r c))
put-Frozen id j r c f =
    subst (λ s. Frozen (rcd_at j c) s) (sym (rcd_at-put id j r c)) (by_same (id == j) refl)
  where
    by_same : (b : Bool) → (id == j) ≡ b → Frozen (rcd_at j c) (if b then r else rcd_at j c)
    by_same true e = subst (λ k. Frozen (rcd_at k c) r) ((nat_eqb_iff id j).0 e) f
    by_same false e = Frozen-refl (rcd_at j c)

registered-Frozen :
    (owner : Bytes) (r : ContractRcd) → r.is_taken ≡ false → Frozen r (registered owner r)
unfolding registered
registered-Frozen owner r e = ground (arith, e)

stored-Frozen :
    (index : ℕ) (chain : Chain) (r : ContractRcd)
    → r.current_index < index
    → Frozen r (stored index chain r)
unfolding stored
stored-Frozen index chain r lt = record {
  taken = λ e. e;
  owner = λ e. refl;
  index = λ e. ground arith;
  chains = λ e i le. load-store index i chain r.chains ∙ ground (arith, nat_eqb_iff index i);
}

advanced-Frozen : (r : ContractRcd) → Frozen r (advanced r)
unfolding advanced
advanced-Frozen r = record {
  taken = λ e. e;
  owner = λ e. refl;
  index = λ e. omega arith;
  chains = λ e i le. refl;
}

Effect-Frozen :
    (j : ℕ) (call : Call) (c d : Contract) → Effect c call d → Frozen (rcd_at j c) (rcd_at j d)
Effect-Frozen j (reg_owner _ _ _) c d (registers sender owner rcd free) =
    put-Frozen rcd j (registered owner (rcd_at rcd c)) c
      (registered-Frozen owner (rcd_at rcd c) free)
Effect-Frozen j (store_key _ _ _ _) c d (stores sender rcd index chain taken later started) =
    put-Frozen rcd j (stored index chain (rcd_at rcd c)) c
      (stored-Frozen index chain (rcd_at rcd c) later)
Effect-Frozen j (change_current_index _ _) c d (advances rcd block there) =
    put-Frozen rcd j (advanced (rcd_at rcd c)) c (advanced-Frozen (rcd_at rcd c))

after-Frozen : (call : Call) (j : ℕ) (c : Contract) → Frozen (rcd_at j c) (rcd_at j (after call c))
unfolding after
after-Frozen call j c = go (exec call c) refl
  where
    go : (o : Option Contract) → exec call c ≡ o → Frozen (rcd_at j c) (rcd_at j (or_else c o))
    go none e = Frozen-refl (rcd_at j c)
    go (some d) e = Effect-Frozen j call c d (exec-Effect call c d e)

-- Whoever calls the contract, and in any order: an RCD that is taken stays so with its owner, its
-- index never falls, and the chains up to its index never change.
pub after_all-Frozen :
    (calls : List Call) (j : ℕ) (c : Contract) → Frozen (rcd_at j c) (rcd_at j (after_all calls c))
unfolding after_all
after_all-Frozen [] j c = Frozen-refl (rcd_at j c)
after_all-Frozen (call ∷ calls) j c =
    Frozen-trans (rcd_at j c) (rcd_at j (after call c)) _ (after-Frozen call j c)
      (after_all-Frozen calls j (after call c))

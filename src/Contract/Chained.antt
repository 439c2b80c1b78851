-- ===== src/Contract/Chained.antt =====
-- The chains of an RCD, and what each call of the contract does to them.
use broadauth.Base.{
  ℕ, ◌+◌, ◌-◌, ◌≤◌, ◌<◌, ◌≡◌, ◌≢◌, ◌⊎◌, refl, sym, ap, subst, ◌∙◌, true, false, ◌==◌, nat_eq,
  nat_eqb, nat_eqb_iff, ltb, ◌||◌, if◌then◌else◌, load-store, arith, Bool-cases, inl, inr,
}
use broadauth.Contract.{ContractRcd, Chain, chain_at, exists_at, registered, stored, advanced}

-- The chains have the indices from 1 to the current one, and perhaps the one after it, and each
-- ends before the next one starts.
pub record Chained (r : ContractRcd) : Type 0 where
  pub taken : (i : ℕ) → exists_at i r ≡ true → r.is_taken ≡ true
  pub low : (i : ℕ) → exists_at i r ≡ true → 1 ≤ i
  pub high : (i : ℕ) → exists_at i r ≡ true → i ≤ r.current_index + 1
  pub started : (i : ℕ) → exists_at i r ≡ true → 1 ≤ r.current_index
  pub no_gap : (i : ℕ) → 1 ≤ i → i ≤ r.current_index → exists_at i r ≡ true
  pub disjoint :
      (i : ℕ)
      → 1 ≤ i
      → exists_at (i + 1) r ≡ true
      → (chain_at i r).end_time < (chain_at (i + 1) r).start_time

pub exists_at-stored :
    (index i : ℕ) (chain : Chain) (r : ContractRcd)
    → exists_at i (stored index chain r) ≡ (if index == i then true else exists_at i r)
unfolding stored
exists_at-stored index i chain r = ground (arith, load-store index i chain r.chains)

chain_at-stored :
    (index i : ℕ) (chain : Chain) (r : ContractRcd)
    → chain_at i (stored index chain r) ≡ (if index == i then chain else chain_at i r)
unfolding stored
chain_at-stored index i chain r = ground (arith, load-store index i chain r.chains)

pub registered-Chained :
    (owner : _) (r : ContractRcd) → r.is_taken ≡ false → Chained r → Chained (registered owner r)
unfolding registered
registered-Chained owner r free v = record {
  taken = λ i e. refl;
  low = v.low;
  high = λ i e. ground (arith, none_there i e);
  started = λ i e. ground (arith, none_there i e);
  no_gap = λ i one le. ground arith;
  disjoint = v.disjoint;
}
  where
    none_there : (i : ℕ) → exists_at i r ≡ true → true ≡ false
    none_there i e = sym (v.taken i e) ∙ free

pub advanced-Chained :
    (r : ContractRcd) → exists_at (r.current_index + 1) r ≡ true → Chained r → Chained (advanced r)
unfolding advanced
advanced-Chained r there v = record {
  taken = v.taken;
  low = v.low;
  high = λ i e. omega (arith, v.high i e);
  started = λ i e. omega arith;
  no_gap = λ i one le. elim (Bool-cases (i == r.current_index + 1)) [
    | inl e ↦
        subst (λ k. exists_at k r ≡ true) (sym ((nat_eqb_iff i (r.current_index + 1)).0 e)) there
    | inr e ↦ v.no_gap i one (ground (arith, e, le))
  ];
  disjoint = v.disjoint;
}

-- A chain is the one stored or an older one.
stored-cases :
    (index i : ℕ) (chain : Chain) (r : ContractRcd)
    → exists_at i (stored index chain r) ≡ true
    → (index ≡ i) ⊎ ((index ≢ i) × (exists_at i r ≡ true))
stored-cases index i chain r e = elim (Bool-cases (index == i)) [
  | inl same ↦ inl ((nat_eqb_iff index i).0 same)
  | inr other ↦ inr (
      (
        (λ same. cc (sym other ∙ (nat_eqb_iff index i).1 same)),
        sym (exists_at-stored index i chain r ∙ rw other refl) ∙ e,
      ))
]

pub old_chain :
    (index i : ℕ) (chain : Chain) (r : ContractRcd)
    → index ≢ i
    → chain_at i (stored index chain r) ≡ chain_at i r
old_chain index i chain r ne =
    chain_at-stored index i chain r ∙ ground (arith, ne, nat_eqb_iff index i)

pub new_chain :
    (index i : ℕ) (chain : Chain) (r : ContractRcd)
    → index ≡ i
    → chain_at i (stored index chain r) ≡ chain
new_chain index i chain r e = chain_at-stored index i chain r ∙ rw ((nat_eqb_iff index i).1 e) refl

current-stored :
    (index : ℕ) (chain : Chain) (r : ContractRcd)
    → (stored index chain r).current_index
      ≡ (if nat_eqb r.current_index 0 then 1 else r.current_index)
unfolding stored
current-stored index chain r = refl

pub stored-Chained :
    (index : ℕ) (chain : Chain) (r : ContractRcd)
    → r.is_taken ≡ true
    → index ≡ r.current_index + 1
    → (nat_eqb r.current_index 0 || ltb (chain_at (index - 1) r).end_time chain.start_time) ≡ true
    → Chained r
    → Chained (stored index chain r)
stored-Chained index chain r taken next started v = record {
  taken = λ i e. unfold stored in taken;
  low = λ i e. elim (stored-cases index i chain r e) [
    | inl same ↦ omega (arith, same, next)
    | inr (_, old) ↦ v.low i old
  ];
  high = λ i e. elim (stored-cases index i chain r e) [
    | inl same ↦ ground (arith, same, next, current)
    | inr (_, old) ↦ ground (arith, v.high i old, current)
  ];
  started = λ i e. ground (arith, current);
  no_gap = λ i one le. elim (Bool-cases (index == i)) [
    | inl same ↦ exists_at-stored index i chain r ∙ rw same refl
    | inr other ↦
        exists_at-stored index i chain r
        ∙ rw other (v.no_gap i one (ground (arith, le, current, next, other)))
  ];
  disjoint = λ i one e. elim (stored-cases index (i + 1) chain r e) [
    | inl same ↦ follows i one same
    | inr (ne, old) ↦ omega (
      arith,
      ap (λ c. c.end_time)
          (old_chain index i chain r (λ same. omega (arith, v.high (i + 1) old, next, same))),
      ap (λ c. c.start_time) (old_chain index (i + 1) chain r ne),
      v.disjoint i one old,
    )
  ];
}
  where
    current :
        (stored index chain r).current_index
        ≡ (if nat_eqb r.current_index 0 then 1 else r.current_index)
    current = current-stored index chain r

    follows :
        (i : ℕ)
        → 1 ≤ i
        → index ≡ i + 1
        → (chain_at i (stored index chain r)).end_time
          < (chain_at (i + 1) (stored index chain r)).start_time
    follows i one same =
        let at : index - 1 ≡ i = omega (arith, same) in
        let guard =
          subst
            (λ k.
              (nat_eqb r.current_index 0 || ltb (chain_at k r).end_time chain.start_time) ≡ true)
            at started in
        let later : (chain_at i r).end_time < chain.start_time =
          ground (arith, guard, one, next, same) in
        omega (
          arith,
          ap (λ c. c.end_time) (old_chain index i chain r (λ e. omega (arith, e, same))),
          ap (λ c. c.start_time) (new_chain index (i + 1) chain r same),
          later,
        )

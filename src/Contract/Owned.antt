-- ===== src/Contract/Owned.antt =====
-- The contract after the calls that put an entry of an owner into it.
use broadauth.Base.{
  ℕ, ◌+◌, ◌-◌, ◌^◌, ◌≤◌, ◌<◌, ◌≡◌, refl, ap, sym, ◌∙◌, subst, ℤ, pos, negsuc, Bytes, List, [], ◌∷◌,
  true, false, nat_eq, bytes_eq, nat_eqb, eqb_refl, ltb, lt→ltb, ◌||◌, if◌then◌else◌, Bool-cases,
  inl, inr, arith,
}
use broadauth.Owner.{KeyEntry}
use broadauth.Contract.{
  Contract, ContractRcd, Chain, Call, store_key, change_current_index, rcd_at, chain_at, exists_at,
  put, require, stored, advanced, exec, after, after_all, get_key,
}
use broadauth.Contract.Frozen.{rcd_at-put}
use broadauth.Contract.Chained.{exists_at-stored, old_chain, new_chain}

-- A `*big.Int` as the contract's `uint`.
abbrev pub to_uint256 : ℤ → ℕ
to_uint256 (pos n) = n
to_uint256 (negsuc n) = 2 ^ 256 - 1 - n

abbrev pub as_chain : KeyEntry → Chain
as_chain e = record {
  key = e.key;
  start_time = e.start_time;
  end_time = to_uint256 e.end_time;
  disclosure_delay = e.disclosure_delay;
}

-- Calls that put an entry into the contract, the second one mined in the block `block`.
abbrev pub calls_of : Bytes → ℕ → ℕ → KeyEntry → ℕ → List Call
calls_of sender rcd current e block =
    store_key sender rcd e.index (as_chain e)
    ∷ (if nat_eqb current 0 then [] else change_current_index rcd block ∷ [])

module _ (sender : Bytes) (rcd index : ℕ) (chain : Chain) (c : Contract) where
  after_store :
      (rcd_at rcd c).is_taken ≡ true
      → (rcd_at rcd c).owner ≡ sender
      → (rcd_at rcd c).current_index < index
      → (nat_eqb (rcd_at rcd c).current_index 0
          || ltb (chain_at (index - 1) (rcd_at rcd c)).end_time chain.start_time)
        ≡ true
      → after (store_key sender rcd index chain) c ≡ put rcd (stored index chain (rcd_at rcd c)) c
  unfolding after exec require
  after_store taken owner later started =
      rw (taken, owner, eqb_refl sender, lt→ltb _ index later, started) refl

after_change :
    (rcd block : ℕ) (c : Contract)
    → (chain_at (rcd_at rcd c).current_index (rcd_at rcd c)).end_time < block
    → (rcd_at rcd c).current_index + 1 < 2 ^ 256
    → exists_at ((rcd_at rcd c).current_index + 1) (rcd_at rcd c) ≡ true
    → after (change_current_index rcd block) c ≡ put rcd (advanced (rcd_at rcd c)) c
unfolding after exec require
after_change rcd block c ended fits there =
    rw (lt→ltb _ block ended, lt→ltb _ (2 ^ 256) fits, there) refl

rcd_at-put_self : (rcd : ℕ) (r : ContractRcd) (c : Contract) → rcd_at rcd (put rcd r c) ≡ r
rcd_at-put_self rcd r c = rcd_at-put rcd rcd r c ∙ rw (eqb_refl rcd) refl

-- The entry is the one at the RCD's index, which is `index`.
pub record Posted (rcd index : ℕ) (sender : Bytes) (chain : Chain) (d : Contract) : Type 0 where
  pub current : (rcd_at rcd d).current_index ≡ index
  pub key : get_key rcd d ≡ chain
  pub taken : (rcd_at rcd d).is_taken ≡ true
  pub owner : (rcd_at rcd d).owner ≡ sender

-- An RCD of `sender` whose chain is over before the start of the new one and before `block`, if it
-- has one.
pub record Ready (rcd : ℕ) (sender : Bytes) (start block : ℕ) (c : Contract) : Type 0 where
  pub taken : (rcd_at rcd c).is_taken ≡ true
  pub owner : (rcd_at rcd c).owner ≡ sender
  pub fits : (rcd_at rcd c).current_index + 1 < 2 ^ 256
  pub over :
      1 ≤ (rcd_at rcd c).current_index
      → ((get_key rcd c).end_time < start) × ((get_key rcd c).end_time < block)

module _ (sender : Bytes) (rcd block : ℕ) (e : KeyEntry) (c : Contract)
    (ready : Ready rcd sender e.start_time block c)
    (next : e.index ≡ (rcd_at rcd c).current_index + 1) where
  abbrev kept : ContractRcd
  kept = stored e.index (as_chain e) (rcd_at rcd c)

  put-Posted :
      (r : ContractRcd) (d : Contract)
      → r.current_index ≡ e.index
      → chain_at e.index r ≡ as_chain e
      → r.is_taken ≡ true
      → r.owner ≡ sender
      → Posted rcd e.index sender (as_chain e) (put rcd r d)
  unfolding get_key
  put-Posted r d at there taken owner =
      let same = rcd_at-put_self rcd r d in
      record {
        current = ap (λ x. x.current_index) same ∙ at;
        key = ap (λ x. chain_at x.current_index x) same ∙ ap (λ i. chain_at i r) at ∙ there;
        taken = ap (λ x. x.is_taken) same ∙ taken;
        owner = ap (λ x. x.owner) same ∙ owner;
      }

  there : chain_at e.index kept ≡ as_chain e
  there = new_chain e.index e.index (as_chain e) (rcd_at rcd c) refl

  exists_new : exists_at e.index kept ≡ true
  exists_new =
      exists_at-stored e.index e.index (as_chain e) (rcd_at rcd c) ∙ rw (eqb_refl e.index) refl

  kept_current :
      kept.current_index
      ≡ (if nat_eqb (rcd_at rcd c).current_index 0 then 1 else (rcd_at rcd c).current_index)
  unfolding stored
  kept_current = refl

  put_kept :
      (nat_eqb (rcd_at rcd c).current_index 0
          || ltb (chain_at (e.index - 1) (rcd_at rcd c)).end_time e.start_time)
        ≡ true
      → after (store_key sender rcd e.index (as_chain e)) c ≡ put rcd kept c
  put_kept started =
      after_store sender rcd e.index (as_chain e) c ready.taken ready.owner (omega (arith, next))
        started

  kept_taken : kept.is_taken ≡ true
  unfolding stored
  kept_taken = ready.taken

  kept_owner : kept.owner ≡ sender
  unfolding stored
  kept_owner = ready.owner

  change_put :
      (r : ContractRcd) (d : Contract)
      → (chain_at r.current_index r).end_time < block
      → r.current_index + 1 < 2 ^ 256
      → exists_at (r.current_index + 1) r ≡ true
      → after (change_current_index rcd block) (put rcd r d) ≡ put rcd (advanced r) (put rcd r d)
  change_put r d ended fits found =
      let same = rcd_at-put_self rcd r d in
      after_change rcd block (put rcd r d)
        (subst (λ x. (chain_at x.current_index x).end_time < block) (sym same) ended)
        (subst (λ x. x.current_index + 1 < 2 ^ 256) (sym same) fits)
        (subst (λ x. exists_at (x.current_index + 1) x ≡ true) (sym same) found)
      ∙ ap (λ x. put rcd (advanced x) (put rcd r d)) same

  -- The chain before is over, also as the contract keeps it.
  old_over :
      nat_eqb (rcd_at rcd c).current_index 0 ≡ false
      → ((nat_eqb (rcd_at rcd c).current_index 0
            || ltb (chain_at (e.index - 1) (rcd_at rcd c)).end_time e.start_time)
          ≡ true)
        × ((chain_at (rcd_at rcd c).current_index kept).end_time < block)
  unfolding get_key
  old_over again =
      let some_chain : 1 ≤ (rcd_at rcd c).current_index = ground (arith, again) in
      let below : e.index - 1 ≡ (rcd_at rcd c).current_index = omega (arith, next) in
      let (started, ended) = ready.over some_chain in
      (
        subst
            (λ i.
              (nat_eqb (rcd_at rcd c).current_index 0
                || ltb (chain_at i (rcd_at rcd c)).end_time e.start_time)
              ≡ true)
            (sym below) (rw (again, lt→ltb _ e.start_time started) refl),
        subst (λ ch. ch.end_time < block)
            (sym (
              old_chain e.index (rcd_at rcd c).current_index (as_chain e) (rcd_at rcd c)
                (λ same. omega (arith, same, next))))
            ended,
      )

  pub posted :
      Posted rcd e.index sender
        (as_chain e)
        (after_all (calls_of sender rcd (rcd_at rcd c).current_index e block) c)
  unfolding after_all advanced stored
  posted = elim (Bool-cases (nat_eqb (rcd_at rcd c).current_index 0)) [
    | inl first ↦ rw first (
        subst (Posted rcd e.index sender (as_chain e)) (sym (put_kept (rw first refl))) (
          put-Posted kept c (ground (arith, kept_current, first, next)) there kept_taken
            kept_owner))
    | inr again ↦
        let at : kept.current_index ≡ (rcd_at rcd c).current_index = kept_current ∙ rw again refl in
        let up : kept.current_index + 1 ≡ e.index = omega (arith, at, next) in
        let (before, over) = old_over again in
        rw again (
          subst (Posted rcd e.index sender (as_chain e))
            (sym (
              ap (after (change_current_index rcd block)) (put_kept before)
              ∙ change_put kept c (subst (λ i. (chain_at i kept).end_time < block) (sym at) over)
                  (omega (arith, at, ready.fits))
                  (subst (λ i. exists_at i kept ≡ true) (sym up) exists_new)))
            (put-Posted (advanced kept) (put rcd kept c) (unfold advanced in up) there kept_taken
              kept_owner))
  ]

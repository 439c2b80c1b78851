-- ===== src/Hashchain/Existing.antt =====
-- All outcomes of `NewLinearFromExisting`.
use native.Mathlib.Nat.{div-add-mod', mul-mod_left, mul-div_cancel, zero-mod, zero-div}
use broadauth.Base.{
  ℕ, zero, suc, ◌*◌, ◌/◌, ◌%◌, ◌≡◌, ◌≢◌, ◌↔◌, ◌⊎◌, inl, inr, refl, sym, ap, ◌∙◌, subst, [], ◌∷◌,
  arith, Bytes, length, length-drop, drop, ok, err, Result, pos, negsuc, Bool, true, false, not,
  Bool-cases, nat_eqb, nat_eqb_iff, chain_length, invalid_chain, pred_ℤ, if◌then◌else◌,
}
use broadauth.Hashchain.{
  Hasher, Linear, verify_chain, verify_loop, new_linear_from_existing, new_linear,
}
use broadauth.Hashchain.Spec.{hashes, length-hashes, linear_at}
use broadauth.Hashchain.Verify.{drop-hashes, Verdict, verify_chain-Verdict, blocks}
use broadauth.Hashchain.Build.{new_linear-pos}

module _ (h : Hasher) where
  open h use {size, sum}

  -- A string of hashes that links up.
  abbrev pub IsChain : Bytes → Type 0
  IsChain c = (n : ℕ) × (x : Bytes) × (length x ≡ size) × (c ≡ hashes h n x)

  abbrev pub Cases : Bytes → Result Linear → Type 0
  Cases c r =
      ((length c % size ≢ 0) × (r ≡ err chain_length))
      ⊎ ((c ≡ []) × (r ≡ ok (record { n = negsuc 0; chain = []; next = 1 })))
      ⊎ ((n : ℕ) × (x : Bytes) × (length x ≡ size)
          × (c ≡ hashes h n x)
          × (r ≡ ok (linear_at h n x 0)))
      ⊎ ((length c % size ≡ 0) × (¬ (IsChain c)) × (r ≡ err invalid_chain))

  -- The number of hashes in a string is determined.
  same_blocks : (m n : ℕ) → suc m * size ≡ suc n * size → m ≡ n
  same_blocks m n e = omega (
    arith,
    sym (mul-div_cancel (suc m) h.size_pos)
        ∙ ap (λ (t : ℕ). t / size) e
        ∙ mul-div_cancel (suc n) h.size_pos,
  )

  -- The call on a string of `suc n` hashes, as far as the verdict.
  existing_whole :
      (n : ℕ) (c : Bytes)
      → length c ≡ suc n * size
      → (b : Bool) → verify_chain h c ≡ ok b
      → new_linear_from_existing h c
        ≡ (if b then ok (record { n = pos n; chain = c; next = 1 }) else err invalid_chain)
  unfolding new_linear_from_existing
  existing_whole n c e b v =
      let whole : length c % size ≡ 0 = rw e (mul-mod_left (suc n) size) in
      rw (whole, v, blocks h n c e) (by_verdict b)
    where
      by_verdict :
          (b : Bool)
          → if◌then◌else◌ {A = Result Linear}
              (not b)
              (err invalid_chain)
              (ok (record { n = pred_ℤ (pos (suc n)); chain = c; next = 1 }))
            ≡ if◌then◌else◌ {A = Result Linear} b
                (ok (record { n = pos n; chain = c; next = 1 }))
                (err invalid_chain)
      by_verdict true = ground arith
      by_verdict false = refl

  existing_empty :
      new_linear_from_existing h [] ≡ ok (record { n = negsuc 0; chain = []; next = 1 })
  unfolding new_linear_from_existing verify_chain verify_loop
  existing_empty = rw (zero-mod size, zero-div size)

  existing_blocks :
      (q : ℕ) (c : Bytes) → length c ≡ q * size → Cases c (new_linear_from_existing h c)
  existing_blocks zero [] e = inr (inl (refl, existing_empty))
  existing_blocks zero (a ∷ c) e = absurd (omega arith)
  existing_blocks (suc n) c e = judge (verify_chain-Verdict h n c e)
    where
      not_chain : ((false ≡ true) ↔ (c ≡ hashes h n (drop (n * size) c))) → ¬ (IsChain c)
      not_chain iff (m, x, l, p) =
          let same : m ≡ n =
            same_blocks m n (sym (length-hashes h m x l) ∙ sym (ap length p) ∙ e) in
          let p' : c ≡ hashes h n x = p ∙ ap (λ t. hashes h t x) same in
          let end_of = ap (drop (n * size)) p' ∙ drop-hashes h n x l in
          cc (iff.1 (p' ∙ ap (hashes h n) (sym end_of)))

      judge : Verdict h n c (verify_chain h c) → Cases c (new_linear_from_existing h c)
      judge (true, eq, iff) =
          let is_chain : c ≡ hashes h n (drop (n * size) c) = iff.0 refl in
          inr (
            inr (
              inl (
                n,
                drop (n * size) c,
                omega (arith, length-drop (n * size) c),
                is_chain,
                existing_whole n c e true eq
                    ∙ ap (λ (t : Bytes). ok (record { n = pos n; chain = t; next = 1 })) is_chain,
              )))
      judge (false, eq, iff) = inr (
          inr
            (inr (rw e (mul-mod_left (suc n) size), not_chain iff, existing_whole n c e false eq)))

  -- `NewLinearFromExisting` has one of four outcomes and does not panic. A string that is not
  -- whole hashes is refused; the empty string gives a chain with `n = -1`; a string of hashes
  -- that links up gives the chain at its start; and whole hashes that do not link up are refused.
  pub from_existing-Cases : (c : Bytes) → Cases c (new_linear_from_existing h c)
  unfolding new_linear_from_existing
  from_existing-Cases c = elim (Bool-cases (nat_eqb (length c % size) 0)) [
    | inl whole ↦
        existing_blocks (length c / size) c
          (omega (arith, div-add-mod' (length c) size, (nat_eqb_iff (length c % size) 0).0 whole))
    | inr ragged ↦ inl ((λ e. cc ((nat_eqb_iff (length c % size) 0).1 e)), rw ragged)
  ]

  -- The bytes of a chain that the specification allows are taken as that chain.
  pub existing-hashes :
      (n : ℕ) (x : Bytes)
      → length x ≡ size
      → new_linear_from_existing h (hashes h n x) ≡ ok (linear_at h n x 0)
  existing-hashes n x e =
      let len = length-hashes h n x e in accept (verify_chain-Verdict h n (hashes h n x) len)
    where
      accept :
          Verdict h n (hashes h n x) (verify_chain h (hashes h n x))
          → new_linear_from_existing h (hashes h n x) ≡ ok (linear_at h n x 0)
      accept (b, eq, iff) =
          let good = iff.1 (ap (hashes h n) (sym (drop-hashes h n x e))) in
          existing_whole n (hashes h n x) (length-hashes h n x e) true (eq ∙ ap ok good)

  -- What `NewLinear` makes, `NewLinearFromExisting` reads back from the bytes alone.
  pub existing-new_linear :
      (seed : Bytes) (n : ℕ) (s : Linear)
      → new_linear h seed (pos n) ≡ ok s
      → new_linear_from_existing h s.chain ≡ ok s
  existing-new_linear seed n s made =
      let same : linear_at h n (sum seed) 0 ≡ s = cc (new_linear-pos h seed n) in
      subst (λ (t : Linear). new_linear_from_existing h t.chain ≡ ok t) same
        (existing-hashes n (sum seed) (h.length-sum seed))

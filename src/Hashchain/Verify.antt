-- ===== src/Hashchain/Verify.antt =====
-- `verifyChain` and `NewLinearFromExisting` accept the chains of the specification and no others.
use broadauth.Base.{
  ℕ, zero, suc, ◌+◌, ◌*◌, ◌/◌, ◌≡◌, ◌↔◌, inl, inr, refl, sym, ap, ap₂, ◌∙◌, subst, [], ◌∷◌, ◌++◌,
  append_assoc, arith, Bytes, length, length-append, length-take, length-drop, take, drop,
  take-append, drop-append, take-append-drop, drop-drop, drop_at, slice_after, ok, Result, pos,
  Bool, true, false, not, Bool-cases, ◌==◌, bytes_eq, bytes_eqb_iff, pred_ℤ, rounds, if◌then◌else◌,
}
use native.Mathlib.Nat.{div-eq_of_eq-mul_left}
use broadauth.Hashchain.{Hasher, verify_loop, verify_chain}
use broadauth.Hashchain.Spec.{
  iter, hashes, length-hashes, length-iter, hashes-front, hashes_split, sum-iter,
}

module _ (h : Hasher) where
  open h use {size, sum}

  -- The first and the last hash of a chain.
  pub take-hashes : (n : ℕ) (x : Bytes) → length x ≡ size → take size (hashes h n x) ≡ iter h n x
  take-hashes n x e =
      let (pre, post, eq, len) = hashes_split h 0 n n x e (omega arith) in
      rw eq (no_prefix pre post len)
    where
      no_prefix :
          (pre post : Bytes)
          → length pre ≡ 0 * size
          → take size (pre ++ (iter h n x ++ post)) ≡ iter h n x
      no_prefix [] post l = take-append size (iter h n x) post (length-iter h n x e)
      no_prefix (a ∷ pre) post l = absurd (omega arith)

  pub drop-hashes : (n : ℕ) (x : Bytes) → length x ≡ size → drop (n * size) (hashes h n x) ≡ x
  unfolding hashes
  drop-hashes zero x e = drop_at (0 * size) 0 x (omega arith)
  drop-hashes (suc n) x e =
      drop-append (suc n * size) (hashes h n (sum x)) x (length-hashes h n (sum x) (h.length-sum x))

  -- A string is the chain below `x` exactly when its front links to the rest, which is one.
  hashes-suc_iff :
      (n : ℕ) (d x : Bytes)
      → length x ≡ size
      → (d ≡ hashes h (suc n) x)
        ↔ ((take size d ≡ sum (take size (drop size d))) × (drop size d ≡ hashes h n x))
  hashes-suc_iff n d x e = (forth, back)
    where
      front : length (iter h (suc n) x) ≡ size
      front = length-iter h (suc n) x e

      forth :
          d ≡ hashes h (suc n) x
          → (take size d ≡ sum (take size (drop size d))) × (drop size d ≡ hashes h n x)
      forth p =
          let q : d ≡ iter h (suc n) x ++ hashes h n x = p ∙ hashes-front h n x in
          let tail = ap (drop size) q ∙ drop-append size _ (hashes h n x) front in
          (
            ap (take size) q
                ∙ take-append size _ (hashes h n x) front
                ∙ sym (sum-iter h n x)
                ∙ ap sum (sym (take-hashes n x e))
                ∙ ap (λ (t : Bytes). sum (take size t)) (sym tail),
            tail,
          )

      back :
          (take size d ≡ sum (take size (drop size d))) × (drop size d ≡ hashes h n x)
          → d ≡ hashes h (suc n) x
      back (p, q) =
          sym (take-append-drop size d)
          ∙ ap₂ ◌++◌
              (p
                ∙ ap (λ (t : Bytes). sum (take size t)) q
                ∙ ap sum (take-hashes n x e)
                ∙ sum-iter h n x)
              q
          ∙ sym (hashes-front h n x)

  abbrev pub Verdict : ℕ → Bytes → Result Bool → Type 0
  Verdict n d r = (b : Bool) × (r ≡ ok b) × ((b ≡ true) ↔ (d ≡ hashes h n (drop (n * size) d)))

  verify_step :
      (left i : ℕ) (pre d : Bytes)
      → length pre ≡ i * size
      → length d ≡ suc (suc left) * size
      → verify_loop h (suc left) i (pre ++ d) ≡ (
          if not (take size d == sum (take size (drop size d)))
          then ok false
          else verify_loop h left (i + 1) (pre ++ d))
  unfolding verify_loop
  verify_step left i pre d e f = rw (
    slice_after pre d 0 size (i * size) ((i + 1) * size) (omega arith) (omega arith) (omega arith),
    slice_after pre d size size ((i + 1) * size) ((i + 2) * size) (omega arith) (omega arith)
        (omega arith),
  )

  extend :
      (left i : ℕ) (pre d : Bytes)
      → length pre ≡ i * size
      → length d ≡ suc (suc left) * size
      → Verdict left (drop size d) (verify_loop h left (i + 1) (pre ++ d))
      → Verdict (suc left) d (verify_loop h (suc left) i (pre ++ d))
  extend left i pre d e f (b, eq, iff) = elim (Bool-cases (first_hash == sum second_hash)) [
    | inl same ↦ (
      b,
      verify_step left i pre d e f ∙ rw (same, eq),
      (
        λ t. link.1 ((bytes_eqb_iff _ _).0 same, iff.0 t ∙ ap (hashes h left) (sym end_of)),
        λ p. iff.1 ((link.0 p).1 ∙ ap (hashes h left) end_of),
      ),
    )
    | inr other ↦ (
      false,
      verify_step left i pre d e f ∙ rw other,
      (λ t. cc, λ p. sym other ∙ (bytes_eqb_iff _ _).1 (link.0 p).0),
    )
  ]
    where
      first_hash : Bytes
      first_hash = take size d

      second_hash : Bytes
      second_hash = take size (drop size d)

      end_of : drop (suc left * size) d ≡ drop (left * size) (drop size d)
      end_of =
          drop_at (suc left * size) (size + left * size) d (omega arith)
          ∙ sym (drop-drop (left * size) size d)

      link : (d ≡ hashes h (suc left) (drop (suc left * size) d)) ↔ (
          (take size d ≡ sum (take size (drop size d)))
          × (drop size d ≡ hashes h left (drop (suc left * size) d)))
      link =
          hashes-suc_iff left d (drop (suc left * size) d)
            (omega (arith, length-drop (suc left * size) d))

  verify_loop-Verdict :
      (left i : ℕ) (pre d : Bytes)
      → length pre ≡ i * size
      → length d ≡ suc left * size
      → Verdict left d (verify_loop h left i (pre ++ d))
  verify_loop-Verdict zero i pre d e f = (true, unfold verify_loop in refl, (λ _. whole, λ _. refl))
    where
      whole : d ≡ hashes h 0 (drop (0 * size) d)
      whole = unfold hashes in sym (drop_at (0 * size) 0 d (omega arith))
  verify_loop-Verdict (suc left) i pre d e f = extend left i pre d e f (
      subst Rest whole (
        verify_loop-Verdict left (i + 1) (pre ++ take size d) (drop size d)
          (omega (arith, length-append pre (take size d), length-take size d))
          (omega (arith, length-drop size d))))
    where
      whole : (pre ++ take size d) ++ drop size d ≡ pre ++ d
      whole = append_assoc pre (take size d) (drop size d) ∙ ap (◌++◌ pre) (take-append-drop size d)

      Rest : Bytes → Type 0
      Rest c = Verdict left (drop size d) (verify_loop h left (i + 1) c)

  -- The number of whole hashes in a string of `suc n` of them.
  pub blocks : (n : ℕ) (c : Bytes) → length c ≡ suc n * size → length c / size ≡ suc n
  blocks n c e = div-eq_of_eq-mul_left h.size_pos e

  rounds_pred : (n : ℕ) → rounds (pred_ℤ (pos (suc n))) ≡ n
  rounds_pred n = ground arith

  pub verify_chain-Verdict :
      (n : ℕ) (c : Bytes) → length c ≡ suc n * size → Verdict n c (verify_chain h c)
  unfolding verify_chain
  verify_chain-Verdict n c e =
      rw (blocks n c e, rounds_pred n) (verify_loop-Verdict n 0 [] c (omega arith) e)

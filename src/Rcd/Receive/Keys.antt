-- ===== src/Rcd/Receive/Keys.antt =====
-- What `verifyKey` decides against a commitment that is known.
use broadauth.Base.{
  ℕ, zero, suc, ◌+◌, ◌-◌, ◌≤◌, ◌≡◌, ◌↔◌, ◌⊎◌, inl, inr, refl, sym, ap, ◌∙◌, subst, Bytes, length,
  length-replicate, replicate, overwrite_all, some, Bool, true, false, Result, ok, ◌&&◌, bytes_eq,
  nat_eq, bytes_eqb_iff, nat_eqb_iff, if◌then◌else◌, arith, Bool-cases, load,
}
use broadauth.Hashchain.Spec.{iter, iter-iter}
use broadauth.Rcd.{Env, Rcd}
use broadauth.Rcd.Receive.{
  array_32, set_commitment, keys_equal, hash_back, verify_against, verify_key,
}

pub array_32_whole : (b : Bytes) → length b ≡ 32 → array_32 b ≡ b
array_32_whole b e = overwrite_all b (replicate 32 0) (e ∙ sym (length-replicate {A = ℕ} 32 0))

module _ (env : Env) where
  open env use {hasher}

  keys_equal_iff : (a b : Bytes) → (keys_equal env a b ≡ true) ↔ (a ≡ b)
  keys_equal_iff a b = (λ e. (bytes_eqb_iff a b).0 (second _ _ e), λ e. both e)
    where
      second : (p q : Bool) → (p && q) ≡ true → q ≡ true
      second true q e = e
      second false q e = cc

      both : a ≡ b → keys_equal env a b ≡ true
      both e = rw ((nat_eqb_iff (length a) (length b)).1 (ap length e)) ((bytes_eqb_iff a b).1 e)

  -- The commitment is reached from the key by at least `lo` and at most `hi` hashes.
  abbrev pub Reaches : ℕ → ℕ → Bytes → Bytes → Type 0
  Reaches lo hi key commitment = (i : ℕ) × (lo ≤ i) × (i ≤ hi) × (iter hasher i key ≡ commitment)

  abbrev Decides : Type 0 → (Rcd → Rcd) → Rcd → Result Bool × Rcd → Type 0
  Decides P done r out = (P × (out ≡ (ok true, done r))) ⊎ ((¬ P) × (out ≡ (ok false, r)))

  hash_back_lem :
      (left : ℕ) (sender key commitment current : Bytes) (r : Rcd)
      → Decides
          (Reaches 1 left current commitment)
          (set_commitment sender key)
          r
          (hash_back env left sender key commitment current r)
  hash_back_lem zero sender key commitment current r =
      inr ((λ (i, lo, hi, e). absurd (omega arith)), unfold hash_back in refl)
  hash_back_lem (suc left) sender key commitment current r =
      elim (Bool-cases (keys_equal env (hasher.sum current) commitment)) [
        | inl same ↦ inl (
          (1, omega arith, omega arith, unfold iter in (keys_equal_iff _ commitment).0 same),
          unfold hash_back in rw same,
        )
        | inr other ↦ later other (hash_back_lem left sender key commitment (hasher.sum current) r)
      ]
    where
      Rest : Type 0
      Rest = Reaches 1 left (hasher.sum current) commitment

      later :
          keys_equal env (hasher.sum current) commitment ≡ false
          → Decides Rest
              (set_commitment sender key)
              r
              (hash_back env left sender key commitment (hasher.sum current) r)
          → Decides
              (Reaches 1 (suc left) current commitment)
              (set_commitment sender key)
              r
              (hash_back env (suc left) sender key commitment current r)
      later other (inl ((i, lo, hi, e), run)) =
          inl
            ((suc i, omega arith, omega arith, unfold iter in e), unfold hash_back in rw other run)
      later other (inr (never, run)) = inr (no_round, unfold hash_back in rw other run)
        where
          no_round : ¬ (Reaches 1 (suc left) current commitment)
          no_round (zero, lo, hi, e) = absurd (omega arith)
          no_round (suc zero, lo, hi, e) =
              cc (sym other ∙ (keys_equal_iff (hasher.sum current) commitment).1 (unfold iter in e))
          no_round (suc (suc i), lo, hi, e) =
              never (suc i, omega arith, omega arith, unfold iter in e)

  -- With a known commitment and a key of 32 bytes, `verifyKey` says yes exactly if at most
  -- `hashchainLen + 1` hashes lead from the key to the commitment. Then the key becomes the
  -- commitment of the sender; otherwise nothing changes.
  pub verify_key_known :
      (sender key commitment : Bytes) (r : Rcd)
      → length key ≡ 32
      → load sender r.commitment_keys ≡ some commitment
      → (Reaches 0 (r.hashchain_len + 1) key commitment
          × (verify_key env sender key r ≡ (ok true, set_commitment sender key r)))
        ⊎ ((¬ (Reaches 0 (r.hashchain_len + 1) key commitment))
            × (verify_key env sender key r ≡ (ok false, r)))
  verify_key_known sender key commitment r len known =
      subst (Decides (Reaches 0 (r.hashchain_len + 1) key commitment) (set_commitment sender key) r)
        (sym direct)
        (elim (Bool-cases (keys_equal env key commitment)) [
          | inl same ↦ inl (
            (0, omega arith, omega arith, unfold iter in (keys_equal_iff key commitment).0 same),
            rw same,
          )
          | inr other ↦
              looped other (hash_back_lem (r.hashchain_len + 1) sender key commitment key r)
        ])
    where
      against : Result Bool × Rcd
      against =
          if keys_equal env key commitment
          then (ok true, set_commitment sender key r)
          else hash_back env (r.hashchain_len + 1) sender key commitment key r

      direct : verify_key env sender key r ≡ against
      direct = unfold verify_key verify_against in rw (known, array_32_whole key len)

      looped :
          keys_equal env key commitment ≡ false
          → Decides
              (Reaches 1 (r.hashchain_len + 1) key commitment)
              (set_commitment sender key)
              r
              (hash_back env (r.hashchain_len + 1) sender key commitment key r)
          → Decides
              (Reaches 0 (r.hashchain_len + 1) key commitment)
              (set_commitment sender key)
              r
              against
      looped other (inl ((i, lo, hi, e), run)) = inl ((i, omega arith, hi, e), rw other run)
      looped other (inr (never, run)) = inr (no_round, rw other run)
        where
          no_round : ¬ (Reaches 0 (r.hashchain_len + 1) key commitment)
          no_round (zero, lo, hi, e) =
              cc (sym other ∙ (keys_equal_iff key commitment).1 (unfold iter in e))
          no_round (suc i, lo, hi, e) = never (suc i, omega arith, hi, e)

  -- A key of 32 bytes is accepted against an earlier key of its chain, at most `hashchainLen + 1`
  -- keys back, and becomes the commitment.
  pub verify_key_chain :
      (n i j : ℕ) (last sender : Bytes) (r : Rcd)
      → length (iter hasher (n - i) last) ≡ 32
      → j ≤ i
      → i ≤ n
      → i ≤ j + (r.hashchain_len + 1)
      → load sender r.commitment_keys ≡ some (iter hasher (n - j) last)
      → verify_key env sender (iter hasher (n - i) last) r
        ≡ (ok true, set_commitment sender (iter hasher (n - i) last) r)
  verify_key_chain n i j last sender r len le le' near known =
      elim (verify_key_known sender (iter hasher (n - i) last) (iter hasher (n - j) last) r len
        known) [
          | inl (_, run) ↦ run
          | inr (never, _) ↦ absurd (never (i - j, omega arith, omega arith, joined))
        ]
    where
      joined : iter hasher (i - j) (iter hasher (n - i) last) ≡ iter hasher (n - j) last
      joined =
          let sum_of : (n - i) + (i - j) ≡ n - j = omega arith in
          iter-iter hasher (i - j) (n - i) last ∙ ap (λ t. iter hasher t last) sum_of

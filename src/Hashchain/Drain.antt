-- ===== src/Hashchain/Drain.antt =====
-- What `First`, `Last`, `Next` and `Remaining` give on a chain of the specification.
use broadauth.Base.{
  ℕ, suc, ◌+◌, ◌-◌, ◌*◌, ◌≤◌, ◌≡◌, refl, ap, ◌∙◌, [], arith, Bytes, length, ok, pos, ltb, lt→ltb,
  le→ltb, Bool-cases, if◌then◌else◌, inl, inr, ltb→lt, ltb→le, take_all, slice_after, slice_lem,
  slice, length-slice, ltb_ℤ, ◌≢◌, Result, err, panic, running, ◌>>=◌, sym,
}
use broadauth.Hashchain.{Hasher, Linear, first, last, next_hash, remaining}
use broadauth.Hashchain.Spec.{iter, hashes, length-hashes, linear_at, slice-hashes}
use broadauth.Hashchain.Verify.{take-hashes, drop-hashes}

module _ (h : Hasher) where
  open h use {size, sum}

  -- `First` is h_0 and `Last` is h_n.
  pub first-last :
      (n k : ℕ) (x : Bytes)
      → length x ≡ size
      → (first h (linear_at h n x k) ≡ ok (iter h n x)) × (last h (linear_at h n x k) ≡ ok x)
  unfolding first last
  first-last n k x e =
      let len = length-hashes h n x e in
      let pos_len : 0 + size ≤ length (hashes h n x) = omega (arith, len) in
      (
        slice_after [] (hashes h n x) 0 size 0 size refl (omega arith) pos_len
            ∙ ap ok (take-hashes h n x e),
        slice_lem (hashes h n x) (n * size) (length (hashes h n x)) (omega (arith, len))
              (omega arith)
            ∙ rw (drop-hashes h n x e) (ap ok (take_all _ x (omega (arith, len)))),
      )

  -- `Next` gives h_1, ..., h_n in this order and then nothing, and `Remaining` counts what is left.
  pub next_hash-linear_at :
      (n k : ℕ) (x : Bytes)
      → length x ≡ size
      → k ≤ n
      → (next_hash h (linear_at h n x k) ≡ (
          if ltb k n
          then ok (iter h (n - suc k) x, linear_at h n x (suc k))
          else ok ([], linear_at h n x k)))
        × (remaining h (linear_at h n x k) ≡ pos (n - k))
  unfolding next_hash remaining
  next_hash-linear_at n k x e le = (given, ground arith)
    where
      given : next_hash h (linear_at h n x k) ≡ (
          if ltb k n
          then ok (iter h (n - suc k) x, linear_at h n x (suc k))
          else ok ([], linear_at h n x k))
      given = elim (Bool-cases (ltb k n)) [
        | inl more ↦
            rw
              (
                more,
                le→ltb n (k + 1) (omega (arith, ltb→lt k n more)),
                slice-hashes h (k + 1) (n - suc k) n x e (omega (arith, ltb→lt k n more)),
              )
              (let one : k + 1 ≡ suc k = omega arith in rw one)
        | inr done ↦ rw (done, lt→ltb n (k + 1) (omega (arith, ltb→le k n done)))
      ]

  -- What `Next` gives on any chain is empty or a whole hash.
  pub length-next_hash :
      (s s' : Linear) (key : Bytes) → next_hash h s ≡ ok (key, s') → key ≢ [] → length key ≡ size
  unfolding next_hash
  length-next_hash s s' key e there = elim (Bool-cases (ltb_ℤ s.n (pos s.next))) [
    | inl done ↦ ground (arith, done)
    | inr more ↦ go (slice s.chain (s.next * size) ((s.next + 1) * size)) refl (rw more at e)
  ]
    where
      go :
          (r : Result Bytes)
          → slice s.chain (s.next * size) ((s.next + 1) * size) ≡ r
          → ◌>>=◌ {B = Bytes × Linear} r (λ b. ok (b, record s { next = s.next + 1 }))
            ≡ ok (key, s')
          → length key ≡ size
      go (ok b) f g =
          let same : b ≡ key = ground (arith, g) in
          let width = length-slice s.chain b (s.next * size) ((s.next + 1) * size) f in
          ap length (sym same) ∙ width ∙ omega arith
      go (err x) f g = ground (arith, g)
      go panic f g = ground (arith, g)
      go running f g = ground (arith, g)

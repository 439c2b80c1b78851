-- ===== src/Hashchain/Spec.antt =====
-- What the byte slice of a `Linear` chain should hold, independently of the loops: repeated
-- hashes of the last one, in the order h_0 || h_1 || ... || h_n.
use broadauth.Base.{
  ℕ, zero, suc, ◌+◌, ◌*◌, ◌≡◌, refl, sym, ap, ◌∙◌, [], ◌++◌, append-nil, append_assoc, arith, Bytes,
  length, length-append, pos, slice, slice_middle, ok,
}
use broadauth.Hashchain.{Hasher, Linear}

module _ (h : Hasher) where
  open h use {size, sum}

  -- `k` hashes in a row.
  unfoldable pub iter : ℕ → Bytes → Bytes
  iter zero x = x
  iter (suc k) x = iter k (sum x)

  -- The chain of `n + 1` hashes that ends in `x`.
  unfoldable pub hashes : ℕ → Bytes → Bytes
  hashes zero x = x
  hashes (suc n) x = hashes n (sum x) ++ x

  -- A chain as the constructors make it, with `n` hashes after h_0 and `k` given out.
  abbrev pub linear_at : ℕ → Bytes → ℕ → Linear
  linear_at n x k = record { n = pos n; chain = hashes n x; next = k + 1 }

  pub sum-iter : (k : ℕ) (x : Bytes) → sum (iter k x) ≡ iter (suc k) x
  unfolding iter
  sum-iter zero x = refl
  sum-iter (suc k) x = sum-iter k (sum x)

  pub iter-iter : (a b : ℕ) (x : Bytes) → iter a (iter b x) ≡ iter (b + a) x
  unfolding iter
  iter-iter a zero x = let e : 0 + a ≡ a = omega arith in rw e
  iter-iter a (suc b) x =
      let e : suc b + a ≡ suc (b + a) = omega arith in rw e (iter-iter a b (sum x))

  pub length-iter : (k : ℕ) (x : Bytes) → length x ≡ size → length (iter k x) ≡ size
  unfolding iter
  length-iter zero x e = e
  length-iter (suc k) x e = length-iter k (sum x) (h.length-sum x)

  pub length-hashes : (n : ℕ) (x : Bytes) → length x ≡ size → length (hashes n x) ≡ suc n * size
  unfolding hashes
  length-hashes zero x e = omega arith
  length-hashes (suc n) x e =
      omega (arith, length-append (hashes n (sum x)) x, length-hashes n (sum x) (h.length-sum x))

  -- The place of the hash `k` before the last.
  pub hashes_split :
      (i k n : ℕ) (x : Bytes)
      → length x ≡ size
      → i + k ≡ n
      → (pre : Bytes) × (post : Bytes) × (hashes n x ≡ pre ++ (iter k x ++ post))
        × (length pre ≡ i * size)
  unfolding hashes iter
  hashes_split i zero zero x e f = ([], [], sym (append-nil x), grind arith)
  hashes_split i zero (suc n) x e f = (
    hashes n (sum x),
    [],
    ap (◌++◌ (hashes n (sum x))) (sym (append-nil x)),
    length-hashes n (sum x) (h.length-sum x) ∙ ap (λ t. t * size) {x = suc n} {y = i} (omega arith),
  )
  hashes_split i (suc k) zero x e f = absurd (omega arith)
  hashes_split i (suc k) (suc n) x e f =
      let (pre, post, eq, len) = hashes_split i k n (sum x) (h.length-sum x) (omega arith) in
      (pre, post ++ x, rw eq (simp append_assoc), len)

  -- Slice `i` of the chain is the last hash, hashed `n - i` times.
  pub slice-hashes :
      (i k n : ℕ) (x : Bytes)
      → length x ≡ size
      → i + k ≡ n
      → slice (hashes n x) (i * size) ((i + 1) * size) ≡ ok (iter k x)
  slice-hashes i k n x e f =
      let (pre, post, eq, len) = hashes_split i k n x e f in
      rw eq (
        slice_middle pre (iter k x) post (i * size) ((i + 1) * size) len
          (omega (arith, length-iter k x e))
          (omega (
            arith,
            length-append pre (iter k x ++ post),
            length-append (iter k x) post,
            length-iter k x e,
          )))

  -- The chain read from its front.
  pub hashes-front : (n : ℕ) (x : Bytes) → hashes (suc n) x ≡ iter (suc n) x ++ hashes n x
  unfolding hashes iter
  hashes-front zero x = refl
  hashes-front (suc n) x = rw (hashes-front n (sum x)) (append_assoc _ _ x)

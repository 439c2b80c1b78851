-- ===== src/Rcd/Keys/Advance.antt =====
-- The inner loop of `CurrentSlotKey` on a chain of the specification.
use broadauth.Base.{
  ℕ, zero, suc, ◌+◌, ◌-◌, ◌≤◌, ◌<◌, ◌≡◌, sym, ◌∙◌, Bytes, length, arith, some, true, false, ok, ltb,
  lt→ltb, le→ltb, if◌then◌else◌, overwrite_all, Bool-cases, inl, inr, ltb→lt, ltb→le,
}
use broadauth.Hashchain.Spec.{iter, linear_at, length-iter}
use broadauth.Hashchain.Drain.{next_hash-linear_at}
use broadauth.Rcd.{Env, KeyState}
use broadauth.Rcd.Keys.{next_key, advance, exhausted}

module _ (env : Env) where
  open env use {hasher}

  -- The state with `k` hashes of the chain given out.
  abbrev pub at_hash : KeyState → ℕ → Bytes → ℕ → ℕ → KeyState
  at_hash s n x k slot = record s {
    hash_chain = some (linear_at hasher n x k);
    cached_key = iter hasher (n - k) x;
    cached_key_slot = slot;
  }

  pub next_key_lem :
      (n k : ℕ) (x : Bytes) (s : KeyState)
      → length x ≡ hasher.size
      → length s.cached_key ≡ hasher.size
      → k < n
      → next_key env (some (linear_at hasher n x k)) s
        ≡ (ok tt, at_hash s n x (suc k) s.cached_key_slot)
  unfolding next_key
  next_key_lem n k x s e len lt =
      let step = (next_hash-linear_at hasher n k x e (omega arith)).0 in
      rw (step, lt→ltb k n lt)
        (rw (
          overwrite_all (iter hasher (n - suc k) x) s.cached_key
            (length-iter hasher (n - suc k) x e ∙ sym len)))

  pub exhausted_lem :
      (n k : ℕ) (x : Bytes)
      → length x ≡ hasher.size
      → k ≤ n
      → exhausted env (some (linear_at hasher n x k)) ≡ (if ltb k n then false else true)
  unfolding exhausted
  exhausted_lem n k x e le = rw (next_hash-linear_at hasher n k x e le).1 (ground arith)

  -- One round gives out the next hash, if there is one.
  advance_more :
      (r n k slot : ℕ) (x : Bytes) (s : KeyState)
      → length x ≡ hasher.size
      → k < n
      → advance env (suc r) (at_hash s n x k slot)
        ≡ advance env r (at_hash s n x (suc k) (slot + 1))
  advance_more r n k slot x s e lt =
      let step = next_key_lem n k x (at_hash s n x k slot) e (length-iter hasher (n - k) x e) lt in
      unfold advance in rw (exhausted_lem n k x e (omega arith), lt→ltb k n lt, step)

  advance_stop :
      (r n slot : ℕ) (x : Bytes) (s : KeyState)
      → length x ≡ hasher.size
      → advance env (suc r) (at_hash s n x n slot) ≡ (ok tt, at_hash s n x n 0)
  advance_stop r n slot x s e =
      unfold advance in rw (exhausted_lem n n x e (omega arith), le→ltb n n (omega arith))

  -- The cached slot follows the given one as far as the chain goes.
  pub advance_lem :
      (r n k slot : ℕ) (x : Bytes) (s : KeyState)
      → length x ≡ hasher.size
      → k + r ≤ n
      → advance env r (at_hash s n x k slot) ≡ (ok tt, at_hash s n x (k + r) (slot + r))
  advance_lem zero n k slot x s e room =
      let k+0 : k + 0 ≡ k = omega arith in
      let slot+0 : slot + 0 ≡ slot = omega arith in unfold advance in rw (k+0, slot+0)
  advance_lem (suc r) n k slot x s e room =
      let k+r : suc k + r ≡ k + suc r = omega arith in
      let slot+r : slot + 1 + r ≡ slot + suc r = omega arith in
      advance_more r n k slot x s e (omega arith)
      ∙ advance_lem r n (suc k) (slot + 1) x s e (omega arith)
      ∙ rw (k+r, slot+r)

  -- On a chain that ends before the given slot it is reset to 0, whatever was given out.
  pub advance_exhausted :
      (r n k slot : ℕ) (x : Bytes) (s : KeyState)
      → length x ≡ hasher.size
      → k ≤ n
      → n < k + r
      → advance env r (at_hash s n x k slot) ≡ (ok tt, at_hash s n x n 0)
  advance_exhausted zero n k slot x s e le short = absurd (omega arith)
  advance_exhausted (suc r) n k slot x s e le short = elim (Bool-cases (ltb k n)) [
    | inl more ↦
        advance_more r n k slot x s e (ltb→lt k n more)
        ∙ advance_exhausted r n (suc k) (slot + 1) x s e (ltb→lt k n more) (omega arith)
    | inr done ↦
        let last : k ≡ n = omega (arith, ltb→le k n done) in rw last (advance_stop r n slot x s e)
  ]

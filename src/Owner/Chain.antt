-- ===== src/Owner/Chain.antt =====
-- What the owner writes for a chain: all of it, front to back.
use native.Mathlib.Nat.{mul-le-mul_left}
use broadauth.Base.{
  ℕ, zero, suc, ◌+◌, ◌-◌, ◌<◌, ◌≡◌, sym, ap, Bytes, [], ◌++◌, length, ok, ltb, lt→ltb, le→ltb, true,
  false, arith, append-nil,
}
use broadauth.Hashchain.{Hasher}
use broadauth.Hashchain.Spec.{iter, hashes, linear_at, length-iter, length-hashes, hashes-front}
use broadauth.Hashchain.Drain.{next_hash-linear_at}
use broadauth.Owner.Written.{drain, send_chain}

module _ (hasher : Hasher) where
  -- The last `d` hashes of a chain.
  rest_of : ℕ → Bytes → Bytes
  rest_of zero x = []
  rest_of (suc d) x = hashes hasher d x

  front_rest : (d : ℕ) (x : Bytes) → iter hasher d x ++ rest_of d x ≡ hashes hasher d x
  unfolding rest_of
  front_rest zero x = unfold iter hashes in append-nil x
  front_rest (suc d) x = sym (hashes-front hasher d x)

  drain_lem :
      (d n k fuel : ℕ) (x : Bytes)
      → length x ≡ hasher.size
      → k + d ≡ n
      → d < fuel
      → drain hasher fuel (linear_at hasher n x k) ≡ ok (rest_of d x)
  unfolding drain rest_of
  drain_lem d n k zero x l e lt = absurd (omega arith)
  drain_lem zero n k (suc fuel) x l e lt =
      let done : ltb k n ≡ false = le→ltb k n (omega arith) in
      rw ((next_hash-linear_at hasher n k x l (omega arith)).0, done)
  drain_lem (suc d) n k (suc fuel) x l e lt =
      let more : ltb k n ≡ true = lt→ltb k n (omega arith) in
      let at : n - suc k ≡ d = omega arith in
      let some_bytes : ltb 0 (length (iter hasher d x)) ≡ true =
        lt→ltb 0 _ (omega (arith, length-iter hasher d x l, hasher.size_pos)) in
      rw
        (
          (next_hash-linear_at hasher n k x l (omega arith)).0,
          more,
          at,
          some_bytes,
          drain_lem d n (suc k) fuel x l (omega arith) (omega arith),
        )
        (ap ok (front_rest d x))

  -- The owner writes the whole chain: h_0, then h_1, ..., h_n, in the form that the RCD reads.
  pub send_chain-hashes :
      (n : ℕ) (x : Bytes)
      → length x ≡ hasher.size
      → send_chain hasher (iter hasher n x) (linear_at hasher n x 0) ≡ ok (hashes hasher n x)
  unfolding send_chain
  send_chain-hashes n x l =
      rw (drain_lem n n 0 (length (hashes hasher n x) + 1) x l (omega arith) enough)
        (ap ok (front_rest n x))
    where
      enough : n < length (hashes hasher n x) + 1
      enough = omega (arith, length-hashes hasher n x l, mul-le-mul_left (suc n) hasher.size_pos)

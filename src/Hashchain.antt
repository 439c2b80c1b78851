-- ===== src/Hashchain.antt =====
-- pkg/hashchain/hashchain.go: the `Linear` hash chain, one byte slice that holds
-- h_0 || h_1 || ... || h_n with h_i = hash(h_{i+1}), and the index of the next hash to give out.
-- The hasher is Go's `hash.Hash`, a `Hasher` here: a function into strings of `size` bytes.
pub mod Spec
pub mod Build
pub mod Verify
pub mod Existing
pub mod Drain
pub mod Tests
use broadauth.Base.{
  ℕ, zero, suc, ◌+◌, ◌-◌, ◌*◌, ◌/◌, ◌%◌, ◌<◌, ◌≡◌, Bytes, length, replicate, drop, copy_range, ℤ,
  pos, sub_ℕ, pred_ℤ, suc_ℤ, ◌-ℤ◌, ltb_ℤ, rounds, Result, ok, err, panic, negsuc, ◌>>=◌, slice,
  chain_length, invalid_chain, Bool, true, false, not, ◌==◌, bytes_eq, nat_eq, if◌then◌else◌, [],
}

-- What the program uses of `hash.Hash`: `Reset`, `Write b`, `Sum(nil)` is `sum b`, and `Size` is
-- the number of bytes that `Sum` returns, as its documentation says.
pub record Hasher : Type 0 where
  pub size : ℕ
  pub sum : Bytes → Bytes
  pub size_pos : 0 < size
  pub length-sum : (b : Bytes) → length (sum b) ≡ size

-- `n` is an `int`, and -1 for the chain of no hash.
pub record Linear : Type 0 where
  pub n : ℤ
  pub chain : Bytes
  pub next : ℕ

module _ (h : Hasher) where
  open h use {size, sum}

  -- The loop of `NewLinear` at index `i`, counted down to 0.
  unfoldable pub fill : ℕ → Bytes → Result Bytes
  fill zero chain = ok chain
  fill (suc i) chain = slice chain (suc i * size) (suc i * size + size) >>= λ above.
      fill i (copy_range chain (i * size) (suc i * size) (sum above))

  -- With `n` -1 the range of the first copy is out of bounds, and below that the buffer cannot be
  -- made. The products are taken to fit an `int`.
  unfoldable pub new_linear : Bytes → ℤ → Result Linear
  unfolding fill
  new_linear seed (negsuc n) = panic
  new_linear seed (pos n) =
      let last = sum seed in
      let hash_len = length last in
      let zeros = replicate ((n + 1) * hash_len) 0 in
      fill n (copy_range zeros (n * hash_len) (length zeros) last) >>= λ chain.
      ok (record { n = pos n; chain = chain; next = 1 })

  unfoldable pub first : Linear → Result Bytes
  first s = slice s.chain 0 size

  unfoldable pub last : Linear → Result Bytes
  last s = elim s.n [ pos n ↦ slice s.chain (n * size) (length s.chain) | negsuc n ↦ panic ]

  unfoldable pub next_hash : Linear → Result (Bytes × Linear)
  next_hash s =
      if ltb_ℤ s.n (pos s.next)
      then ok ([], s)
      else (slice s.chain (s.next * size) ((s.next + 1) * size) >>= λ key.
          ok (key, record s { next = s.next + 1 }))

  unfoldable pub remaining : Linear → ℤ
  remaining s = suc_ℤ (s.n -ℤ s.next)

  -- The loop of `verifyChain` from index `i`, with the rounds that are left.
  unfoldable pub verify_loop : ℕ → ℕ → Bytes → Result Bool
  verify_loop zero i chain = ok true
  verify_loop (suc left) i chain = slice chain (i * size) ((i + 1) * size) >>= λ curr.
      slice chain ((i + 1) * size) ((i + 2) * size) >>= λ above.
      let rest = verify_loop left (i + 1) chain in
      if not (curr == sum above) then ok false else rest

  unfoldable pub verify_chain : Bytes → Result Bool
  unfolding verify_loop
  verify_chain chain = verify_loop (rounds (pred_ℤ (pos (length chain / size)))) 0 chain

  unfoldable pub new_linear_from_existing : Bytes → Result Linear
  new_linear_from_existing chain =
      if not (length chain % size == 0)
      then err chain_length
      else (verify_chain chain >>= λ valid.
          if not valid
          then err invalid_chain
          else ok (record { n = pred_ℤ (pos (length chain / size)); chain = chain; next = 1 }))

-- ===== src/Owner/Written.antt =====
-- The end of `handleRCD`: what is written of a chain.
use broadauth.Base.{
  ℕ, zero, suc, ◌+◌, Bytes, [], ◌++◌, length, Result, ok, running, ◌>>=◌, ltb, if◌then◌else◌,
}
use broadauth.Hashchain.{Hasher, Linear, next_hash}

module _ (hasher : Hasher) where
  -- `for hash := chain.Next(); len(hash) > 0; …`: what is written, with fuel.
  unfoldable pub drain : ℕ → Linear → Result Bytes
  drain zero chain = running
  drain (suc fuel) chain = next_hash hasher chain >>= λ given.
      let more = drain fuel given.1 in
      if ltb 0 (length given.0) then (more >>= λ rest. ok (given.0 ++ rest)) else ok []

  -- The bytes that are written: `first` and the hashes after it. A chain has no more hashes than
  -- bytes.
  unfoldable pub send_chain : Bytes → Linear → Result Bytes
  unfolding drain
  send_chain key chain = drain (length chain.chain + 1) chain >>= λ rest. ok (key ++ rest)

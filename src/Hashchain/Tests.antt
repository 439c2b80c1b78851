-- ===== src/Hashchain/Tests.antt =====
-- Small runs of the chain, and each theorem of the chain at a concrete input.
use broadauth.Base.{
  ℕ, ◌+◌, ◌*◌, ◌%◌, ◌≡◌, refl, [], ◌∷◌, Bytes, length, arith, ok, err, pos, chain_length,
  invalid_chain,
}
use broadauth.Hashchain.{Hasher, new_linear, verify_chain, new_linear_from_existing}
use broadauth.Hashchain.Spec.{hashes, linear_at}
use broadauth.Hashchain.Existing.{Cases, from_existing-Cases}

-- A toy hash of two bytes: a polynomial of the input, and one more than its remainder.
unfoldable pub digest : ℕ → Bytes → ℕ
digest a [] = a
digest a (x ∷ xs) = digest ((a * 31 + x + 7) % 65536) xs

abbrev pub toy_sum : Bytes → Bytes
toy_sum b = digest 1 b % 256 ∷ (digest 2 b + 1) % 256 ∷ []

pub length-toy_sum : (b : Bytes) → length (toy_sum b) ≡ 2
length-toy_sum b = refl

abbrev pub toy : Hasher
toy = record { size = 2; sum = toy_sum; size_pos = omega arith; length-sum = length-toy_sum }

abbrev test_seed : Bytes
test_seed = 116 ∷ 101 ∷ 115 ∷ 116 ∷ []

-- The chain of three hashes of the seed, as the repository's test computes it.
new_linear_test : new_linear toy test_seed (pos 2) ≡ ok (linear_at toy 2 (toy_sum test_seed) 0)
unfolding new_linear hashes digest
new_linear_test = refl

from_existing_test :
    (new_linear_from_existing toy (1 ∷ 2 ∷ 3 ∷ []) ≡ err chain_length)
    × (new_linear_from_existing toy (1 ∷ 2 ∷ 3 ∷ 4 ∷ []) ≡ err invalid_chain)
unfolding new_linear_from_existing verify_chain digest
from_existing_test = (refl, refl)

from_existing-Cases_example : Cases toy (1 ∷ 2 ∷ []) (new_linear_from_existing toy (1 ∷ 2 ∷ []))
from_existing-Cases_example = from_existing-Cases toy (1 ∷ 2 ∷ [])

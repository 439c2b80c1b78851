-- ===== src/Bloom.antt =====
-- pkg/bloom/bloom.go: the Bloom filter over 64-bit FNV-1a with double hashing, and its bytes.
-- `fnv.New64a` is written out; the sizes that `New` computes in floating point go through an
-- abstract type of floats.
pub mod Bits
pub mod Fnv
pub mod Filled
pub mod Wire
pub mod Read
pub mod Tests
use Prim.Native.Nat.{bit_and, bit_or}
use broadauth.Base.{
  ℕ, zero, suc, ◌+◌, ◌-◌, ◌*◌, ◌/◌, ◌%◌, ◌^◌, Bytes, length, replicate, drop, set, Result, ok,
  panic, ◌>>=◌, index, Option, some, none, Bool, true, false, ltb, ◌==◌, nat_eq, if◌then◌else◌, [],
  ◌∷◌, List, ◌++◌,
}
use Fnv.{sum64, write, offset_basis}

pub record Filter : Type 0 where
  pub bitset : Bytes
  pub k : ℕ
  pub m : ℕ

-- Go's `float64` and the functions of package math that `New` calls.
pub record Float64 : Type 1 where
  pub F : Type 0
  pub of_nat : ℕ → F
  pub neg_one : F
  pub two : F
  pub mul : F → F → F
  pub div : F → F → F
  pub log : F → F
  pub pow : F → F → F
  pub ceil : F → F
  pub to_uint : F → ℕ

-- `(m+7)/8`, in 64-bit arithmetic.
abbrev pub bitset_len : ℕ → ℕ
bitset_len m = (m + 7) % 2 ^ 64 / 8

module _ (fl : Float64) where
  open fl use {F, of_nat, neg_one, two, mul, div, log, pow, ceil, to_uint}

  unfoldable pub new_filter : ℕ → F → Filter
  new_filter n p =
      let m = to_uint (ceil (div (mul (mul neg_one (of_nat n)) (log p)) (pow (log two) two))) in
      let k = to_uint (ceil (mul (div (of_nat m) (of_nat n)) (log two))) in
      record { bitset = replicate (bitset_len m) 0; k = k; m = m }

-- The two hashes of an item: the state after the data, and after one more byte.
unfoldable pub hash_pair : Bytes → ℕ × ℕ
unfolding sum64
hash_pair item = let h = write offset_basis item in (sum64 h, sum64 (write h (1 ∷ [])))

-- `(hash1 + uint64(i)*hash2) % uint64(f.m)`; a remainder by zero panics.
unfoldable pub bit_index : ℕ → ℕ × ℕ → ℕ → Result ℕ
bit_index m (hash1, hash2) i =
    if m == 0 then panic else ok ((hash1 + i * hash2 % 2 ^ 64) % 2 ^ 64 % m)

-- `bits[idx/8] |= 1 << (idx%8)`.
unfoldable pub set_bit : Bytes → ℕ → Result Bytes
set_bit bits idx =
    index bits (idx / 8) >>= λ byte. ok (set bits (idx / 8) (bit_or byte (2 ^ (idx % 8))))

-- `bits[idx/8] & (1 << (idx%8)) != 0`.
unfoldable pub test_bit : Bytes → ℕ → Result Bool
test_bit bits idx =
    index bits (idx / 8) >>= λ byte. ok (if bit_and byte (2 ^ (idx % 8)) == 0 then false else true)

-- The loop of `Add` from round `i`, with the rounds that are left.
unfoldable pub add_loop : ℕ → ℕ × ℕ → ℕ → ℕ → Bytes → Result Bytes
add_loop m hs zero i bits = ok bits
add_loop m hs (suc left) i bits =
    bit_index m hs i >>= λ idx. set_bit bits idx >>= λ bits'. add_loop m hs left (i + 1) bits'

unfoldable pub add : Filter → Bytes → Result Filter
unfolding add_loop
add f item =
    add_loop f.m (hash_pair item) f.k 0 f.bitset >>= λ bits. ok (record f { bitset = bits })

-- The loop of `Check`, which returns at the first bit that is clear.
unfoldable pub check_loop : ℕ → ℕ × ℕ → ℕ → ℕ → Bytes → Result Bool
check_loop m hs zero i bits = ok true
check_loop m hs (suc left) i bits = bit_index m hs i >>= λ idx. test_bit bits idx >>= λ hit.
    let rest = check_loop m hs left (i + 1) bits in if hit then rest else ok false

unfoldable pub check : Filter → Bytes → Result Bool
unfolding check_loop
check f item = check_loop f.m (hash_pair item) f.k 0 f.bitset

-- `binary.BigEndian.PutUint32(buf, uint32(v))` and `Uint32`.
unfoldable pub put_uint32 : ℕ → Bytes
put_uint32 v = v / 2 ^ 24 % 256 ∷ v / 2 ^ 16 % 256 ∷ v / 2 ^ 8 % 256 ∷ v % 256 ∷ []

unfoldable pub to_bytes : Filter → Bytes
unfolding put_uint32
to_bytes f = put_uint32 f.m ++ (put_uint32 f.k ++ f.bitset)

unfoldable pub from_bytes : Bytes → Option Filter
from_bytes (a ∷ b ∷ c ∷ d ∷ e ∷ f ∷ g ∷ h ∷ rest) = some (record {
  bitset = rest;
  k = e * 2 ^ 24 + f * 2 ^ 16 + g * 2 ^ 8 + h;
  m = a * 2 ^ 24 + b * 2 ^ 16 + c * 2 ^ 8 + d;
})
from_bytes _ = none

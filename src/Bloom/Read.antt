-- ===== src/Bloom/Read.antt =====
-- `Check` on a well-sized filter always has an answer.
use Prim.Native.Nat.{bit_and}
use broadauth.Base.{
  ◌%◌, ◌^◌, ◌==◌, nat_eq, ℕ, zero, suc, ◌+◌, ◌*◌, ◌/◌, ◌<◌, ◌≤◌, ◌≡◌, refl, Bytes, length,
  get_elem?_total, Bool, true, false, ok, if◌then◌else◌, arith,
}
use broadauth.Bloom.{Filter, test_bit, check_loop, check, hash_pair}
use broadauth.Bloom.Filled.{IsFilter, bit_index_total}

test_bit_total :
    (bits : Bytes) (idx : ℕ) → idx / 8 < length bits → (b : Bool) × (test_bit bits idx ≡ ok b)
unfolding test_bit
test_bit_total bits idx lt =
    let (x, e) = get_elem?_total bits (idx / 8) lt in
    (if bit_and x (2 ^ (idx % 8)) == 0 then false else true, rw e refl)

check_loop_total :
    (m : ℕ) (hs : ℕ × ℕ) (left i : ℕ) (bits : Bytes)
    → 0 < m
    → m ≤ 8 * length bits
    → (b : Bool) × (check_loop m hs left i bits ≡ ok b)
unfolding check_loop
check_loop_total m hs zero i bits pos le = (true, refl)
check_loop_total m hs (suc left) i bits pos le =
    let (idx, at, lt) = bit_index_total m hs i pos in
    let (hit, read) = test_bit_total bits idx (omega arith) in
    let (b, rest) = check_loop_total m hs left (i + 1) bits pos le in
    (if hit then b else false, rw (at, read) (ground (arith, rest)))

-- A well-sized filter answers for every item, without a panic.
pub check_total : (f : Filter) (item : Bytes) → IsFilter f → (b : Bool) × (check f item ≡ ok b)
unfolding check
check_total f item w = check_loop_total f.m (hash_pair item) f.k 0 f.bitset w.sized w.within

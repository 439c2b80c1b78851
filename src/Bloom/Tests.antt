-- ===== src/Bloom/Tests.antt =====
-- Small runs of the filter, and each theorem of the filter at a concrete input.
use broadauth.Base.{◌≡◌, refl, Bytes, List, [], ◌∷◌, replicate, ok, false, All, arith}
use broadauth.Bloom.{Filter, check, bit_index, test_bit, hash_pair}
use broadauth.Bloom.Fnv.{write}
use broadauth.Bloom.Filled.{IsFilter, Grows, Passes, add_all, add_all_total}

-- A filter of 24 bits with three hashes.
abbrev small : Filter
small = record { bitset = replicate 3 0; k = 3; m = 24 }

small-IsFilter : IsFilter small
small-IsFilter = record {
  sized = omega arith;
  within = omega arith;
  bytes = (omega arith, (omega arith, (omega arith, tt)));
}

abbrev items : List Bytes
items = (1 ∷ 2 ∷ []) ∷ (3 ∷ []) ∷ []

-- What was not added is found absent.
check_test : check small (1 ∷ []) ≡ ok false
unfolding check write bit_index test_bit hash_pair
check_test = refl

add_all_total_example :
    (g : Filter) × (add_all small items ≡ ok g) × Grows small g × All (λ item. Passes item g) items
add_all_total_example = add_all_total small items small-IsFilter

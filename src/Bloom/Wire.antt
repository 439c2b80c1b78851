-- ===== src/Bloom/Wire.antt =====
-- The bytes of a filter: `Bytes` and `FromBytes` undo one another.
use broadauth.Base.{◌%◌, ◌^◌, ◌<◌, ◌≡◌, ◌↔◌, refl, Bytes, length, some, none, ◌∷◌, arith}
use broadauth.Bloom.{Filter, to_bytes, from_bytes}
use broadauth.Bloom.Bits.{AreBytes}

-- The bytes of any filter read back as that filter, its two numbers cut to 32 bits.
pub from_bytes-to_bytes :
    (f : Filter) → from_bytes (to_bytes f) ≡ some (record f { m = f.m % 2 ^ 32; k = f.k % 2 ^ 32 })
unfolding from_bytes to_bytes
from_bytes-to_bytes f = ground arith

-- If `FromBytes` takes some bytes for a filter, they are the bytes of that filter.
pub to_bytes-from_bytes :
    (b : Bytes) (f : Filter) → AreBytes b → from_bytes b ≡ some f → to_bytes f ≡ b
unfolding from_bytes to_bytes
to_bytes-from_bytes (x0 ∷ x1 ∷ x2 ∷ x3 ∷ x4 ∷ x5 ∷ x6 ∷ x7 ∷ rest) f h e = ground arith
to_bytes-from_bytes _ f h e = cc

-- `FromBytes` gives nil exactly on fewer than eight bytes.
pub from_bytes-none_iff : (b : Bytes) → (from_bytes b ≡ none) ↔ (length b < 8)
unfolding from_bytes
from_bytes-none_iff (x0 ∷ x1 ∷ x2 ∷ x3 ∷ x4 ∷ x5 ∷ x6 ∷ x7 ∷ rest) = ground arith
from_bytes-none_iff _ = ((λ e. omega arith), λ e. refl)

-- ===== src/Bloom/Fnv.antt =====
-- `hash/fnv`'s `New64a`: FNV-1a on 64 bits. The state is the hash.
use Prim.Native.Nat.{bit_xor}
use broadauth.Base.{ℕ, ◌*◌, ◌%◌, ◌^◌, Bytes, [], ◌∷◌}

abbrev pub offset_basis : ℕ
offset_basis = 14695981039346656037

abbrev pub prime64 : ℕ
prime64 = 1099511628211

unfoldable pub write : ℕ → Bytes → ℕ
write h [] = h
write h (b ∷ bs) = write (bit_xor h b * prime64 % 2 ^ 64) bs

unfoldable pub sum64 : ℕ → ℕ
sum64 h = h

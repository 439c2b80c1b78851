-- ===== src/Hashchain/Build.antt =====
-- `NewLinear` fills its buffer with the chain of the specification.
use broadauth.Base.{
  ℕ, zero, suc, ◌+◌, ◌-◌, ◌*◌, ◌≡◌, refl, sym, ap, ◌∙◌, [], ◌++◌, append-nil, append_assoc, arith,
  Bytes, length, length-append, length-take, length-drop, length-replicate, replicate, take, drop,
  take-append, drop-append, drop-append_ge, take-append-drop, overwrite_all, copy_range,
  slice_middle, ok, panic, pos, negsuc, ◌∷◌,
}
use broadauth.Hashchain.{Hasher, fill, new_linear}
use broadauth.Hashchain.Spec.{hashes, linear_at}

-- `copy(dst[lo:hi], src)` over a middle part as long as `src`.
pub copy_range_middle :
    (pre old post src : Bytes) (lo hi : ℕ)
    → length pre ≡ lo
    → lo + length old ≡ hi
    → length src ≡ length old
    → copy_range (pre ++ (old ++ post)) lo hi src ≡ pre ++ (src ++ post)
copy_range_middle pre old post src lo hi e f g = rw (
  sym f,
  take-append lo pre (old ++ post) e,
  drop-append lo pre (old ++ post) e,
  drop-append_ge lo (length old) pre (old ++ post) e,
  drop-append (length old) old post refl,
  take-append (lo + length old - lo) old post (omega arith),
  overwrite_all src old g,
)

module _ (h : Hasher) where
  open h use {size, sum}

  fill_lem :
      (i : ℕ) (pre x post : Bytes)
      → length pre ≡ i * size
      → length x ≡ size
      → fill h i (pre ++ (x ++ post)) ≡ ok (hashes h i x ++ post)
  unfolding fill hashes
  fill_lem zero [] x post e f = refl
  fill_lem zero (a ∷ pre) x post e f = absurd (omega arith)
  fill_lem (suc i) pre x post e f =
      let low = take (i * size) pre in
      let old = drop (i * size) pre in
      let cut : pre ≡ low ++ old = sym (take-append-drop (i * size) pre) in
      let len_low : length low ≡ i * size = omega (arith, length-take (i * size) pre) in
      let len_old : length old ≡ size = omega (arith, length-drop (i * size) pre) in
      let above =
        slice_middle pre x post (suc i * size) (suc i * size + size) e (omega arith)
          (omega (arith, length-append pre (x ++ post), length-append x post)) in
      let moved =
        copy_range_middle low old (x ++ post) (sum x) (i * size) (suc i * size) len_low
          (omega arith) (h.length-sum x ∙ sym len_old) in
      let split : pre ++ (x ++ post) ≡ low ++ (old ++ (x ++ post)) =
        ap (λ (t : Bytes). t ++ (x ++ post)) cut ∙ append_assoc low old (x ++ post) in
      rw above (
        rw split (
          rw moved (
            fill_lem i low (sum x) (x ++ post) len_low (h.length-sum x)
            ∙ ap ok (sym (append_assoc (hashes h i (sum x)) x post)))))

  pub new_linear-pos :
      (seed : Bytes) (n : ℕ) → new_linear h seed (pos n) ≡ ok (linear_at h n (sum seed) 0)
  unfolding new_linear
  new_linear-pos seed n =
      let last = sum seed in
      let zeros : Bytes = replicate ((n + 1) * length last) 0 in
      let k = n * length last in
      let len : length zeros ≡ (n + 1) * length last = length-replicate ((n + 1) * length last) 0 in
      let low = take k zeros in
      let old = drop k zeros in
      let len_low : length low ≡ k = omega (arith, length-take k zeros) in
      let len_old : length old ≡ length last = omega (arith, length-drop k zeros) in
      let cut : zeros ≡ low ++ (old ++ []) =
        sym (ap (◌++◌ low) (append-nil old) ∙ take-append-drop k zeros) in
      let moved : copy_range zeros k (length zeros) last ≡ low ++ (last ++ []) =
        ap (λ (t : Bytes). copy_range t k (length zeros) last) cut
        ∙ copy_range_middle low old [] last k (length zeros) len_low (omega arith) (sym len_old) in
      rw moved (
        rw
          (fill_lem n low last [] (omega (arith, ap (λ (t : ℕ). n * t) (h.length-sum seed)))
            (h.length-sum seed))
          (rw (append-nil (hashes h n last))))

  pub new_linear-hashes :
      (seed : Bytes)
      → ((n : ℕ) → new_linear h seed (pos n) ≡ ok (linear_at h n (sum seed) 0))
        × ((n : ℕ) → new_linear h seed (negsuc n) ≡ panic)
  new_linear-hashes seed = (new_linear-pos seed, λ n. (unfold new_linear in refl))

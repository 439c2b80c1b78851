-- ===== src/Bloom/Filled.antt =====
-- A filter has no false negatives: whatever was added passes `Check`, whatever is added later.
use native.Mathlib.Nat.{mod-lt}
use broadauth.Base.{
  ℕ, zero, suc, ◌+◌, ◌*◌, ◌%◌, ◌^◌, ◌<◌, ◌≤◌, ◌≡◌, inl, inr, refl, ◌∙◌, Bytes, List, length,
  length-replicate, replicate, All, Result, ok, panic, ◌>>=◌, Bool, true, false, nat_eq, nat_eqb,
  if◌then◌else◌, [], ◌∷◌, arith, Bool-cases, nat_eqb_iff,
}
use broadauth.Bloom.{
  Filter, Float64, new_filter, bitset_len, hash_pair, bit_index, add_loop, add, check_loop, check,
  test_bit,
}
use broadauth.Bloom.Bits.{AreBytes, IsOn, Sets, set_bit-Sets}

-- A filter whose bit numbers stay within its bit set.
pub record IsFilter (f : Filter) : Type 0 where
  pub sized : 0 < f.m
  pub within : f.m ≤ 8 * length f.bitset
  pub bytes : AreBytes f.bitset

pub bit_index_total :
    (m : ℕ) (hs : ℕ × ℕ) (i : ℕ) → 0 < m → (idx : ℕ) × (bit_index m hs i ≡ ok idx) × (idx < m)
unfolding bit_index
bit_index_total m (hash1, hash2) i p = (
  (hash1 + i * hash2 % 2 ^ 64) % 2 ^ 64 % m,
  elim (Bool-cases (nat_eqb m 0)) [
    | inl e ↦ absurd (omega (arith, (nat_eqb_iff m 0).0 e))
    | inr e ↦ rw e
  ],
  mod-lt ((hash1 + i * hash2 % 2 ^ 64) % 2 ^ 64) p,
)

-- What a run of `Add`'s loop leaves.
pub record Adds (m : ℕ) (hs : ℕ × ℕ) (left i : ℕ) (bits bits' : Bytes) : Type 0 where
  pub same_length : length bits' ≡ length bits
  pub bytes : AreBytes bits'
  pub keeps : (j : ℕ) → IsOn bits j → IsOn bits' j
  pub passes :
      (b : Bytes) → ((j : ℕ) → IsOn bits' j → IsOn b j) → check_loop m hs left i b ≡ ok true

module _ (m : ℕ) (hs : ℕ × ℕ) (pos : 0 < m) where
  Adds-round :
      (left i idx : ℕ) (bits mid out : Bytes)
      → bit_index m hs i ≡ ok idx
      → Sets bits idx mid
      → Adds m hs left (i + 1) mid out
      → Adds m hs (suc left) i bits out
  unfolding check_loop
  Adds-round left i idx bits mid out e s a = record {
    same_length = a.same_length ∙ s.same_length;
    bytes = a.bytes;
    keeps = λ j on. a.keeps j (s.keeps j on);
    passes = λ b more. rw (e, more idx (a.keeps idx s.sets), a.passes b more);
  }

  pub add_loop-Adds :
      (left i : ℕ) (bits : Bytes)
      → m ≤ 8 * length bits
      → AreBytes bits
      → (out : Bytes) × (add_loop m hs left i bits ≡ ok out) × Adds m hs left i bits out
  unfolding add_loop
  add_loop-Adds zero i bits le h = (
    bits,
    refl,
    record {
      same_length = refl;
      bytes = h;
      keeps = λ j on. on;
      passes = λ b more. unfold check_loop in refl;
    },
  )
  add_loop-Adds (suc left) i bits le h =
      let (idx, e, lt) = bit_index_total m hs i pos in
      let (mid, set, s) = set_bit-Sets bits idx h (omega arith) in
      let (out, run, a) = add_loop-Adds left (i + 1) mid (omega (arith, s.same_length)) s.bytes in
      (out, rw (e, set, run), Adds-round left i idx bits mid out e s a)

-- What `Add` leaves of a filter.
pub record Grows (f g : Filter) : Type 0 where
  pub same_m : g.m ≡ f.m
  pub same_k : g.k ≡ f.k
  pub well : IsFilter g
  pub keeps : (j : ℕ) → IsOn f.bitset j → IsOn g.bitset j

-- Whatever passes a filter passes one that has grown from it.
abbrev pub Passes : Bytes → Filter → Type 0
Passes item f = check f item ≡ ok true

-- A round that passes found its bit set.
passed_round :
    (r k : Result Bool)
    → (r >>= λ hit. if hit then k else ok false) ≡ ok true
    → (r ≡ ok true) × (k ≡ ok true)
passed_round (ok true) k e = (refl, e)
passed_round (ok false) k e = cc
passed_round (Result.err x) k e = cc
passed_round panic k e = cc
passed_round Result.running k e = cc

check_loop-keeps :
    (m : ℕ) (hs : ℕ × ℕ) (left i : ℕ) (b c : Bytes)
    → 0 < m
    → ((j : ℕ) → IsOn b j → IsOn c j)
    → check_loop m hs left i b ≡ ok true
    → check_loop m hs left i c ≡ ok true
unfolding check_loop
check_loop-keeps m hs zero i b c pos more e = refl
check_loop-keeps m hs (suc left) i b c pos more e =
    let (idx, at, lt) = bit_index_total m hs i pos in
    let (on, rest) = passed_round (test_bit b idx) (check_loop m hs left (i + 1) b) (rw at at e) in
    rw (at, more idx on) (check_loop-keeps m hs left (i + 1) b c pos more rest)

pub Grows-Passes :
    (f g : Filter) (item : Bytes) → IsFilter f → Grows f g → Passes item f → Passes item g
unfolding check
Grows-Passes f g item w r p =
    rw (r.same_m, r.same_k)
      (check_loop-keeps f.m (hash_pair item) f.k 0 f.bitset g.bitset w.sized r.keeps p)

pub add-Grows :
    (f : Filter) (item : Bytes)
    → IsFilter f
    → (g : Filter) × (add f item ≡ ok g) × Grows f g × Passes item g
unfolding add check
add-Grows f item w =
    let (out, run, a) =
      add_loop-Adds f.m (hash_pair item) w.sized f.k 0 f.bitset w.within w.bytes in
    (
      record f { bitset = out },
      rw run,
      record {
        same_m = refl;
        same_k = refl;
        well = record { sized = w.sized; within = omega (arith, a.same_length); bytes = a.bytes };
        keeps = a.keeps;
      },
      a.passes out (λ j on. on),
    )

-- The loop of `flushBatch` over the buffered messages.
unfoldable pub add_all : Filter → List Bytes → Result Filter
add_all f [] = ok f
add_all f (item ∷ items) = add f item >>= λ g. add_all g items

-- Adding any messages to a well-sized filter succeeds and leaves it well-sized, and every one of
-- them then passes.
pub add_all_total :
    (f : Filter) (items : List Bytes)
    → IsFilter f
    → (g : Filter) × (add_all f items ≡ ok g) × Grows f g × All (λ item. Passes item g) items
unfolding add_all
add_all_total f [] w =
    (f, refl, record { same_m = refl; same_k = refl; well = w; keeps = λ j on. on }, tt)
add_all_total f (item ∷ items) w =
    let (g, run, r, p) = add-Grows f item w in
    let (out, rest, s, ps) = add_all_total g items r.well in
    (
      out,
      rw (run, rest),
      record {
        same_m = s.same_m ∙ r.same_m;
        same_k = s.same_k ∙ r.same_k;
        well = s.well;
        keeps = λ j on. s.keeps j (r.keeps j on);
      },
      (Grows-Passes g out item r.well s p, ps),
    )

replicate-AreBytes : (n : ℕ) → AreBytes (replicate n 0)
replicate-AreBytes zero = tt
replicate-AreBytes (suc n) = (omega arith, replicate-AreBytes n)

-- `New` makes a well-sized filter whenever its computed size is positive and does not overflow.
pub new_filter-IsFilter :
    (fl : Float64) (n : ℕ) (p : fl.F)
    → 0 < (new_filter fl n p).m
    → (new_filter fl n p).m + 7 < 2 ^ 64
    → IsFilter (new_filter fl n p)
unfolding new_filter
new_filter-IsFilter fl n p pos fits = record {
  sized = pos;
  within = omega (arith, length-replicate {A = ℕ} (bitset_len (new_filter fl n p).m) 0);
  bytes = replicate-AreBytes (bitset_len (new_filter fl n p).m);
}

-- ===== src/Bloom/Bits.antt =====
-- Setting a bit of a byte string sets that bit and clears none. The facts about one byte are
-- checked over all bytes and bit numbers.
use Prim.Native.Nat.{bit_and, bit_or}
use broadauth.Base.{
  ℕ, zero, suc, ◌/◌, ◌%◌, ◌^◌, ◌<◌, ◌≡◌, inl, inr, refl, sym, ap, ◌∙◌, Bytes, length, length-set,
  set, get_elem?, get_elem?-set_self, get_elem?-set_ne, get_elem?_total, ok, panic, some, none,
  Bool, true, false, ◌&&◌, ltb, nat_eq, nat_eqb, if◌then◌else◌, [], ◌∷◌, arith, Bool-cases,
  nat_eqb_iff, Option-cases, subst,
}
use broadauth.Bloom.{set_bit, test_bit}

-- A test that every number under a bound passes.
passed : (ℕ → Bool) → ℕ → Bool
passed test zero = true
passed test (suc bound) = if test bound then passed test bound else false

passed-at : (test : ℕ → Bool) (bound j : ℕ) → j < bound → passed test bound ≡ true → test j ≡ true
unfolding passed
passed-at test zero j lt e = absurd (omega arith)
passed-at test (suc bound) j lt e = ground (arith, passed-at test bound j)

-- Bit `j` of the byte `x`, as `Check` reads it.
bit_of : ℕ → ℕ → Bool
bit_of x j = if nat_eqb (bit_and x (2 ^ j)) 0 then false else true

byte_law : ℕ → ℕ → ℕ → Bool
byte_law x j i =
    (if bit_of x j then bit_of (bit_or x (2 ^ i)) j else true)
    && (bit_of (bit_or x (2 ^ i)) i && ltb (bit_or x (2 ^ i)) 256)

-- All bytes, with two bit numbers each.
byte_table : passed (λ x. passed (λ j. passed (byte_law x j) 8) 8) 256 ≡ true
unfolding passed byte_law bit_of
byte_table = refl

byte_law_holds : (x j i : ℕ) → x < 256 → j < 8 → i < 8 → byte_law x j i ≡ true
byte_law_holds x j i p q r =
    let row = passed-at (λ x. passed (λ j. passed (byte_law x j) 8) 8) 256 x p byte_table in
    passed-at (byte_law x j) 8 i r (passed-at (λ j. passed (byte_law x j) 8) 8 j q row)

bit_set :
    (x i : ℕ) → x < 256 → i < 8 → (bit_of (bit_or x (2 ^ i)) i ≡ true) × (bit_or x (2 ^ i) < 256)
unfolding byte_law
bit_set x i p r = ground (arith, byte_law_holds x i i p r r)

bit_kept :
    (x j i : ℕ) → x < 256 → j < 8 → i < 8 → bit_of x j ≡ true → bit_of (bit_or x (2 ^ i)) j ≡ true
unfolding byte_law
bit_kept x j i p q r h = ground (arith, byte_law_holds x j i p q r)

-- Every element is a byte.
abbrev pub AreBytes : Bytes → Type 0
AreBytes [] = Unit {0}
AreBytes (x ∷ xs) = (x < 256) × AreBytes xs

get_elem?-AreBytes : (xs : Bytes) (i x : ℕ) → AreBytes xs → get_elem? xs i ≡ some x → x < 256
get_elem?-AreBytes [] i x h e = cc
get_elem?-AreBytes (y ∷ xs) zero x h e = ground arith
get_elem?-AreBytes (y ∷ xs) (suc i) x h e = get_elem?-AreBytes xs i x h.1 e

set-AreBytes : (xs : Bytes) (i x : ℕ) → x < 256 → AreBytes xs → AreBytes (set xs i x)
set-AreBytes [] i x p h = tt
set-AreBytes (y ∷ xs) zero x p h = (p, h.1)
set-AreBytes (y ∷ xs) (suc i) x p h = (h.0, set-AreBytes xs i x p h.1)

-- The bit `idx` of the string is set.
abbrev pub IsOn : Bytes → ℕ → Type 0
IsOn bits idx = test_bit bits idx ≡ ok true

-- What `set_bit` leaves: the same length, bytes, that bit on, and every bit that was on.
pub record Sets (bits : Bytes) (idx : ℕ) (bits' : Bytes) : Type 0 where
  pub same_length : length bits' ≡ length bits
  pub bytes : AreBytes bits'
  pub sets : IsOn bits' idx
  pub keeps : (j : ℕ) → IsOn bits j → IsOn bits' j

test_bit_at :
    (bits : Bytes) (j x : ℕ)
    → get_elem? bits (j / 8) ≡ some x
    → test_bit bits j ≡ ok (bit_of x (j % 8))
unfolding test_bit bit_of
test_bit_at bits j x e = rw e

IsOn-byte :
    (bits : Bytes) (j : ℕ)
    → IsOn bits j
    → (x : ℕ) × (get_elem? bits (j / 8) ≡ some x) × (bit_of x (j % 8) ≡ true)
IsOn-byte bits j on = elim (Option-cases (get_elem? bits (j / 8))) [
  | inl e ↦ absurd (unread e)
  | inr (x, e) ↦ (x, e, cc (sym (test_bit_at bits j x e) ∙ on))
]
  where
    unread : get_elem? bits (j / 8) ≡ none → ⊥
    unread e = let stuck : test_bit bits j ≡ panic = unfold test_bit in rw e in cc (sym stuck ∙ on)

module _ (bits : Bytes) (idx x : ℕ) (h : AreBytes bits) (e : get_elem? bits (idx / 8) ≡ some x)
    (lt : idx / 8 < length bits) where
  after : Bytes
  after = set bits (idx / 8) (bit_or x (2 ^ (idx % 8)))

  byte_small : x < 256
  byte_small = get_elem?-AreBytes bits (idx / 8) x h e

  hit : get_elem? after (idx / 8) ≡ some (bit_or x (2 ^ (idx % 8)))
  unfolding after
  hit = get_elem?-set_self bits (idx / 8) _ lt

  after-keeps : (j : ℕ) → IsOn bits j → IsOn after j
  after-keeps j on =
      let (y, read, bit) = IsOn-byte bits j on in
      elim (Bool-cases (nat_eqb (idx / 8) (j / 8))) [
        | inl same ↦ same_byte y read bit ((nat_eqb_iff (idx / 8) (j / 8)).0 same)
        | inr other ↦
            test_bit_at after j y (
              unfold after in
              get_elem?-set_ne bits (idx / 8) (j / 8) _
                (λ q. cc (sym other ∙ (nat_eqb_iff (idx / 8) (j / 8)).1 q))
              ∙ read)
            ∙ ap ok bit
      ]
    where
      same_byte :
          (y : ℕ)
          → get_elem? bits (j / 8) ≡ some y
          → bit_of y (j % 8) ≡ true
          → idx / 8 ≡ j / 8
          → IsOn after j
      same_byte y read bit q =
          let x-y : y ≡ x = cc (read, e, ap (get_elem? bits) q) in
          test_bit_at after j (bit_or x (2 ^ (idx % 8))) (ap (get_elem? after) (sym q) ∙ hit)
          ∙ ap ok (
              bit_kept x (j % 8) (idx % 8) byte_small (omega arith) (omega arith)
                (subst (λ t. bit_of t (j % 8) ≡ true) x-y bit))

  after-Sets : Sets bits idx after
  after-Sets =
      let (on, byte) = bit_set x (idx % 8) byte_small (omega arith) in
      record {
        same_length = unfold after in length-set bits (idx / 8) _;
        bytes = unfold after in set-AreBytes bits (idx / 8) _ byte h;
        sets = test_bit_at after idx _ hit ∙ ap ok on;
        keeps = after-keeps;
      }

pub set_bit-Sets :
    (bits : Bytes) (idx : ℕ)
    → AreBytes bits
    → idx / 8 < length bits
    → (bits' : Bytes) × (set_bit bits idx ≡ ok bits') × Sets bits idx bits'
set_bit-Sets bits idx h lt = let (x, e) = get_elem?_total bits (idx / 8) lt in done x e
  where
    done :
        (x : ℕ)
        → get_elem? bits (idx / 8) ≡ some x
        → (bits' : Bytes) × (set_bit bits idx ≡ ok bits') × Sets bits idx bits'
    done x e = (after bits idx x h e lt, unfold set_bit after in rw e, after-Sets bits idx x h e lt)

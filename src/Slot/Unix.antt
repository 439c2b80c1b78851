-- ===== src/Slot/Unix.antt =====
-- What the Unix source's ticker emits.
use native.Mathlib.Nat.{add-div_right, le-div_iff_mul-le, div-mul-le_self}
use broadauth.Base.{
  ℕ, ◌+◌, ◌*◌, ◌/◌, ◌^◌, ◌≤◌, ◌<◌, ◌≡◌, refl, List, [], ◌∷◌, map, ok, panic, arith,
}
use broadauth.Slot.{unix_slot, unix_period, unix_ticks, unix_ticker}

-- Each item and the one after it are related, from `first` on.
abbrev pub Linked : (ℕ → ℕ → Type 0) → ℕ → List ℕ → Type 0
Linked R first [] = Unit {0}
Linked R first (next ∷ rest) = R first next × Linked R next rest

unix_ticks_lem :
    (d : ℕ) (nows : List ℕ) → 0 < d → unix_ticks d nows ≡ ok (map (λ now. now / d) nows)
unfolding unix_ticks unix_slot
unix_ticks_lem d [] pos = refl
unix_ticks_lem d (now ∷ nows) pos = ground (arith, unix_ticks_lem d nows pos)

period_pos : (d : ℕ) → 0 < d → d * 1000000 < 2 ^ 63 → unix_period d ≡ ok (d * 1000000)
unfolding unix_period
period_pos d pos fits = ground arith

div_mono : (a b d : ℕ) → 0 < d → a ≤ b → a / d ≤ b / d
div_mono a b d pos le =
    (le-div_iff_mul-le {k = d} {x = a / d} {y = b} pos).1 (omega (arith, div-mul-le_self a d))

Linked-map :
    (R Q : ℕ → ℕ → Type 0) (f : ℕ → ℕ) (first : ℕ) (rest : List ℕ)
    → ((a b : ℕ) → R a b → Q (f a) (f b))
    → Linked R first rest
    → Linked Q (f first) (map f rest)
Linked-map R Q f first [] h l = tt
Linked-map R Q f first (next ∷ rest) h (r, l) = (h first next r, Linked-map R Q f next rest h l)

-- With a duration of at least a millisecond that does not overflow in nanoseconds, the ticker
-- emits the slot of each reading of the clock. Readings that are a duration or more apart give
-- rising slots, none of them twice, and readings that go up by at most a duration skip no slot.
pub unix_ticker-Slots :
    (d first : ℕ) (rest : List ℕ)
    → 0 < d
    → d * 1000000 < 2 ^ 63
    → (unix_ticker d (first ∷ rest) ≡ ok (first / d ∷ map (λ now. now / d) rest))
      × (Linked (λ a b. a + d ≤ b) first rest
          → Linked (λ s t. s < t) (first / d) (map (λ now. now / d) rest))
      × (Linked (λ a b. (a ≤ b) × (b ≤ a + d)) first rest
          → Linked (λ s t. (s ≤ t) × (t ≤ s + 1)) (first / d) (map (λ now. now / d) rest))
unfolding unix_ticker
unix_ticker-Slots d first rest pos fits = (
  rw (period_pos d pos fits) (unix_ticks_lem d (first ∷ rest) pos),
  Linked-map (λ a b. a + d ≤ b) (λ s t. s < t) (λ now. now / d) first rest apart,
  Linked-map (λ a b. (a ≤ b) × (b ≤ a + d)) (λ s t. (s ≤ t) × (t ≤ s + 1)) (λ now. now / d) first
      rest (λ a b (le, near). (div_mono a b d pos le, close a b near)),
)
  where
    next : (a : ℕ) → (a + d) / d ≡ a / d + 1
    next a = add-div_right a pos

    apart : (a b : ℕ) → a + d ≤ b → a / d < b / d
    apart a b le = omega (arith, next a, div_mono (a + d) b d pos le)

    close : (a b : ℕ) → b ≤ a + d → b / d ≤ a / d + 1
    close a b le = omega (arith, next a, div_mono b (a + d) d pos le)

-- A duration of 0 panics before the first tick.
pub unix_ticker_zero : (nows : List ℕ) → unix_ticker 0 nows ≡ panic
unfolding unix_ticker unix_period
unix_ticker_zero nows = refl

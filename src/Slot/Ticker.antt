-- ===== src/Slot/Ticker.antt =====
-- What the beacon chain's ticker emits.
use broadauth.Base.{ℕ, ◌≢◌, Option, some, none, List, [], ◌∷◌}

-- No slot is emitted twice in a row, from `last` on.
abbrev pub Changes : ℕ → List ℕ → Type 0
Changes last [] = Unit {0}
Changes last (slot ∷ slots) = (slot ≢ last) × Changes slot slots

abbrev pub last_of : ℕ → List ℕ → ℕ
last_of last [] = last
last_of last (slot ∷ slots) = last_of slot slots

-- The last slot that a header gave.
abbrev pub last_seen : ℕ → List (Option ℕ) → ℕ
last_seen last [] = last
last_seen last (none ∷ headers) = last_seen last headers
last_seen last (some slot ∷ headers) = last_seen slot headers

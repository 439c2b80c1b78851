-- ===== src/Rx/Once.antt =====
-- Each received HMAC verifies at most one text, where the datagrams are handled one after the
-- other; `Race` has two handlers at once.
use broadauth.Base.{ℕ, suc, ◌+◌, ◌≤◌, Bytes, List, [], ◌∷◌, length, int_eq, bytes_eq}
use broadauth.Message.{Message}
use broadauth.Rx.{Rx, RxOutside, Line, verified, hmac_seen, handle}

-- The texts verified and the HMACs received, by the lines printed.
unfoldable pub verified_count : List Line → ℕ
verified_count [] = 0
verified_count (verified m ∷ ls) = suc (verified_count ls)
verified_count (_ ∷ ls) = verified_count ls

unfoldable pub seen_count : List Line → ℕ
seen_count [] = 0
seen_count (hmac_seen mac ∷ ls) = suc (seen_count ls)
seen_count (_ ∷ ls) = seen_count ls

-- The handler over a list of datagrams. A panic ends the program; what would follow it is here all
-- the same.
unfoldable pub handle_all : RxOutside → List Bytes → Rx → Rx
handle_all out [] r = r
handle_all out (d ∷ ds) r = handle_all out ds (handle out d r).1

-- With `n` texts verified that have no line yet.
abbrev Owes : ℕ → Rx → Type 0
Owes n r = n + verified_count r.lines + length r.received_hmacs ≤ seen_count r.lines

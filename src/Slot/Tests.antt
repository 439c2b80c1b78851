-- ===== src/Slot/Tests.antt =====
-- A run of the ticker, with a header that cannot be fetched.
use broadauth.Base.{ℕ, ◌≡◌, refl, Option, some, none, List, [], ◌∷◌}
use broadauth.Slot.{beacon_ticker}

abbrev headers : List (Option ℕ)
headers = some 4 ∷ none ∷ some 4 ∷ some 6 ∷ []

beacon_ticker_test : beacon_ticker headers 0 ≡ 4 ∷ 6 ∷ []
unfolding beacon_ticker
beacon_ticker_test = refl

-- ===== src/Rx/Race.antt =====
-- `VerifyKeyMessage` in two handlers at once, for two messages with the same HMAC, such as a
-- datagram and its replay: `Load` and `Delete` on the `sync.Map` are steps of their own, and the
-- steps of the two may come in any order.
use broadauth.Base.{
  ◌≡◌, ◌↔◌, ◌⊎◌, refl, subst, Bytes, List, [], ◌∷◌, Option, some, none, Bool, true, false, Map,
  load, delete, load-delete, bytes_eq, eqb_refl, arith,
}

-- How far a call is: before `Load`, with what it found, or returned.
pub data Verifying : Type 0 where
  called : Verifying
  loaded : Bool → Verifying
  returned : Bool → Verifying

abbrev found : Option Bool → Bool
found none = false
found (some b) = true

-- The next step of a call whose message has the HMAC `mac`, which it deletes only if it was there.
unfoldable pub verify_step : Bytes → Verifying → Map Bytes Bool → Verifying × Map Bytes Bool
verify_step mac called kept = (loaded (found (load mac kept)), kept)
verify_step mac (loaded true) kept = (returned true, delete mac kept)
verify_step mac (loaded false) kept = (returned false, kept)
verify_step mac (returned good) kept = (returned good, kept)

-- Two calls, with their shared map.
pub record Verifications : Type 0 where
  pub first : Verifying
  pub second : Verifying
  pub kept : Map Bytes Bool

-- A schedule says of each step whether the first call makes it.
unfoldable pub run_verifications : Bytes → List Bool → Verifications → Verifications
unfolding verify_step
run_verifications mac [] v = v
run_verifications mac (true ∷ turns) v =
    let out = verify_step mac v.first v.kept in
    run_verifications mac turns (record v { first = out.0; kept = out.1 })
run_verifications mac (false ∷ turns) v =
    let out = verify_step mac v.second v.kept in
    run_verifications mac turns (record v { second = out.0; kept = out.1 })

module _ (mac : Bytes) (b : Bool) where
  -- What the verdicts and the map are at each place of the two calls.
  abbrev Racing : Verifying → Verifying → Map Bytes Bool → Type 0
  Racing called called kept = load mac kept ≡ some b
  Racing called (loaded v) kept = (v ≡ true) × (load mac kept ≡ some b)
  Racing called (returned v) kept = (v ≡ true) × (load mac kept ≡ none)
  Racing (loaded u) called kept = (u ≡ true) × (load mac kept ≡ some b)
  Racing (loaded u) (loaded v) kept = (u ≡ true) × (v ≡ true) × (load mac kept ≡ some b)
  Racing (loaded u) (returned v) kept = (v ≡ true) × (load mac kept ≡ none)
  Racing (returned u) called kept = (u ≡ true) × (load mac kept ≡ none)
  Racing (returned u) (loaded v) kept = (u ≡ true) × (load mac kept ≡ none)
  Racing (returned u) (returned v) kept = ((u ≡ true) ⊎ (v ≡ true)) × (load mac kept ≡ none)

  gone : (kept : Map Bytes Bool) → load mac (delete mac kept) ≡ none
  gone kept = rw (load-delete mac mac kept, eqb_refl mac) refl

  first_step :
      (x y : Verifying) (kept : Map Bytes Bool)
      → Racing x y kept
      → Racing (verify_step mac x kept).0 y (verify_step mac x kept).1
  unfolding verify_step
  first_step called called kept r = ground (arith, gone kept)
  first_step called (loaded true) kept r = ground (arith, gone kept)
  first_step called (loaded false) kept r = ground (arith, gone kept)
  first_step called (returned v) kept r = ground (arith, gone kept)
  first_step (loaded true) called kept r = ground (arith, gone kept)
  first_step (loaded true) (loaded true) kept r = ground (arith, gone kept)
  first_step (loaded true) (loaded false) kept r = ground (arith, gone kept)
  first_step (loaded true) (returned v) kept r = ground (arith, gone kept)
  first_step (loaded false) called kept r = ground (arith, gone kept)
  first_step (loaded false) (loaded true) kept r = ground (arith, gone kept)
  first_step (loaded false) (loaded false) kept r = ground (arith, gone kept)
  first_step (loaded false) (returned v) kept r = ground (arith, gone kept)
  first_step (returned u) called kept r = ground (arith, gone kept)
  first_step (returned u) (loaded true) kept r = ground (arith, gone kept)
  first_step (returned u) (loaded false) kept r = ground (arith, gone kept)
  first_step (returned u) (returned v) kept r = ground (arith, gone kept)

  second_step :
      (x y : Verifying) (kept : Map Bytes Bool)
      → Racing x y kept
      → Racing x (verify_step mac y kept).0 (verify_step mac y kept).1
  unfolding verify_step
  second_step called called kept r = ground (arith, gone kept)
  second_step called (loaded true) kept r = ground (arith, gone kept)
  second_step called (loaded false) kept r = ground (arith, gone kept)
  second_step called (returned v) kept r = ground (arith, gone kept)
  second_step (loaded true) called kept r = ground (arith, gone kept)
  second_step (loaded true) (loaded true) kept r = ground (arith, gone kept)
  second_step (loaded true) (loaded false) kept r = ground (arith, gone kept)
  second_step (loaded true) (returned v) kept r = ground (arith, gone kept)
  second_step (loaded false) called kept r = ground (arith, gone kept)
  second_step (loaded false) (loaded true) kept r = ground (arith, gone kept)
  second_step (loaded false) (loaded false) kept r = ground (arith, gone kept)
  second_step (loaded false) (returned v) kept r = ground (arith, gone kept)
  second_step (returned u) called kept r = ground (arith, gone kept)
  second_step (returned u) (loaded true) kept r = ground (arith, gone kept)
  second_step (returned u) (loaded false) kept r = ground (arith, gone kept)
  second_step (returned u) (returned v) kept r = ground (arith, gone kept)

  run-Racing :
      (turns : List Bool) (v : Verifications)
      → Racing v.first v.second v.kept
      → let end = run_verifications mac turns v in Racing end.first end.second end.kept
  unfolding run_verifications
  run-Racing [] v r = r
  run-Racing (true ∷ turns) v r = run-Racing turns _ (first_step v.first v.second v.kept r)
  run-Racing (false ∷ turns) v r = run-Racing turns _ (second_step v.first v.second v.kept r)

  -- Both calls have returned these verdicts.
  abbrev pub Ends : Verifications → Bool → Bool → Type 0
  Ends v x y = (v.first ≡ returned x) × (v.second ≡ returned y)

  abbrev pub both_called : Map Bytes Bool → Verifications
  both_called kept = record { first = called; second = called; kept = kept }

  reached_both :
      (kept : Map Bytes Bool)
      → load mac kept ≡ some b
      → Ends (run_verifications mac (true ∷ false ∷ true ∷ false ∷ []) (both_called kept)) true true
  unfolding run_verifications verify_step
  reached_both kept known = rw known (refl, refl)

  reached_first :
      (kept : Map Bytes Bool)
      → load mac kept ≡ some b
      → Ends
          (run_verifications mac (true ∷ true ∷ false ∷ false ∷ []) (both_called kept))
          true
          false
  unfolding run_verifications verify_step
  reached_first kept known = rw known (rw (gone kept) (refl, refl))

  reached_second :
      (kept : Map Bytes Bool)
      → load mac kept ≡ some b
      → Ends
          (run_verifications mac (false ∷ false ∷ true ∷ true ∷ []) (both_called kept))
          false
          true
  unfolding run_verifications verify_step
  reached_second kept known = rw known (rw (gone kept) (refl, refl))

  reached :
      (kept : Map Bytes Bool) (x y : Bool)
      → load mac kept ≡ some b
      → (x ≡ true) ⊎ (y ≡ true)
      → (turns : List Bool) × Ends (run_verifications mac turns (both_called kept)) x y
  reached kept true true known good = (_, reached_both kept known)
  reached kept true false known good = (_, reached_first kept known)
  reached kept false true known good = (_, reached_second kept known)
  reached kept false false known good = ground (arith, good)

  -- Two calls of `VerifyKeyMessage` at once, for messages whose HMAC is `mac`, of which one was
  -- received: either of them or both can report a verified message, and not neither.
  pub verify_race-Outcome :
      (kept : Map Bytes Bool) (x y : Bool)
      → load mac kept ≡ some b
      → ((x ≡ true) ⊎ (y ≡ true))
        ↔ ((turns : List Bool) × Ends (run_verifications mac turns (both_called kept)) x y)
  verify_race-Outcome kept x y known = (reached kept x y known, judged)
    where
      judged :
          ((turns : List Bool) × Ends (run_verifications mac turns (both_called kept)) x y)
          → (x ≡ true) ⊎ (y ≡ true)
      judged (turns, (e, f)) =
          (subst {A = Verifying × Verifying}
            (λ p. Racing p.0 p.1 (run_verifications mac turns (both_called kept)).kept)
            (λ i. (e i, f i)) (run-Racing turns (both_called kept) known)).0

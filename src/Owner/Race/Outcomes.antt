-- ===== src/Owner/Race/Outcomes.antt =====
-- What two requests of one RCD at once leave.
use broadauth.Base.{
  ℕ, ◌+◌, ◌^◌, ◌<◌, ◌≡◌, ◌↔◌, ◌⊎◌, inl, inr, refl, subst, List, [], ◌∷◌, Bool, true, false, arith,
}
use broadauth.Owner.Race.{
  Serving, asking, numbered, submitted, incrementing, counted, serving_step, Requests, run_requests,
}

module _ (i : ℕ) (fits : i + 2 < 2 ^ 64) where
  -- The indices of the two calls: twice the same, or one after the other.
  abbrev pub Indices : List ℕ → Type 0
  Indices l = (l ≡ (i + 1) ∷ (i + 1) ∷ []) ⊎ (l ≡ (i + 2) ∷ (i + 1) ∷ [])

  -- The index counted once, with both calls under the next one, or counted twice.
  abbrev pub Outcome : ℕ → List ℕ → Type 0
  Outcome k l = ((k ≡ i + 1) × (l ≡ (i + 1) ∷ (i + 1) ∷ [])) ⊎ ((k ≡ i + 2) × Indices l)

  -- What the index and the calls are at each place of the two handlers.
  abbrev Racing : Serving → Serving → ℕ → List ℕ → Type 0
  Racing asking asking k l = (k ≡ i) × (l ≡ [])
  Racing asking (numbered n) k l = (n ≡ i + 1) × (k ≡ i) × (l ≡ [])
  Racing asking submitted k l = (k ≡ i) × (l ≡ (i + 1) ∷ [])
  Racing asking (incrementing n) k l = (n ≡ i) × (k ≡ i) × (l ≡ (i + 1) ∷ [])
  Racing asking counted k l = (k ≡ i + 1) × (l ≡ (i + 1) ∷ [])
  Racing (numbered m) asking k l = (m ≡ i + 1) × (k ≡ i) × (l ≡ [])
  Racing (numbered m) (numbered n) k l = (m ≡ i + 1) × (n ≡ i + 1) × (k ≡ i) × (l ≡ [])
  Racing (numbered m) submitted k l = (m ≡ i + 1) × (k ≡ i) × (l ≡ (i + 1) ∷ [])
  Racing (numbered m) (incrementing n) k l = (m ≡ i + 1) × (n ≡ i) × (k ≡ i) × (l ≡ (i + 1) ∷ [])
  Racing (numbered m) counted k l = ((m ≡ i + 1) ⊎ (m ≡ i + 2)) × (k ≡ i + 1) × (l ≡ (i + 1) ∷ [])
  Racing submitted asking k l = (k ≡ i) × (l ≡ (i + 1) ∷ [])
  Racing submitted (numbered n) k l = (n ≡ i + 1) × (k ≡ i) × (l ≡ (i + 1) ∷ [])
  Racing submitted submitted k l = (k ≡ i) × (l ≡ (i + 1) ∷ (i + 1) ∷ [])
  Racing submitted (incrementing n) k l = (n ≡ i) × (k ≡ i) × (l ≡ (i + 1) ∷ (i + 1) ∷ [])
  Racing submitted counted k l = (k ≡ i + 1) × Indices l
  Racing (incrementing m) asking k l = (m ≡ i) × (k ≡ i) × (l ≡ (i + 1) ∷ [])
  Racing (incrementing m) (numbered n) k l = (n ≡ i + 1) × (m ≡ i) × (k ≡ i) × (l ≡ (i + 1) ∷ [])
  Racing (incrementing m) submitted k l = (m ≡ i) × (k ≡ i) × (l ≡ (i + 1) ∷ (i + 1) ∷ [])
  Racing (incrementing m) (incrementing n) k l =
      (m ≡ i) × (n ≡ i) × (k ≡ i) × (l ≡ (i + 1) ∷ (i + 1) ∷ [])
  Racing (incrementing m) counted k l =
      (k ≡ i + 1) × (((m ≡ i) × (l ≡ (i + 1) ∷ (i + 1) ∷ [])) ⊎ ((m ≡ i + 1) × Indices l))
  Racing counted asking k l = (k ≡ i + 1) × (l ≡ (i + 1) ∷ [])
  Racing counted (numbered n) k l = ((n ≡ i + 1) ⊎ (n ≡ i + 2)) × (k ≡ i + 1) × (l ≡ (i + 1) ∷ [])
  Racing counted submitted k l = (k ≡ i + 1) × Indices l
  Racing counted (incrementing n) k l =
      (k ≡ i + 1) × (((n ≡ i) × (l ≡ (i + 1) ∷ (i + 1) ∷ [])) ⊎ ((n ≡ i + 1) × Indices l))
  Racing counted counted k l = Outcome k l

  first_step :
      (x y : Serving) (k : ℕ) (l : List ℕ)
      → Racing x y k l
      → Racing (serving_step x k l).0 y (serving_step x k l).1 (serving_step x k l).2
  unfolding serving_step
  first_step asking asking k l r = ground arith
  first_step asking (numbered n) k l r = ground arith
  first_step asking submitted k l r = ground arith
  first_step asking (incrementing n) k l r = ground arith
  first_step asking counted k l r = ground arith
  first_step (numbered m) asking k l r = ground arith
  first_step (numbered m) (numbered n) k l r = ground arith
  first_step (numbered m) submitted k l r = ground arith
  first_step (numbered m) (incrementing n) k l r = ground arith
  first_step (numbered m) counted k l r = ground arith
  first_step submitted asking k l r = ground arith
  first_step submitted (numbered n) k l r = ground arith
  first_step submitted submitted k l r = ground arith
  first_step submitted (incrementing n) k l r = ground arith
  first_step submitted counted k l r = ground arith
  first_step (incrementing m) asking k l r = ground arith
  first_step (incrementing m) (numbered n) k l r = ground arith
  first_step (incrementing m) submitted k l r = ground arith
  first_step (incrementing m) (incrementing n) k l r = ground arith
  first_step (incrementing m) counted k l r = ground arith
  first_step counted asking k l r = ground arith
  first_step counted (numbered n) k l r = ground arith
  first_step counted submitted k l r = ground arith
  first_step counted (incrementing n) k l r = ground arith
  first_step counted counted k l r = ground arith

  second_step :
      (x y : Serving) (k : ℕ) (l : List ℕ)
      → Racing x y k l
      → Racing x (serving_step y k l).0 (serving_step y k l).1 (serving_step y k l).2
  unfolding serving_step
  second_step asking asking k l r = ground arith
  second_step asking (numbered n) k l r = ground arith
  second_step asking submitted k l r = ground arith
  second_step asking (incrementing n) k l r = ground arith
  second_step asking counted k l r = ground arith
  second_step (numbered m) asking k l r = ground arith
  second_step (numbered m) (numbered n) k l r = ground arith
  second_step (numbered m) submitted k l r = ground arith
  second_step (numbered m) (incrementing n) k l r = ground arith
  second_step (numbered m) counted k l r = ground arith
  second_step submitted asking k l r = ground arith
  second_step submitted (numbered n) k l r = ground arith
  second_step submitted submitted k l r = ground arith
  second_step submitted (incrementing n) k l r = ground arith
  second_step submitted counted k l r = ground arith
  second_step (incrementing m) asking k l r = ground arith
  second_step (incrementing m) (numbered n) k l r = ground arith
  second_step (incrementing m) submitted k l r = ground arith
  second_step (incrementing m) (incrementing n) k l r = ground arith
  second_step (incrementing m) counted k l r = ground arith
  second_step counted asking k l r = ground arith
  second_step counted (numbered n) k l r = ground arith
  second_step counted submitted k l r = ground arith
  second_step counted (incrementing n) k l r = ground arith
  second_step counted counted k l r = ground arith

  run-Racing :
      (turns : List Bool) (r : Requests)
      → Racing r.first r.second r.index r.calls
      → let end = run_requests turns r in Racing end.first end.second end.index end.calls
  unfolding run_requests
  run-Racing [] r e = e
  run-Racing (true ∷ turns) r e = run-Racing turns _ (first_step r.first r.second r.index r.calls e)
  run-Racing (false ∷ turns) r e =
      run-Racing turns _ (second_step r.first r.second r.index r.calls e)

  -- Two requests that have just loaded their state.
  abbrev pub both_asking : Requests
  both_asking = record { first = asking; second = asking; index = i; calls = [] }

  -- Both requests are through, the index is `k`, and `StoreKey` was called with the indices `l`.
  abbrev pub Ends : Requests → ℕ → List ℕ → Type 0
  Ends r k l = (r.first ≡ counted) × (r.second ≡ counted) × (r.index ≡ k) × (r.calls ≡ l)

  reached :
      (k : ℕ) (l : List ℕ)
      → Outcome k l
      → (turns : List Bool) × Ends (run_requests turns both_asking) k l
  unfolding run_requests serving_step
  reached k l (inl (p, e)) = (
    true ∷ false ∷ true ∷ false ∷ true ∷ false ∷ true ∷ false ∷ [],
    (refl, refl, ground (arith, p), ground (arith, e)),
  )
  reached k l (inr (p, inl e)) = (
    true ∷ false ∷ true ∷ false ∷ true ∷ true ∷ false ∷ false ∷ [],
    (refl, refl, ground (arith, p), ground (arith, e)),
  )
  reached k l (inr (p, inr e)) = (
    true ∷ true ∷ true ∷ true ∷ false ∷ false ∷ false ∷ false ∷ [],
    (refl, refl, ground (arith, p), ground (arith, e)),
  )

  -- Two requests of a registered RCD whose index is `i`, below 2 ^ 64 - 2, and whose calls are all
  -- answered without an error, can end exactly with: `StoreKey` called under `i + 1` and then
  -- `i + 2`, and the index at `i + 2`; or called twice under `i + 1`, and the index at `i + 2` or
  -- only at `i + 1`.
  pub requests_race-Outcome :
      (k : ℕ) (l : List ℕ)
      → Outcome k l ↔ ((turns : List Bool) × Ends (run_requests turns both_asking) k l)
  requests_race-Outcome k l = (reached k l, judged)
    where
      judged : ((turns : List Bool) × Ends (run_requests turns both_asking) k l) → Outcome k l
      judged (turns, (e, f, g, h)) =
          subst {A = ℕ × List ℕ} (λ p. Outcome p.0 p.1) (λ j. (g j, h j))
            (subst {A = Serving × Serving}
              (λ p.
                Racing p.0 p.1 (run_requests turns both_asking).index
                  (run_requests turns both_asking).calls)
              (λ j. (e j, f j)) (run-Racing turns both_asking (refl, refl)))

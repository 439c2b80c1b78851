-- ===== src/Rcd/Receive/Race/Outcomes.antt =====
-- What two calls of `storeUnverifiedMessage` for one slot leave, in whatever order their steps come.
use broadauth.Base.{
  ℕ, ◌≡◌, ◌↔◌, ◌⊎◌, inl, inr, refl, sym, ap, ◌∙◌, Bytes, List, [], ◌∷◌, ◌++◌, append_assoc, Map,
  store, subst, nat_eq, true, false, Bool,
}
use broadauth.Rcd.Receive.Race.{
  Storing, called, holding, returned, load_or_store, call_step, Race, run_race, kept_at, stored_at,
  loaded,
}

module _ (slot : ℕ) (a b : Bytes) (old : List Bytes) where
  -- What can be stored once both calls have returned.
  pub data Outcome : List Bytes → Type 0 where
    in_order : Outcome (old ++ (a ∷ b ∷ []))
    reversed : Outcome (old ++ (b ∷ a ∷ []))
    only_first : Outcome (old ++ (a ∷ []))
    only_second : Outcome (old ++ (b ∷ []))

  -- What is stored, and what each call has read.
  abbrev Racing : Storing → Storing → List Bytes → Type 0
  Racing called called c = c ≡ old
  Racing (holding m) called c = (m ≡ old) × (c ≡ old)
  Racing called (holding m) c = (m ≡ old) × (c ≡ old)
  Racing (holding m) (holding n) c = (m ≡ old) × (n ≡ old) × (c ≡ old)
  Racing returned called c = c ≡ old ++ (a ∷ [])
  Racing called returned c = c ≡ old ++ (b ∷ [])
  Racing returned (holding n) c = ((n ≡ old) ⊎ (n ≡ old ++ (a ∷ []))) × (c ≡ old ++ (a ∷ []))
  Racing (holding m) returned c = ((m ≡ old) ⊎ (m ≡ old ++ (b ∷ []))) × (c ≡ old ++ (b ∷ []))
  Racing returned returned c = Outcome c

  first_step :
      (x y : Storing) (kept : Map ℕ (List Bytes))
      → Racing x y (kept_at slot kept)
      → Racing (call_step slot a x kept).0 y (kept_at slot (call_step slot a x kept).1)
  unfolding call_step
  first_step called called kept e = ((loaded slot kept).0 ∙ e, (loaded slot kept).1 ∙ e)
  first_step called (holding n) kept (f, e) =
      ((loaded slot kept).0 ∙ e, f, (loaded slot kept).1 ∙ e)
  first_step called returned kept e = (inr ((loaded slot kept).0 ∙ e), (loaded slot kept).1 ∙ e)
  first_step (holding m) called kept (f, e) =
      stored_at slot _ kept ∙ ap (λ items. items ++ (a ∷ [])) f
  first_step (holding m) (holding n) kept (f, g, e) =
      (inl g, stored_at slot _ kept ∙ ap (λ items. items ++ (a ∷ [])) f)
  first_step (holding m) returned kept (inl f, e) =
      subst Outcome (sym (stored_at slot _ kept ∙ ap (λ items. items ++ (a ∷ [])) f)) only_first
  first_step (holding m) returned kept (inr f, e) =
      subst Outcome
        (sym (
          stored_at slot _ kept
          ∙ ap (λ items. items ++ (a ∷ [])) f
          ∙ append_assoc old (b ∷ []) (a ∷ [])))
        reversed
  first_step returned called kept e = e
  first_step returned (holding n) kept e = e
  first_step returned returned kept e = e

  second_step :
      (x y : Storing) (kept : Map ℕ (List Bytes))
      → Racing x y (kept_at slot kept)
      → Racing x (call_step slot b y kept).0 (kept_at slot (call_step slot b y kept).1)
  unfolding call_step
  second_step called called kept e = ((loaded slot kept).0 ∙ e, (loaded slot kept).1 ∙ e)
  second_step (holding m) called kept (f, e) =
      (f, (loaded slot kept).0 ∙ e, (loaded slot kept).1 ∙ e)
  second_step returned called kept e = (inr ((loaded slot kept).0 ∙ e), (loaded slot kept).1 ∙ e)
  second_step called (holding n) kept (f, e) =
      stored_at slot _ kept ∙ ap (λ items. items ++ (b ∷ [])) f
  second_step (holding m) (holding n) kept (f, g, e) =
      (inl f, stored_at slot _ kept ∙ ap (λ items. items ++ (b ∷ [])) g)
  second_step returned (holding n) kept (inl f, e) =
      subst Outcome (sym (stored_at slot _ kept ∙ ap (λ items. items ++ (b ∷ [])) f)) only_second
  second_step returned (holding n) kept (inr f, e) =
      subst Outcome
        (sym (
          stored_at slot _ kept
          ∙ ap (λ items. items ++ (b ∷ [])) f
          ∙ append_assoc old (a ∷ []) (b ∷ [])))
        in_order
  second_step called returned kept e = e
  second_step (holding m) returned kept e = e
  second_step returned returned kept e = e

  run_race-Racing :
      (turns : List Bool) (race : Race)
      → Racing race.first race.second (kept_at slot race.kept)
      → let end = run_race slot a b turns race in
        Racing end.first end.second (kept_at slot end.kept)
  unfolding run_race
  run_race-Racing [] race e = e
  run_race-Racing (true ∷ turns) race e =
      run_race-Racing turns _ (first_step race.first race.second race.kept e)
  run_race-Racing (false ∷ turns) race e =
      run_race-Racing turns _ (second_step race.first race.second race.kept e)

-- The state in which neither call has started.
abbrev pub starting : Map ℕ (List Bytes) → Race
starting kept = record { first = called; second = called; kept = kept }

-- Both calls have returned, and `c` is stored for the slot.
abbrev pub Ends : ℕ → Race → List Bytes → Type 0
Ends slot race c = (race.first ≡ returned) × (race.second ≡ returned) × (kept_at slot race.kept ≡ c)

module _ (slot : ℕ) (a b : Bytes) (kept : Map ℕ (List Bytes)) where
  abbrev run : List Bool → Race
  run turns = run_race slot a b turns (starting kept)

  -- A call that reads what is kept stores its item after that.
  appended :
      (item : Bytes) (old items : List Bytes) (now : Map ℕ (List Bytes))
      → items ≡ old
      → kept_at slot (store slot (items ++ (item ∷ [])) now) ≡ old ++ (item ∷ [])
  appended item old items now e = stored_at slot _ now ∙ ap (λ m. m ++ (item ∷ [])) e

  -- The call whose two steps come last reads what the other one stored.
  appended_twice :
      (x y : Bytes) (now : Map ℕ (List Bytes))
      → let read = load_or_store slot now in
        let stored = store slot (read.0 ++ (x ∷ [])) (read.1) in
        kept_at slot
          (store slot ((load_or_store slot stored).0 ++ (y ∷ [])) (load_or_store slot stored).1)
        ≡ kept_at slot now ++ (x ∷ y ∷ [])
  appended_twice x y now =
      appended y (kept_at slot now ++ (x ∷ [])) _ _
        ((loaded slot _).0 ∙ appended x (kept_at slot now) _ _ (loaded slot now).0)
      ∙ append_assoc (kept_at slot now) (x ∷ []) (y ∷ [])

  reached :
      (c : List Bytes)
      → Outcome slot a b (kept_at slot kept) c
      → (turns : List Bool) × Ends slot (run turns) c
  unfolding run_race call_step
  reached _ in_order = (true ∷ true ∷ false ∷ false ∷ [], (refl, refl, appended_twice a b kept))
  reached _ reversed = (false ∷ false ∷ true ∷ true ∷ [], (refl, refl, appended_twice b a kept))
  reached _ only_first = (
    true ∷ false ∷ false ∷ true ∷ [],
    (refl, refl, appended a (kept_at slot kept) _ _ (loaded slot kept).0),
  )
  reached _ only_second = (
    false ∷ true ∷ true ∷ false ∷ [],
    (refl, refl, appended b (kept_at slot kept) _ _ (loaded slot kept).0),
  )

  -- Two calls for one slot, started together, can return exactly with these stored after what was
  -- there: both items in either order, or only one of them, whichever it is.
  pub store_race-Outcome :
      (c : List Bytes)
      → Outcome slot a b (kept_at slot kept) c ↔ ((turns : List Bool) × Ends slot (run turns) c)
  store_race-Outcome c = (reached c, judged)
    where
      judged :
          ((turns : List Bool) × Ends slot (run turns) c) → Outcome slot a b (kept_at slot kept) c
      judged (turns, (e, f, g)) = subst (Outcome slot a b (kept_at slot kept)) g (
          subst {A = Storing × Storing}
            (λ p. Racing slot a b (kept_at slot kept) p.0 p.1 (kept_at slot (run turns).kept))
            (λ i. (e i, f i))
            (run_race-Racing slot a b (kept_at slot kept) turns (starting kept) refl))

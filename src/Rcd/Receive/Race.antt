-- ===== src/Rcd/Receive/Race.antt =====
-- `storeUnverifiedMessage` in two handlers at once: `LoadOrStore` and `Store` are steps of their
-- own, and the steps of the two may come in any order. `append` is taken to copy.
pub mod Outcomes
use broadauth.Base.{
  ℕ, ◌≡◌, ◌↔◌, ◌⊎◌, inl, inr, refl, sym, ap, ◌∙◌, Bytes, List, [], ◌∷◌, ◌++◌, append_assoc, Option,
  some, none, Map, load, store, load-store, subst, nat_eq, if◌then◌else◌, true, false, Bool, arith,
}
use broadauth.Rcd.{Rcd}
use broadauth.Rcd.Receive.{or_empty, store_unverified}

-- How far a call is: before `LoadOrStore`, with the list that it read, or returned.
pub data Storing : Type 0 where
  called : Storing
  holding : List Bytes → Storing
  returned : Storing

unfoldable pub or_store :
    Option (List Bytes) → ℕ → Map ℕ (List Bytes) → List Bytes × Map ℕ (List Bytes)
or_store none slot kept = ([], store slot [] kept)
or_store (some items) slot kept = (items, kept)

-- The value that `LoadOrStore` returns, and the map after it.
unfoldable pub load_or_store : ℕ → Map ℕ (List Bytes) → List Bytes × Map ℕ (List Bytes)
unfolding or_store
load_or_store slot kept = or_store (load slot kept) slot kept

-- The next step of a call with `item` for `slot`.
unfoldable pub call_step : ℕ → Bytes → Storing → Map ℕ (List Bytes) → Storing × Map ℕ (List Bytes)
unfolding load_or_store
call_step slot item called kept = let read = load_or_store slot kept in (holding read.0, read.1)
call_step slot item (holding items) kept = (returned, store slot (items ++ (item ∷ [])) kept)
call_step slot item returned kept = (returned, kept)

-- Two calls, with their shared map.
pub record Race : Type 0 where
  pub first : Storing
  pub second : Storing
  pub kept : Map ℕ (List Bytes)

-- A schedule says of each step whether the first call makes it.
unfoldable pub run_race : ℕ → Bytes → Bytes → List Bool → Race → Race
unfolding call_step
run_race slot a b [] race = race
run_race slot a b (true ∷ turns) race =
    let out = call_step slot a race.first race.kept in
    run_race slot a b turns (record race { first = out.0; kept = out.1 })
run_race slot a b (false ∷ turns) race =
    let out = call_step slot b race.second race.kept in
    run_race slot a b turns (record race { second = out.0; kept = out.1 })

-- What `getUnverifiedMessages` gives of the map.
abbrev pub kept_at : ℕ → Map ℕ (List Bytes) → List Bytes
kept_at slot kept = or_empty (load slot kept)

pub stored_at :
    (slot : ℕ) (items : List Bytes) (kept : Map ℕ (List Bytes))
    → kept_at slot (store slot items kept) ≡ items
stored_at slot items kept = ground (arith, load-store slot slot items kept)

pub loaded :
    (slot : ℕ) (kept : Map ℕ (List Bytes))
    → ((load_or_store slot kept).0 ≡ kept_at slot kept)
      × (kept_at slot (load_or_store slot kept).1 ≡ kept_at slot kept)
unfolding load_or_store or_store
loaded slot kept = go (load slot kept) refl
  where
    go :
        (o : Option (List Bytes))
        → load slot kept ≡ o
        → ((or_store o slot kept).0 ≡ or_empty o)
          × (kept_at slot (or_store o slot kept).1 ≡ or_empty o)
    go none e = (refl, stored_at slot [] kept)
    go (some items) e = (refl, ap or_empty e)

-- One call alone, its two steps in turn, is the handler's `store_unverified`.
pub call_step-alone :
    (slot : ℕ) (item : Bytes) (r : Rcd)
    → kept_at slot
        (call_step slot item
          (call_step slot item called r.unverified_msgs).0
          (call_step slot item called r.unverified_msgs).1).1
      ≡ kept_at slot (store_unverified slot item r).unverified_msgs
unfolding call_step store_unverified
call_step-alone slot item r =
    stored_at slot _ _
    ∙ ap (λ items. items ++ (item ∷ [])) (loaded slot r.unverified_msgs).0
    ∙ sym (stored_at slot _ r.unverified_msgs)

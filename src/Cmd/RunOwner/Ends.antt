-- ===== src/Cmd/RunOwner/Ends.antt =====
-- How the owner's program ends, and which RCDs its owner has.
use broadauth.Base.{
  ℕ, ◌≡◌, Bytes, List, [], ◌∷◌, ℤ, negsuc, Option, some, none, Bool, true, false, Result, Error, ok,
  err, length, panic, ◌==◌, bytes_eq, ◌||◌,
}
use broadauth.Owner.{Outside, Owner}
use broadauth.Owner.Life.{Answers, closed, new_owner}
use broadauth.Owner.Listen.{knows}
use broadauth.Cmd.{usage, fatal, returned}
use broadauth.Cmd.RunOwner.{OwnerFlags, missing, config_of, Run}

-- Whether an identifier was printed.
abbrev pub contains : Bytes → List Bytes → Bool
contains j [] = false
contains j (id ∷ ids) = id == j || contains j ids

module _ (out : Outside) (ids : ℕ → Bytes) (accepts : List (Option (Option Bytes)))
    (closing : Result (Unit {0})) where
  -- A run to its end: an owner of this configuration was made, twenty identifiers were printed,
  -- and the owner knows just these RCDs; nothing is left open.
  pub record Ran (decimal : ℤ → Bytes) (f : OwnerFlags) (a : Answers) (run : Run) : Type 0 where
    pub made : Owner
    pub is_made :
        new_owner (config_of decimal f) a closed
        ≡ (ok made, record { listener = true; client = true })
    pub returns : run.exit ≡ returned
    pub owner : Owner
    pub served : run.owner ≡ some owner
    pub twenty : length run.output ≡ 20
    pub known : (j : Bytes) → knows j owner ≡ contains j run.output
    pub all_closed : run.handles ≡ closed

  pub data Ended (decimal : ℤ → Bytes) (f : OwnerFlags) (a : Answers) : Result Run → Type 0 where
    asked :
        missing f ≡ true
        → Ended decimal f a
            (ok (record { exit = usage; handles = closed; owner = none; output = [] }))
    not_made :
        (e : Error)
        → missing f ≡ false
        → new_owner (config_of decimal f) a closed ≡ (err e, closed)
        → Ended decimal f a
            (ok (record { exit = fatal; handles = closed; owner = none; output = [] }))
    died :
        (made : Owner) (n : ℕ)
        → missing f ≡ false
        → new_owner (config_of decimal f) a closed
          ≡ (ok made, record { listener = true; client = true })
        → f.hashchain_len ≡ negsuc n
        → Ended decimal f a panic
    ran : (run : Run) → missing f ≡ false → Ran decimal f a run → Ended decimal f a (ok run)

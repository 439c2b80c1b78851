-- ===== src/Owner/Race.antt =====
-- Two handlers of one registered RCD at once, which share its `rcdState`: the steps of
-- `handleRCD` that read and write `currentIndex` and call `StoreKey`, in any order, where the
-- calls of the contract and the waits of both are answered without an error.
pub mod Outcomes
use broadauth.Base.{ℕ, ◌+◌, ◌%◌, ◌^◌, List, [], ◌∷◌, Bool, true, false}

-- How far a handler is: before it makes the next index, with that index, after its call of
-- `StoreKey` and what follows, with the index that `currentIndex++` read, and after it wrote it.
pub data Serving : Type 0 where
  asking : Serving
  numbered : ℕ → Serving
  submitted : Serving
  incrementing : ℕ → Serving
  counted : Serving

-- A step of a handler, at the shared index and the indices that `StoreKey` was called with so far,
-- newest first: it reads the next index, calls `StoreKey` with that, and reads and writes the
-- index for `currentIndex++`, which no lock guards. The switch to the new key before that touches
-- neither.
unfoldable pub serving_step : Serving → ℕ → List ℕ → Serving × ℕ × List ℕ
serving_step asking index calls = (numbered ((index + 1) % 2 ^ 64), index, calls)
serving_step (numbered n) index calls = (submitted, index, n ∷ calls)
serving_step submitted index calls = (incrementing index, index, calls)
serving_step (incrementing v) index calls = (counted, (v + 1) % 2 ^ 64, calls)
serving_step counted index calls = (counted, index, calls)

pub record Requests : Type 0 where
  pub first : Serving
  pub second : Serving
  pub index : ℕ
  pub calls : List ℕ

-- A schedule says of each step whether the first handler makes it.
unfoldable pub run_requests : List Bool → Requests → Requests
unfolding serving_step
run_requests [] r = r
run_requests (true ∷ turns) r =
    let out = serving_step r.first r.index r.calls in
    run_requests turns (record r { first = out.0; index = out.1; calls = out.2 })
run_requests (false ∷ turns) r =
    let out = serving_step r.second r.index r.calls in
    run_requests turns (record r { second = out.0; index = out.1; calls = out.2 })

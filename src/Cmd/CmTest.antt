-- ===== src/Cmd/CmTest.antt =====
-- cmd/cmtest/main.go: a client that asks the contract manager for registrations of random owners
-- and RCDs. The requests stand in the order of their numbers; concurrent ones may be on their way
-- in any order.
pub mod Misread
use broadauth.Base.{
  ℕ, zero, suc, ◌+◌, Bytes, List, [], ◌∷◌, ◌++◌, ℤ, pos, rounds, overwrite, replicate, Option, some,
  none, Bool, true, false, ◌==◌, int_eq, if◌then◌else◌,
}
use broadauth.Cm.{Status, success, failure}
use broadauth.Cmd.{Exit, usage, returned}

pub record TestFlags : Type 0 where
  pub port : ℤ
  pub count : ℤ
  pub verbose : Bool

-- What a request is answered: whether the connection is made, 20 random bytes, the bytes of a
-- random number below 2 ^ 256 as `big.Int.Bytes` gives them, with no zeros in front, whether the
-- data is written, and the status of the response.
pub record Asked : Type 0 where
  pub dials : Bool
  pub address : Option Bytes
  pub rcd_id : Option Bytes
  pub writes : Bool
  pub status : Option Status

-- What a request logs last.
pub data Logged : Type 0 where
  no_connection no_address no_id not_sent no_response shown refused nothing : Logged

-- The 52 bytes of a request.
unfoldable pub request_data : Bytes → Bytes → Bytes
request_data address rcd_id =
    overwrite address (replicate 20 0) ++ overwrite rcd_id (replicate 32 0)

unfoldable pub on_response : Bool → Option Status → Logged
on_response verbose none = no_response
on_response true (some status) = shown
on_response false (some success) = nothing
on_response false (some failure) = refused

unfoldable pub with_data : Bool → Asked → Bytes → Option Bytes × Logged
unfolding on_response
with_data verbose a sent =
    if a.writes then (some sent, on_response verbose a.status) else (none, not_sent)

unfoldable pub with_address : Bool → Asked → Bytes → Option Bytes × Logged
unfolding with_data request_data
with_address verbose a address = elim a.rcd_id [
  | none ↦ (none, no_id)
  | some rcd_id ↦ with_data verbose a (request_data address rcd_id)
]

-- What is sent, and what is logged.
unfoldable pub send_request : Bool → Asked → Option Bytes × Logged
unfolding with_address
send_request verbose a =
    if a.dials
    then elim a.address [
      | none ↦ (none, no_address)
      | some address ↦ with_address verbose a address
    ]
    else (none, no_connection)

unfoldable pub requests : ℕ → ℕ → (ℕ → Asked) → Bool → List (Option Bytes × Logged)
unfolding send_request
requests zero i asked verbose = []
requests (suc left) i asked verbose =
    send_request verbose (asked i) ∷ requests left (i + 1) asked verbose

unfoldable pub main : TestFlags → (ℕ → Asked) → Exit × List (Option Bytes × Logged)
unfolding requests
main f asked =
    if f.port == pos 0 then (usage, []) else (returned, requests (rounds f.count) 0 asked f.verbose)

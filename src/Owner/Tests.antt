-- ===== src/Owner/Tests.antt =====
-- An owner with one registered RCD.
use broadauth.Base.{
  ok, ℕ, ◌≡◌, refl, Bytes, [], ◌∷◌, ◌++◌, replicate, length, load, bytes_eq, some, true, false, pos,
  negsuc, eqb_refl, ℤ, ltb, arith, List, Bool, ◌↔◌, take, Option, none, err, unknown_rcd,
}
use broadauth.Owner.{Outside, Owner, RcdState, handle_rcd, registration, of_be}
use broadauth.Base.State.{Post}
use broadauth.Owner.Attempt.{Unserved, handle_rcd_attempt}
use broadauth.Owner.Listen.{SameKnown, knows, listen_and_serve, listen_and_serve-SameKnown}
use broadauth.Owner.Race.{run_requests}
use broadauth.Owner.Race.Outcomes.{Outcome, Ends, both_asking, requests_race-Outcome}
use broadauth.Owner.Serve.{Mining, Served}
use broadauth.Rcd.Tests.{toy_32}

abbrev low_bits : ℤ → ℕ
low_bits (pos n) = n
low_bits (negsuc n) = 0

abbrev pub toy_outside : Outside
toy_outside = record {
  hasher = toy_32;
  size_32 = refl;
  register = λ i b. true;
  random = λ i. some (i ∷ replicate 31 3);
  store_key = λ i e. true;
  change_index = λ i id. true;
  mined = λ i. true;
  to_uint64 = low_bits;
}

pub toy_outside-Mining : Mining toy_outside
toy_outside-Mining = record { stores = λ i e. refl; changes = λ i id. refl; mines = λ i. refl }

abbrev rcd_id : Bytes
rcd_id = replicate 16 1

abbrev pub served_once : RcdState
served_once = record {
  registered = true;
  current_index = 1;
  last_start_time = 4;
  last_end_time = 6;
  last_disclosure_delay = 2;
}

abbrev pub owner_0 : Owner
owner_0 = record {
  address = replicate 20 5;
  rcds = (rcd_id, served_once) ∷ [];
  hashchain_len = pos 3;
  disclosure_delay = 2;
  calls = 0;
  log = [];
}

known_rcd : load rcd_id owner_0.rcds ≡ some served_once
unfolding load
known_rcd = rw (eqb_refl rcd_id)

-- Block 1030, in 32 bytes.
abbrev block : Bytes
block = replicate 30 0 ++ (4 ∷ 6 ∷ [])

of_be_test : of_be 0 block ≡ 1030
unfolding of_be
of_be_test = refl

length-registration_test : length (registration (replicate 20 5) rcd_id) ≡ 36
unfolding registration
length-registration_test = refl

-- The same owner where no wait gives a receipt after the first ones.
abbrev stalled_outside : Outside
stalled_outside = record toy_outside { mined = λ i. ltb i 3 }

handle_rcd_attempt_example :
    Post
      (λ bytes o'.
        (n : ℕ) × (b : Bytes) × (pos 3 ≡ pos n)
        × (some (0 ∷ replicate 31 3) ≡ some b)
        × Served stalled_outside n rcd_id block b served_once owner_0 (ok bytes, o'))
      (Unserved stalled_outside rcd_id (of_be 0 block) served_once owner_0)
      (handle_rcd stalled_outside (some (rcd_id ++ block)) owner_0)
handle_rcd_attempt_example =
    handle_rcd_attempt stalled_outside rcd_id block served_once owner_0 refl known_rcd refl

-- Two requests at index 4.
requests_race-Outcome_example : Outcome 4 (omega arith) 5 (5 ∷ 5 ∷ []) ↔ (
    (turns : List Bool) × Ends 4
      (omega arith)
      (run_requests turns (both_asking 4 (omega arith)))
      5
      (5 ∷ 5 ∷ []))
requests_race-Outcome_example = requests_race-Outcome 4 (omega arith) 5 (5 ∷ 5 ∷ [])

-- An error of `Accept` after a request of an RCD that the owner does not know.
abbrev accepts : List (Option (Option Bytes))
accepts = some (some (replicate 48 7)) ∷ none ∷ []

listen_and_serve-SameKnown_example :
    SameKnown owner_0 (listen_and_serve toy_outside accepts owner_0).1
    × ((buf : Bytes)
        → knows (take 16 buf) owner_0 ≡ false
        → handle_rcd toy_outside (some buf) (listen_and_serve toy_outside accepts owner_0).1
          ≡ (err unknown_rcd, (listen_and_serve toy_outside accepts owner_0).1))
listen_and_serve-SameKnown_example = listen_and_serve-SameKnown toy_outside accepts owner_0

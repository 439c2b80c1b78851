-- ===== src/Cmd/Tests.antt =====
-- Runs of the commands.
use broadauth.Base.{
  ℕ, ◌≡◌, refl, Bytes, List, [], ◌∷◌, replicate, length, map, pos, Option, some, none, true, false,
}
use broadauth.Owner.Life.{Answers}
use broadauth.Broadcast.{Opening}
use broadauth.Rcd.{probabilistic}
use broadauth.Rcd.Life.{Dials}
use broadauth.Rcd.Life.{Worker, WorkerEnd, broadcast_loop, stays, returns}
use broadauth.Cm.Tests.{willing}
use broadauth.Cmd.RunRcd.{RcdFlags, Texts, lower_byte, mode_of}
use broadauth.Cmd.RunCm.{accept_loop}
use broadauth.Cmd.CmTest.{request_data}
use broadauth.Cmd.RunRcd
use broadauth.Cmd.RunOwner

abbrev texts : Texts
texts = record {
  parse_uuid = λ b. some (replicate 16 1);
  to_lower = map lower_byte;
  to_lower-ascii = λ b h. refl;
}

-- The mode is given as `Prob`.
abbrev rcd_flags : RcdFlags
rcd_flags = record {
  uuid = 49 ∷ [];
  owner_addr = 49 ∷ [];
  eth_url = 49 ∷ [];
  contract = 49 ∷ [];
  hashchain_len = pos 512;
  disclosure_delay = 2;
  simulation_time = pos 60000000000;
  mode = 80 ∷ 114 ∷ 111 ∷ 98 ∷ [];
  bench = false;
}

mode_of_test : mode_of (map lower_byte rcd_flags.mode) ≡ some probabilistic
unfolding mode_of
mode_of_test = refl

abbrev opening : Opening
opening = record { resolves = true; opens = true; buffers = true }

abbrev all_dial : Dials
all_dial = record { client = true; contract = true; broadcaster = opening; receiver = opening }

-- The loop of broadcasts does not return.
abbrev one_spins : Worker → WorkerEnd
one_spins broadcast_loop = stays
one_spins _ = returns

abbrev owner_flags : RunOwner.OwnerFlags
owner_flags = record {
  cm_addr = 49 ∷ [];
  port = pos 9000;
  hashchain_len = pos 512;
  eth_url = 49 ∷ [];
  contract = 49 ∷ [];
  private_key = 49 ∷ [];
  disclosure_delay = 2;
}

abbrev owner_answers : Answers
owner_answers = record {
  address = some (replicate 20 5);
  listens = true;
  dials = true;
  network_id = true;
  transactor = true;
  contract = true;
}

abbrev ids : ℕ → Bytes
ids i = i ∷ replicate 15 0

-- A request of the first RCD, and an error of the listener.
abbrev connections : List (Option (Option Bytes))
connections = some (some (0 ∷ replicate 47 0)) ∷ none ∷ []

-- An error of `Accept`, a registration, and a client that sends too little.
abbrev accepts : List (Option Bytes)
accepts = none ∷ some (replicate 52 3) ∷ some (replicate 35 3) ∷ []

-- Only the registration reaches the contract, and both clients get an answer.
accept_loop_test :
    length (accept_loop willing accepts (record { calls = 0; asked = [] })).responses ≡ 2
unfolding accept_loop
accept_loop_test = refl

-- The data of a request has 52 bytes.
request_data_test : length (request_data (replicate 20 5) (replicate 32 1)) ≡ 52
unfolding request_data
request_data_test = refl

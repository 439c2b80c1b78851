-- ===== src/Cmd/RunRcd.antt =====
-- cmd/rcd/main.go: an RCD for the time of a simulation. The UUIDs' parser, and `strings.ToLower`
-- for what is not ASCII, are parameters, and so is what becomes of each worker.
pub mod Ends
use broadauth.Base.{
  ℕ, ◌+◌, ◌<◌, ◌≡◌, Bytes, List, [], ◌∷◌, map, All, ℤ, Option, some, none, Bool, true, false,
  Result, ok, err, panic, running, ◌==◌, bytes_eq, ◌||◌, ◌&&◌, leb, if◌then◌else◌,
}
use broadauth.Base.State.{M, carry}
use broadauth.Rcd.{Rcd, Mode, deterministic, probabilistic}
use broadauth.Rcd.Life.{Config, Handles, Dials, new_from_config, Worker, WorkerEnd, start, stop}
use broadauth.Cmd.{Exit, usage, fatal, returned}

-- The flags, which `flag.Parse` has read.
pub record RcdFlags : Type 0 where
  pub uuid : Bytes
  pub owner_addr : Bytes
  pub eth_url : Bytes
  pub contract : Bytes
  pub hashchain_len : ℤ
  pub disclosure_delay : ℕ
  pub simulation_time : ℤ
  pub mode : Bytes
  pub bench : Bool

abbrev pub lower_byte : ℕ → ℕ
lower_byte c = if leb 65 c && leb c 90 then c + 32 else c

pub record Texts : Type 0 where
  pub parse_uuid : Bytes → Option Bytes
  pub to_lower : Bytes → Bytes
  pub to_lower-ascii : (b : Bytes) → All (λ c. c < 128) b → to_lower b ≡ map lower_byte b

abbrev pub is_empty : Bytes → Bool
is_empty b = b == []

-- A required flag that is empty.
abbrev pub missing : RcdFlags → Bool
missing f = is_empty f.uuid || is_empty f.owner_addr || is_empty f.eth_url || is_empty f.contract

-- The texts `deterministic`, `det`, `probabilistic` and `prob`.
abbrev pub deterministic_text : Bytes
deterministic_text = 100 ∷ 101 ∷ 116 ∷ 101 ∷ 114 ∷ 109 ∷ 105 ∷ 110 ∷ 105 ∷ 115 ∷ 116 ∷ 105 ∷ 99 ∷ []

abbrev pub det_text : Bytes
det_text = 100 ∷ 101 ∷ 116 ∷ []

abbrev pub probabilistic_text : Bytes
probabilistic_text = 112 ∷ 114 ∷ 111 ∷ 98 ∷ 97 ∷ 98 ∷ 105 ∷ 108 ∷ 105 ∷ 115 ∷ 116 ∷ 105 ∷ 99 ∷ []

abbrev pub prob_text : Bytes
prob_text = 112 ∷ 114 ∷ 111 ∷ 98 ∷ []

-- The switch on the mode's text in lower case.
unfoldable pub mode_of : Bytes → Option Mode
mode_of text =
    if text == deterministic_text || text == det_text || is_empty text
    then some deterministic
    else (if text == probabilistic_text || text == prob_text then some probabilistic else none)

unfoldable pub config_of : RcdFlags → Bytes → Mode → Config
config_of f id mode = record {
  uuid = id;
  owner_addr = f.owner_addr;
  eth_url = f.eth_url;
  contract_addr = f.contract;
  hashchain_len = f.hashchain_len;
  disclosure_delay = f.disclosure_delay;
  simulation_time = f.simulation_time;
  mode = mode;
  enable_benchmarking = f.bench;
}

-- An error of `Stop` is only logged.
unfoldable pub after_stop : Result (Unit {0}) × Handles → Result Exit × Handles
after_stop (ok _, h) = (ok returned, h)
after_stop (err e, h) = (ok returned, h)
after_stop (panic, h) = (panic, h)
after_stop (running, h) = (running, h)

module _ (ends : Worker → WorkerEnd) where
  -- What follows `New`: `Start`, the wait for the timer or a signal, and `Stop`.
  unfoldable pub simulate : Result Rcd × Handles → Result Exit × Handles
  unfolding after_stop
  simulate (ok r, h) = after_stop (stop ends (start r) h)
  simulate (err e, h) = (ok fatal, h)
  simulate (panic, h) = (panic, h)
  simulate (running, h) = (running, h)

  unfoldable pub with_mode : RcdFlags → Dials → Bytes → Option Mode → M Handles Exit
  unfolding config_of simulate
  with_mode f d id none h = (ok fatal, h)
  with_mode f d id (some mode) h = simulate (new_from_config (config_of f id mode) d h)

  unfoldable pub with_uuid : Texts → RcdFlags → Dials → Option Bytes → M Handles Exit
  unfolding with_mode mode_of
  with_uuid t f d none h = (ok fatal, h)
  with_uuid t f d (some id) h = with_mode f d id (mode_of (t.to_lower f.mode)) h

  unfoldable pub main : Texts → RcdFlags → Dials → M Handles Exit
  unfolding with_uuid
  main t f d h = if missing f then (ok usage, h) else with_uuid t f d (t.parse_uuid f.uuid) h

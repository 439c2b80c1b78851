-- ===== src/Rcd/Tests/Life.antt =====
-- An RCD that is made, and one that is not.
use broadauth.Base.{◌≡◌, refl, [], ℤ, pos, true, false, replicate, err, invalid_length}
use broadauth.Base.State.{Post}
use broadauth.Broadcast.{Opening}
use broadauth.Rcd.{deterministic}
use broadauth.Rcd.Life.{Config, Dials, none_open, new_from_config}
use broadauth.Rcd.Life.Made.{Made, opened, new_from_config-Made}
use broadauth.Rcd.Tests.{up_env}

abbrev config : ℤ → Config
config len = record {
  uuid = replicate 16 1;
  owner_addr = [];
  eth_url = [];
  contract_addr = [];
  hashchain_len = len;
  disclosure_delay = 2;
  simulation_time = pos 60000000000;
  mode = deterministic;
  enable_benchmarking = false;
}

abbrev answers : Opening
answers = record { resolves = true; opens = true; buffers = true }

abbrev all_up : Dials
all_up = record { client = true; contract = true; broadcaster = answers; receiver = answers }

-- A length of 0 is refused with everything left open.
zero_length :
    new_from_config (config (pos 0)) all_up none_open ≡ (err invalid_length, opened all_up)
unfolding new_from_config
zero_length = refl

new_from_config-Made_example :
    Post
      (λ r h. (h ≡ opened all_up) × Made up_env (config (pos 512)) all_up r)
      (λ h. h ≡ opened all_up)
      (new_from_config (config (pos 512)) all_up none_open)
new_from_config-Made_example = new_from_config-Made up_env (config (pos 512)) all_up

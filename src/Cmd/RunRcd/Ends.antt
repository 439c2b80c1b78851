-- ===== src/Cmd/RunRcd/Ends.antt =====
-- How the RCD's program ends.
use broadauth.Base.{◌≡◌, Bytes, some, none, true, false, Result, Error, ok, err}
use broadauth.Rcd.{Env, Rcd, Mode}
use broadauth.Rcd.Life.{Handles, Dials, Worker, WorkerEnd, start, none_open, new_from_config}
use broadauth.Rcd.Life.Made.{Made, opened}
use broadauth.Rcd.Life.Stopping.{Stopped}
use broadauth.Cmd.{Exit, usage, fatal}
use broadauth.Cmd.RunRcd.{RcdFlags, Texts, missing, mode_of, config_of, after_stop}

module _ (env : Env) (ends : Worker → WorkerEnd) where
  -- A run of an RCD: the flags are there, the texts are read, and an RCD of this configuration was
  -- made. Its workers end as they do; if all return, the client is closed, and the sockets are left
  -- open.
  pub record Ran (t : Texts) (f : RcdFlags) (d : Dials) (done : Result (Unit {0}) × Handles)
      : Type 0 where
    pub none_missing : missing f ≡ false
    pub id : Bytes
    pub is_id : t.parse_uuid f.uuid ≡ some id
    pub mode : Mode
    pub is_mode : mode_of (t.to_lower f.mode) ≡ some mode
    pub rcd : Rcd
    pub made : Made env (config_of f id mode) d rcd
    pub stopped : Stopped ends (start rcd).workers (opened d) done

  -- How the program ends, and what is then open.
  pub data Ended (t : Texts) (f : RcdFlags) (d : Dials) : Result Exit × Handles → Type 0 where
    asked : missing f ≡ true → Ended t f d (ok usage, none_open)
    no_id : missing f ≡ false → t.parse_uuid f.uuid ≡ none → Ended t f d (ok fatal, none_open)
    no_mode :
        missing f ≡ false → mode_of (t.to_lower f.mode) ≡ none → Ended t f d (ok fatal, none_open)
    not_made :
        (id : Bytes) (mode : Mode) (e : Error)
        → missing f ≡ false
        → t.parse_uuid f.uuid ≡ some id
        → mode_of (t.to_lower f.mode) ≡ some mode
        → new_from_config (config_of f id mode) d none_open ≡ (err e, opened d)
        → Ended t f d (ok fatal, opened d)
    ran : (done : Result (Unit {0}) × Handles) → Ran t f d done → Ended t f d (after_stop done)

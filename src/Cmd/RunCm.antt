-- ===== src/Cmd/RunCm.antt =====
-- cmd/cm/main.go: the start of the contract manager, and its loop over connections. Each
-- connection is handled to its end before the next, where the source starts a goroutine.
pub mod Ends
use broadauth.Base.{
  ℕ, ◌+◌, Bytes, List, [], ◌∷◌, length, take, ℤ, pos, Option, some, none, Bool, true, false, Result,
  Error, ok, err, panic, running, ◌==◌, bytes_eq, int_eq, ◌||◌, leb, if◌then◌else◌, dial_failed,
  invalid_key, network_failed, transactor_failed, contract_failed, listen_failed,
}
use broadauth.Base.State.{M, ◌>>=◌, ◌>>◌, pure}
use broadauth.Owner.Life.{Handles, listen}
use broadauth.Cm.{CmOutside, Cm, Response, total_size, handle_connection}
use broadauth.Cmd.{Exit, usage, fatal, returned}

pub record CmFlags : Type 0 where
  pub eth_url : Bytes
  pub contract : Bytes
  pub private_key : Bytes
  pub port : ℤ

abbrev pub missing : CmFlags → Bool
missing f = f.eth_url == [] || f.contract == [] || f.private_key == [] || f.port == pos 0

-- Whether each of the calls of go-ethereum and `net` succeeds.
pub record CmAnswers : Type 0 where
  pub dials : Bool
  pub private_key : Bool
  pub network_id : Bool
  pub transactor : Bool
  pub contract : Bool
  pub listens : Bool

unfoldable pub connect : Bool → M Handles (Unit {0})
connect answer h = if answer then (ok tt, record h { client = true }) else (err dial_failed, h)

-- `log.Fatalf` closes nothing.
unfoldable pub or_fatal : Bool → Error → M Handles (Unit {0})
or_fatal answer e h = if answer then (ok tt, h) else (err e, h)

unfoldable pub set_up : CmAnswers → M Handles (Unit {0})
unfolding connect or_fatal listen
set_up a = do
  connect (a.dials)
  or_fatal (a.private_key) invalid_key
  or_fatal (a.network_id) network_failed
  or_fatal (a.transactor) transactor_failed
  or_fatal (a.contract) contract_failed
  listen (a.listens)

-- `io.ReadFull` of `totalSize` bytes from a client that sends these.
unfoldable pub read_full : Bytes → Option Bytes
read_full sent = if leb total_size (length sent) then some (take total_size sent) else none

-- What was written on the connections, in order, and the manager after them.
pub record Replies : Type 0 where
  pub responses : List Response
  pub cm : Cm

abbrev pub answered_first : Response → Replies → Replies
answered_first response rest = record rest { responses = response ∷ rest.responses }

-- The loop over what `Accept` returns until the signal: an error is logged, and the loop goes on.
unfoldable pub accept_loop : CmOutside → List (Option Bytes) → Cm → Replies
unfolding read_full
accept_loop out [] c = record { responses = []; cm = c }
accept_loop out (none ∷ accepts) c = accept_loop out accepts c
accept_loop out (some sent ∷ accepts) c =
    let (response, c') = handle_connection out (read_full sent) c in
    answered_first response (accept_loop out accepts c')

pub record Run : Type 0 where
  pub exit : Exit
  pub handles : Handles
  pub answered : Option Replies

module _ (out : CmOutside) (accepts : List (Option Bytes)) where
  -- After the signal the deferred calls close both handles.
  unfoldable pub run_set_up : Result (Unit {0}) × Handles → Result Run
  unfolding accept_loop
  run_set_up (ok _, h) = ok (record {
    exit = returned;
    handles = record h { client = false; listener = false };
    answered = some (accept_loop out accepts (record { calls = 0; asked = [] }));
  })
  run_set_up (err e, h) = ok (record { exit = fatal; handles = h; answered = none })
  run_set_up (panic, h) = panic
  run_set_up (running, h) = running

  unfoldable pub main : CmFlags → CmAnswers → Handles → Result Run
  unfolding set_up run_set_up
  main f a h =
      if missing f
      then ok (record { exit = usage; handles = h; answered = none })
      else run_set_up (set_up a h)

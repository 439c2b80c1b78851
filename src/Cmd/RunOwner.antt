-- ===== src/Cmd/RunOwner.antt =====
-- cmd/owner/main.go: an owner with twenty RCDs, until its listener fails, a handler panics or a
-- signal comes. `fmt.Sprintf` of the port and the identifiers of `uuid.New` are parameters.
pub mod Ends
use broadauth.Base.{
  ℕ, zero, suc, ◌+◌, Bytes, List, [], ◌∷◌, ℤ, pos, Option, some, none, Bool, true, false, Result,
  ok, err, panic, running, ◌==◌, bytes_eq, int_eq, ◌||◌, if◌then◌else◌,
}
use broadauth.Owner.{Outside, Owner, new_rcd}
use broadauth.Owner.Life.{Config, Answers, Handles, new_owner, close_owner}
use broadauth.Owner.Listen.{listen_and_serve}
use broadauth.Cmd.{Exit, usage, fatal, returned}

pub record OwnerFlags : Type 0 where
  pub cm_addr : Bytes
  pub port : ℤ
  pub hashchain_len : ℤ
  pub eth_url : Bytes
  pub contract : Bytes
  pub private_key : Bytes
  pub disclosure_delay : ℕ

abbrev pub missing : OwnerFlags → Bool
missing f =
    f.cm_addr == [] || f.port == pos 0 || f.eth_url == [] || f.contract == [] || f.private_key == []

-- The address is a colon and the port.
unfoldable pub config_of : (ℤ → Bytes) → OwnerFlags → Config
config_of decimal f = record {
  cm_addr = f.cm_addr;
  tcp_addr = 58 ∷ decimal f.port;
  hashchain_len = f.hashchain_len;
  eth_url = f.eth_url;
  contract_addr = f.contract;
  private_key = f.private_key;
  disclosure_delay = f.disclosure_delay;
}

-- `NewRCD` so many times, with the identifiers from number `i` on, which are printed.
unfoldable pub add_rcds : ℕ → ℕ → (ℕ → Bytes) → Owner → Owner
unfolding new_rcd
add_rcds zero i ids o = o
add_rcds (suc left) i ids o = add_rcds left (i + 1) ids (new_rcd (ids i) o)

unfoldable pub printed : ℕ → ℕ → (ℕ → Bytes) → List Bytes
printed zero i ids = []
printed (suc left) i ids = ids i ∷ printed left (i + 1) ids

-- How the program ended, what is then open, the owner if there was one, and what was printed.
pub record Run : Type 0 where
  pub exit : Exit
  pub handles : Handles
  pub owner : Option Owner
  pub output : List Bytes

-- The listener is closed, whatever `Close` of it returns.
abbrev pub listener_close : Result (Unit {0}) → Handles → Result (Unit {0}) × Handles
listener_close answer h = (answer, record h { listener = false })

module _ (out : Outside) (ids : ℕ → Bytes) (accepts : List (Option (Option Bytes)))
    (closing : Result (Unit {0})) where
  -- The return of `main`, with its deferred `Close`; a panic in a handler ends the program.
  unfoldable pub finished : Handles → Result (Unit {0}) × Owner → Result Run
  unfolding close_owner
  finished h (panic, o) = panic
  finished h (_, o) = ok (record {
    exit = returned;
    handles = (close_owner (listener_close closing) h).1;
    owner = some o;
    output = printed 20 0 ids;
  })

  -- What follows `New`: the RCDs, the accepted connections up to a signal or an error of the
  -- listener, and the deferred `Close`. After an error of `New`, `log.Fatalf`.
  unfoldable pub serve_made : Result Owner × Handles → Result Run
  unfolding add_rcds finished listen_and_serve
  serve_made (ok o, h) = finished h (listen_and_serve out accepts (add_rcds 20 0 ids o))
  serve_made (err e, h) = ok (record { exit = fatal; handles = h; owner = none; output = [] })
  serve_made (panic, h) = panic
  serve_made (running, h) = running

  unfoldable pub main : (ℤ → Bytes) → OwnerFlags → Answers → Handles → Result Run
  unfolding config_of serve_made
  main decimal f a h =
      if missing f
      then ok (record { exit = usage; handles = h; owner = none; output = [] })
      else serve_made (new_owner (config_of decimal f) a h)

-- ===== src/Owner/Life.antt =====
-- How an owner is made and closed: `New` and `Close`. What it opens is a flag for each of the
-- listener and the Ethereum client.
use broadauth.Base.{
  ℕ, ℤ, Bytes, [], Option, some, none, Bool, true, false, Error, ok, err, ◌≡◌, refl, if◌then◌else◌,
  invalid_key, listen_failed, dial_failed, network_failed, transactor_failed, contract_failed,
  Result,
}
use broadauth.Base.State.{M, Post, Answered, ◌>>=◌, ◌>>◌, lift, pure}
use broadauth.Owner.{Owner}

-- The configuration.
pub record Config : Type 0 where
  pub cm_addr : Bytes
  pub tcp_addr : Bytes
  pub hashchain_len : ℤ
  pub eth_url : Bytes
  pub contract_addr : Bytes
  pub private_key : Bytes
  pub disclosure_delay : ℕ

pub record Handles : Type 0 where
  pub listener : Bool
  pub client : Bool

abbrev pub closed : Handles
closed = record { listener = false; client = false }

-- What go-ethereum and `net` answer: the address of the key, if the text is one, and whether each
-- of the calls succeeds.
pub record Answers : Type 0 where
  pub address : Option Bytes
  pub listens : Bool
  pub dials : Bool
  pub network_id : Bool
  pub transactor : Bool
  pub contract : Bool

abbrev from_key : Option Bytes → Result Bytes
from_key none = err invalid_key
from_key (some address) = ok address

unfoldable pub listen : Bool → M Handles (Unit {0})
listen answer h = if answer then (ok tt, record h { listener = true }) else (err listen_failed, h)

-- An error of `Dial` closes the listener.
unfoldable pub dial_client : Bool → M Handles (Unit {0})
dial_client answer h =
    if answer
    then (ok tt, record h { client = true })
    else (err dial_failed, record h { listener = false })

-- Any later error closes the client and the listener.
unfoldable pub or_close : Bool → Error → M Handles (Unit {0})
or_close answer e h = if answer then (ok tt, h) else (err e, closed)

unfoldable pub new_owner : Config → Answers → M Handles Owner
unfolding listen dial_client or_close
new_owner cfg a = do
  address ← lift (from_key (a.address))
  listen (a.listens)
  dial_client (a.dials)
  or_close (a.network_id) network_failed
  or_close (a.transactor) transactor_failed
  or_close (a.contract) contract_failed
  pure (record {
    address = address;
    rcds = [];
    hashchain_len = cfg.hashchain_len;
    disclosure_delay = cfg.disclosure_delay;
    calls = 0;
    log = [];
  })

-- The result is that of `listener.Close`.
unfoldable pub close_owner : M Handles (Unit {0}) → M Handles (Unit {0})
close_owner listener_close h = listener_close (record h { client = false })

-- An owner of the configuration with no RCDs, both handles open.
pub record Made (cfg : Config) (a : Answers) (o : Owner) (h : Handles) : Type 0 where
  pub address : a.address ≡ some o.address
  pub no_rcds : o.rcds ≡ []
  pub hashchain_len : o.hashchain_len ≡ cfg.hashchain_len
  pub disclosure_delay : o.disclosure_delay ≡ cfg.disclosure_delay
  pub no_calls : o.log ≡ []
  pub both_open : h ≡ record { listener = true; client = true }

abbrev answers : Option Bytes → Bool → Bool → Bool → Bool → Bool → Answers
answers address listens dials network_id transactor contract = record {
  address = address;
  listens = listens;
  dials = dials;
  network_id = network_id;
  transactor = transactor;
  contract = contract;
}

by_answers :
    (cfg : Config) (k : Option Bytes) (l d n t c : Bool)
    → Post
        (λ o h. Made cfg (answers k l d n t c) o h)
        (λ h. h ≡ closed)
        (new_owner cfg (answers k l d n t c) closed)
unfolding new_owner listen dial_client or_close
by_answers cfg none l d n t c = refl
by_answers cfg (some x) false d n t c = refl
by_answers cfg (some x) true false n t c = refl
by_answers cfg (some x) true true false t c = refl
by_answers cfg (some x) true true true false c = refl
by_answers cfg (some x) true true true true false = refl
by_answers cfg (some x) true true true true true = record {
  address = refl;
  no_rcds = refl;
  hashchain_len = refl;
  disclosure_delay = refl;
  no_calls = refl;
  both_open = refl;
}

-- `New` of an owner closes all that it opened on each of its errors. On success the listener and
-- the client are open, and the owner has the address of the key, no RCDs and the lengths of the
-- configuration.
pub new_owner-Made :
    (cfg : Config) (a : Answers)
    → Post (λ o h. Made cfg a o h) (λ h. h ≡ closed) (new_owner cfg a closed)
new_owner-Made cfg a =
    by_answers cfg a.address a.listens a.dials a.network_id a.transactor a.contract

by_each_answer :
    (cfg : Config) (k : Option Bytes) (l d n t c : Bool)
    → Answered (new_owner cfg (answers k l d n t c) closed)
unfolding new_owner listen dial_client or_close
by_each_answer cfg none l d n t c = tt
by_each_answer cfg (some x) false d n t c = tt
by_each_answer cfg (some x) true false n t c = tt
by_each_answer cfg (some x) true true false t c = tt
by_each_answer cfg (some x) true true true false c = tt
by_each_answer cfg (some x) true true true true false = tt
by_each_answer cfg (some x) true true true true true = tt

-- `New` of an owner returns a value or an error.
pub new_owner-Answered : (cfg : Config) (a : Answers) → Answered (new_owner cfg a closed)
new_owner-Answered cfg a =
    by_each_answer cfg a.address a.listens a.dials a.network_id a.transactor a.contract

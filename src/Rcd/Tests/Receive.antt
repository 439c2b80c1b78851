-- ===== src/Rcd/Tests/Receive.antt =====
-- Keys and messages that reach the toy RCD.
use broadauth.Base.{
  ℕ, ◌≡◌, ◌⊎◌, refl, Bytes, [], ◌∷◌, ◌++◌, replicate, length, some, ok, arith, true, false, pos,
  eqb_refl, load, nat_eq, bytes_eq, Map, Bool, List, ◌↔◌,
}
use broadauth.Hashchain.Spec.{iter}
use broadauth.Message.{Message, new_message}
use broadauth.Bloom.{Filter}
use broadauth.Bloom.Filled.{IsFilter}
use broadauth.Rcd.{Rcd, deterministic}
use broadauth.Rcd.Receive.{set_commitment, verify_key, handle_message}
use broadauth.Rcd.Receive.Keys.{Reaches, verify_key_known}
use broadauth.Rcd.Receive.Accept.{Arrives}
use broadauth.Rcd.Receive.Verdict.{Judged, handle_key_message-Judged}
use broadauth.Rcd.Receive.Late.{handle_message-forged}
use broadauth.Rcd.Receive.Race.{run_race, kept_at}
use broadauth.Rcd.Receive.Race.Outcomes.{Outcome, Ends, starting, store_race-Outcome}
use broadauth.Rcd.Tests.{toy_32, up_env, seed_hash, rcd_0, of_wire}

abbrev sender : Bytes
sender = replicate 16 2

abbrev key_at : ℕ → Bytes
key_at k = iter toy_32 k seed_hash

-- The chain's hash 2 is the commitment.
abbrev committed : Rcd
committed = record (rcd_0 deterministic) { commitment_keys = (sender, key_at 2) ∷ [] }

known_commitment : load sender committed.commitment_keys ≡ some (key_at 2)
unfolding load
known_commitment = refl

length-key_at_1 : length (key_at 1) ≡ 32
unfolding iter
length-key_at_1 = refl

verify_key_known_example :
    (Reaches up_env 0 4 (key_at 1) (key_at 2)
      × (verify_key up_env sender (key_at 1) committed
          ≡ (ok true, set_commitment sender (key_at 1) committed)))
    ⊎ ((¬ (Reaches up_env 0 4 (key_at 1) (key_at 2)))
        × (verify_key up_env sender (key_at 1) committed ≡ (ok false, committed)))
verify_key_known_example =
    verify_key_known up_env sender (key_at 1) (key_at 2) committed length-key_at_1 known_commitment

abbrev text : Bytes
text = 9 ∷ 8 ∷ []

-- A message of the sender, and its datagram.
abbrev sent_at : ℕ → ℕ → Bytes → Message
sent_at slot kind body = new_message sender slot (pos kind) body

abbrev wire : ℕ → ℕ → Bytes → Bytes
wire slot kind body = 16 ∷ slot ∷ 0 ∷ kind ∷ (sender ++ body)

wire-Arrives :
    (slot kind : ℕ) (body : Bytes) (r : Rcd)
    → Arrives up_env (wire slot kind body) (sent_at slot kind body) 5 r
unfolding of_wire
wire-Arrives slot kind body r = record { reads = refl; at = refl }

abbrev mac : Bytes
mac = up_env.hmac (key_at 1) text

-- The HMAC of the text has come in.
abbrev announced : Rcd
announced = record committed { received_hmacs = (mac, true) ∷ [] }

known_mac : load mac announced.received_hmacs ≡ some true
unfolding load
known_mac = rw (eqb_refl mac)

handle_key_message-Judged_example :
    Judged up_env
      (Reaches up_env 0 4 (key_at 1) (key_at 2))
      sender
      (key_at 1)
      text
      announced
      (handle_message up_env (wire 7 1 (key_at 1 ++ text)) announced)
handle_key_message-Judged_example =
    handle_key_message-Judged up_env (wire 7 1 (key_at 1 ++ text)) (sent_at 7 1 (key_at 1 ++ text))
      5 announced (key_at 1) text (key_at 2) true (wire-Arrives 7 1 (key_at 1 ++ text) announced)
      refl refl length-key_at_1 refl known_mac known_commitment

abbrev forged_mac : Bytes
forged_mac = up_env.hmac (key_at 2) text

abbrev after_mac : Rcd
after_mac = (handle_message up_env (wire 9 0 forged_mac) committed).1

length-key_at_2 : length (key_at 2) ≡ 32
unfolding iter
length-key_at_2 = refl

handle_message-forged_example :
    (handle_message up_env (wire 9 1 (key_at 2 ++ text)) after_mac).1.authenticated
    ≡ (sender, text) ∷ []
handle_message-forged_example =
    handle_message-forged up_env (wire 9 0 forged_mac) (wire 9 1 (key_at 2 ++ text))
      (sent_at 9 0 forged_mac) (sent_at 9 1 (key_at 2 ++ text)) 5 5 committed (key_at 2) text
      (wire-Arrives 9 0 forged_mac committed) refl refl
      (wire-Arrives 9 1 (key_at 2 ++ text) after_mac) refl refl length-key_at_2 refl
      known_commitment

-- A filter of eight bits, all set, which everything passes.
abbrev pub full : Filter
full = record { bitset = 255 ∷ []; k = 2; m = 8 }

pub full-IsFilter : IsFilter full
full-IsFilter = record { sized = omega arith; within = omega arith; bytes = (omega arith, tt) }

-- Two calls for slot 4, with one message stored.
abbrev stored_one : Map ℕ (List Bytes)
stored_one = (4, (5 ∷ []) ∷ []) ∷ []

store_race-Outcome_example :
    Outcome 4 text (6 ∷ []) (kept_at 4 stored_one) ((5 ∷ []) ∷ text ∷ []) ↔ (
      (turns : List Bool) × Ends 4
        (run_race 4 text (6 ∷ []) turns (starting stored_one))
        ((5 ∷ []) ∷ text ∷ []))
store_race-Outcome_example = store_race-Outcome 4 text (6 ∷ []) stored_one ((5 ∷ []) ∷ text ∷ [])

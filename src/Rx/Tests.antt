-- ===== src/Rx/Tests.antt =====
-- A text from the toy sender to a toy receiver, and datagrams from anyone.
use broadauth.Base.{
  ◌≡◌, load, true, List, Bool, ◌⊎◌, ◌↔◌, refl, Bytes, [], ◌∷◌, ◌++◌, replicate, some, arith,
}
use broadauth.Hashchain.{next_hash}
use broadauth.Hashchain.Spec.{iter, hashes, linear_at}
use broadauth.Hashchain.Drain.{next_hash-linear_at}
use broadauth.Rcd.Tests.{toy_32, seed_hash, to_wire}
use broadauth.Tx.{Tx, broadcast_data}
use broadauth.Tx.Announced.{Announced}
use broadauth.Tx.Tests.{lossy, tx_0}
use broadauth.Rx.{Rx, handle}
use broadauth.Rx.Delivery.{at_receiver, Printed, broadcast_delivered}
use broadauth.Rx.Race.{run_verifications, Ends, both_called, verify_race-Outcome}

abbrev rx_0 : Rx
rx_0 = record { received_hmacs = []; lines = [] }

abbrev no_spare : Bytes → Bytes
no_spare b = []

abbrev text : Bytes
text = 9 ∷ []

-- Hash 1 of the chain of three.
abbrev key_1 : Bytes
key_1 = iter toy_32 2 seed_hash

abbrev mac_wire : Bytes
mac_wire = 16 ∷ 5 ∷ 0 ∷ 0 ∷ (replicate 16 1 ++ lossy.hmac key_1 text)

abbrev key_wire : Bytes
key_wire = 16 ∷ 8 ∷ 0 ∷ 1 ∷ (replicate 16 1 ++ (key_1 ++ text))

abbrev announced : Tx
announced = (broadcast_data lossy (some 5) text tx_0).1

text-Announced : Announced lossy (some 5) text tx_0 announced
unfolding broadcast_data next_hash hashes iter to_wire
text-Announced = record {
  at = 5;
  key = key_1;
  chain = linear_at toy_32 3 seed_hash 1;
  bytes = mac_wire;
  slot_given = refl;
  key_given = (next_hash-linear_at toy_32 3 0 seed_hash refl (omega arith)).0;
  key_there = λ e. ground (arith, e);
  done = record { wire = refl; sent = refl; queue = refl; room = omega arith; chain = refl };
}

broadcast_delivered_example :
    Printed lossy no_spare text
      (lossy.hmac key_1 text)
      rx_0
      (handle
        (at_receiver lossy no_spare)
        key_wire
        (handle (at_receiver lossy no_spare) mac_wire rx_0).1).1
      (handle
        (at_receiver lossy no_spare)
        key_wire
        (handle
          (at_receiver lossy no_spare)
          key_wire
          (handle (at_receiver lossy no_spare) mac_wire rx_0).1).1).1
unfolding to_wire iter text-Announced
broadcast_delivered_example =
    broadcast_delivered lossy no_spare (some 5) 8 text key_wire tx_0 announced rx_0 text-Announced
      refl

-- The two datagrams, and the second again.
abbrev heard : List Bytes
heard = mac_wire ∷ key_wire ∷ key_wire ∷ (1 ∷ []) ∷ []

-- A key message and its replay at once, whose HMAC was received.
verify_race-Outcome_example : ((true ≡ true) ⊎ (true ≡ true)) ↔ (
    (turns : List Bool) × Ends
      (1 ∷ [])
      true
      (run_verifications (1 ∷ []) turns (both_called (1 ∷ []) true (((1 ∷ []), true) ∷ [])))
      true
      true)
unfolding load
verify_race-Outcome_example =
    verify_race-Outcome (1 ∷ []) true (((1 ∷ []), true) ∷ []) true true refl

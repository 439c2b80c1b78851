-- ===== src/Tx/Tests.antt =====
-- A sender of the toy hash, and a network that refuses its second datagram.
use broadauth.Base.{ℕ, ◌≡◌, refl, List, [], ◌∷◌, ◌++◌, replicate, some, nat_eqb, not}
use broadauth.Base.State.{Post}
use broadauth.Hashchain.Spec.{linear_at}
use broadauth.Rcd.{DisclosurePayload}
use broadauth.Rcd.Tests.{toy_32, toy_codec, seed_hash, to_wire}
use broadauth.Tx.{Tx, TxOutside, broadcast_data, disclose, worker_step}
use broadauth.Tx.Announced.{Announced, Lost, broadcast_data-Announced}
use broadauth.Tx.Pending.{Attempts, worker_step-Attempts}

abbrev pub lossy : TxOutside
lossy = record {
  hasher = toy_32;
  size_32 = refl;
  hmac = λ k b. toy_32.sum (k ++ b);
  length-hmac = λ k b. refl;
  codec = toy_codec;
  network = λ i b. not (nat_eqb i 1);
}

abbrev pub tx_0 : Tx
tx_0 = record {
  id = replicate 16 1;
  hashchain = linear_at toy_32 3 seed_hash 0;
  slot_duration = 2000;
  disclosure_delay = 3;
  disclosure_messages = [];
  queue_cap = 1024;
  sent = [];
  sends = 0;
}

broadcast_data-Announced_example :
    Post
      (λ _ s. Announced lossy (some 5) (9 ∷ []) tx_0 s)
      (Lost lossy tx_0)
      (broadcast_data lossy (some 5) (9 ∷ []) tx_0)
broadcast_data-Announced_example = broadcast_data-Announced lossy (some 5) (9 ∷ []) tx_0

abbrev for_slot : ℕ → DisclosurePayload
for_slot slot = record { message = slot ∷ []; key = replicate 32 2; target_slot = slot }

-- The second of three is refused and the third waits: the second is lost.
abbrev three : List DisclosurePayload
three = for_slot 4 ∷ for_slot 5 ∷ for_slot 9 ∷ []

lost_second : (worker_step lossy 5 three tx_0).pending ≡ for_slot 9 ∷ []
unfolding worker_step disclose to_wire
lost_second = refl

-- With none waiting it is tried again.
kept_second : (worker_step lossy 5 (for_slot 4 ∷ for_slot 5 ∷ []) tx_0).pending ≡ for_slot 5 ∷ []
unfolding worker_step disclose to_wire
kept_second = refl

worker_step-Attempts_example :
    Attempts lossy 5 three tx_0
      (worker_step lossy 5 three tx_0).pending
      (worker_step lossy 5 three tx_0).tx
worker_step-Attempts_example = worker_step-Attempts lossy 5 three tx_0

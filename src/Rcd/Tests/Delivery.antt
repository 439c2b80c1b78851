-- ===== src/Rcd/Tests/Delivery.antt =====
-- A message on its way from one toy RCD to another.
use broadauth.Base.{ℕ, ◌≡◌, refl, Bytes, [], ◌∷◌, ◌++◌, replicate, load, bytes_eq, arith}
use broadauth.Hashchain.Spec.{iter}
use broadauth.Rcd.{Rcd, deterministic}
use broadauth.Rcd.Receive.{handle_message}
use broadauth.Rcd.Delivery.{Sent, delivered}
use broadauth.Rcd.Tests.{toy_32, up_env, seed_hash, rcd_0, to_wire}

abbrev text : Bytes
text = 9 ∷ 8 ∷ []

abbrev key_at : ℕ → Bytes
key_at k = iter toy_32 k seed_hash

-- The receiver knows hash 1 of the chain, and the sender is at hash 2.
abbrev receiver : Rcd
receiver = record (rcd_0 deterministic) { commitment_keys = (replicate 16 1, key_at 2) ∷ [] }

abbrev mac_wire : Bytes
mac_wire = 16 ∷ 5 ∷ 0 ∷ 0 ∷ (replicate 16 1 ++ up_env.hmac (key_at 1) text)

abbrev key_wire : Bytes
key_wire = 16 ∷ 7 ∷ 0 ∷ 1 ∷ (replicate 16 1 ++ (key_at 1 ++ text))

toy_Sent : Sent up_env 3 2 1 5 7 seed_hash text mac_wire key_wire (rcd_0 deterministic) receiver
unfolding to_wire iter load
toy_Sent = record {
  whole_key = refl;
  earlier = omega arith;
  within = omega arith;
  near = omega arith;
  announced = refl;
  disclosed = refl;
  committed = refl;
}

delivered_example :
    (handle_message up_env key_wire (handle_message up_env mac_wire receiver).1).1.authenticated
    ≡ (replicate 16 1, text) ∷ []
delivered_example =
    delivered up_env 3 2 1 5 7 5 5 seed_hash text mac_wire key_wire (rcd_0 deterministic) receiver
      toy_Sent refl refl refl

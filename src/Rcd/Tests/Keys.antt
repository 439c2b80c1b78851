-- ===== src/Rcd/Tests/Keys.antt =====
-- The key of a slot on the toy outside.
use broadauth.Base.{
  ℕ, ◌+◌, ◌*◌, ◌++◌, ◌≡◌, refl, Bytes, replicate, some, ok, running, arith, inl, inr, true,
}
use broadauth.Base.State.{Post}
use broadauth.Hashchain.Spec.{iter, hashes, linear_at}
use broadauth.Hashchain.Existing.{existing-hashes}
use broadauth.Rcd.{KeyState}
use broadauth.Rcd.Keys.{be_bytes, current_slot_key}
use broadauth.Rcd.Keys.Slots.{KeyInv}
use broadauth.Rcd.Keys.Sound.{Answer, current_slot_key-Answer}
use broadauth.Rcd.Keys.Rounds.{Serves}
use broadauth.Rcd.Keys.Total.{Responsive, current_slot_key_total}
use broadauth.Rcd.Keys.Spin.{current_slot_key_spins}
use broadauth.Rcd.Tests.{toy_32, toy_env, up_env, toy_owner, seed_hash, no_keys, slot_5_keys}

abbrev some_id : Bytes
some_id = replicate 16 1

no_keys-KeyInv : KeyInv up_env no_keys
no_keys-KeyInv = record { whole_key = refl; keyed = inl refl }

-- The first key of a chain that was requested at the slot 5.
abbrev pub begun_keys : KeyState
begun_keys = record slot_5_keys {
  hash_chain = some (linear_at toy_32 3 seed_hash 1);
  cached_key = iter toy_32 2 seed_hash;
  slot_calls = 1;
  owner_calls = 1;
}

chain_sent :
    toy_owner 0 (some_id ++ be_bytes 32 5) ((3 + 1) * 32) ≡ some (hashes toy_32 3 seed_hash)
unfolding toy_owner
chain_sent = refl

pub begun_keys-KeyInv : KeyInv up_env begun_keys
begun_keys-KeyInv = record {
  whole_key = unfold iter in refl;
  keyed = inr (record {
    n = 3;
    k = 1;
    begin = 5;
    last = seed_hash;
    chain = hashes toy_32 3 seed_hash;
    begun = record { call = 0; before = omega arith; answer = refl };
    sent = record { id = some_id; len = 3; call = 0; before = omega arith; answer = chain_sent };
    parsed = existing-hashes toy_32 3 seed_hash refl;
    length_last = refl;
    holds = refl;
    given = omega arith;
    within = omega arith;
    key = refl;
    slot = refl;
  });
}

toy_Serves : Serves up_env 3
unfolding toy_owner
toy_Serves i req = (seed_hash, refl, refl)

toy_Responsive : Responsive up_env 3
toy_Responsive = record {
  some_hash = omega arith;
  serves = toy_Serves;
  answers = λ i. (5, refl, omega arith);
  steady = λ i b c e e'. (ground (arith, e, e'));
}

current_slot_key-Answer_example :
    Post (Answer up_env) (KeyInv up_env) (current_slot_key up_env 2 some_id 3 no_keys)
current_slot_key-Answer_example = current_slot_key-Answer up_env 2 some_id 3 no_keys no_keys-KeyInv

current_slot_key_total_example :
    (a : ℕ × Bytes) × (t : KeyState) × (current_slot_key up_env 2 some_id 3 begun_keys ≡ (ok a, t))
current_slot_key_total_example =
    current_slot_key_total up_env 0 some_id 3 begun_keys toy_Responsive begun_keys-KeyInv

current_slot_key_spins_example :
    (current_slot_key (toy_env (some 0) true) 4 some_id 3 no_keys).0 ≡ running
current_slot_key_spins_example =
    current_slot_key_spins (toy_env (some 0) true) 4 some_id 3 no_keys (omega arith) toy_Serves
      (λ i. refl) (refl, refl)

-- ===== src/Tx/Make.antt =====
-- How a `Tx` is made. A broadcaster that cannot be made panics.
use broadauth.Base.{pos, Bytes, [], ◌∷◌, Result, ok, err, panic, ◌>>=◌, false}
use broadauth.Hashchain.{new_linear}
use broadauth.Broadcast.{Opening, new_udp}
use broadauth.Tx.{Tx, TxOutside}

-- The text `test`.
abbrev pub test_seed : Bytes
test_seed = 116 ∷ 101 ∷ 115 ∷ 116 ∷ []

-- An outcome whose error becomes a panic.
abbrev pub must {ℓ} : {A : Type ℓ} → Result A → Result A
must (err e) = panic
must r = r

-- `NewTxWithUDPConfig`, by what `net` answers: the chain is always of the text `test`.
unfoldable pub new_tx : TxOutside → Bytes → Opening → Result Tx
unfolding new_udp
new_tx out id opening = must (new_udp opening false).0 >>= λ _.
    new_linear out.hasher test_seed (pos 100) >>= λ chain. ok (record {
      id = id;
      hashchain = chain;
      slot_duration = 2000;
      disclosure_delay = 3;
      disclosure_messages = [];
      queue_cap = 1024;
      sent = [];
      sends = 0;
    })

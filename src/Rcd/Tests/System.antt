-- ===== src/Rcd/Tests/System.antt =====
-- A run of the goroutines of a toy RCD.
use broadauth.Base.{[], ◌∷◌, arith}
use broadauth.Rcd.{deterministic}
use broadauth.Rcd.Send.{traffic, broadcast_step}
use broadauth.Rcd.Disclose.{worker_step}
use broadauth.Rcd.Receive.{handle_message}
use broadauth.Rcd.System.{System, here, next, sends, discloses, receives}
use broadauth.Rcd.System.Reached.{SystemInv, Reach-SystemInv}
use broadauth.Rcd.Tests.{up_env, rcd_0}
use broadauth.Rcd.Tests.Keys.{begun_keys, begun_keys-KeyInv}

abbrev idle : System
idle = record { rcd = record (rcd_0 deterministic) { keys = begun_keys }; pending = [] }

idle-SystemInv : SystemInv up_env idle
idle-SystemInv = record {
  rcd = record {
    keys = begun_keys-KeyInv;
    queue = omega arith;
    payloads = tt;
    fits = ground arith;
    counter = omega arith;
  };
  pending = tt;
}

-- After a broadcast, an unreadable datagram and the slot 7.
abbrev sending : System
sending = record idle { rcd = broadcast_step up_env 1 traffic idle.rcd }

abbrev receiving : System
receiving = record sending { rcd = (handle_message up_env (16 ∷ 5 ∷ []) sending.rcd).1 }

abbrev disclosing : System
disclosing = record {
  rcd = (worker_step up_env 7 receiving.pending receiving.rcd).rcd;
  pending = (worker_step up_env 7 receiving.pending receiving.rcd).pending;
}

Reach-SystemInv_example : SystemInv up_env disclosing
Reach-SystemInv_example =
    Reach-SystemInv up_env idle-SystemInv
      (next (next (next here (sends 1 traffic)) (receives (16 ∷ 5 ∷ []))) (discloses 7))

-- ===== src/Rcd/System/Reached.antt =====
-- The invariant of a whole RCD.
use broadauth.Base.{All}
use broadauth.Rcd.{Env}
use broadauth.Rcd.System.{System, Turn, sends, discloses, receives, cleans, Reach, here, next}
use broadauth.Rcd.System.Bounded.{Bounded, IsPayload}
use broadauth.Rcd.System.Sent.{broadcast_step-Bounded, worker_step-Bounded}
use broadauth.Rcd.System.Received.{handle_message-Bounded, cleanup_step-Bounded}

-- The bounds of the RCD, and whole payloads in the worker's list.
pub record SystemInv (env : Env) (s : System) : Type 0 where
  pub rcd : Bounded env s.rcd
  pub pending : All IsPayload s.pending

module _ (env : Env) where
  Turn-SystemInv : {s t : System} → Turn env s t → SystemInv env s → SystemInv env t
  Turn-SystemInv {s} (sends fuel tick) v = record {
    rcd = broadcast_step-Bounded env fuel tick s.rcd v.rcd;
    pending = v.pending;
  }
  Turn-SystemInv {s} (discloses slot) v =
      let (b, p) = worker_step-Bounded env slot s.pending s.rcd v.rcd v.pending in
      record { rcd = b; pending = p }
  Turn-SystemInv {s} (receives datagram) v = record {
    rcd = handle_message-Bounded env datagram s.rcd v.rcd;
    pending = v.pending;
  }
  Turn-SystemInv {s} cleans v = record {
    rcd = cleanup_step-Bounded env s.rcd v.rcd;
    pending = v.pending;
  }

  -- Whatever turns the goroutines of an RCD take, in any order and with any answers and datagrams
  -- from outside: the cached slot is 0, or the cached key
  -- is hash k of a chain that the owner sent for a slot `begin` that the source had given, and the
  -- cached slot is `begin + k - 1`; the channel of disclosures is
  -- within its capacity, every queued key has 32 bytes and every counter fits 64 bits.
  pub Reach-SystemInv : {s t : System} → SystemInv env s → Reach env s t → SystemInv env t
  Reach-SystemInv v here = v
  Reach-SystemInv v (next r step) = Turn-SystemInv step (Reach-SystemInv v r)

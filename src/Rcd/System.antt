-- ===== src/Rcd/System.antt =====
-- An RCD with all its goroutines: what each of them does in one turn, in any order. The worker that
-- discloses keys has a list of its own. Each turn runs to its end before the next.
pub mod Bounded
pub mod Sent
pub mod Verified
pub mod Received
pub mod Reached
use broadauth.Base.{ℕ, Bytes, List, []}
use broadauth.Rcd.{Env, Rcd, DisclosurePayload}
use broadauth.Rcd.Send.{Tick, broadcast_step}
use broadauth.Rcd.Disclose.{worker_step}
use broadauth.Rcd.Receive.{handle_message}
use broadauth.Rcd.Cleanup.{cleanup_step}

pub record System : Type 0 where
  pub rcd : Rcd
  pub pending : List DisclosurePayload

-- The outcome of a turn is logged. A panic ends the program, so any turn after it is no turn of
-- the program; the relation allows it all the same.
pub data Turn (env : Env) (s : System) : System → Type 0 where
  sends :
      (fuel : ℕ) (tick : Tick) → Turn env s (record s { rcd = broadcast_step env fuel tick s.rcd })
  discloses :
      (slot : ℕ)
      → Turn env s (record {
        rcd = (worker_step env slot s.pending s.rcd).rcd;
        pending = (worker_step env slot s.pending s.rcd).pending;
      })
  receives :
      (datagram : Bytes) → Turn env s (record s { rcd = (handle_message env datagram s.rcd).1 })
  cleans : Turn env s (record s { rcd = cleanup_step env s.rcd })

pub data Reach (env : Env) (s : System) : System → Type 0 where
  here : Reach env s s
  next : {t u : System} → Reach env s t → Turn env t u → Reach env s u

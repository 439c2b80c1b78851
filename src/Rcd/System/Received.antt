-- ===== src/Rcd/System/Received.antt =====
-- The receiver and the cleanup keep the bounds.
use broadauth.Base.{
  nat_eq, ℕ, ◌+◌, Bytes, length, Option, some, none, Bool, Result, ok, err, panic, running, arith,
  Bool-cases, inl, inr, ◌==◌, int_eq, delete, bytes_eq, slice,
}
use broadauth.Base.State.{carry-keeps}
use broadauth.Message.{Message, kind_data, kind_key_message}
use broadauth.Rcd.{Env, Rcd, KeyState}
use broadauth.Rcd.Keys.{get_slot, answered}
use broadauth.Rcd.Keys.Slots.{KeyInv, Keyed}
use broadauth.Rcd.Metered.{count_hmac}
use broadauth.Rcd.Receive.{
  array_32, count_received, timed_verify, disclosed, handle_key_message, handle_data, handle_hmac,
  store_unverified, dispatch, on_slot, on_message, handle_message,
}
use broadauth.Rcd.Cleanup.{cleanup, cleanup_step}
use broadauth.Rcd.System.Bounded.{Bounded, count_hmac-Bounded}
use broadauth.Rcd.System.Verified.{timed_verify-Bounded, judged-Bounded}

module _ (env : Env) where
  open env use {hasher, hmac}

  disclosed-Bounded :
      (o : Option Bool) (m : Message) (key payload : Bytes) (r : Rcd)
      → Bounded env r
      → Bounded env (disclosed env o m key payload r).1
  unfolding disclosed
  disclosed-Bounded none m key payload r b = b
  disclosed-Bounded (some _) m key payload r b =
      carry-keeps (Bounded env) (timed_verify env m.sender_id key r) _
        (timed_verify-Bounded env m.sender_id key r b)
        λ verified r1 b1. judged-Bounded env verified r1.mode m payload r1 b1

  handle_key_message-Bounded :
      (m : Message) (r : Rcd) → Bounded env r → Bounded env (handle_key_message env m r).1
  unfolding handle_key_message
  handle_key_message-Bounded m r b =
      carry-keeps (Bounded env) (slice m.body 0 32, r) _ b
        λ key r1 b1.
          carry-keeps (Bounded env) (slice m.body 32 (length m.body), r1) _ b1
            λ payload r2 b2. disclosed-Bounded _ m key payload _ (
              spent (array_32 (hmac key payload)) (count_hmac env r2)
                (count_hmac-Bounded env r2 b2))
    where
      spent :
          (mac : Bytes) (s : Rcd)
          → Bounded env s
          → Bounded env (record s { received_hmacs = delete mac s.received_hmacs })
      spent mac s b = ground arith

  dispatch-Bounded :
      (m : Message) (now : ℕ) (r : Rcd) → Bounded env r → Bounded env (dispatch env m now r).1
  unfolding dispatch handle_data handle_hmac store_unverified
  dispatch-Bounded m now r b = elim (Bool-cases (m.kind == kind_data)) [
    | inl d ↦ rw d (ground arith)
    | inr nd ↦ elim (Bool-cases (m.kind == kind_key_message)) [
      | inl k ↦ rw (nd, k) (handle_key_message-Bounded m r b)
      | inr nk ↦ rw (nd, nk) (ground arith)
    ]
  ]

  -- A call of the slot source changes only its count.
  KeyInv-calls :
      (s : KeyState) → KeyInv env s → KeyInv env (record s { slot_calls = s.slot_calls + 1 })
  KeyInv-calls s k = record {
    whole_key = k.whole_key;
    keyed = elim k.keyed [ inl z ↦ inl z | inr kd ↦ inr (moved kd) ];
  }
    where
      moved : Keyed env s → Keyed env (record s { slot_calls = s.slot_calls + 1 })
      moved kd = record {
        n = kd.n;
        k = kd.k;
        begin = kd.begin;
        last = kd.last;
        chain = kd.chain;
        begun = record {
          call = kd.begun.call;
          before = omega (arith, kd.begun.before);
          answer = kd.begun.answer;
        };
        sent = kd.sent;
        parsed = kd.parsed;
        length_last = kd.length_last;
        holds = kd.holds;
        given = kd.given;
        within = kd.within;
        key = kd.key;
        slot = kd.slot;
      }

  asked-Bounded :
      (r : Rcd) → Bounded env r → Bounded env (record r { keys = (get_slot env r.keys).1 })
  unfolding get_slot
  asked-Bounded r b = by_answer (env.get_slot r.keys.slot_calls)
    where
      s : KeyState
      s = record (r.keys) { slot_calls = r.keys.slot_calls + 1 }

      inv : KeyInv env s
      inv = KeyInv-calls r.keys b.keys

      by_answer : (o : Option ℕ) → Bounded env (record r { keys = (answered o s).1 })
      by_answer none = record {
        keys = inv;
        queue = b.queue;
        payloads = b.payloads;
        fits = b.fits;
        counter = b.counter;
      }
      by_answer (some slot) = record {
        keys = inv;
        queue = b.queue;
        payloads = b.payloads;
        fits = b.fits;
        counter = b.counter;
      }

  on_slot-Bounded :
      (m : Message) (out : Result ℕ × KeyState) (r : Rcd)
      → Bounded env (record r { keys = out.1 })
      → Bounded env (on_slot env m out r).1
  unfolding on_slot
  on_slot-Bounded m (ok now, ks) r b = dispatch-Bounded m now (record r { keys = ks }) b
  on_slot-Bounded m (err e, ks) r b = b
  on_slot-Bounded m (panic, ks) r b = b
  on_slot-Bounded m (running, ks) r b = b

  on_message-Bounded :
      (o : Option Message) (r : Rcd) → Bounded env r → Bounded env (on_message env o r).1
  unfolding on_message
  on_message-Bounded none r b = b
  on_message-Bounded (some m) r b = on_slot-Bounded m (get_slot env r.keys) r (asked-Bounded r b)

  count_received-Bounded : (n : ℕ) (r : Rcd) → Bounded env r → Bounded env (count_received n r)
  unfolding count_received
  count_received-Bounded n r b = ground arith

  pub handle_message-Bounded :
      (datagram : Bytes) (r : Rcd) → Bounded env r → Bounded env (handle_message env datagram r).1
  unfolding handle_message
  handle_message-Bounded datagram r b =
      on_message-Bounded (env.codec.unmarshal datagram) _
        (count_received-Bounded (length datagram) r b)

  pub cleanup_step-Bounded : (r : Rcd) → Bounded env r → Bounded env (cleanup_step env r)
  unfolding cleanup_step
  cleanup_step-Bounded r b = by_outcome (get_slot env r.keys) (asked-Bounded r b)
    where
      by_outcome :
          (out : Result ℕ × KeyState)
          → Bounded env (record r { keys = out.1 })
          → Bounded env (cleanup out r)
      by_outcome (ok now, ks) b = ground arith
      by_outcome (err e, ks) b = b
      by_outcome (panic, ks) b = b
      by_outcome (running, ks) b = b

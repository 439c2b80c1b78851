-- ===== src/Rcd/System/Sent.antt =====
-- The sender and the disclosure worker keep the bounds.
use broadauth.Base.{ℕ, Bytes, List, [], ◌∷◌, ◌++◌, length, All, Option, some, none, arith}
use broadauth.Base.State.{carry-keeps}
use broadauth.Message.{new_message, kind_data}
use broadauth.Bloom.{to_bytes, new_filter}
use broadauth.Bloom.Filled.{add_all}
use broadauth.Rcd.{Env, Rcd, Mode, deterministic, probabilistic, DisclosurePayload, add_64}
use broadauth.Rcd.Metered.{slot_key, marshalled, timed_broadcast, count_data}
use broadauth.Rcd.Send.{
  broadcast, broadcast_deterministic, authenticate, flush_items, flush_batch, broadcast_step, Tick,
  traffic, slot_tick,
}
use broadauth.Rcd.Disclose.{give_out, disclose, worker_step}
use broadauth.Rcd.Disclose.Due.{Discloses, worker_step-Discloses, disclose_all}
use broadauth.Rcd.System.Bounded.{
  Bounded, IsPayload, slot_key-Bounded, marshalled-Bounded, timed_broadcast-Bounded,
  count_data-Bounded, count_overhead-Bounded, announce-Bounded,
}

module _ (env : Env) where
  broadcast_deterministic-Bounded :
      (fuel : ℕ) (item : Bytes) (r : Rcd)
      → Bounded env r
      → Bounded env (broadcast_deterministic env fuel item r).1
  unfolding broadcast_deterministic
  broadcast_deterministic-Bounded fuel item r b =
      carry-keeps (Bounded env) (slot_key env fuel r) _ (slot_key-Bounded env fuel r b)
        λ sk r1 b1. announce-Bounded env sk.0 sk.1 item r1 b1

  authenticate-Bounded :
      (fuel : ℕ) (mode : Mode) (item : Bytes) (r : Rcd)
      → Bounded env r
      → Bounded env (authenticate env fuel mode item r).1
  unfolding authenticate
  authenticate-Bounded fuel deterministic item r b = broadcast_deterministic-Bounded fuel item r b
  authenticate-Bounded fuel probabilistic item r b = ground arith

  broadcast-Bounded :
      (fuel : ℕ) (item : Bytes) (r : Rcd)
      → Bounded env r
      → Bounded env (broadcast env fuel item r).1
  unfolding broadcast
  broadcast-Bounded fuel item r b =
      carry-keeps (Bounded env) (slot_key env fuel r) _ (slot_key-Bounded env fuel r b) λ sk r1 b1.
        carry-keeps (Bounded env)
          (marshalled env (env.codec.marshal (new_message r1.id sk.0 kind_data item)) r1) _
          (marshalled-Bounded env _ r1 b1)
          λ bytes r2 b2.
            carry-keeps (Bounded env) (timed_broadcast env bytes (count_data (length bytes) r2)) _
              (timed_broadcast-Bounded env bytes _ (count_data-Bounded env (length bytes) r2 b2))
              λ _ r3 b3. authenticate-Bounded fuel r3.mode item r3 b3

  flush_items-Bounded :
      (fuel slot : ℕ) (items : List Bytes) (r : Rcd)
      → Bounded env r
      → Bounded env (flush_items env fuel slot items r).1
  unfolding flush_items
  flush_items-Bounded fuel slot [] r b = b
  flush_items-Bounded fuel slot (item ∷ items) r b =
      let r' = record r { message_buffer = [] } in
      let b' : Bounded env r' = ground arith in
      carry-keeps (Bounded env)
        (add_all (new_filter env.float64 (length (item ∷ items)) env.error_rate) (item ∷ items), r')
        _ b'
        λ filter r1 b1.
          carry-keeps (Bounded env) (slot_key env fuel r1) _ (slot_key-Bounded env fuel r1 b1)
            λ sk r2 b2. announce-Bounded env slot sk.1 (to_bytes filter) r2 b2

  pub broadcast_step-Bounded :
      (fuel : ℕ) (tick : Tick) (r : Rcd)
      → Bounded env r
      → Bounded env (broadcast_step env fuel tick r)
  unfolding broadcast_step flush_batch
  broadcast_step-Bounded fuel traffic r b =
      let counted : Bounded env (record r { message_counter = add_64 r.message_counter 1 }) =
        ground arith in
      broadcast-Bounded fuel (env.payload_text r.id r.message_counter) _ counted
  broadcast_step-Bounded fuel (slot_tick slot) r b = flush_items-Bounded fuel _ r.message_buffer r b

  disclose-Bounded :
      (slot : ℕ) (d : DisclosurePayload) (r : Rcd)
      → Bounded env r
      → Bounded env (disclose env slot d r)
  unfolding disclose
  disclose-Bounded slot d r b = given_out _ r b
    where
      given_out : (o : Option Bytes) (r : Rcd) → Bounded env r → Bounded env (give_out env o r)
      given_out none r b = b
      given_out (some bytes) r b =
          timed_broadcast-Bounded env bytes _ (count_overhead-Bounded env (length bytes) r b)

  disclose_all-Bounded :
      (slot : ℕ) (ds : List DisclosurePayload) (r : Rcd)
      → Bounded env r
      → Bounded env (disclose_all env slot ds r)
  unfolding disclose_all
  disclose_all-Bounded slot [] r b = b
  disclose_all-Bounded slot (d ∷ ds) r b =
      disclose_all-Bounded slot ds _ (disclose-Bounded slot d r b)

  All-append :
      (xs ys : List DisclosurePayload)
      → All IsPayload xs
      → All IsPayload ys
      → All IsPayload (xs ++ ys)
  All-append [] ys p q = q
  All-append (x ∷ xs) ys p q = (p.0, All-append xs ys p.1 q)

  All-rest : (xs ys : List DisclosurePayload) → All IsPayload (xs ++ ys) → All IsPayload ys
  All-rest [] ys p = p
  All-rest (x ∷ xs) ys p = All-rest xs ys p.1

  -- The worker's own list keeps whole payloads too.
  pub worker_step-Bounded :
      (slot : ℕ) (pending : List DisclosurePayload) (r : Rcd)
      → Bounded env r
      → All IsPayload pending
      → Bounded env (worker_step env slot pending r).rcd
        × All IsPayload (worker_step env slot pending r).pending
  worker_step-Bounded slot pending r b p = (
    rw d.given (disclose_all-Bounded slot d.out _ emptied),
    All-rest d.out _ (rw d.splits (All-append pending r.disclosure_messages p b.payloads)),
  )
    where
      d :
          Discloses env slot
            (pending ++ r.disclosure_messages)
            r
            (worker_step env slot pending r).pending
            (worker_step env slot pending r).rcd
      d = worker_step-Discloses env slot pending r

      emptied : Bounded env (record r { disclosure_messages = [] })
      emptied = ground arith

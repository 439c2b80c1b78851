-- ===== src/Rcd/Cleanup/Retained.antt =====
-- Which messages a cleanup leaves.
use broadauth.Base.{
  ℕ, ◌+◌, ◌%◌, ◌^◌, ◌<◌, ◌≤◌, ◌≡◌, ap, ◌∙◌, ltb, lt→ltb, le→ltb, Bool, Option, Bytes, List, [], ◌∷◌,
  Map, if◌then◌else◌, some, none, load, nat_eq, arith,
}
use broadauth.Rcd.{Env, Rcd}
use broadauth.Rcd.Keys.{get_slot}
use broadauth.Rcd.Cleanup.{is_stale, sweep, cleanup_step}

load-sweep :
    (delay current slot : ℕ) (m : Map ℕ (List Bytes))
    → load slot (sweep delay current m)
      ≡ (if is_stale delay current slot then none else load slot m)
unfolding load sweep
load-sweep delay current slot [] = ground arith
load-sweep delay current slot ((j, items) ∷ m) =
    ground (arith, load-sweep delay current slot m, ap (is_stale delay current))

-- Without an overflow the test is a comparison of the sum.
is_stale-fits :
    (delay current slot : ℕ)
    → slot + delay + 20 < 2 ^ 64
    → is_stale delay current slot ≡ ltb (slot + delay + 20) current
unfolding is_stale
is_stale-fits delay current slot fits =
    let sum_of : (slot + (delay + 20) % 2 ^ 64) % 2 ^ 64 ≡ slot + delay + 20 = omega arith in
    ap (λ n. ltb n current) sum_of

module _ (env : Env) where
  swept :
      (now slot : ℕ) (r : Rcd)
      → env.get_slot r.keys.slot_calls ≡ some now
      → load slot (cleanup_step env r).unverified_msgs
        ≡ (if is_stale r.disclosure_delay now slot then none else load slot r.unverified_msgs)
  unfolding cleanup_step get_slot
  swept now slot r e = rw e (load-sweep r.disclosure_delay now slot r.unverified_msgs)

  -- With an answer `now` of the slot source, and if the slot, the disclosure delay and 20 add up to
  -- less than 2^64: a cleanup drops what is kept for the slot if this sum is before `now`, and keeps
  -- it unchanged if not.
  pub cleanup_step-load :
      (now slot : ℕ) (r : Rcd)
      → env.get_slot r.keys.slot_calls ≡ some now
      → slot + r.disclosure_delay + 20 < 2 ^ 64
      → (slot + r.disclosure_delay + 20 < now
          → load slot (cleanup_step env r).unverified_msgs ≡ none)
        × (now ≤ slot + r.disclosure_delay + 20
            → load slot (cleanup_step env r).unverified_msgs ≡ load slot r.unverified_msgs)
  cleanup_step-load now slot r e fits = (
    λ before.
        swept now slot r e
        ∙ ap chosen (is_stale-fits r.disclosure_delay now slot fits ∙ lt→ltb _ now before),
    λ not_before.
        swept now slot r e
        ∙ ap chosen (is_stale-fits r.disclosure_delay now slot fits ∙ le→ltb _ now not_before),
  )
    where
      chosen : Bool → Option (List Bytes)
      chosen stale = if stale then none else load slot r.unverified_msgs

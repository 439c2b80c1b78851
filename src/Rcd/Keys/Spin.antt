-- ===== src/Rcd/Keys/Spin.antt =====
-- `CurrentSlotKey` at slot 0.
use broadauth.Base.{
  ℕ, zero, suc, ◌+◌, ◌-◌, ◌≤◌, ◌≡◌, refl, ap, ◌∙◌, Bytes, some, Result, ok, running, nat_eqb_iff,
}
use broadauth.Hashchain.Spec.{length-iter}
use broadauth.Rcd.{Env, KeyState}
use broadauth.Rcd.Keys.{get_slot, advance, is_missing, slot_round, current_slot_key}
use broadauth.Rcd.Keys.Slots.{Blank}
use broadauth.Rcd.Keys.Sound.{or_true}
use broadauth.Rcd.Keys.Rounds.{Serves, refilled, refill_lem, round_again}

module _ (env : Env) where
  open env use {hasher}

  spin_round :
      (id : Bytes) (len : ℕ) (s : KeyState)
      → 1 ≤ len
      → Serves env len
      → ((i : ℕ) → env.get_slot i ≡ some 0)
      → Blank env s
      → (t : KeyState) × (slot_round env id len s ≡ (ok tt, t)) × Blank env t
  spin_round id len s pos serves zeros b =
      let m = or_true (is_missing env s.hash_chain) _ ((nat_eqb_iff s.cached_key_slot 0).1 b.1) in
      let (x, l, run) = refill_lem env id len 0 s pos b.0 serves (zeros s.slot_calls) in
      (
        record (refilled env s len x 0) { slot_calls = s.slot_calls + 1 + 1 },
        unfold slot_round get_slot advance in rw (m, run, zeros (s.slot_calls + 1)),
        (length-iter hasher (len - 1) x l, refl),
      )

  -- While the source says slot 0, with an owner that serves chains of at least one hash and no
  -- slot yet, CurrentSlotKey never returns: it runs out of any fuel.
  pub current_slot_key_spins :
      (fuel : ℕ) (id : Bytes) (len : ℕ) (s : KeyState)
      → 1 ≤ len
      → Serves env len
      → ((i : ℕ) → env.get_slot i ≡ some 0)
      → Blank env s
      → (current_slot_key env fuel id len s).0 ≡ running
  current_slot_key_spins zero id len s pos serves zeros b = unfold current_slot_key in refl
  current_slot_key_spins (suc fuel) id len s pos serves zeros b =
      let (t, run, b') = spin_round id len s pos serves zeros b in
      ap (λ (r : Result (ℕ × Bytes) × KeyState). r.0) (round_again env fuel id len s t run b'.1)
      ∙ current_slot_key_spins fuel id len t pos serves zeros b'

-- ===== src/Rcd/Keys/Total.antt =====
-- When `CurrentSlotKey` returns: on an owner that serves chains and a slot source that moves by
-- less than a chain between two answers, within two rounds.
use broadauth.Base.{
  ℕ, suc, ◌+◌, ◌-◌, ◌≤◌, ◌<◌, ◌≡◌, ◌≢◌, ◌⊎◌, inl, inr, refl, sym, ◌∙◌, Bytes, arith, some, true,
  false, ok, Bool-cases, nat_eqb_iff, ltb, ltb→lt, ltb→le,
}
use broadauth.Hashchain.Spec.{length-iter}
use broadauth.Rcd.{Env, KeyState}
use broadauth.Rcd.Keys.{get_slot, advance, is_missing, slot_round, current_slot_key}
use broadauth.Rcd.Keys.Slots.{Keyed, KeyInv, Blank}
use broadauth.Rcd.Keys.Advance.{at_hash, advance_lem, advance_exhausted}
use broadauth.Rcd.Keys.Sound.{or_false, or_true, missing, Blank-of_missing, Keyed-of_present}
use broadauth.Rcd.Keys.Rounds.{Serves, refill_lem, round_ends, round_again}

module _ (env : Env) where
  open env use {hasher}

  -- The environment answers: the owner with chains, the slot source with slots from 1 on, and
  -- two answers in a row are less than a chain apart.
  pub record Responsive (len : ℕ) : Type 0 where
    pub some_hash : 1 ≤ len
    pub serves : Serves env len
    pub answers : (i : ℕ) → (c : ℕ) × (env.get_slot i ≡ some c) × (1 ≤ c)
    pub steady :
        (i b c : ℕ)
        → env.get_slot i ≡ some b
        → env.get_slot (i + 1) ≡ some c
        → (b ≤ c) × (c < b + len)

  round-Blank :
      (id : Bytes) (len : ℕ) (s : KeyState)
      → Responsive len
      → Blank env s
      → missing env s ≡ true
      → (t : KeyState) × (slot_round env id len s ≡ (ok tt, t)) × (t.cached_key_slot ≢ 0)
  round-Blank id len s r b m = first_answer (r.answers s.slot_calls) (r.answers (s.slot_calls + 1))
    where
      first_answer :
          (b : ℕ) × (env.get_slot s.slot_calls ≡ some b) × (1 ≤ b)
          → (c : ℕ) × (env.get_slot (s.slot_calls + 1) ≡ some c) × (1 ≤ c)
          → (t : KeyState) × (slot_round env id len s ≡ (ok tt, t)) × (t.cached_key_slot ≢ 0)
      first_answer (begin, at, pos) (c, at', _) =
          let (x, l, run) = refill_lem env id len begin s r.some_hash b.0 r.serves at in
          let (le, lt) = r.steady s.slot_calls begin c at at' in
          (
            at_hash env
                (record s { slot_calls = s.slot_calls + 1 + 1; owner_calls = s.owner_calls + 1 })
                len x (1 + (c - begin)) (begin + (c - begin)),
            unfold slot_round get_slot in
                rw (m, run, at')
                  (advance_lem env (c - begin) len 1 begin x
                    (record s {
                      slot_calls = s.slot_calls + 1 + 1;
                      owner_calls = s.owner_calls + 1;
                    })
                    l (omega arith)),
            λ z. absurd (omega arith),
          )

  round-Keyed :
      (id : Bytes) (len : ℕ) (s : KeyState)
      → Responsive len
      → Keyed env s
      → missing env s ≡ false
      → (t : KeyState) × (slot_round env id len s ≡ (ok tt, t))
        × ((t.cached_key_slot ≢ 0) ⊎ Blank env t)
  round-Keyed id len s r kd m = answered_by (r.answers s.slot_calls)
    where
      open kd use {n, k, last}

      asked : KeyState
      asked = record s { slot_calls = s.slot_calls + 1 }

      same : asked ≡ at_hash env asked n last k s.cached_key_slot
      same = λ i. record asked { hash_chain = kd.holds i; cached_key = kd.key i }

      slot_ne : s.cached_key_slot ≢ 0
      slot_ne z =
          cc (
            sym (or_false (is_missing env s.hash_chain) _ m)
            ∙ (nat_eqb_iff s.cached_key_slot 0).1 z)

      Outcome : ℕ → Type 0
      Outcome c =
          (t : KeyState) × (advance env (c - s.cached_key_slot) asked ≡ (ok tt, t))
          × ((t.cached_key_slot ≢ 0) ⊎ Blank env t)

      moved : (c : ℕ) → Outcome c
      moved c = elim (Bool-cases (ltb n (k + (c - s.cached_key_slot)))) [
        | inl short ↦ (
          at_hash env asked n last n 0,
          rw same (
              advance_exhausted env (c - s.cached_key_slot) n k s.cached_key_slot last asked
                kd.length_last kd.within (ltb→lt n (k + (c - s.cached_key_slot)) short)),
          inr (length-iter hasher (n - n) last kd.length_last, refl),
        )
        | inr room ↦ (
          at_hash env asked n last (k + (c - s.cached_key_slot))
              (s.cached_key_slot + (c - s.cached_key_slot)),
          rw same (
              advance_lem env (c - s.cached_key_slot) n k s.cached_key_slot last asked
                kd.length_last (ltb→le n (k + (c - s.cached_key_slot)) room)),
          inl (λ z. slot_ne (omega arith)),
        )
      ]

      answered_by :
          (c : ℕ) × (env.get_slot s.slot_calls ≡ some c) × (1 ≤ c)
          → (t : KeyState) × (slot_round env id len s ≡ (ok tt, t))
            × ((t.cached_key_slot ≢ 0) ⊎ Blank env t)
      answered_by (c, at, _) =
          let (t, run, shape) = moved c in (t, unfold slot_round get_slot in rw (m, at) run, shape)

  Returns : ℕ → Bytes → ℕ → KeyState → Type 0
  Returns fuel id len s =
      (a : ℕ × Bytes) × (t : KeyState) × (current_slot_key env fuel id len s ≡ (ok a, t))

  Blank-Returns :
      (fuel : ℕ) (id : Bytes) (len : ℕ) (s : KeyState)
      → Responsive len
      → Blank env s
      → Returns (suc fuel) id len s
  unfolding Returns
  Blank-Returns fuel id len s r b =
      let m = or_true (is_missing env s.hash_chain) _ ((nat_eqb_iff s.cached_key_slot 0).1 b.1) in
      let (t, run, ne) = round-Blank id len s r b m in
      ((t.cached_key_slot, t.cached_key), t, round_ends env fuel id len s t run ne)

  -- CurrentSlotKey returns a slot and a key within two rounds, from any state of its invariant,
  -- if the owner serves chains of at least one hash, the source gives slots from 1 on, and two
  -- answers in a row never fall and are less than a chain apart.
  pub current_slot_key_total :
      (fuel : ℕ) (id : Bytes) (len : ℕ) (s : KeyState)
      → Responsive len
      → KeyInv env s
      → (a : ℕ × Bytes) × (t : KeyState) × (current_slot_key env (suc (suc fuel)) id len s
          ≡ (ok a, t))
  unfolding Returns
  current_slot_key_total fuel id len s r inv = elim (Bool-cases (missing env s)) [
    | inl m ↦ Blank-Returns (suc fuel) id len s r (Blank-of_missing env s inv m)
    | inr m ↦ settle (round-Keyed id len s r (Keyed-of_present env s inv m) m)
  ]
    where
      settle :
          (t : KeyState) × (slot_round env id len s ≡ (ok tt, t))
            × ((t.cached_key_slot ≢ 0) ⊎ Blank env t)
          → Returns (suc (suc fuel)) id len s
      settle (t, run, inl ne) =
          ((t.cached_key_slot, t.cached_key), t, round_ends env (suc fuel) id len s t run ne)
      settle (t, run, inr b) =
          let (a, u, e) = Blank-Returns fuel id len t r b in
          (a, u, round_again env (suc fuel) id len s t run b.1 ∙ e)

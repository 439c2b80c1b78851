-- ===== src/Rcd/Keys/CatchUp.antt =====
-- The loop of `CurrentSlotKey` that catches up with the current slot keeps each slot with its key.
use broadauth.Base.{
  ℕ, ◌+◌, ◌-◌, ◌≤◌, ◌≡◌, ◌⊎◌, inl, inr, refl, sym, subst, length, arith, Option, some, none, ltb,
  Bool-cases, ltb→lt, ltb→le,
}
use broadauth.Base.State.{carry, Post, Post-weaken}
use broadauth.Hashchain.Spec.{length-iter}
use broadauth.Rcd.{Env, KeyState}
use broadauth.Rcd.Keys.{get_slot, advance}
use broadauth.Rcd.Keys.Advance.{at_hash, advance_lem, advance_exhausted}
use broadauth.Rcd.Keys.Slots.{Keyed, KeyInv}

module _ (env : Env) where
  open env use {hasher}

  -- The inner loop keeps the pairing, and stops at the given slot unless the chain runs out.
  abbrev Advanced : ℕ → KeyState → KeyState → Type 0
  Advanced r s t =
      KeyInv env t
      × ((t.cached_key_slot ≡ 0) ⊎ (t.cached_key_slot ≡ s.cached_key_slot + r))
      × (t.slot_calls ≡ s.slot_calls)

  advance-KeyInv :
      (r : ℕ) (s : KeyState)
      → length s.cached_key ≡ hasher.size
      → Keyed env s
      → Post (λ _. Advanced r s) (KeyInv env) (advance env r s)
  advance-KeyInv r s whole kd =
      subst (λ u. Post (λ _. Advanced r s) (KeyInv env) (advance env r u)) (sym same)
        (elim (Bool-cases (ltb n (k + r))) [
          | inl short ↦
              rw
                (advance_exhausted env r n k slot last s kd.length_last kd.within
                  (ltb→lt n (k + r) short))
                (
                  record {
                    whole_key = length-iter hasher (n - n) last kd.length_last;
                    keyed = inl refl;
                  },
                  inl refl,
                  refl,
                )
          | inr room ↦
              rw (advance_lem env r n k slot last s kd.length_last (ltb→le n (k + r) room)) (
                record {
                  whole_key = length-iter hasher (n - (k + r)) last kd.length_last;
                  keyed = inr (record {
                    n = n;
                    k = k + r;
                    begin = kd.begin;
                    last = last;
                    chain = kd.chain;
                    begun = kd.begun;
                    sent = kd.sent;
                    parsed = kd.parsed;
                    length_last = kd.length_last;
                    holds = refl;
                    given = omega arith;
                    within = ltb→le n (k + r) room;
                    key = refl;
                    slot = omega (arith, kd.slot);
                  });
                },
                inr refl,
                refl,
              )
        ])
    where
      open kd use {n, k, last}

      slot : ℕ
      slot = s.cached_key_slot

      same : s ≡ at_hash env s n last k s.cached_key_slot
      same = λ i. record s { hash_chain = kd.holds i; cached_key = kd.key i }

  -- The cached slot is 0, or not behind the last answer of the slot source.
  abbrev pub UpToDate : KeyState → Type 0
  UpToDate t =
      (t.cached_key_slot ≡ 0)
      ⊎ ((i : ℕ) × (c : ℕ) × (t.slot_calls ≡ i + 1)
          × (env.get_slot i ≡ some c)
          × (c ≤ t.cached_key_slot))

  pub catch_up-UpToDate :
      (s : KeyState)
      → length s.cached_key ≡ hasher.size
      → Keyed env s
      → Post
          (λ _ t. KeyInv env t × UpToDate t)
          (KeyInv env)
          (carry (get_slot env s) (λ current t. advance env (current - t.cached_key_slot) t))
  catch_up-UpToDate s whole kd = by_answer (env.get_slot s.slot_calls) refl
    where
      asked : KeyState
      asked = record s { slot_calls = s.slot_calls + 1 }

      still : Keyed env asked
      still = record {
        n = kd.n;
        k = kd.k;
        begin = kd.begin;
        last = kd.last;
        chain = kd.chain;
        begun = record {
          call = kd.begun.call;
          before = omega (arith, kd.begun.before);
          answer = kd.begun.answer;
        };
        sent = kd.sent;
        parsed = kd.parsed;
        length_last = kd.length_last;
        holds = kd.holds;
        given = kd.given;
        within = kd.within;
        key = kd.key;
        slot = kd.slot;
      }

      by_answer :
          (o : Option ℕ)
          → env.get_slot s.slot_calls ≡ o
          → Post
              (λ _ t. KeyInv env t × UpToDate t)
              (KeyInv env)
              (carry (get_slot env s) (λ current t. advance env (current - t.cached_key_slot) t))
      by_answer none e = unfold get_slot in rw e (record { whole_key = whole; keyed = inr still })
      by_answer (some c) e =
          unfold get_slot in
          rw e (
            Post-weaken (λ _. Advanced (c - s.cached_key_slot) asked) _ (KeyInv env) (KeyInv env)
              (advance env (c - s.cached_key_slot) asked)
              (advance-KeyInv (c - s.cached_key_slot) asked whole still)
              (λ _ t (inv, at, calls). (inv, up_to_date c t e calls at)) (λ t inv. inv))
        where
          up_to_date :
              (c : ℕ) (t : KeyState)
              → env.get_slot s.slot_calls ≡ some c
              → t.slot_calls ≡ s.slot_calls + 1
              → (t.cached_key_slot ≡ 0)
                ⊎ (t.cached_key_slot ≡ s.cached_key_slot + (c - s.cached_key_slot))
              → UpToDate t
          up_to_date c t e calls (inl z) = inl z
          up_to_date c t e calls (inr p) = inr (s.slot_calls, c, calls, e, omega arith)

-- ===== src/Rcd/Keys/Sound.antt =====
-- What `CurrentSlotKey` returns, whatever is answered.
use broadauth.Base.{
  ℕ, zero, suc, ◌≡◌, ◌≢◌, inl, inr, refl, sym, ◌∙◌, Bytes, length, Option, some, none, Bool, true,
  false, Bool-cases, nat_eqb, nat_eqb_iff, ◌||◌,
}
use broadauth.Base.State.{Post, Post-carry, Post-weaken, when, pure}
use broadauth.Hashchain.{Linear}
use broadauth.Rcd.{Env, KeyState}
use broadauth.Rcd.Keys.{refill, is_missing, slot_round, current_slot_key}
use broadauth.Rcd.Keys.Slots.{Keyed, KeyInv, Blank, refill-Keyed}
use broadauth.Rcd.Keys.CatchUp.{UpToDate, catch_up-UpToDate}

-- A slot and the key of that slot, cached in the state.
pub record SlotKey (env : Env) (slot : ℕ) (key : Bytes) (s : KeyState) : Type 0 where
  pub keyed : Keyed env s
  pub is_slot : slot ≡ s.cached_key_slot
  pub is_key : key ≡ s.cached_key
  pub not_zero : slot ≢ 0
  pub up_to_date : UpToDate env s

abbrev pub Answer : Env → ℕ × Bytes → KeyState → Type 0
Answer env (slot, key) s = KeyInv env s × SlotKey env slot key s

pub or_true : (a b : Bool) → b ≡ true → (a || b) ≡ true
or_true true b e = refl
or_true false b e = e

pub or_false : (a b : Bool) → (a || b) ≡ false → b ≡ false
or_false true b e = cc
or_false false b e = e

module _ (env : Env) where
  open env use {hasher}

  pub Keyed-of_slot : (s : KeyState) → KeyInv env s → s.cached_key_slot ≢ 0 → Keyed env s
  Keyed-of_slot s inv ne = elim inv.keyed [ inl z ↦ absurd (ne z) | inr kd ↦ kd ]

  abbrev pub missing : KeyState → Bool
  missing s = is_missing env s.hash_chain || nat_eqb s.cached_key_slot 0

  pub Blank-of_missing : (s : KeyState) → KeyInv env s → missing s ≡ true → Blank env s
  Blank-of_missing s inv e = elim inv.keyed [
    | inl z ↦ (inv.whole_key, z)
    | inr kd ↦
        (inv.whole_key, (nat_eqb_iff s.cached_key_slot 0).0 (has_chain s.hash_chain kd.holds e))
  ]
    where
      has_chain :
          {c : Linear} (o : Option Linear)
          → o ≡ some c
          → (is_missing env o || nat_eqb s.cached_key_slot 0) ≡ true
          → nat_eqb s.cached_key_slot 0 ≡ true
      has_chain none p q = cc
      has_chain (some c) p q = unfold is_missing in q

  pub Keyed-of_present : (s : KeyState) → KeyInv env s → missing s ≡ false → Keyed env s
  Keyed-of_present s inv e = Keyed-of_slot s inv (λ z.
      cc (sym (or_false (is_missing env s.hash_chain) _ e) ∙ (nat_eqb_iff s.cached_key_slot 0).1 z))

  slot_round-KeyInv :
      (id : Bytes) (len : ℕ) (s : KeyState)
      → KeyInv env s
      → Post (λ _ t. KeyInv env t × UpToDate env t) (KeyInv env) (slot_round env id len s)
  unfolding slot_round
  slot_round-KeyInv id len s inv =
      Post-carry (λ _ t. (length t.cached_key ≡ hasher.size) × Keyed env t) _ (KeyInv env)
        (when (missing s) (refill env id len) (pure tt) s) _ ready
        (λ _ t (whole, kd). catch_up-UpToDate env t whole kd)
    where
      ready :
          Post
            (λ _ t. (length t.cached_key ≡ hasher.size) × Keyed env t)
            (KeyInv env)
            (when (missing s) (refill env id len) (pure tt) s)
      ready = elim (Bool-cases (missing s)) [
        | inl e ↦ rw e (
            Post-weaken _ _ (Blank env) (KeyInv env) (refill env id len s)
              (refill-Keyed env id len s (Blank-of_missing s inv e)) (λ _ t p. p)
              (λ t b. record { whole_key = b.0; keyed = inl b.1 }))
        | inr e ↦ rw e (inv.whole_key, Keyed-of_present s inv e)
      ]

  -- From the invariant, `CurrentSlotKey` returns a slot that is not 0 and not behind the last answer
  -- of the slot source. The key with it is hash k of a chain that the owner sent for a slot `begin`
  -- that the source had given, and the slot is `begin + k - 1`. It keeps the invariant, also where
  -- it returns an error.
  pub current_slot_key-Answer :
      (fuel : ℕ) (id : Bytes) (len : ℕ) (s : KeyState)
      → KeyInv env s
      → Post (Answer env) (KeyInv env) (current_slot_key env fuel id len s)
  unfolding current_slot_key
  current_slot_key-Answer zero id len s inv = inv
  current_slot_key-Answer (suc fuel) id len s inv =
      Post-carry (λ _ t. KeyInv env t × UpToDate env t) (Answer env) (KeyInv env)
        (slot_round env id len s) _ (slot_round-KeyInv id len s inv)
        λ _ t (kept, fresh). elim (Bool-cases (nat_eqb t.cached_key_slot 0)) [
          | inl e ↦ rw e (current_slot_key-Answer fuel id len t kept)
          | inr e ↦
              let ne : t.cached_key_slot ≢ 0 =
                λ z. cc (sym e ∙ (nat_eqb_iff t.cached_key_slot 0).1 z) in
              rw e (
                kept,
                record {
                  keyed = Keyed-of_slot t kept ne;
                  is_slot = refl;
                  is_key = refl;
                  not_zero = ne;
                  up_to_date = fresh;
                },
              )
        ]

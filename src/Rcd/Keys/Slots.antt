-- ===== src/Rcd/Keys/Slots.antt =====
-- `CurrentSlotKey` pairs each slot with one hash of the chain, whatever the slot source and the
-- owner answer and after any error.
use broadauth.Base.{
  ℕ, zero, suc, ◌+◌, ◌-◌, ◌*◌, ◌≤◌, ◌≡◌, ◌⊎◌, inl, inr, refl, sym, subst, Bytes, length, arith,
  Option, some, none, false, ok, ltb, negsuc, [], ◌++◌,
}
use broadauth.Base.State.{carry, Post, Post-carry, Post-weaken, Post-on_error}
use broadauth.Hashchain.{Linear, remaining, new_linear_from_existing}
use broadauth.Hashchain.Spec.{iter, linear_at, length-iter}
use broadauth.Hashchain.Existing.{from_existing-Cases}
use broadauth.Hashchain.Drain.{next_hash-linear_at}
use broadauth.Rcd.{Env, KeyState}
use broadauth.Rcd.Keys.{
  be_bytes, answered, get_slot, set_chain, read_chain, request_hash_chain_once, attempts,
  request_hash_chain, next_key, set_slot, refill,
}
use broadauth.Rcd.Keys.Advance.{next_key_lem}

-- Call `call` of the slot source, one of the first `calls`, was answered with `slot`.
pub record Begun (env : Env) (slot calls : ℕ) : Type 0 where
  pub call : ℕ
  pub before : call + 1 ≤ calls
  pub answer : env.get_slot call ≡ some slot

-- Call `call` of the owner, one of the first `calls`, asked for a chain that begins at `slot`, and
-- was answered with the bytes `chain`.
pub record Sent (env : Env) (slot : ℕ) (chain : Bytes) (calls : ℕ) : Type 0 where
  pub id : Bytes
  pub len : ℕ
  pub call : ℕ
  pub before : call + 1 ≤ calls
  pub answer : env.owner call (id ++ be_bytes 32 slot) ((len + 1) * 32) ≡ some chain

-- The slot source gave the slot `begin`, and the owner, asked for a chain from `begin` on, sent the
-- chain h_1, ..., h_n; the cached key is h_k, and the cached slot is `begin + k - 1`.
pub record Keyed (env : Env) (s : KeyState) : Type 0 where
  pub n : ℕ
  pub k : ℕ
  pub begin : ℕ
  pub last : Bytes
  pub chain : Bytes
  pub begun : Begun env begin s.slot_calls
  pub sent : Sent env begin chain s.owner_calls
  pub parsed : new_linear_from_existing env.hasher chain ≡ ok (linear_at env.hasher n last 0)
  pub length_last : length last ≡ env.hasher.size
  pub holds : s.hash_chain ≡ some (linear_at env.hasher n last k)
  pub given : 1 ≤ k
  pub within : k ≤ n
  pub key : s.cached_key ≡ iter env.hasher (n - k) last
  pub slot : s.cached_key_slot + 1 ≡ begin + k

-- The invariant of the fields that `chainMutex` guards: the cached slot is 0, or has its key.
pub record KeyInv (env : Env) (s : KeyState) : Type 0 where
  pub whole_key : length s.cached_key ≡ env.hasher.size
  pub keyed : (s.cached_key_slot ≡ 0) ⊎ Keyed env s

-- A chain that the owner sent for the slot `begin`, of which no hash has been given out.
record Fresh (env : Env) (begin : ℕ) (s : KeyState) : Type 0 where
  n : ℕ
  last : Bytes
  chain : Bytes
  sent : Sent env begin chain s.owner_calls
  parsed : new_linear_from_existing env.hasher chain ≡ ok (linear_at env.hasher n last 0)
  length_last : length last ≡ env.hasher.size
  some_left : 1 ≤ n
  holds : s.hash_chain ≡ some (linear_at env.hasher n last 0)

module _ (env : Env) where
  open env use {hasher}

  -- No slot yet.
  abbrev pub Blank : KeyState → Type 0
  Blank s = (length s.cached_key ≡ hasher.size) × (s.cached_key_slot ≡ 0)

  -- No slot yet, and `begin` is the slot that a chain is wanted for.
  abbrev Waiting : ℕ → KeyState → Type 0
  Waiting begin s = Blank s × Begun env begin s.slot_calls

  abbrev Ready : ℕ → Unit {0} → KeyState → Type 0
  Ready begin _ s = Waiting begin s × Fresh env begin s

  Post-get_slot : (s : KeyState) → Blank s → Post Waiting Blank (get_slot env s)
  Post-get_slot s b = unfold get_slot in by_answer (env.get_slot s.slot_calls) refl
    where
      by_answer :
          (o : Option ℕ)
          → env.get_slot s.slot_calls ≡ o
          → Post Waiting Blank (answered o (record s { slot_calls = s.slot_calls + 1 }))
      by_answer none e = b
      by_answer (some slot) e =
          (b, record { call = s.slot_calls; before = omega arith; answer = e })

  module _ (begin : ℕ) where
    Post-linear :
        (n : ℕ) (x c : Bytes) (s : KeyState)
        → length x ≡ hasher.size
        → new_linear_from_existing hasher c ≡ ok (linear_at hasher n x 0)
        → Sent env begin c s.owner_calls
        → Waiting begin s
        → Post (Ready begin) (Waiting begin) (set_chain env (ok (linear_at hasher n x 0)) s)
    unfolding set_chain
    Post-linear zero x c s l e sent w = rw (next_hash-linear_at hasher 0 0 x l (omega arith)).1 w
    Post-linear (suc n) x c s l e sent w =
        let some_left : ltb (suc n - 0) 1 ≡ false = ground arith in
        rw ((next_hash-linear_at hasher (suc n) 0 x l (omega arith)).1, some_left)
          (
            w,
            record {
              n = suc n;
              last = x;
              chain = c;
              sent = sent;
              parsed = e;
              length_last = l;
              some_left = omega arith;
              holds = refl;
            },
          )

    Post-empty :
        (s : KeyState)
        → Waiting begin s
        → Post
            (Ready begin)
            (Waiting begin)
            (set_chain env (ok (record { n = negsuc 0; chain = []; next = 1 })) s)
    unfolding set_chain remaining
    Post-empty s w = w

    Post-set_chain :
        (c : Bytes) (s : KeyState)
        → Sent env begin c s.owner_calls
        → Waiting begin s
        → Post (Ready begin) (Waiting begin) (set_chain env (new_linear_from_existing hasher c) s)
    unfolding set_chain
    Post-set_chain c s sent w = elim (from_existing-Cases hasher c) [
      | inl (_, e) ↦ rw e w
      | inr (inl (_, e)) ↦ rw e (Post-empty s w)
      | inr (inr (inl (n, x, l, _, e))) ↦ rw e (Post-linear n x c s l e sent w)
      | inr (inr (inr (_, _, e))) ↦ rw e w
    ]

    Post-read_chain :
        (o : Option Bytes) (s : KeyState)
        → ((c : Bytes) → o ≡ some c → Sent env begin c s.owner_calls)
        → Waiting begin s
        → Post (Ready begin) (Waiting begin) (read_chain env o s)
    unfolding read_chain
    Post-read_chain none s sent w = w
    Post-read_chain (some c) s sent w = Post-set_chain c s (sent c refl) w

    Post-attempts :
        (left : ℕ) (id : Bytes) (len : ℕ) (s : KeyState)
        → Waiting begin s
        → Post (Ready begin) (Waiting begin) (attempts env left id len begin s)
    unfolding attempts request_hash_chain_once
    Post-attempts zero id len s w = w
    Post-attempts (suc left) id len s w =
        Post-on_error (Ready begin) (Waiting begin) (request_hash_chain_once env id len begin s) _
          (Post-read_chain (env.owner s.owner_calls (id ++ be_bytes 32 begin) ((len + 1) * 32))
            (record s { owner_calls = s.owner_calls + 1 })
            (λ c e. record {
              id = id;
              len = len;
              call = s.owner_calls;
              before = omega arith;
              answer = e;
            })
            w)
          (λ t. Post-attempts left id len t)

    -- The first key of a fresh chain, for the slot that was asked for.
    first_key-Keyed :
        (s : KeyState)
        → Waiting begin s
        → Fresh env begin s
        → Post
            (λ _ t. (length t.cached_key ≡ hasher.size) × Keyed env t)
            Blank
            (carry (next_key env s.hash_chain s) (λ _. set_slot env begin))
    unfolding set_slot
    first_key-Keyed s w f = subst FirstKey (sym f.holds) (
        rw (next_key_lem env f.n 0 f.last s f.length_last w.0.0 f.some_left) (
          length-iter hasher (f.n - 1) f.last f.length_last,
          record {
            n = f.n;
            k = 1;
            begin = begin;
            last = f.last;
            chain = f.chain;
            begun = w.1;
            sent = f.sent;
            parsed = f.parsed;
            length_last = f.length_last;
            holds = refl;
            given = omega arith;
            within = f.some_left;
            key = refl;
            slot = refl;
          },
        ))
      where
        FirstKey : Option Linear → Type 0
        FirstKey o =
            Post (λ _ t. (length t.cached_key ≡ hasher.size) × Keyed env t) Blank
              (carry (next_key env o s) (λ _. set_slot env begin))

    request-Ready :
        (id : Bytes) (len : ℕ) (s : KeyState)
        → Waiting begin s
        → Post (Ready begin) Blank (attempts env 3 id len begin s)
    request-Ready id len s w =
        Post-weaken (Ready begin) (Ready begin) (Waiting begin) Blank
          (attempts env 3 id len begin s) (Post-attempts 3 id len s w) (λ _ t p. p) (λ t p. p.0)

  pub refill-Keyed :
      (id : Bytes) (len : ℕ) (s : KeyState)
      → Blank s
      → Post (λ _ t. (length t.cached_key ≡ hasher.size) × Keyed env t) Blank (refill env id len s)
  unfolding refill request_hash_chain
  refill-Keyed id len s b =
      Post-carry Waiting _ Blank (get_slot env s) _ (Post-get_slot s b) λ begin s1 w.
        Post-carry (Ready begin) _ Blank (attempts env 3 id len begin s1) _
          (request-Ready begin id len s1 w) λ _ s2 (w2, f2). first_key-Keyed begin s2 w2 f2

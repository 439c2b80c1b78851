-- ===== src/Rcd/Life/Made.antt =====
-- What `New` leaves open and makes.
use broadauth.Base.{
  ℕ, ◌≤◌, ◌≡◌, refl, sym, [], ℤ, pos, negsuc, Bool, true, false, ◌&&◌, Result, Bool-cases, inl, inr,
  arith, nat_eqb, ltb, ◌||◌,
}
use broadauth.Base.State.{Post, Answered, carry, lift, pure}
use broadauth.Broadcast.{Opening, new_udp}
use broadauth.Slot.{new_beacon_chain}
use broadauth.Rcd.{Env, Rcd}
use broadauth.Rcd.System.Reached.{SystemInv}
use broadauth.Rcd.Life.{
  Config, Handles, Dials, none_open, dial, bind_contract, open_broadcaster, open_receiver,
  checked_length, new_from_config, fresh_rcd,
}

abbrev pub opens : Opening → Bool
opens o = o.resolves && o.opens && o.buffers

-- What the answers let `New` open, step by step.
abbrev pub opened : Dials → Handles
opened d =
    let bound = d.client && d.contract in
    let sends = bound && opens d.broadcaster in
    record { client = bound; broadcaster = sends; receiver = sends && opens d.receiver }

-- An RCD of the configuration, with everything open.
pub record Made (env : Env) (cfg : Config) (d : Dials) (r : Rcd) : Type 0 where
  pub length_given : cfg.hashchain_len ≡ pos r.hashchain_len
  pub length_checked : (1 ≤ r.hashchain_len) × (r.hashchain_len ≤ 10240)
  pub receiver_open : (opened d).receiver ≡ true
  pub invariant : SystemInv env (record { rcd = r; pending = [] })

-- `Post` of the last steps, once everything is open.
abbrev Opens : Env → Config → Dials → Result Rcd × Handles → Type 0
Opens env cfg d = Post (λ r h. (h ≡ opened d) × Made env cfg d r) (λ h. h ≡ opened d)

abbrev answers : Bool → Bool → Opening → Opening → Dials
answers client contract broadcaster receiver = record {
  client = client;
  contract = contract;
  broadcaster = broadcaster;
  receiver = receiver;
}

abbrev socket : Bool → Bool → Bool → Opening
socket resolves opens buffers = record { resolves = resolves; opens = opens; buffers = buffers }

module _ (env : Env) where
  pub fresh_rcd-SystemInv :
      (cfg : Config) (n : ℕ) → SystemInv env (record { rcd = fresh_rcd cfg n; pending = [] })
  fresh_rcd-SystemInv cfg n = record {
    rcd = record {
      keys = record { whole_key = sym env.size_32; keyed = inl refl };
      queue = omega arith;
      payloads = tt;
      fits = ground arith;
      counter = omega arith;
    };
    pending = tt;
  }

  checked :
      (cfg : Config) (len : ℤ)
      → cfg.hashchain_len ≡ len
      → Opens env cfg (answers true true (socket true true true) (socket true true true)) (
          carry {S = Handles}
            (lift
              (checked_length len)
              (opened (answers true true (socket true true true) (socket true true true))))
            (λ n. pure (fresh_rcd cfg n)))
  unfolding checked_length
  checked cfg (negsuc n) e = refl
  checked cfg (pos n) e = elim (Bool-cases (nat_eqb n 0 || ltb 10240 n)) [
    | inl wrong ↦ rw wrong refl
    | inr right ↦ rw right (
      refl,
      record {
        length_given = e;
        length_checked = ground (arith, right);
        receiver_open = refl;
        invariant = fresh_rcd-SystemInv cfg n;
      },
    )
  ]

  by_answers :
      (cfg : Config) (c b r o s r' o' s' : Bool)
      → Opens env cfg
          (answers c b (socket r o s) (socket r' o' s'))
          (new_from_config cfg (answers c b (socket r o s) (socket r' o' s')) none_open)
  unfolding new_from_config dial bind_contract open_broadcaster open_receiver new_udp
      new_beacon_chain
  by_answers cfg false b r o s r' o' s' = refl
  by_answers cfg true false r o s r' o' s' = refl
  by_answers cfg true true false o s r' o' s' = refl
  by_answers cfg true true true false s r' o' s' = refl
  by_answers cfg true true true true false r' o' s' = refl
  by_answers cfg true true true true true false o' s' = refl
  by_answers cfg true true true true true true false s' = refl
  by_answers cfg true true true true true true true false = refl
  by_answers cfg true true true true true true true true = checked cfg cfg.hashchain_len refl

  -- `New`, on success and on every error: what is open afterwards is exactly what the answers of
  -- go-ethereum and `net` let it open, since no error after the one of the contract closes
  -- anything. On success all is open, the length of a hash chain is that of the configuration and
  -- from 1 to 10240, and the RCD satisfies the invariant of `Reach-SystemInv`.
  pub new_from_config-Made :
      (cfg : Config) (d : Dials)
      → Post
          (λ r h. (h ≡ opened d) × Made env cfg d r)
          (λ h. h ≡ opened d)
          (new_from_config cfg d none_open)
  new_from_config-Made cfg d =
      by_answers cfg d.client d.contract d.broadcaster.resolves d.broadcaster.opens
        d.broadcaster.buffers d.receiver.resolves d.receiver.opens d.receiver.buffers

length-Answered :
    (cfg : Config) (h : Handles) (len : ℤ)
    → Answered (carry {S = Handles} (lift (checked_length len) h) (λ n. pure (fresh_rcd cfg n)))
unfolding checked_length
length-Answered cfg h (negsuc n) = tt
length-Answered cfg h (pos n) = elim (Bool-cases (nat_eqb n 0 || ltb 10240 n)) [
  | inl wrong ↦ rw wrong tt
  | inr right ↦ rw right tt
]

by_each_answer :
    (cfg : Config) (c b r o s r' o' s' : Bool)
    → Answered (new_from_config cfg (answers c b (socket r o s) (socket r' o' s')) none_open)
unfolding new_from_config dial bind_contract open_broadcaster open_receiver new_udp new_beacon_chain
by_each_answer cfg false b r o s r' o' s' = tt
by_each_answer cfg true false r o s r' o' s' = tt
by_each_answer cfg true true false o s r' o' s' = tt
by_each_answer cfg true true true false s r' o' s' = tt
by_each_answer cfg true true true true false r' o' s' = tt
by_each_answer cfg true true true true true false o' s' = tt
by_each_answer cfg true true true true true true false s' = tt
by_each_answer cfg true true true true true true true false = tt
by_each_answer cfg true true true true true true true true =
    length-Answered cfg (record { client = true; broadcaster = true; receiver = true })
      cfg.hashchain_len

-- `New` returns a value or an error.
pub new_from_config-Answered :
    (cfg : Config) (d : Dials) → Answered (new_from_config cfg d none_open)
new_from_config-Answered cfg d =
    by_each_answer cfg d.client d.contract d.broadcaster.resolves d.broadcaster.opens
      d.broadcaster.buffers d.receiver.resolves d.receiver.opens d.receiver.buffers

-- ===== src/Rcd/Disclose.antt =====
-- `disclosureWorker`: at each new slot it takes what is in the channel and discloses, in order,
-- the keys whose slot has come.
pub mod Due
use broadauth.Base.{
  ℕ, suc, ◌+◌, Bytes, List, [], ◌∷◌, ◌++◌, length, drop, Option, some, none, Bool, true, false,
  Result, ok, err, ltb, if◌then◌else◌,
}
use broadauth.Message.{new_message, kind_key_message}
use broadauth.Rcd.{Env, Rcd, DisclosurePayload}
use broadauth.Rcd.Metered.{timed_broadcast, count_overhead}

module _ (env : Env) where
  -- A message that cannot be marshalled, or that the network refuses, is logged and given up.
  unfoldable pub give_out : Option Bytes → Rcd → Rcd
  give_out none r = r
  give_out (some bytes) r = (timed_broadcast env bytes (count_overhead (length bytes) r)).1

  unfoldable pub disclose : ℕ → DisclosurePayload → Rcd → Rcd
  unfolding give_out
  disclose current_slot d r =
      give_out
        (env.codec.marshal (new_message r.id current_slot kind_key_message (d.key ++ d.message))) r

  -- The loop over `pendingDisclosures` at index `i`, with `readyIdx`.
  unfoldable pub process :
      ℕ → ℕ → ℕ → List DisclosurePayload → Rcd → record { ready_idx : ℕ; rcd : Rcd }
  process current_slot i ready_idx [] r = record { ready_idx = ready_idx; rcd = r }
  process current_slot i ready_idx (d ∷ ds) r =
      let rest = process current_slot (i + 1) (i + 1) ds (disclose current_slot d r) in
      if ltb current_slot d.target_slot then record { ready_idx = i; rcd = r } else rest

  -- The case of a new slot: the pending disclosures and the state after it.
  unfoldable pub worker_step :
      ℕ → List DisclosurePayload → Rcd → record { pending : List DisclosurePayload; rcd : Rcd }
  unfolding process
  worker_step current_slot pending r =
      let all = pending ++ r.disclosure_messages in
      let done = process current_slot 0 0 all (record r { disclosure_messages = [] }) in
      record {
        pending = if ltb 0 done.ready_idx then drop done.ready_idx all else all;
        rcd = done.rcd;
      }

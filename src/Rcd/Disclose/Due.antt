-- ===== src/Rcd/Disclose/Due.antt =====
-- Which disclosures a new slot gives out, and which stay pending.
use broadauth.Base.{
  ℕ, suc, ◌+◌, ◌≤◌, ◌<◌, ◌≡◌, refl, ap, ◌∙◌, subst, List, [], ◌∷◌, ◌++◌, length, drop, All, true,
  ltb, ltb→lt, ltb→le, if◌then◌else◌, arith, Bool-cases, inl, inr, drop-append,
}
use broadauth.Rcd.{Env, Rcd, DisclosurePayload}
use broadauth.Rcd.Disclose.{disclose, process, worker_step}

-- The longest prefix whose slots have come, and what is left.
unfoldable pub due : ℕ → List DisclosurePayload → List DisclosurePayload
due current [] = []
due current (d ∷ ds) = if ltb current d.target_slot then [] else d ∷ due current ds

unfoldable pub waiting : ℕ → List DisclosurePayload → List DisclosurePayload
waiting current [] = []
waiting current (d ∷ ds) = if ltb current d.target_slot then d ∷ ds else waiting current ds

-- The target slots never fall, and start at `bound` or later.
unfoldable pub InOrder : ℕ → List DisclosurePayload → Type 0
InOrder bound [] = Unit
InOrder bound (d ∷ ds) = (bound ≤ d.target_slot) × InOrder d.target_slot ds

abbrev Come : ℕ → List DisclosurePayload → Type 0
Come current = All (λ d. d.target_slot ≤ current)

abbrev pub Later : ℕ → List DisclosurePayload → Type 0
Later current = All (λ d. current < d.target_slot)

pub due-waiting :
    (current : ℕ) (ds : List DisclosurePayload) → due current ds ++ waiting current ds ≡ ds
unfolding due waiting
due-waiting current [] = refl
due-waiting current (d ∷ ds) = ground (arith, due-waiting current ds)

due-Come : (current : ℕ) (ds : List DisclosurePayload) → Come current (due current ds)
unfolding due
due-Come current [] = tt
due-Come current (d ∷ ds) = elim (Bool-cases (ltb current d.target_slot)) [
  | inl e ↦ rw e tt
  | inr e ↦ rw e (ltb→le current d.target_slot e, due-Come current ds)
]

InOrder-Later :
    (current bound : ℕ) (ds : List DisclosurePayload)
    → InOrder bound ds
    → current < bound
    → Later current ds
unfolding InOrder
InOrder-Later current bound [] o lt = tt
InOrder-Later current bound (d ∷ ds) (le, o) lt =
    (omega arith, InOrder-Later current d.target_slot ds o (omega arith))

waiting-Later :
    (current bound : ℕ) (ds : List DisclosurePayload)
    → InOrder bound ds
    → Later current (waiting current ds)
unfolding waiting InOrder
waiting-Later current bound [] o = tt
waiting-Later current bound (d ∷ ds) (le, o) = elim (Bool-cases (ltb current d.target_slot)) [
  | inl e ↦
      let lt = ltb→lt current d.target_slot e in
      rw e (lt, InOrder-Later current d.target_slot ds o lt)
  | inr e ↦ rw e (waiting-Later current d.target_slot ds o)
]

-- All of a list of disclosures given out, in order.
unfoldable pub disclose_all : Env → ℕ → List DisclosurePayload → Rcd → Rcd
disclose_all env current [] r = r
disclose_all env current (d ∷ ds) r = disclose_all env current ds (disclose env current d r)

-- What a new slot does with the disclosures that were pending and those in the channel.
pub record Discloses (env : Env) (current : ℕ) (all : List DisclosurePayload) (r : Rcd)
    (pending : List DisclosurePayload) (after : Rcd) : Type 0 where
  pub out : List DisclosurePayload
  pub splits : out ++ pending ≡ all
  pub come : Come current out
  pub later : InOrder 0 all → Later current pending
  pub given : after ≡ disclose_all env current out (record r { disclosure_messages = [] })

module _ (env : Env) where
  process_lem :
      (current i : ℕ) (ds : List DisclosurePayload) (r : Rcd)
      → process env current i i ds r ≡ record {
        ready_idx = i + length (due current ds);
        rcd = disclose_all env current (due current ds) r;
      }
  unfolding process due disclose_all
  process_lem current i [] r = ground arith
  process_lem current i (d ∷ ds) r =
      ground (arith, process_lem current (i + 1) ds (disclose env current d r))

  still_pending :
      (out rest : List DisclosurePayload)
      → (if ltb 0 (length out) then drop (length out) (out ++ rest) else out ++ rest) ≡ rest
  still_pending [] rest = refl
  still_pending (d ∷ out) rest =
      let some_out : ltb 0 (suc (length out)) ≡ true = ground arith in
      rw some_out (drop-append (suc (length out)) (d ∷ out) rest refl)

  -- At a new slot the worker discloses, each once and in order, a prefix of what was pending and
  -- queued, all of it with targets not after the slot, and keeps the rest pending. If the targets
  -- never fall along the list, all that stays pending is for later slots.
  pub worker_step-Discloses :
      (current : ℕ) (pending : List DisclosurePayload) (r : Rcd)
      → Discloses env current
          (pending ++ r.disclosure_messages)
          r
          (worker_step env current pending r).pending
          (worker_step env current pending r).rcd
  unfolding worker_step
  worker_step-Discloses current pending r = record {
    out = due current all;
    splits = ap (λ t. due current all ++ t) kept ∙ due-waiting current all;
    come = due-Come current all;
    later = λ o. rw kept (waiting-Later current 0 all o);
    given = rw run refl;
  }
    where
      all : List DisclosurePayload
      all = pending ++ r.disclosure_messages

      emptied : Rcd
      emptied = record r { disclosure_messages = [] }

      run : process env current 0 0 all emptied ≡ record {
        ready_idx = length (due current all);
        rcd = disclose_all env current (due current all) emptied;
      }
      run =
          process_lem current 0 all emptied
          ∙ ap
              (λ t. record {
                ready_idx = t;
                rcd = disclose_all env current (due current all) emptied;
              })
              (omega arith)

      kept : (worker_step env current pending r).pending ≡ waiting current all
      kept =
          unfold worker_step in
          rw run (
            subst
              (λ t.
                (if ltb 0 (length (due current all)) then drop (length (due current all)) t else t)
                ≡ waiting current all)
              (due-waiting current all) (still_pending (due current all) (waiting current all)))

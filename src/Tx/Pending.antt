-- ===== src/Tx/Pending.antt =====
-- Which disclosures `DisclosureBroadcastWorker` tries at a new slot, and which stay pending.
use broadauth.Base.{
  ℕ, zero, suc, ◌+◌, ◌≡◌, ◌≢◌, refl, ap, ◌∙◌, sym, List, [], ◌∷◌, ◌++◌, length, drop, Bool, true,
  false, ◌||◌, Result, ok, err, panic, running, ltb, if◌then◌else◌, arith, Bool-cases, inl, inr,
  drop-append, drop_at, append-nil,
}
use broadauth.Rcd.{DisclosurePayload}
use broadauth.Rcd.Disclose.Due.{due, waiting, due-waiting}
use broadauth.Tx.{Tx, TxOutside, disclose, ready_after, process, worker_step}

abbrev pub is_ok {ℓ} : {A : Type ℓ} → Result A → Bool
is_ok (ok a) = true
is_ok r = false

abbrev pub any_true : List Bool → Bool
any_true [] = false
any_true (b ∷ bs) = b || any_true bs

-- What follows the last item whose outcome is true.
unfoldable pub trailing : List DisclosurePayload → List Bool → List DisclosurePayload
trailing [] bs = []
trailing (d ∷ ds) bs = if any_true bs then trailing ds (drop 1 bs) else d ∷ ds

-- Where `readyIdx` ends, by whether something waits.
abbrev final : List Bool → List DisclosurePayload → ℕ → ℕ → ℕ
final [] [] i r = r
final [] (w ∷ ws) i r = i
final (b ∷ bs) ws i r = final bs ws (i + 1) (if b then i + 1 else r)

final_waits :
    (w : DisclosurePayload) (ws : List DisclosurePayload) (i r : ℕ) (bs : List Bool)
    → final bs (w ∷ ws) i r ≡ i + length bs
final_waits w ws i r [] = omega arith
final_waits w ws i r (b ∷ bs) = omega (arith, final_waits w ws (i + 1) (if b then i + 1 else r) bs)

final_more : (ws : List DisclosurePayload) (bs : List Bool) → ws ≢ [] → final bs ws 0 0 ≡ length bs
final_more [] bs more = absurd (more refl)
final_more (w ∷ ws) bs more = omega (arith, final_waits w ws 0 0 bs)

final_none : (i r : ℕ) (bs : List Bool) → any_true bs ≡ false → final bs [] i r ≡ r
final_none i r [] e = refl
final_none i r (true ∷ bs) e = ground arith
final_none i r (false ∷ bs) e = final_none (i + 1) r bs e

trailing_none :
    (ds : List DisclosurePayload) (bs : List Bool) → any_true bs ≡ false → trailing ds bs ≡ ds
unfolding trailing
trailing_none [] bs e = refl
trailing_none (d ∷ ds) bs e = rw e refl

final_some :
    (i r : ℕ) (bs : List Bool) (ds : List DisclosurePayload)
    → length ds ≡ length bs
    → any_true bs ≡ true
    → (k : ℕ) × (final bs [] i r ≡ i + suc k) × (drop (suc k) ds ≡ trailing ds bs)
unfolding trailing
final_some i r [] ds l e = ground arith
final_some i r (b ∷ bs) [] l e = absurd (omega arith)
final_some i r (b ∷ bs) (d ∷ ds) l e = elim (Bool-cases (any_true bs)) [
  | inl later ↦
      let (k, at, rest) =
        final_some (i + 1) (if b then i + 1 else r) bs ds (omega (arith, l)) later in
      (suc k, omega (arith, at), rw e rest)
  | inr none_later ↦
      let at = final_none (i + 1) (if b then i + 1 else r) bs none_later in
      (0, ground (arith, at), rw e (sym (trailing_none ds bs none_later)))
]

ready_after_lem :
    {A : Type 0} (x : Result A) (i r : ℕ) → ready_after x i r ≡ (if is_ok x then i + 1 else r)
ready_after_lem (ok a) i r = refl
ready_after_lem (err e) i r = refl
ready_after_lem panic i r = refl
ready_after_lem running i r = refl

module _ (out : TxOutside) where
  -- The outcomes of all the attempts, in order, and the state after them.
  unfoldable pub outcomes : ℕ → List DisclosurePayload → Tx → List Bool
  outcomes current [] t = []
  outcomes current (d ∷ ds) t =
      is_ok (disclose out current d t).0 ∷ outcomes current ds (disclose out current d t).1

  unfoldable pub attempt_all : ℕ → List DisclosurePayload → Tx → Tx
  attempt_all current [] t = t
  attempt_all current (d ∷ ds) t = attempt_all current ds (disclose out current d t).1

  length-outcomes :
      (current : ℕ) (ds : List DisclosurePayload) (t : Tx)
      → length ds ≡ length (outcomes current ds t)
  unfolding outcomes
  length-outcomes current [] t = refl
  length-outcomes current (d ∷ ds) t =
      ap suc (length-outcomes current ds (disclose out current d t).1)

  process_lem :
      (current i r : ℕ) (ds : List DisclosurePayload) (t : Tx)
      → process out current i r ds t ≡ record {
        ready_idx = final (outcomes current (due current ds) t) (waiting current ds) i r;
        tx = attempt_all current (due current ds) t;
      }
  unfolding process due waiting outcomes attempt_all
  process_lem current i r [] t = refl
  process_lem current i r (d ∷ ds) t = elim (Bool-cases (ltb current d.target_slot)) [
    | inl e ↦ rw e refl
    | inr e ↦
        rw
          (
            e,
            process_lem current (i + 1) (ready_after (disclose out current d t).0 i r) ds
                (disclose out current d t).1,
            ready_after_lem (disclose out current d t).0 i r,
          )
          refl
  ]

  -- What a new slot does with the disclosures that were pending and those in the channel.
  pub record Attempts (current : ℕ) (all : List DisclosurePayload) (t : Tx)
      (pending : List DisclosurePayload) (after : Tx) : Type 0 where
    pub tried : after ≡ attempt_all current (due current all) t
    pub waits : waiting current all ≢ [] → pending ≡ waiting current all
    pub ends : waiting current all ≡ [] → pending ≡ trailing all (outcomes current all t)

  drop_ready :
      (n : ℕ) (ds : List DisclosurePayload) → (if ltb 0 n then drop n ds else ds) ≡ drop n ds
  drop_ready zero ds = refl
  drop_ready (suc n) ds = let some_ready : ltb 0 (suc n) ≡ true = ground arith in rw some_ready refl

  drop-due :
      (current : ℕ) (ds : List DisclosurePayload)
      → drop (length (due current ds)) ds ≡ waiting current ds
  drop-due current ds =
      ap (drop (length (due current ds))) (sym (due-waiting current ds))
      ∙ drop-append (length (due current ds)) (due current ds) (waiting current ds) refl

  all_due :
      (current : ℕ) (ds : List DisclosurePayload) → waiting current ds ≡ [] → due current ds ≡ ds
  all_due current ds e =
      sym (append-nil (due current ds))
      ∙ ap (λ t. due current ds ++ t) (sym e)
      ∙ due-waiting current ds

  drop-final :
      (bs : List Bool) (ds : List DisclosurePayload)
      → length ds ≡ length bs
      → drop (final bs [] 0 0) ds ≡ trailing ds bs
  drop-final bs ds l = elim (Bool-cases (any_true bs)) [
    | inl e ↦
        let (k, at, rest) = final_some 0 0 bs ds l e in
        drop_at (final bs [] 0 0) (suc k) ds (omega (arith, at)) ∙ rest
    | inr e ↦ drop_at (final bs [] 0 0) 0 ds (final_none 0 0 bs e) ∙ sym (trailing_none ds bs e)
  ]

  -- At a new slot the worker tries, in order and once each, to give out the longest prefix of what
  -- was pending and queued whose targets are not after the slot. If something waits behind it, all
  -- of the prefix is dropped, what was not sent too, and the rest stays pending; otherwise exactly
  -- the items after the last one sent stay pending.
  pub worker_step-Attempts :
      (current : ℕ) (pending : List DisclosurePayload) (t : Tx)
      → Attempts current
          (pending ++ t.disclosure_messages)
          (record t { disclosure_messages = [] })
          (worker_step out current pending t).pending
          (worker_step out current pending t).tx
  unfolding worker_step
  worker_step-Attempts current pending t = record {
    tried = ap (λ p. p.tx) run;
    waits = λ more.
        kept
        ∙ drop_at (ready (waiting current all)) (length (due current all)) all (
            final_more (waiting current all) tries more
            ∙ sym (length-outcomes current (due current all) emptied))
        ∙ drop-due current all;
    ends = λ none_left.
        let whole = all_due current all none_left in
        kept
        ∙ rw (none_left, whole)
            (drop-final (outcomes current all emptied) all (length-outcomes current all emptied));
  }
    where
      all : List DisclosurePayload
      all = pending ++ t.disclosure_messages

      emptied : Tx
      emptied = record t { disclosure_messages = [] }

      tries : List Bool
      tries = outcomes current (due current all) emptied

      ready : List DisclosurePayload → ℕ
      ready ws = final tries ws 0 0

      run : process out current 0 0 all emptied ≡ record {
        ready_idx = ready (waiting current all);
        tx = attempt_all current (due current all) emptied;
      }
      run = process_lem current 0 0 all emptied

      kept : (worker_step out current pending t).pending ≡ drop (ready (waiting current all)) all
      kept = unfold worker_step in rw run (drop_ready (ready (waiting current all)) all)

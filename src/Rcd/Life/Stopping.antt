-- ===== src/Rcd/Life/Stopping.antt =====
-- What `Stop` leaves of an RCD that was started.
use broadauth.Base.{
  ℕ, suc, ◌+◌, ◌<◌, ◌≡◌, ◌≢◌, ◌⊎◌, inl, inr, refl, sym, ap, ◌∙◌, subst, All, List, length, [], ◌∷◌,
  false, Result, ok, panic, running, Bool-cases, arith, nat_eqb,
}
use broadauth.Rcd.{Rcd}
use broadauth.Rcd.Life.{
  Handles, Worker, WorkerEnd, returns, stays, dies, start, waited, stop, all_done, one_done,
  result_then, done,
}

abbrev pub Some : (Worker → Type 0) → List Worker → Type 0
Some P [] = ⊥
Some P (w ∷ ws) = P w ⊎ Some P ws

-- How `Stop` ends for these workers, from these handles.
pub data Stopped (ends : Worker → WorkerEnd) (ws : List Worker) (h : Handles)
    : Result (Unit {0}) × Handles → Type 0 where
  all_return :
      All (λ w. ends w ≡ returns) ws → Stopped ends ws h (ok tt, record h { client = false })
  one_stays :
      All (λ w. ends w ≢ dies) ws → Some (λ w. ends w ≡ stays) ws → Stopped ends ws h (running, h)
  one_dies : Some (λ w. ends w ≡ dies) ws → Stopped ends ws h (panic, h)

module _ (ends : Worker → WorkerEnd) where
  -- What is left of a count of all the workers and `extra`.
  abbrev Counted : List Worker → ℕ → Result ℕ → Type 0
  Counted ws extra r =
      (All (λ w. ends w ≡ returns) ws × (r ≡ ok extra))
      ⊎ (All (λ w. ends w ≢ dies) ws
          × Some (λ w. ends w ≡ stays) ws
          × (left : ℕ) × (extra < left)
          × (r ≡ ok left))
      ⊎ (Some (λ w. ends w ≡ dies) ws × (r ≡ panic))

  alive : (ws : List Worker) → All (λ w. ends w ≡ returns) ws → All (λ w. ends w ≢ dies) ws
  alive [] all = tt
  alive (w ∷ ws) (e, all) = ((λ d. cc (e, d)), alive ws all)

  done_suc : (wg left : ℕ) → wg ≡ suc left → done wg ≡ ok left
  unfolding done
  done_suc wg left e =
      let not_zero : nat_eqb wg 0 ≡ false = ground (arith, e) in
      rw not_zero (ap ok (omega (arith, e)))

  counted_down :
      (ws : List Worker) (left wg : ℕ)
      → wg ≡ suc left
      → one_done returns (λ n. all_done ends ws n) wg ≡ all_done ends ws left
  unfolding one_done result_then
  counted_down ws left wg e = ap (λ r. result_then r (λ n. all_done ends ws n)) (done_suc wg left e)

  all_done-Counted :
      (ws : List Worker) (extra : ℕ) → Counted ws extra (all_done ends ws (length ws + extra))
  unfolding all_done one_done
  all_done-Counted [] extra = inl (tt, ap ok (omega arith))
  all_done-Counted (w ∷ ws) extra = go (ends w) refl (λ k. all_done-Counted ws k)
    where
      go :
          (e : WorkerEnd)
          → ends w ≡ e
          → ((k : ℕ) → Counted ws k (all_done ends ws (length ws + k)))
          → Counted
              (w ∷ ws)
              extra
              (one_done e (λ left. all_done ends ws left) (suc (length ws) + extra))
      go dies p rest = inr (inr (inl p, refl))
      go returns p rest =
          let down = counted_down ws (length ws + extra) (suc (length ws) + extra) (omega arith) in
          elim (rest extra) [
            | inl (all, r) ↦ inl ((p, all), down ∙ r)
            | inr (inl (all, some_stays, left, more, r)) ↦
                inr (inl (((λ d. cc (p, d)), all), inr some_stays, left, more, down ∙ r))
            | inr (inr (some_dies, r)) ↦ inr (inr (inr some_dies, down ∙ r))
          ]
      go stays p rest =
          let up : length ws + (extra + 1) ≡ suc (length ws) + extra = omega arith in
          elim (rest (extra + 1)) [
            | inl (all, r) ↦ inr (
                inl (
                  ((λ d. cc (p, d)), alive ws all),
                  inl p,
                  extra + 1,
                  omega arith,
                  ap (all_done ends ws) (sym up) ∙ r,
                ))
            | inr (inl (all, some_stays, left, more, r)) ↦ inr (
                inl (
                  ((λ d. cc (p, d)), all),
                  inl p,
                  left,
                  omega (arith, more),
                  ap (all_done ends ws) (sym up) ∙ r,
                ))
            | inr (inr (some_dies, r)) ↦
                inr (inr (inr some_dies, ap (all_done ends ws) (sym up) ∙ r))
          ]

  start_counts : (r : Rcd) → (start r).wg ≡ length (start r).workers + 0
  unfolding start
  start_counts r = elim (Bool-cases r.enable_benchmarking) [
    | inl on ↦ rw on refl
    | inr off ↦ rw off refl
  ]

  stop-Counted :
      (ws : List Worker) (h : Handles) (r : Result ℕ)
      → Counted ws 0 r
      → Stopped ends ws h (waited r h)
  unfolding waited
  stop-Counted ws h r (inl (all, e)) = rw e (all_return all)
  stop-Counted ws h r (inr (inl (all, some_stays, left, more, e))) =
      let not_zero : nat_eqb left 0 ≡ false = ground (arith, more) in
      rw (e, not_zero) (one_stays all some_stays)
  stop-Counted ws h r (inr (inr (some_dies, e))) = rw e (one_dies some_dies)

  -- `Stop` after `Start`, in both modes: the count of `wg` is the number of the workers, so that,
  -- if every worker returns, the wait ends, and then the client is closed and nothing else; if one
  -- stays and none panics, the wait never ends, and nothing is closed.
  pub stop-start :
      (r : Rcd) (h : Handles) → Stopped ends (start r).workers h (stop ends (start r) h)
  unfolding stop
  stop-start r h = stop-Counted (start r).workers h (all_done ends (start r).workers (start r).wg) (
      subst (λ wg. Counted (start r).workers 0 (all_done ends (start r).workers wg))
        (sym (start_counts r)) (all_done-Counted (start r).workers 0))

-- ===== src/Cmd/RunCm/Ends.antt =====
-- How the contract manager's program ends, and what it answers.
use broadauth.Base.{
  ◌≡◌, refl, ap, Bytes, List, [], ◌∷◌, Option, some, none, Bool, true, false, ◌&&◌, ok,
  if◌then◌else◌, Bool-cases, inl, inr, bytes_eq, int_eq,
}
use broadauth.Owner.Life.{closed, listen}
use broadauth.Cm.{CmOutside, Cm, handle_connection}
use broadauth.Cmd.{usage, fatal, returned}
use broadauth.Cmd.RunCm.{
  CmFlags, CmAnswers, missing, connect, or_fatal, set_up, read_full, Replies, accept_loop, Run,
  run_set_up, main,
}

-- Whether all the calls at the start succeed.
abbrev pub all_up : CmAnswers → Bool
all_up a = a.dials && a.private_key && a.network_id && a.transactor && a.contract && a.listens

-- The connections among what `Accept` returned.
abbrev pub connections : List (Option Bytes) → List (Option Bytes)
connections [] = []
connections (none ∷ accepts) = connections accepts
connections (some sent ∷ accepts) = some sent ∷ connections accepts

accept_loop-connections :
    (out : CmOutside) (accepts : List (Option Bytes)) (c : Cm)
    → accept_loop out accepts c ≡ accept_loop out (connections accepts) c
unfolding accept_loop
accept_loop-connections out [] c = refl
accept_loop-connections out (none ∷ accepts) c = accept_loop-connections out accepts c
accept_loop-connections out (some sent ∷ accepts) c =
    let done = handle_connection out (read_full sent) c in
    ap (λ (rest : Replies). record rest { responses = done.0 ∷ rest.responses })
      (accept_loop-connections out accepts done.1)

abbrev answers : Bool → Bool → Bool → Bool → Bool → Bool → CmAnswers
answers d k n t c l = record {
  dials = d;
  private_key = k;
  network_id = n;
  transactor = t;
  contract = c;
  listens = l;
}

module _ (out : CmOutside) (accepts : List (Option Bytes)) where
  -- How a start ends: with every call a success, the connections are answered and all is closed
  -- after the signal; otherwise the program ends with the client left open, if it was dialled.
  abbrev pub started : CmAnswers → Run
  started a =
      if all_up a
      then record {
        exit = returned;
        handles = closed;
        answered = some (accept_loop out (connections accepts) (record { calls = 0; asked = [] }));
      }
      else record {
        exit = fatal;
        handles = record { client = a.dials; listener = false };
        answered = none;
      }

  by_answers :
      (d k n t c l : Bool)
      → run_set_up out accepts (set_up (answers d k n t c l) closed)
        ≡ ok (started (answers d k n t c l))
  unfolding run_set_up set_up connect or_fatal listen
  by_answers false k n t c l = refl
  by_answers true false n t c l = refl
  by_answers true true false t c l = refl
  by_answers true true true false c l = refl
  by_answers true true true true false l = refl
  by_answers true true true true true false = refl
  by_answers true true true true true true =
      ap (λ done. ok (record { exit = returned; handles = closed; answered = some done }))
        (accept_loop-connections out accepts (record { calls = 0; asked = [] }))

  -- For any flags, answers and connections, the program ends by its usage where a required flag is
  -- empty, by an error where a call at the start fails, with the client open if it was dialled,
  -- and otherwise by its return after the signal with both handles closed; then every connection
  -- that was accepted has been answered in turn, as if no error of `Accept` had come between.
  pub cm_main-Ended :
      (f : CmFlags) (a : CmAnswers)
      → main out accepts f a closed
        ≡ ok (
            if missing f
            then record { exit = usage; handles = closed; answered = none }
            else started a)
  unfolding main
  cm_main-Ended f a = elim (Bool-cases (missing f)) [
    | inl gone ↦ rw gone refl
    | inr there ↦
        rw there (by_answers a.dials a.private_key a.network_id a.transactor a.contract a.listens)
  ]

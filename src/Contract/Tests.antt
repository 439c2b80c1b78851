-- ===== src/Contract/Tests.antt =====
-- One RCD, two chains of it, and a call that reverts.
use broadauth.Base.{
  Bytes, bytes_eq, replicate, ◌++◌, true, some, ℕ, ◌+◌, load, store, ◌≡◌, refl, List, [], ◌∷◌,
  arith,
}
use broadauth.Owner.{of_be, handle_rcd}
use broadauth.Owner.Tests.{toy_outside, toy_outside-Mining, owner_0, served_once}
use broadauth.Contract.Owned.{Ready}
use broadauth.Contract.InStep.{InStep, handle_rcd-InStep}
use broadauth.Contract.{
  Contract, Chain, Call, reg_owner, store_key, change_current_index, rcd_at, get_key, exec, after,
  after_all, require, put, registered, stored, advanced,
}
use broadauth.Contract.Gap.{Gap, after_all-Gap}
use broadauth.Contract.Frozen.{Frozen, after_all-Frozen}
use broadauth.Contract.Chained.{Chained}
use broadauth.Contract.Disjoint.{Orderly, InTurn, after_all-Chained}

abbrev empty : Contract
empty = record { cm = 1 ∷ []; rcds = [] }

abbrev period : ℕ → Chain
period from = record {
  key = from ∷ [];
  start_time = from;
  end_time = from + 9;
  disclosure_delay = 2;
}

-- The second chain is stored too early, and then in time.
abbrev calls : List Call
calls =
    reg_owner (1 ∷ []) (5 ∷ []) 7
    ∷ store_key (5 ∷ []) 7 1 (period 10)
    ∷ store_key (5 ∷ []) 7 2 (period 15)
    ∷ store_key (5 ∷ []) 7 2 (period 20)
    ∷ change_current_index 7 20
    ∷ []

second_chain : get_key 7 (after_all calls empty) ≡ period 20
unfolding get_key after_all load after require put store registered stored advanced
second_chain = refl

-- A first key at the index 3 sets the current index to 1, which has no key.
no_first_key :
    get_key 7
      (after_all (reg_owner (1 ∷ []) (5 ∷ []) 7 ∷ store_key (5 ∷ []) 7 3 (period 10) ∷ []) empty)
    ≡ record { key = []; start_time = 0; end_time = 0; disclosure_delay = 0 }
unfolding get_key after_all load after require put store registered stored advanced
no_first_key = refl

after_all-Frozen_example : Frozen (rcd_at 7 empty) (rcd_at 7 (after_all calls empty))
after_all-Frozen_example = after_all-Frozen calls 7 empty

calls-Orderly : Orderly calls empty
unfolding Orderly InTurn after exec load require put store registered stored advanced
calls-Orderly = (tt, (refl, (refl, (refl, (tt, tt)))))

empty-Chained : (j : ℕ) → Chained (rcd_at j empty)
unfolding load
empty-Chained j = record {
  taken = λ i e. ground (arith, e);
  low = λ i e. ground (arith, e);
  high = λ i e. ground (arith, e);
  started = λ i e. ground (arith, e);
  no_gap = λ i one le. ground (arith, one, le);
  disjoint = λ i one e. ground (arith, e);
}

after_all-Chained_example : Chained (rcd_at 7 (after_all calls empty))
after_all-Chained_example = after_all-Chained calls empty calls-Orderly empty-Chained 7

-- The toy owner's RCD, with its first chain over at the block 6.
abbrev rcd_id : Bytes
rcd_id = replicate 16 1

abbrev owned : Contract
owned = record {
  cm = 1 ∷ [];
  rcds =
      (
        of_be 0 rcd_id,
        record {
          is_taken = true;
          owner = replicate 20 5;
          chains =
              (1, record { key = 2 ∷ []; start_time = 4; end_time = 6; disclosure_delay = 2 }) ∷ [];
          current_index = 1;
        },
      )
      ∷ [];
}

owned-Ready : Ready (of_be 0 rcd_id) owner_0.address (of_be 0 (9 ∷ [])) 10 owned
unfolding of_be load get_key
owned-Ready = record {
  taken = refl;
  owner = refl;
  fits = omega arith;
  over = λ one. (omega arith, omega arith);
}

owned_index : (rcd_at (of_be 0 rcd_id) owned).current_index ≡ served_once.current_index
unfolding load of_be
owned_index = refl

handle_rcd-InStep_example :
    InStep rcd_id owner_0 10 owned (handle_rcd toy_outside (some (rcd_id ++ (9 ∷ []))) owner_0).1
handle_rcd-InStep_example =
    handle_rcd-InStep 3 toy_outside rcd_id (9 ∷ []) (owner_0.calls ∷ replicate 31 3) served_once
      owner_0 10 owned toy_outside-Mining refl (unfold load in refl) refl refl refl owned-Ready
      owned_index (omega arith)

-- Both of two requests stored their chain under the index 2, one over the other, and the owner
-- has counted both, so that it goes on with the index 4.
abbrev after_race : List Call
after_race =
    reg_owner (1 ∷ []) (5 ∷ []) 7
    ∷ store_key (5 ∷ []) 7 1 (period 10)
    ∷ store_key (5 ∷ []) 7 2 (period 20)
    ∷ store_key (5 ∷ []) 7 2 (period 21)
    ∷ change_current_index 7 25
    ∷ []

abbrev gap_left : Contract
gap_left = after_all after_race empty

gap_left-Gap : Gap 3 (rcd_at 7 gap_left)
unfolding after_all load after require put store registered stored advanced
gap_left-Gap = record { taken = refl; started = omega arith; below = omega arith; empty = refl }

abbrev later_calls : List Call
later_calls =
    change_current_index 7 100
    ∷ store_key (5 ∷ []) 7 4 (period 101)
    ∷ change_current_index 7 102
    ∷ []

after_all-Gap_example :
    Gap 3 (rcd_at 7 (after_all later_calls gap_left))
    × ((rcd_at 7 gap_left).current_index + 1 ≡ 3
        → get_key 7 (after_all later_calls gap_left) ≡ get_key 7 gap_left)
after_all-Gap_example =
    after_all-Gap 3 7 later_calls gap_left gap_left-Gap
      (tt, ((λ _ e. absurd (omega (arith, e))), (tt, tt)))

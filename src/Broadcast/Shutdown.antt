-- ===== src/Broadcast/Shutdown.antt =====
-- `UDPReceiver.Close` beside `receiveLoop`, which share the lock `mu`: steps of the two goroutines
-- in any order. Nothing else takes the lock here.
use broadauth.Base.{◌≡◌, ◌↔◌, ◌⊎◌, inl, inr, refl, sym, subst}

-- Where the loop is: in its select, with a datagram but not yet the lock, with the lock, returned.
pub data LoopAt : Type 0 where
  selecting has_data holds_lock returned : LoopAt

-- Where `Close` is: not called, past `close(done)`, with the lock, in `wg.Wait` with the lock, and
-- returned.
pub data CloseAt : Type 0 where
  not_called done_closed locked waits_for_loop closed : CloseAt

pub record Shutdown : Type 0 where
  pub loop : LoopAt
  pub close : CloseAt

abbrev state : LoopAt → CloseAt → Shutdown
state l c = record { loop = l; close = c }

-- Who can hold the lock.
abbrev pub FreeOfLoop : LoopAt → Type 0
FreeOfLoop holds_lock = ⊥
FreeOfLoop l = Unit {0}

abbrev pub FreeOfClose : CloseAt → Type 0
FreeOfClose locked = ⊥
FreeOfClose waits_for_loop = ⊥
FreeOfClose c = Unit {0}

-- `done` is closed.
abbrev pub IsDone : CloseAt → Type 0
IsDone not_called = ⊥
IsDone c = Unit {0}

-- The context may be done in any select. A datagram may have been read before the socket was
-- closed, and the select takes either case; a failed read before the end goes back to the select
-- and is no step here.
pub data Step : Shutdown → Shutdown → Type 0 where
  sees_cancel : (c : CloseAt) → Step (state selecting c) (state returned c)
  sees_done : (c : CloseAt) → IsDone c → Step (state selecting c) (state returned c)
  reads : (c : CloseAt) → Step (state selecting c) (state has_data c)
  locks : (c : CloseAt) → FreeOfClose c → Step (state has_data c) (state holds_lock c)
  unlocks : (c : CloseAt) → Step (state holds_lock c) (state selecting c)
  closes_done : (l : LoopAt) → Step (state l not_called) (state l done_closed)
  close_locks : (l : LoopAt) → FreeOfLoop l → Step (state l done_closed) (state l locked)
  closes_socket : (l : LoopAt) → Step (state l locked) (state l waits_for_loop)
  finishes : Step (state returned waits_for_loop) (state returned closed)

pub data Reach (s : Shutdown) : Shutdown → Type 0 where
  here : Reach s s
  next : {t u : Shutdown} → Reach s t → Step t u → Reach s u

abbrev pub Stuck : Shutdown → Type 0
Stuck s = (t : Shutdown) → Step s t → ⊥

-- Both have returned.
abbrev pub finished : Shutdown
finished = state returned closed

-- `Close` waits for the loop with the lock that the loop waits for.
abbrev pub blocked : Shutdown
blocked = state has_data waits_for_loop

abbrev Ends : LoopAt → CloseAt → Type 0
Ends l c = (state l c ≡ finished) ⊎ (state l c ≡ blocked)

-- From each state a step, or it is one of the two ends.
next_or_end : (l : LoopAt) (c : CloseAt) → ((t : Shutdown) × Step (state l c) t) ⊎ Ends l c
next_or_end selecting c = inl (_, reads c)
next_or_end holds_lock c = inl (_, unlocks c)
next_or_end has_data not_called = inl (_, closes_done has_data)
next_or_end has_data done_closed = inl (_, close_locks has_data tt)
next_or_end has_data locked = inl (_, closes_socket has_data)
next_or_end has_data waits_for_loop = inr (inr refl)
next_or_end has_data closed = inl (_, locks closed tt)
next_or_end returned not_called = inl (_, closes_done returned)
next_or_end returned done_closed = inl (_, close_locks returned tt)
next_or_end returned locked = inl (_, closes_socket returned)
next_or_end returned waits_for_loop = inl (_, finishes)
next_or_end returned closed = inr (inl refl)

finished-Stuck : Stuck finished
finished-Stuck t step = elim step [ ]

blocked-Stuck : Stuck blocked
blocked-Stuck _ (locks _ free) = elim free [ ]

abbrev pub before_close : Shutdown
before_close = state selecting not_called

Stuck-iff : (s : Shutdown) → Stuck s ↔ ((s ≡ finished) ⊎ (s ≡ blocked))
Stuck-iff s = (
  λ stuck. elim (next_or_end s.loop s.close) [
    | inl (t, step) ↦ absurd (stuck t step)
    | inr end ↦ end
  ],
  λ end. elim end [
    | inl e ↦ subst Stuck (sym e) finished-Stuck
    | inr e ↦ subst Stuck (sym e) blocked-Stuck
  ],
)

blocked-Reach : Reach before_close blocked
blocked-Reach =
    next
      (next (next (next here (reads not_called)) (closes_done has_data)) (close_locks has_data tt))
      (closes_socket has_data)

finished-Reach : Reach before_close finished
finished-Reach =
    next
      (next
        (next (next (next here (closes_done selecting)) (close_locks selecting tt))
          (closes_socket selecting))
        (sees_done waits_for_loop tt))
      finishes

-- The two goroutines can go no further only if both have returned, or if `Close` waits for the loop
-- while it holds the lock that the loop, with a datagram, waits for. Both ends can be reached from
-- a running loop with `Close` not called.
pub close_may_block :
    ((s : Shutdown) → Stuck s ↔ ((s ≡ finished) ⊎ (s ≡ blocked)))
    × Reach before_close blocked
    × Reach before_close finished
close_may_block = (Stuck-iff, blocked-Reach, finished-Reach)

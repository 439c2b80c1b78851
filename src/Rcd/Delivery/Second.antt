-- ===== src/Rcd/Delivery/Second.antt =====
-- A second batch of a slot: only what came after the first one is left for it.
use broadauth.Base.{
  ℕ, ◌≡◌, ap, ◌∙◌, Bytes, List, [], ◌++◌, Bool, arith, Map, load, delete, load-delete, bytes_eq,
  nat_eq,
}
use broadauth.Message.{Message}
use broadauth.Bloom.{Filter}
use broadauth.Rcd.{Env, Rcd}
use broadauth.Rcd.Receive.{sub_64, get_unverified, or_empty, handle_message}
use broadauth.Rcd.Receive.Batch.{passing, reports}
use broadauth.Rcd.Receive.Batched.{Verifiable, Batched, handle_batch-Batched}
use broadauth.Rcd.Delivery.Stored.{handle_all, Carries, Stored, handle_all-Stored}

module _ (env : Env) where
  none_left : (slot : ℕ) (kept : Map ℕ (List Bytes)) → or_empty (load slot (delete slot kept)) ≡ []
  none_left slot kept = ground (arith, load-delete slot slot kept)

  -- Two batches of the same slot that can be verified, of whatever senders: the first at `r`, the
  -- second after the data messages with `items` for that slot, which come in time after the first.
  -- The second batch reports those of the items that pass its filter, in order, and nothing of
  -- what was stored before the first one.
  pub handle_batch_second :
      (datagram datagram' sender : Bytes) (m m' : Message) (now now' : ℕ)
      (key key' commitment commitment' : Bytes) (f f' : Filter) (b b' : Bool)
      (items ds : List Bytes) (r : Rcd)
      → Verifiable env datagram m now key commitment f b r
      → Carries env sender
          (sub_64 m.slot r.disclosure_delay)
          (handle_message env datagram r).1.disclosure_delay
          (handle_message env datagram r).1.keys.slot_calls
          items
          ds
      → Verifiable env datagram' m' now' key' commitment' f' b'
          (handle_all env ds (handle_message env datagram r).1)
      → m'.slot ≡ m.slot
      → (handle_message env datagram'
          (handle_all env ds (handle_message env datagram r).1)).1.authenticated
        ≡ reports m'.sender_id (passing f' items) (handle_message env datagram r).1.authenticated
  unfolding get_unverified
  handle_batch_second datagram datagram' sender m m' now now' key key' commitment commitment' f f' b
        b' items ds r v c v' same =
      second.reported ∙ (λ i. reports m'.sender_id (passing f' (found i)) (kept.authenticated i))
    where
      slot : ℕ
      slot = sub_64 m.slot r.disclosure_delay

      s : Rcd
      s = (handle_message env datagram r).1

      u : Rcd
      u = handle_all env ds s

      first : Batched env slot m.sender_id key f r (handle_message env datagram r)
      first = handle_batch-Batched env datagram m now key commitment f b r v

      kept : Stored env slot items s u
      kept = handle_all-Stored env sender slot items ds s c

      second :
          Batched env
            (sub_64 m'.slot u.disclosure_delay)
            m'.sender_id
            key'
            f'
            u
            (handle_message env datagram' u)
      second = handle_batch-Batched env datagram' m' now' key' commitment' f' b' u v'

      nothing : get_unverified slot s ≡ []
      nothing =
          ap (λ kept. or_empty (load slot kept)) first.dropped ∙ none_left slot r.unverified_msgs

      found : get_unverified (sub_64 m'.slot u.disclosure_delay) u ≡ items
      found =
          (λ i. get_unverified (sub_64 (same i) ((kept.disclosure_delay ∙ first.same_delay) i)) u)
          ∙ kept.stored
          ∙ ap (λ xs. xs ++ items) nothing

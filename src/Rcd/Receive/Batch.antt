-- ===== src/Rcd/Receive/Batch.antt =====
-- What the handler reports of a batch, whose filter came with the key.
use broadauth.Base.{
  ◌%◌, ◌^◌, ◌<◌, ◌≡◌, refl, ap, ◌∙◌, Bytes, List, [], ◌∷◌, All, some, Bool, false, Result, ok,
  arith, if◌then◌else◌, delete, nat_eq, Bool-cases, inl, inr,
}
use broadauth.Message.{Message}
use broadauth.Bloom.{Filter, check, to_bytes, from_bytes}
use broadauth.Bloom.Filled.{IsFilter, Passes}
use broadauth.Bloom.Read.{check_total}
use broadauth.Bloom.Wire.{from_bytes-to_bytes}
use broadauth.Rcd.{Env, Rcd, probabilistic}
use broadauth.Rcd.Receive.{sub_64, report, check_items, get_unverified, batch_of, accept}

abbrev said_yes : Result Bool → Bool
said_yes (ok b) = b
said_yes _ = false

-- The items that pass the filter, in order.
unfoldable pub passing : Filter → List Bytes → List Bytes
passing f [] = []
passing f (item ∷ items) =
    if said_yes (check f item) then item ∷ passing f items else passing f items

-- The reports of some items, the last of them first.
unfoldable pub reports : Bytes → List Bytes → List (Bytes × Bytes) → List (Bytes × Bytes)
reports sender [] old = old
reports sender (item ∷ items) old = reports sender items ((sender, item) ∷ old)

pub passing-All :
    (f : Filter) (items : List Bytes) → All (λ i. Passes i f) items → passing f items ≡ items
unfolding passing
passing-All f [] ps = refl
passing-All f (item ∷ items) (p, ps) = rw p (ap (◌∷◌ item) (passing-All f items ps))

check_items_lem :
    (f : Filter) (sender : Bytes) (items : List Bytes) (r : Rcd)
    → IsFilter f
    → check_items f sender items r
      ≡ (ok tt, record r { authenticated = reports sender (passing f items) r.authenticated })
unfolding check_items passing reports report
check_items_lem f sender [] r w = refl
check_items_lem f sender (item ∷ items) r w =
    let (b, e) = check_total f item w in
    elim (Bool-cases b) [
      | inl hit ↦ rw (e, hit) (check_items_lem f sender items (report sender item r) w)
      | inr miss ↦ rw (e, miss) (check_items_lem f sender items r w)
    ]

module _ (env : Env) where
  -- In probabilistic mode, a verified batch with a well-sized filter whose numbers fit 32 bits
  -- reports exactly the stored messages of its slot that pass the filter, in order, and drops
  -- what was stored for the slot; the slot is that of the message less the disclosure delay. If
  -- all that is stored passes, all of it is reported.
  pub accept_batch :
      (m : Message) (f : Filter) (r : Rcd)
      → IsFilter f
      → f.m < 2 ^ 32
      → f.k < 2 ^ 32
      → (accept env probabilistic m (to_bytes f) r ≡ (
        ok tt,
        record r {
          authenticated =
              reports m.sender_id
                (passing f (get_unverified (sub_64 m.slot r.disclosure_delay) r))
                r.authenticated;
          unverified_msgs = delete (sub_64 m.slot r.disclosure_delay) r.unverified_msgs;
        },
      ))
        × (All (λ i. Passes i f) (get_unverified (sub_64 m.slot r.disclosure_delay) r)
            → passing f (get_unverified (sub_64 m.slot r.disclosure_delay) r)
              ≡ get_unverified (sub_64 m.slot r.disclosure_delay) r)
  unfolding accept
  accept_batch m f r w p q =
      (rw read (unfold batch_of in rw (check_items_lem f m.sender_id _ r w) refl), passing-All f _)
    where
      cut_m : f.m % 2 ^ 32 ≡ f.m
      cut_m = omega arith

      cut_k : f.k % 2 ^ 32 ≡ f.k
      cut_k = omega arith

      read : from_bytes (to_bytes f) ≡ some f
      read = from_bytes-to_bytes f ∙ λ i. some (record f { m = cut_m i; k = cut_k i })

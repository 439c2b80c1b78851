-- ===== src/Cm/Registered.antt =====
-- An owner's registration at the manager.
use broadauth.Base.{
  ℕ, ◌≡◌, ◌↔◌, refl, ap, ap₂, ◌∙◌, Bytes, List, ◌∷◌, ◌++◌, length, take, drop, replicate,
  overwrite_all, take-append, drop-append, take_all, Option, some, none, Bool, true, false, ok,
  arith,
}
use broadauth.Owner.{Owner, Outside, of_be, registration, register_rcd, call}
use broadauth.Cm.{
  Status, success, failure, Receipt, CmOutside, handle_connection, on_sent, on_mined, address_size,
  uuid_size, on_receipt, send_response, refuse,
}

abbrev pub is_success : Status → Bool
is_success success = true
is_success failure = false

-- An owner whose manager, at its call `i`, is this code, with `i` as the number of its own call.
-- What the manager writes, encoding/json gives back to the owner.
abbrev pub Manages : CmOutside → Outside → Type 0
Manages cm out =
    (i : ℕ) (payload : Bytes) (asked : List (Bytes × ℕ))
    → out.register i payload
      ≡ is_success
          (handle_connection cm (some payload) (record { calls = i; asked = asked })).0.status

-- The manager's transaction for the owner and the RCD was sent, and the wait for it gave, within its
-- time, a receipt of a success.
pub record Confirmed (cm : CmOutside) (i : ℕ) (owner : Bytes) (rcd : ℕ) : Type 0 where
  pub hash : Bytes
  pub receipt : Receipt
  pub sent : cm.reg_owner i owner rcd ≡ some hash
  pub mined : cm.wait_mined i hash ≡ some receipt
  pub kept : receipt.successful ≡ true

ok_true : (b : Bool) → ok b ≡ ok true → b ≡ true
ok_true true e = refl
ok_true false e = ground (arith, e)

module _ (cm : CmOutside) where
  on_sent-Confirmed :
      (i : ℕ) (owner : Bytes) (rcd : ℕ)
      → (is_success (on_sent cm i (cm.reg_owner i owner rcd)).status ≡ true)
        ↔ Confirmed cm i owner rcd
  unfolding on_sent on_mined on_receipt send_response refuse
  on_sent-Confirmed i owner rcd =
      (by_hash (cm.reg_owner i owner rcd) refl, λ t. rw (t.sent, t.mined, t.kept) refl)
    where
      by_receipt :
          (hash : Bytes) (m : Option Receipt)
          → cm.reg_owner i owner rcd ≡ some hash
          → cm.wait_mined i hash ≡ m
          → is_success (on_mined cm hash m).status ≡ true
          → Confirmed cm i owner rcd
      by_receipt hash none sent mined e = ground (arith, e)
      by_receipt hash (some receipt) sent mined e = record {
        hash = hash;
        receipt = receipt;
        sent = sent;
        mined = mined;
        kept = ground (arith, e);
      }

      by_hash :
          (h : Option Bytes)
          → cm.reg_owner i owner rcd ≡ h
          → is_success (on_sent cm i h).status ≡ true
          → Confirmed cm i owner rcd
      by_hash none sent e = ground (arith, e)
      by_hash (some hash) sent e = by_receipt hash (cm.wait_mined i hash) sent refl e

  -- A registration that an owner with an address of 20 bytes asks for an RCD makes the manager
  -- call `RegOwner` once, with that address and the identifier as a big-endian number. The owner
  -- takes it for a success exactly if the transaction was sent and the wait for it gave a receipt of
  -- a success in its time; after a wait that gave none the contract may still take it.
  pub register_rcd-Confirmed :
      (out : Outside) (id : Bytes) (o : Owner) (asked : List (Bytes × ℕ))
      → Manages cm out
      → length o.address ≡ 20
      → length id ≡ 16
      → (((register_rcd out id o).0 ≡ ok true) ↔ Confirmed cm o.calls o.address (of_be 0 id))
        × ((handle_connection cm
              (some (registration o.address id))
              (record { calls = o.calls; asked = asked })).1.asked
            ≡ (o.address, of_be 0 id) ∷ asked)
  unfolding register_rcd call handle_connection registration
  register_rcd-Confirmed out id o asked manages a b =
      rw (manages o.calls (registration o.address id) asked, whole, owner, rcd)
        ((λ e. taken.0 (ok_true _ e), λ t. ap ok (taken.1 t)), refl)
    where
      taken :
          (is_success (on_sent cm o.calls (cm.reg_owner o.calls o.address (of_be 0 id))).status
            ≡ true)
          ↔ Confirmed cm o.calls o.address (of_be 0 id)
      taken = on_sent-Confirmed o.calls o.address (of_be 0 id)

      whole : registration o.address id ≡ o.address ++ id
      whole =
          unfold registration in
          ap₂ (λ x y. x ++ y) (overwrite_all o.address (replicate 20 0) a)
            (overwrite_all id (replicate 16 0) b)

      owner : take address_size (o.address ++ id) ≡ o.address
      owner = take-append 20 o.address id a

      rcd : take uuid_size (drop address_size (o.address ++ id)) ≡ id
      rcd = ap (take uuid_size) (drop-append 20 o.address id a) ∙ take_all 16 id b

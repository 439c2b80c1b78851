-- ===== src/Rcd/Delivery/Stored.antt =====
-- Data messages that reach an RCD one after the other, before their keys may be out.
use broadauth.Base.{
  ℕ, ◌+◌, ◌<◌, ◌≡◌, refl, sym, ap, ◌∙◌, subst, Bytes, List, [], ◌∷◌, ◌++◌, append-nil, append_assoc,
  length, some, arith, load, load-store, nat_eq,
}
use broadauth.Message.{new_message, kind_data}
use broadauth.Rcd.{Env, Rcd, add_64}
use broadauth.Rcd.Receive.{
  handle_message, get_unverified, or_empty, dispatch, count_received, store_unverified, handle_data,
}
use broadauth.Rcd.Receive.Accept.{Arrives, handle_arrived, arrived}

module _ (env : Env) where
  -- The handler on each datagram in turn.
  unfoldable pub handle_all : List Bytes → Rcd → Rcd
  handle_all [] r = r
  handle_all (d ∷ ds) r = handle_all ds (handle_message env d r).1

  -- The slot source answers call `calls` with a slot in which a message for `slot` is not late.
  abbrev pub InTime : ℕ → ℕ → ℕ → Type 0
  InTime slot delay calls = (now : ℕ) × (env.get_slot calls ≡ some now) × (now < add_64 slot delay)

  -- The datagrams carry the items, as data messages for `slot`, and come in time, from the
  -- slot source's call `calls` on.
  abbrev pub Carries : Bytes → ℕ → ℕ → ℕ → List Bytes → List Bytes → Type 0
  Carries sender slot delay calls [] [] = Unit
  Carries sender slot delay calls (item ∷ items) (d ∷ ds) =
      (env.codec.marshal (new_message sender slot kind_data item) ≡ some d)
      × InTime slot delay calls
      × Carries sender slot delay (calls + 1) items ds
  Carries sender slot delay calls _ _ = ⊥

  -- What data messages for a slot leave of an RCD: their items are stored, in order.
  pub record Stored (slot : ℕ) (items : List Bytes) (r s : Rcd) : Type 0 where
    pub stored : get_unverified slot s ≡ get_unverified slot r ++ items
    pub slot_calls : s.keys.slot_calls ≡ r.keys.slot_calls + length items
    pub commitment_keys : s.commitment_keys ≡ r.commitment_keys
    pub received_hmacs : s.received_hmacs ≡ r.received_hmacs
    pub authenticated : s.authenticated ≡ r.authenticated
    pub mode : s.mode ≡ r.mode
    pub hashchain_len : s.hashchain_len ≡ r.hashchain_len
    pub disclosure_delay : s.disclosure_delay ≡ r.disclosure_delay

  stored_run :
      (datagram sender item : Bytes) (slot now : ℕ) (r : Rcd)
      → Arrives env datagram (new_message sender slot kind_data item) now r
      → now < add_64 slot r.disclosure_delay
      → (handle_message env datagram r).1 ≡ store_unverified slot item (arrived env datagram r)
  unfolding dispatch arrived count_received handle_data
  stored_run datagram sender item slot now r a before =
      ground (arith, handle_arrived env datagram (new_message sender slot kind_data item) now r a)

  load_stored :
      (slot : ℕ) (item : Bytes) (r : Rcd)
      → get_unverified slot (store_unverified slot item r) ≡ get_unverified slot r ++ (item ∷ [])
  unfolding get_unverified store_unverified
  load_stored slot item r = ground (
    arith,
    load-store slot slot (or_empty (load slot r.unverified_msgs) ++ (item ∷ [])) r.unverified_msgs,
  )

  arrived-items :
      (datagram : Bytes) (r : Rcd) → (arrived env datagram r).unverified_msgs ≡ r.unverified_msgs
  unfolding arrived count_received
  arrived-items datagram r = ground arith

  Stored-one :
      (datagram item : Bytes) (slot : ℕ) (r : Rcd)
      → Stored slot (item ∷ []) r (store_unverified slot item (arrived env datagram r))
  unfolding arrived count_received store_unverified get_unverified
  Stored-one datagram item slot r = record {
    stored =
        load_stored slot item (arrived env datagram r)
        ∙ ap (λ kept. or_empty (load slot kept) ++ (item ∷ [])) (arrived-items datagram r);
    slot_calls = ground arith;
    commitment_keys = ground arith;
    received_hmacs = ground arith;
    authenticated = ground arith;
    mode = ground arith;
    hashchain_len = ground arith;
    disclosure_delay = ground arith;
  }

  Stored-step :
      (slot : ℕ) (item : Bytes) (items : List Bytes) (r s t : Rcd)
      → Stored slot (item ∷ []) r s
      → Stored slot items s t
      → Stored slot (item ∷ items) r t
  Stored-step slot item items r s t a b = record {
    stored =
        b.stored
        ∙ ap (λ kept. kept ++ items) a.stored
        ∙ append_assoc (get_unverified slot r) (item ∷ []) items;
    slot_calls = omega (arith, a.slot_calls, b.slot_calls);
    commitment_keys = b.commitment_keys ∙ a.commitment_keys;
    received_hmacs = b.received_hmacs ∙ a.received_hmacs;
    authenticated = b.authenticated ∙ a.authenticated;
    mode = b.mode ∙ a.mode;
    hashchain_len = b.hashchain_len ∙ a.hashchain_len;
    disclosure_delay = b.disclosure_delay ∙ a.disclosure_delay;
  }

  -- Data messages that come in time are stored under their slot, in order, and change nothing
  -- else that a verification reads.
  pub handle_all-Stored :
      (sender : Bytes) (slot : ℕ) (items ds : List Bytes) (r : Rcd)
      → Carries sender slot r.disclosure_delay r.keys.slot_calls items ds
      → Stored slot items r (handle_all ds r)
  unfolding handle_all
  handle_all-Stored sender slot [] [] r c = record {
    stored = sym (append-nil (get_unverified slot r));
    slot_calls = omega arith;
    commitment_keys = refl;
    received_hmacs = refl;
    authenticated = refl;
    mode = refl;
    hashchain_len = refl;
    disclosure_delay = refl;
  }
  handle_all-Stored sender slot [] (d ∷ ds) r c = elim c [ ]
  handle_all-Stored sender slot (item ∷ items) [] r c = elim c [ ]
  handle_all-Stored sender slot (item ∷ items) (d ∷ ds) r (out, (now, at, before), rest) =
      Stored-step slot item items r (handle_message env d r).1 _ first (
        handle_all-Stored sender slot items ds (handle_message env d r).1 (
          subst {A = ℕ × ℕ} (λ c. Carries sender slot c.0 c.1 items ds)
            (λ i. (sym first.disclosure_delay i, sym first.slot_calls i)) rest))
    where
      first : Stored slot (item ∷ []) r (handle_message env d r).1
      first =
          subst (Stored slot (item ∷ []) r)
            (sym (
              stored_run d sender item slot now r
                (record {
                  reads =
                      env.codec.unmarshal-marshal (new_message sender slot kind_data item) d out;
                  at = at;
                })
                before))
            (Stored-one d item slot r)

-- ===== src/Rcd/Delivery/Batch.antt =====
-- A batch from its flush to its acceptance: the data messages of a slot, the HMAC of their
-- filter, and the disclosure of the filter and the key.
use broadauth.Base.{
  ℕ, ◌+◌, ◌-◌, ◌^◌, ◌≤◌, ◌<◌, ◌≡◌, refl, sym, ap, ◌∙◌, Bytes, List, [], ◌∷◌, ◌++◌, length, some,
  true, nat_eq, Result, arith, load, bytes_eq,
}
use broadauth.Hashchain.Spec.{iter, iter-iter}
use broadauth.Message.{Message, new_message, kind_hmac, kind_key_message}
use broadauth.Bloom.{Filter, to_bytes}
use broadauth.Rcd.{Env, Rcd, probabilistic, add_64}
use broadauth.Rcd.Send.{key_array}
use broadauth.Rcd.Send.Batch.{Flushed, fresh_filter}
use broadauth.Rcd.Receive.{sub_64, handle_message, get_unverified, or_empty}
use broadauth.Rcd.Receive.Accept.{Arrives}
use broadauth.Rcd.Receive.Keys.{array_32_whole}
use broadauth.Rcd.Receive.Late.{Noted, handle_hmac-Noted}
use broadauth.Rcd.Receive.Batch.{passing, reports, passing-All}
use broadauth.Rcd.Receive.Batched.{Verifiable, Batched, handle_batch-Batched}
use broadauth.Rcd.Delivery.Stored.{handle_all, Carries, Stored, handle_all-Stored}

-- A slot that fits 64 bits is found again from the slot of its disclosure.
slot_again : (slot delay : ℕ) → slot < 2 ^ 64 → sub_64 (add_64 slot delay) delay ≡ slot
slot_again slot delay h = omega arith

same_items :
    (slot : ℕ) (r s : Rcd)
    → s.unverified_msgs ≡ r.unverified_msgs
    → get_unverified slot s ≡ get_unverified slot r
unfolding get_unverified
same_items slot r s e = ap (λ kept. or_empty (load slot kept)) e

passing-append :
    (f : Filter) (xs ys : List Bytes) → passing f (xs ++ ys) ≡ passing f xs ++ passing f ys
unfolding passing
passing-append f [] ys = refl
passing-append f (x ∷ xs) ys = ground (arith, passing-append f xs ys)

module _ (env : Env) where
  open env use {hasher, hmac}

  -- The sender `s` holds a chain of `n` hashes that ends in `last`, and flushed the items as the
  -- batch of the slot `slot` under hash `i`, with the outcome `done`; `ds` are the datagrams of
  -- the items and `out` that of the disclosure, at the slot it was queued for. The receiver `r`,
  -- with the same disclosure delay, has hash `j` as the commitment of the sender, not too far
  -- back, and gets the items in time.
  pub record BatchSent (n i j slot : ℕ) (last out : Bytes) (items ds : List Bytes) (s r : Rcd)
      (done : Result (Unit {0}) × Rcd) : Type 0 where
    pub flushed : Flushed env slot (iter hasher (n - i) last) items s done
    pub fits_slot : slot < 2 ^ 64
    pub fits_m : (fresh_filter env (length items)).m < 2 ^ 32
    pub fits_k : (fresh_filter env (length items)).k < 2 ^ 32
    pub whole_key : length (iter hasher (n - i) last) ≡ 32
    pub earlier : j ≤ i
    pub within : i ≤ n
    pub near : i ≤ j + (r.hashchain_len + 1)
    pub same_delay : s.disclosure_delay ≡ r.disclosure_delay
    pub carried : Carries env s.id slot r.disclosure_delay r.keys.slot_calls items ds
    pub disclosed :
        env.codec.marshal (
          new_message s.id
            (add_64 slot s.disclosure_delay)
            kind_key_message
            (key_array (iter hasher (n - i) last) ++ to_bytes (flushed.filter)))
        ≡ some out
    pub committed : load s.id r.commitment_keys ≡ some (iter hasher (n - j) last)

  -- A receiver in probabilistic mode that gets the data messages of a flushed batch in time, then
  -- the HMAC of the filter and then the disclosure, at the slot that it was queued for, and whose
  -- commitment is an earlier key of the sender's chain at most `hashchainLen + 1` keys back,
  -- reports every item of the batch as authentic from the sender, in order, after what was stored
  -- for the slot before and passes the filter.
  pub batch_delivered :
      (n i j slot at at' : ℕ) (last out : Bytes) (items ds : List Bytes) (s r : Rcd)
      (done : Result (Unit {0}) × Rcd) (sent : BatchSent n i j slot last out items ds s r done)
      → r.mode ≡ probabilistic
      → env.get_slot (r.keys.slot_calls + length items) ≡ some at
      → env.get_slot (r.keys.slot_calls + length items + 1) ≡ some at'
      → (handle_message env out
          (handle_message env sent.flushed.out (handle_all env ds r)).1).1.authenticated
        ≡ reports s.id
            (passing sent.flushed.filter (get_unverified slot r) ++ items)
            r.authenticated
  batch_delivered n i j slot at at' last out items ds s r done sent prob slot_at slot_at' =
      batched.reported
      ∙ (λ h. reports s.id (passing f (found h)) (reported_before h))
      ∙ ap (λ shown. reports s.id shown r.authenticated)
          (passing-append f (get_unverified slot r) items
            ∙ ap (λ shown. passing f (get_unverified slot r) ++ shown)
                (passing-All f items sent.flushed.passes))
    where
      f : Filter
      f = sent.flushed.filter

      key : Bytes
      key = iter hasher (n - i) last

      u : Rcd
      u = handle_all env ds r

      kept : Stored env slot items r u
      kept = handle_all-Stored env s.id slot items ds r sent.carried

      mac : Message
      mac = new_message s.id slot kind_hmac (hmac key (to_bytes f))

      mac_arrives : Arrives env sent.flushed.out mac at u
      mac_arrives = record {
        reads = env.codec.unmarshal-marshal mac sent.flushed.out sent.flushed.is_hmac;
        at = ap env.get_slot kept.slot_calls ∙ slot_at;
      }

      t : Rcd
      t = (handle_message env sent.flushed.out u).1

      noted : Noted env (hmac key (to_bytes f)) u t
      noted =
          handle_hmac-Noted env sent.flushed.out mac at u (hmac key (to_bytes f)) mac_arrives refl
            refl (env.length-hmac key (to_bytes f))

      m : Message
      m =
          new_message s.id (add_64 slot s.disclosure_delay) kind_key_message
            (key_array key ++ to_bytes f)

      same_len : t.hashchain_len ≡ r.hashchain_len
      same_len = noted.hashchain_len ∙ kept.hashchain_len

      verifiable : Verifiable env out m at' key (iter hasher (n - j) last) f true t
      verifiable = record {
        arrives = record {
          reads = env.codec.unmarshal-marshal m out sent.disclosed;
          at = ap env.get_slot (noted.slot_calls ∙ ap (λ c. c + 1) kept.slot_calls) ∙ slot_at';
        };
        is_key = refl;
        is_body = ap (λ k. k ++ to_bytes f) (array_32_whole key sent.whole_key);
        whole_key = sent.whole_key;
        mode = noted.mode ∙ kept.mode ∙ prob;
        known = noted.known;
        stored = ap (load s.id) (noted.commitment_keys ∙ kept.commitment_keys) ∙ sent.committed;
        reaches = (i - j, omega arith, omega (arith, sent.near, same_len), joined);
        is_filter = sent.flushed.is_filter;
        fits_m = omega (arith, sent.fits_m, sent.flushed.same_m);
        fits_k = omega (arith, sent.fits_k, sent.flushed.same_k);
      }
        where
          joined : iter hasher (i - j) key ≡ iter hasher (n - j) last
          joined =
              let sum_of : (n - i) + (i - j) ≡ n - j = omega (arith, sent.earlier, sent.within) in
              iter-iter hasher (i - j) (n - i) last ∙ ap (λ x. iter hasher x last) sum_of

      batched :
          Batched env (sub_64 m.slot t.disclosure_delay) s.id key f t (handle_message env out t)
      batched =
          handle_batch-Batched env out m at' key (iter hasher (n - j) last) f true t verifiable

      same_slot : sub_64 m.slot t.disclosure_delay ≡ slot
      same_slot =
          ap (sub_64 (m.slot))
            (noted.disclosure_delay ∙ kept.disclosure_delay ∙ sym sent.same_delay)
          ∙ slot_again slot s.disclosure_delay sent.fits_slot

      found : get_unverified (sub_64 m.slot t.disclosure_delay) t ≡ get_unverified slot r ++ items
      found =
          ap (λ k. get_unverified k t) same_slot
          ∙ same_items slot u t noted.unverified_msgs
          ∙ kept.stored

      reported_before : t.authenticated ≡ r.authenticated
      reported_before = noted.authenticated ∙ kept.authenticated

-- ===== src/Rx/Delivery.antt =====
-- A text from `Tx.Broadcast` to the lines that a receiver prints.
use broadauth.Base.{
  ℕ, ◌≡◌, refl, ap, ◌∙◌, Bytes, ◌∷◌, ◌++◌, length, Option, some, none, true, ok, load, load-store,
  load-delete, store, eqb_refl, bytes_eq,
}
use broadauth.Hashchain.Drain.{length-next_hash}
use broadauth.Message.{Message, new_message, kind_key_message, kind_hmac}
use broadauth.Rcd.Send.{key_array}
use broadauth.Rcd.Receive.Keys.{array_32_whole}
use broadauth.Tx.{Tx, TxOutside}
use broadauth.Tx.Announced.{Announced, queued}
use broadauth.Rx.{Rx, RxOutside, verified, failed, shown, hmac_seen, handle}
use broadauth.Rx.Verified.{handle_mac, handle_key, used, judgement}

module _ (to : TxOutside) (spare : Bytes → Bytes) where
  open to use {hmac, codec}

  -- A receiver with the sender's HMAC and encoding/json.
  abbrev pub at_receiver : RxOutside
  at_receiver = record { hmac = hmac; length-hmac = to.length-hmac; codec = codec; spare = spare }

  -- The text, the datagram that announced it, the one that discloses its key at the slot `now`, and
  -- the lines of a receiver before, and after both and then the second one again.
  pub record Printed (item mac : Bytes) (r once twice : Rx) : Type 0 where
    pub verifies : once.lines ≡ shown item ∷ verified item ∷ hmac_seen mac ∷ r.lines
    pub refuses_replay : twice.lines ≡ shown item ∷ failed ∷ once.lines

  -- A text whose `Broadcast` succeeded, and whose disclosure goes out at any slot, is verified by
  -- every receiver that gets both datagrams, the HMAC first; the same disclosure again fails.
  pub broadcast_delivered :
      (slot : Option ℕ) (now : ℕ) (item wire : Bytes) (t t' : Tx) (r : Rx)
      (a : Announced to slot item t t')
      → codec.marshal (
          new_message t.id now kind_key_message
            ((queued t a.at item a.key).key ++ (queued t a.at item a.key).message))
        ≡ some wire
      → Printed item
          (hmac a.key item)
          r
          (handle at_receiver wire (handle at_receiver a.bytes r).1).1
          (handle at_receiver wire (handle at_receiver wire (handle at_receiver a.bytes r).1).1).1
  broadcast_delivered slot now item wire t t' r a disclosed = record {
    verifies = good.0 ∙ ap (λ ls. shown item ∷ verified item ∷ ls) (ap (λ p. p.1.lines) noted);
    refuses_replay = replayed (handle at_receiver wire heard).1 good.1;
  }
    where
      mac : Bytes
      mac = hmac a.key item

      m : Message
      m = new_message t.id a.at kind_hmac mac

      m' : Message
      m' = new_message t.id now kind_key_message (key_array a.key ++ item)

      heard : Rx
      heard = (handle at_receiver a.bytes r).1

      whole : length a.key ≡ 32
      whole =
          length-next_hash to.hasher t.hashchain a.chain a.key a.key_given a.key_there ∙ to.size_32

      noted : handle at_receiver a.bytes r ≡ (
        ok tt,
        record {
          received_hmacs = store mac true r.received_hmacs;
          lines = hmac_seen mac ∷ r.lines;
        },
      )
      noted =
          handle_mac at_receiver a.bytes m mac r (codec.unmarshal-marshal m a.bytes a.done.wire)
            refl refl (to.length-hmac a.key item)

      key_read :
          (s : Rx)
          → handle at_receiver wire s ≡ (
            ok tt,
            let known = load mac s.received_hmacs in
                record (used known mac s) { lines = shown item ∷ judgement known item ∷ s.lines },
          )
      key_read s =
          handle_key at_receiver wire m' a.key item s (codec.unmarshal-marshal m' wire disclosed)
            refl (ap (λ k. k ++ item) (array_32_whole a.key whole)) whole

      judged :
          (s : Rx)
          → load mac s.received_hmacs ≡ some true
          → ((handle at_receiver wire s).1.lines ≡ shown item ∷ verified item ∷ s.lines)
            × (load mac (handle at_receiver wire s).1.received_hmacs ≡ none)
      judged s e =
          rw (key_read s, e) (refl, rw (load-delete mac mac s.received_hmacs, eqb_refl mac) refl)

      replayed :
          (s : Rx)
          → load mac s.received_hmacs ≡ none
          → (handle at_receiver wire s).1.lines ≡ shown item ∷ failed ∷ s.lines
      replayed s e = rw (key_read s, e) refl

      good :
          ((handle at_receiver wire heard).1.lines ≡ shown item ∷ verified item ∷ heard.lines)
          × (load mac (handle at_receiver wire heard).1.received_hmacs ≡ none)
      good = judged heard (
          ap (λ p. load mac p.1.received_hmacs) noted
          ∙ rw (load-store mac mac true r.received_hmacs, eqb_refl mac) refl)

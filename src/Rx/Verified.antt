-- ===== src/Rx/Verified.antt =====
-- What the handler does with an HMAC and with a key message.
use broadauth.Base.{
  ◌-◌, ◌≡◌, refl, ap, sym, ◌∙◌, Bytes, [], ◌∷◌, ◌++◌, length, Option, some, none, Bool, inl, inr,
  true, ok, slice, slice_lem, slice_middle, append-nil, Option-cases, take_all, drop-append,
  append_assoc, length-append, arith, load, store, delete, bytes_eq,
}
use broadauth.Message.{Message, kind_hmac, kind_key_message}
use broadauth.Rcd.Receive.Keys.{array_32_whole}
use broadauth.Rx.{
  RxOutside, Rx, Line, verified, failed, shown, hmac_seen, handle, take_message, keep_hmac,
  show_message, verify_key_message, first_32, print, settle, show_verdict,
}

-- What a text is taken for, by what is known of its HMAC.
abbrev pub judgement : Option Bool → Bytes → Line
judgement none payload = failed
judgement (some _) payload = verified payload

-- An HMAC is used up by the text that it verifies.
abbrev pub used : Option Bool → Bytes → Rx → Rx
used none mac r = r
used (some _) mac r = record r { received_hmacs = delete mac r.received_hmacs }

module _ (out : RxOutside) where
  open out use {hmac, codec}

  first_32_of : (key rest : Bytes) → length key ≡ 32 → first_32 out (key ++ rest) ≡ ok key
  unfolding first_32
  first_32_of key rest e =
      let rest' = rest ++ out.spare (key ++ rest) in
      rw (append_assoc key rest (out.spare (key ++ rest))) (
        slice_middle [] key rest' 0 32 refl (omega (arith, e))
          (omega (arith, e, length-append key rest')))

  tail_of :
      (key rest : Bytes) → length key ≡ 32 → slice (key ++ rest) 32 (length (key ++ rest)) ≡ ok rest
  tail_of key rest e =
      let len = length-append key rest in
      slice_lem (key ++ rest) 32 (length (key ++ rest)) (omega (arith, e, len)) (omega arith)
      ∙ rw (drop-append 32 key rest e)
          (ap ok (take_all (length (key ++ rest) - 32) rest (omega (arith, e, len))))

  pub handle_mac :
      (datagram : Bytes) (m : Message) (mac : Bytes) (r : Rx)
      → codec.unmarshal datagram ≡ some m
      → m.kind ≡ kind_hmac
      → m.body ≡ mac
      → length mac ≡ 32
      → handle out datagram r ≡ (
        ok tt,
        record {
          received_hmacs = store mac true r.received_hmacs;
          lines = hmac_seen mac ∷ r.lines;
        },
      )
  unfolding handle take_message keep_hmac print
  handle_mac datagram m mac r reads k b e =
      let first : first_32 out mac ≡ ok mac =
        ap (first_32 out) (sym (append-nil mac)) ∙ first_32_of mac [] e in
      rw (reads, k, b, first, array_32_whole mac e) refl

  pub handle_key :
      (datagram : Bytes) (m : Message) (key payload : Bytes) (r : Rx)
      → codec.unmarshal datagram ≡ some m
      → m.kind ≡ kind_key_message
      → m.body ≡ key ++ payload
      → length key ≡ 32
      → handle out datagram r ≡ (
        ok tt,
        let known = load (hmac key payload) r.received_hmacs in
            record (used known (hmac key payload) r) {
              lines = shown payload ∷ judgement known payload ∷ r.lines;
            },
      )
  unfolding handle take_message show_message verify_key_message settle show_verdict print
  handle_key datagram m key payload r reads k b e =
      rw
        (
          reads,
          k,
          b,
          first_32_of key payload e,
          tail_of key payload e,
          array_32_whole (hmac key payload) (out.length-hmac key payload),
        )
        (elim (Option-cases (load (hmac key payload) r.received_hmacs)) [
          | inl f ↦ rw f refl
          | inr (v, f) ↦ rw f refl
        ])

-- ===== src/Rx.antt =====
-- internal/rx/rx.go: the older receiver of the chat tool, which takes a text as authentic if its
-- HMAC under the key that comes with it was received before.
pub mod Verified
pub mod Delivery
pub mod Once
pub mod Race
pub mod Tests
use broadauth.Base.{
  ℕ, ◌+◌, Bytes, List, [], ◌∷◌, ◌++◌, length, take, Option, some, none, Bool, true, false, not, ◌≡◌,
  Result, ok, err, panic, running, leb, ◌==◌, int_eq, bytes_eq, if◌then◌else◌, Map, load, store,
  delete, slice,
}
use broadauth.Base.State.{M, carry, ◌>>=◌, ◌>>◌, pure, lift, gets, modify, when}
use broadauth.Message.{Message, Codec, kind_key_message}
use broadauth.Broadcast.{Opening, new_udp_receiver}
use broadauth.Rcd.Receive.{array_32}

-- A line that the handler prints, with what it is about.
pub data Line : Type 0 where
  unreadable : Line
  verified : (message : Bytes) → Line
  failed : Line
  shown : (message : Bytes) → Line
  hmac_seen : (mac : Bytes) → Line

-- The struct `Rx`, and the lines printed, newest first.
pub record Rx : Type 0 where
  pub received_hmacs : Map Bytes Bool
  pub lines : List Line

-- HMAC-SHA-256, encoding/json, and the bytes between the length and the capacity of a `Data` that
-- encoding/json has made, which a slice can reach.
pub record RxOutside : Type 0 where
  pub hmac : Bytes → Bytes → Bytes
  pub length-hmac : (k b : Bytes) → length (hmac k b) ≡ 32
  pub codec : Codec
  pub spare : Bytes → Bytes

-- `NewRxWithUDPConfig`, by what `net` answers.
unfoldable pub new_rx : Opening → Result Rx
new_rx opening = elim (new_udp_receiver opening false).0 [
  | ok _ ↦ ok (record { received_hmacs = []; lines = [] })
  | _ ↦ panic
]

unfoldable pub print : Line → Rx → Rx
print l r = record r { lines = l ∷ r.lines }

-- Whether the text was verified, and the text.
unfoldable pub show_verdict : Bool → Bytes → M Rx (Unit {0})
unfolding print
show_verdict good payload =
    modify (print (if good then verified payload else failed)) >> modify (print (shown payload))

-- An HMAC that was received is used up.
unfoldable pub settle : Option Bool → Bytes → M Rx Bool
settle none mac = pure false
settle (some _) mac =
    modify (λ r. record r { received_hmacs = delete mac r.received_hmacs }) >> pure true

module _ (out : RxOutside) where
  open out use {hmac, codec, spare}

  -- `Data[:32]`, which is bounded by the capacity and not by the length.
  unfoldable pub first_32 : Bytes → Result Bytes
  first_32 body = slice (body ++ spare body) 0 32

  unfoldable pub verify_key_message : Message → M Rx Bool
  unfolding first_32 settle
  verify_key_message m =
      if not (m.kind == kind_key_message)
      then pure false
      else (lift (first_32 m.body) >>= λ key. lift (slice m.body 32 (length m.body)) >>= λ payload.
          gets (λ r. load (array_32 (hmac key payload)) r.received_hmacs) >>= λ known.
          settle known (array_32 (hmac key payload)))

  -- The text is printed in either case.
  unfoldable pub show_message : Message → M Rx (Unit {0})
  unfolding verify_key_message show_verdict
  show_message m = do
    good ← verify_key_message m
    payload ← lift (slice (m.body) 32 (length (m.body)))
    show_verdict good payload

  unfoldable pub keep_hmac : Message → M Rx (Unit {0})
  unfolding first_32 print
  keep_hmac m = do
    modify (print (hmac_seen (m.body)))
    mac ← lift (first_32 (m.body))
    modify (λ r. record r { received_hmacs = store (array_32 mac) true r.received_hmacs })

  unfoldable pub take_message : Option Message → M Rx (Unit {0})
  unfolding show_message keep_hmac print
  take_message none = modify (print unreadable)
  take_message (some m) = if m.kind == kind_key_message then show_message m else keep_hmac m

  -- The handler that `Start` sets.
  unfoldable pub handle : Bytes → M Rx (Unit {0})
  unfolding take_message
  handle datagram = take_message (codec.unmarshal datagram)

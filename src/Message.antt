-- ===== src/Message.antt =====
-- internal/message/message.go: the envelope of every datagram. `Marshal` and `Unmarshal` are
-- encoding/json, a `Codec` here, of which only this is used: what was marshalled reads back.
use broadauth.Base.{ℕ, ◌≡◌, Bytes, ℤ, pos, Option, some}

-- `senderID` is the 16 bytes of a UUID. `kind` is an `int` that the sender chooses.
pub record Message : Type 0 where
  pub sender_id : Bytes
  pub slot : ℕ
  pub kind : ℤ
  pub body : Bytes

abbrev pub kind_hmac : ℤ
kind_hmac = pos 0

abbrev pub kind_key_message : ℤ
kind_key_message = pos 1

abbrev pub kind_data : ℤ
kind_data = pos 2

abbrev pub new_message : Bytes → ℕ → ℤ → Bytes → Message
new_message sender_id slot kind body = record {
  sender_id = sender_id;
  slot = slot;
  kind = kind;
  body = body;
}

-- `none` is the error of encoding/json.
pub record Codec : Type 0 where
  pub marshal : Message → Option Bytes
  pub unmarshal : Bytes → Option Message
  pub unmarshal-marshal : (m : Message) (b : Bytes) → marshal m ≡ some b → unmarshal b ≡ some m

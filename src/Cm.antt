-- ===== src/Cm.antt =====
-- cmd/cm/main.go: the contract manager, which registers an RCD in the contract for its owner. The
-- contract, the mining of a transaction and the texts of Go's errors are what it is answered.
pub mod Registered
pub mod Tests
use broadauth.Base.{
  ℕ, ◌+◌, Bytes, List, [], ◌∷◌, ◌++◌, length, take, drop, Option, some, none, Bool, true, false,
  if◌then◌else◌,
}
use broadauth.Owner.{of_be}

abbrev pub address_size : ℕ
address_size = 20

abbrev pub uuid_size : ℕ
uuid_size = 16

abbrev pub total_size : ℕ
total_size = address_size + uuid_size

pub data Status : Type 0 where
  success failure : Status

-- The struct `response`; an empty text or a 0 stands for a field that is not set.
pub record Response : Type 0 where
  pub status : Status
  pub transaction_hash : Bytes
  pub gas_used : ℕ
  pub block_number : ℕ
  pub error : Bytes

pub record Receipt : Type 0 where
  pub successful : Bool
  pub gas_used : ℕ
  pub block_number : ℕ

-- The answers by the number of the call: the hash of the transaction of `RegOwner`, and the receipt
-- of a transaction; `none` is an error. The texts are those of the three errors.
pub record CmOutside : Type 0 where
  pub reg_owner : ℕ → Bytes → ℕ → Option Bytes
  pub wait_mined : ℕ → Bytes → Option Receipt
  pub read_text : Bytes
  pub reg_text : Bytes
  pub wait_text : Bytes

-- The registrations asked of the contract, newest first, each an owner and an RCD.
pub record Cm : Type 0 where
  pub calls : ℕ
  pub asked : List (Bytes × ℕ)

-- The text `Transaction reverted`.
abbrev pub reverted_text : Bytes
reverted_text =
    84 ∷ 114 ∷ 97 ∷ 110 ∷ 115 ∷ 97 ∷ 99 ∷ 116 ∷ 105 ∷ 111 ∷ 110 ∷ 32 ∷ 114 ∷ 101 ∷ 118 ∷ 101 ∷ 114
    ∷ 116 ∷ 101 ∷ 100 ∷ []

-- What `sendResponse` encodes: the line feed goes into the error text.
unfoldable pub send_response : Response → Response
send_response resp = record resp { error = resp.error ++ (10 ∷ []) }

unfoldable pub refuse : Bytes → Bytes → Response
unfolding send_response
refuse hash text = send_response (record {
  status = failure;
  transaction_hash = hash;
  gas_used = 0;
  block_number = 0;
  error = text;
})

unfoldable pub on_receipt : Bytes → Receipt → Response
unfolding send_response
on_receipt hash receipt = send_response (record {
  status = if receipt.successful then success else failure;
  transaction_hash = hash;
  gas_used = receipt.gas_used;
  block_number = receipt.block_number;
  error = if receipt.successful then [] else reverted_text;
})

module _ (out : CmOutside) where
  unfoldable pub on_mined : Bytes → Option Receipt → Response
  unfolding refuse on_receipt
  on_mined hash none = refuse hash out.wait_text
  on_mined hash (some receipt) = on_receipt hash receipt

  unfoldable pub on_sent : ℕ → Option Bytes → Response
  unfolding on_mined refuse
  on_sent i none = refuse [] out.reg_text
  on_sent i (some hash) = on_mined hash (out.wait_mined i hash)

  -- `handleConnection`, by the 36 bytes that `io.ReadFull` gives; the answer that is written.
  unfoldable pub handle_connection : Option Bytes → Cm → Response × Cm
  unfolding on_sent
  handle_connection none c = (refuse [] out.read_text, c)
  handle_connection (some payload) c =
      let owner = take address_size payload in
      let rcd = of_be 0 (take uuid_size (drop address_size payload)) in
      (
        on_sent c.calls (out.reg_owner c.calls owner rcd),
        record { calls = c.calls + 1; asked = (owner, rcd) ∷ c.asked },
      )

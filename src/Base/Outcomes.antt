-- ===== src/Base/Outcomes.antt =====
-- The outcome of a Go call: a value, a returned error, a run-time panic (an index or slice out of
-- range, a division by zero), or a loop that is still running when its fuel is used up. Slices and indexed reads stand here since they can panic.
use Prim.Native.Nat.{ℕ, ◌+◌, ◌-◌, ◌≤◌}
use mathlib.Core.Path.{◌≡◌, refl, sym, ◌∙◌}
use mathlib.Core.Bool.{◌&&◌}
use mathlib.Core.List.{List, ◌++◌}
use mathlib.Core.Option.{Option, none, some}
use native.Mathlib.Omega.{arith}
use broadauth.Base.Tests.{leb, le→leb, if◌then◌else◌}
use broadauth.Base.Lists.{
  drop-append_ge, length-append, length-take, length-drop, length, take, drop, get_elem?,
  take-append, drop-append,
}

-- The errors that the modelled functions return, one for each message of the source.
pub data Error : Type 0 where
  chain_length invalid_chain : Error
  no_slot no_chain short_chain request_failed : Error
  marshal_failed broadcast_failed queue_full keys_exhausted : Error
  polling_interval : Error
  no_request unknown_rcd registration_failed no_seed store_failed not_mined change_failed : Error
  resolve_failed socket_failed buffer_failed write_failed cancelled no_handler : Error
  dial_failed contract_failed invalid_length : Error
  invalid_key listen_failed network_failed transactor_failed accept_failed : Error

pub data Result {ℓ} (A : Type ℓ) : Type ℓ where
  ok : A → Result A
  err : Error → Result A
  panic : Result A
  running : Result A

infixl 5 ◌>>=◌
abbrev pub ◌>>=◌ {ℓ κ} : {A : Type ℓ} {B : Type κ} → Result A → (A → Result B) → Result B
ok a >>= f = f a
err e >>= f = err e
panic >>= f = panic
running >>= f = running

-- `xs[lo:hi]`.
abbrev pub slice {ℓ} : {A : Type ℓ} → List A → ℕ → ℕ → Result (List A)
slice xs lo hi = if leb lo hi && leb hi (length xs) then ok (take (hi - lo) (drop lo xs)) else panic

abbrev pub or_panic {ℓ} : {A : Type ℓ} → Option A → Result A
or_panic none = panic
or_panic (some x) = ok x

-- `xs[i]`.
abbrev pub index {ℓ} : {A : Type ℓ} → List A → ℕ → Result A
index xs i = or_panic (get_elem? xs i)

-- The middle of three parts.
pub slice_middle {ℓ} :
    {A : Type ℓ} (pre mid post : List A) (lo hi : ℕ)
    → length pre ≡ lo
    → lo + length mid ≡ hi
    → hi ≤ length (pre ++ (mid ++ post))
    → slice (pre ++ (mid ++ post)) lo hi ≡ ok mid
slice_middle pre mid post lo hi e f le = rw (
  le→leb lo hi (omega arith),
  le→leb hi (length (pre ++ (mid ++ post))) le,
  drop-append lo pre (mid ++ post) e,
  take-append (hi - lo) mid post (omega arith),
)

pub slice_lem {ℓ} :
    {A : Type ℓ} (xs : List A) (lo hi : ℕ)
    → lo ≤ hi
    → hi ≤ length xs
    → slice xs lo hi ≡ ok (take (hi - lo) (drop lo xs))
slice_lem xs lo hi p q = rw (le→leb lo hi p, le→leb hi (length xs) q)

-- A slice of the second of two parts.
pub slice_after {ℓ} :
    {A : Type ℓ} (pre d : List A) (a w lo hi : ℕ)
    → length pre + a ≡ lo
    → lo + w ≡ hi
    → a + w ≤ length d
    → slice (pre ++ d) lo hi ≡ ok (take w (drop a d))
slice_after pre d a w lo hi e f le =
    let width : hi - lo ≡ w = omega arith in
    slice_lem (pre ++ d) lo hi (omega arith) (omega (arith, length-append pre d))
    ∙ rw (width, sym e, drop-append_ge (length pre) a pre d refl)

pub length-slice {ℓ} :
    {A : Type ℓ} (xs ys : List A) (lo hi : ℕ) → slice xs lo hi ≡ ok ys → length ys ≡ hi - lo
length-slice xs ys lo hi e = ground (arith, length-take (hi - lo) (drop lo xs), length-drop lo xs)

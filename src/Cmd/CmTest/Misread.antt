-- ===== src/Cmd/CmTest/Misread.antt =====
-- What the contract manager reads of a request.
use native.Mathlib.Nat.{pow-succ', add-mul, mul_assoc}
use broadauth.Base.{
  ℕ, zero, suc, ◌+◌, ◌-◌, ◌*◌, ◌^◌, ◌≤◌, ◌≡◌, refl, sym, ap, ◌∙◌, Bytes, [], ◌∷◌, ◌++◌, length,
  take, drop, replicate, overwrite, overwrite_all, length-overwrite, length-replicate,
  length-append, length-take, take-append, drop-append, take-append-drop, take_all, leb, le→leb,
  true, arith, length-drop,
}
use broadauth.Owner.{of_be}
use broadauth.Cm.{CmOutside, Cm, handle_connection, total_size, address_size, uuid_size}
use broadauth.Cmd.RunCm.{read_full}
use broadauth.Cmd.CmTest.{request_data}

take-overwrite :
    (n : ℕ) (src dst : Bytes)
    → n ≤ length src
    → n ≤ length dst
    → take n (overwrite src dst) ≡ take n src
take-overwrite zero src dst h k = refl
take-overwrite (suc n) [] dst h k = absurd (omega arith)
take-overwrite (suc n) (s ∷ src) [] h k = absurd (omega arith)
take-overwrite (suc n) (s ∷ src) (d ∷ dst) h k =
    ap (◌∷◌ s) (take-overwrite n src dst (omega arith) (omega arith))

take-append_ge :
    (n k : ℕ) (xs ys : Bytes) → length xs ≡ n → take (n + k) (xs ++ ys) ≡ xs ++ take k ys
take-append_ge n k [] ys e = ap (λ t. take t ys) (omega arith)
take-append_ge zero k (x ∷ xs) ys e = absurd (omega arith)
take-append_ge (suc n) k (x ∷ xs) ys e =
    let next : suc n + k ≡ suc (n + k) = omega arith in
    ap (λ t. take t (x ∷ (xs ++ ys))) next ∙ ap (◌∷◌ x) (take-append_ge n k xs ys (omega arith))

-- A big-endian number of more bytes.
of_be_from : (acc : ℕ) (xs : Bytes) → of_be acc xs ≡ acc * 256 ^ length xs + of_be 0 xs
unfolding of_be
of_be_from acc [] = omega arith
of_be_from acc (x ∷ xs) = omega (
  arith,
  of_be_from (acc * 256 + x) xs,
  of_be_from (0 + x) xs,
  add-mul (acc * 256) x (256 ^ length xs),
  add-mul 0 x (256 ^ length xs),
  shifted,
)
  where
    shifted : acc * 256 ^ suc (length xs) ≡ acc * 256 * 256 ^ length xs
    shifted =
        ap (λ p. acc * p) (pow-succ' 256 (length xs)) ∙ sym (mul_assoc acc 256 (256 ^ length xs))

of_be-append : (acc : ℕ) (xs ys : Bytes) → of_be acc (xs ++ ys) ≡ of_be (of_be acc xs) ys
unfolding of_be
of_be-append acc [] ys = refl
of_be-append acc (x ∷ xs) ys = of_be-append (acc * 256 + x) xs ys

-- A client with an address of 20 bytes and a number of 16 to 32 bytes makes the contract manager
-- ask the contract for the address and the first 16 bytes of the number; the number itself is
-- that of these bytes times 256 for each further byte, plus the further bytes.
pub request_data-misread :
    (out : CmOutside) (address rcd_id : Bytes) (c : Cm)
    → length address ≡ 20
    → 16 ≤ length rcd_id
    → length rcd_id ≤ 32
    → ((handle_connection out (read_full (request_data address rcd_id)) c).1.asked
        ≡ (address, of_be 0 (take 16 rcd_id)) ∷ c.asked)
      × (of_be 0 rcd_id
          ≡ of_be 0 (take 16 rcd_id) * 256 ^ (length rcd_id - 16) + of_be 0 (drop 16 rcd_id))
unfolding handle_connection read_full request_data
request_data-misread out address rcd_id c a lo hi =
    (rw (whole, long, first_36) (rw (owner, rcd) refl), split)
  where
    number : Bytes
    number = overwrite rcd_id (replicate 32 0)

    len_number : length number ≡ 32
    len_number = length-overwrite rcd_id (replicate 32 0) ∙ length-replicate {A = ℕ} 32 0

    whole : overwrite address (replicate 20 0) ≡ address
    whole = overwrite_all address (replicate 20 0) (a ∙ sym (length-replicate {A = ℕ} 20 0))

    long : leb total_size (length (address ++ number)) ≡ true
    long = le→leb _ _ (omega (arith, length-append address number, len_number))

    front : take 16 number ≡ take 16 rcd_id
    front =
        take-overwrite 16 rcd_id (replicate 32 0) lo (omega (arith, length-replicate {A = ℕ} 32 0))

    first_36 : take total_size (address ++ number) ≡ address ++ take 16 rcd_id
    first_36 = take-append_ge 20 16 address number a ∙ ap (λ t. address ++ t) front

    owner : take address_size (address ++ take 16 rcd_id) ≡ address
    owner = take-append 20 address (take 16 rcd_id) a

    rcd : take uuid_size (drop address_size (address ++ take 16 rcd_id)) ≡ take 16 rcd_id
    rcd =
        ap (take uuid_size) (drop-append 20 address (take 16 rcd_id) a)
        ∙ take_all 16 (take 16 rcd_id) (omega (arith, length-take 16 rcd_id))

    split :
        of_be 0 rcd_id
        ≡ of_be 0 (take 16 rcd_id) * 256 ^ (length rcd_id - 16) + of_be 0 (drop 16 rcd_id)
    split =
        ap (of_be 0) (sym (take-append-drop 16 rcd_id))
        ∙ of_be-append 0 (take 16 rcd_id) (drop 16 rcd_id)
        ∙ of_be_from (of_be 0 (take 16 rcd_id)) (drop 16 rcd_id)
        ∙ ap (λ n. of_be 0 (take 16 rcd_id) * 256 ^ n + of_be 0 (drop 16 rcd_id))
            (length-drop 16 rcd_id)

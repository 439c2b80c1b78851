-- ===== src/Cmd/Text.antt =====
-- What the commands use of package strings: `TrimSpace`, over UTF-8.
use mathlib.Core.List.{reverse}
use broadauth.Base.{
  ℕ, zero, suc, ◌≤◌, ◌≡◌, refl, sym, ◌∙◌, Bytes, [], ◌∷◌, length, length-drop, drop, Bool, true,
  false, Bool-cases, inl, inr, ◌&&◌, ◌||◌, leb, nat_eqb, nat_eqb_iff, if◌then◌else◌, arith,
}

-- U+0009 to U+000D and U+0020.
abbrev pub is_space_1 : ℕ → Bool
is_space_1 a = (leb 9 a && leb a 13) || nat_eqb a 32

-- U+0085 and U+00A0.
abbrev pub is_space_2 : ℕ → ℕ → Bool
is_space_2 a b = nat_eqb a 0xc2 && (nat_eqb b 0x85 || nat_eqb b 0xa0)

-- U+1680, U+2000 to U+200A, U+2028, U+2029, U+202F, U+205F and U+3000.
abbrev pub is_space_3 : ℕ → ℕ → ℕ → Bool
is_space_3 a b c =
    (nat_eqb a 0xe1 && nat_eqb b 0x9a && nat_eqb c 0x80)
    || (nat_eqb a 0xe2
        && nat_eqb b 0x80
        && ((leb 0x80 c && leb c 0x8a) || nat_eqb c 0xa8 || nat_eqb c 0xa9 || nat_eqb c 0xaf))
    || (nat_eqb a 0xe2 && nat_eqb b 0x81 && nat_eqb c 0x9f)
    || (nat_eqb a 0xe3 && nat_eqb b 0x80 && nat_eqb c 0x80)

-- The bytes of the white space that a text begins with, 0 if there is none.
abbrev pub front_width : Bytes → ℕ
front_width [] = 0
front_width (a ∷ []) = if is_space_1 a then 1 else 0
front_width (a ∷ b ∷ []) = if is_space_1 a then 1 else (if is_space_2 a b then 2 else 0)
front_width (a ∷ b ∷ c ∷ _) =
    if is_space_1 a then 1 else (if is_space_2 a b then 2 else (if is_space_3 a b c then 3 else 0))

-- The same at the end of a text, given back to front.
abbrev pub back_width : Bytes → ℕ
back_width [] = 0
back_width (a ∷ []) = if is_space_1 a then 1 else 0
back_width (a ∷ b ∷ []) = if is_space_1 a then 1 else (if is_space_2 b a then 2 else 0)
back_width (a ∷ b ∷ c ∷ _) =
    if is_space_1 a then 1 else (if is_space_2 b a then 2 else (if is_space_3 c b a then 3 else 0))

-- Drops what `width` finds until it finds nothing; the fuel is the length of the text.
unfoldable pub strip : (Bytes → ℕ) → ℕ → Bytes → Bytes
strip width zero text = text
strip width (suc fuel) text =
    let rest = strip width fuel (drop (width text) text) in
    if nat_eqb (width text) 0 then text else rest

unfoldable pub trim_space : Bytes → Bytes
unfolding strip
trim_space text =
    let front = strip front_width (length text) text in
    reverse (strip back_width (length front) (reverse front))

-- A measure of the front of a text, within it.
pub record IsWidth (width : Bytes → ℕ) : Type 0 where
  pub within : (text : Bytes) → width text ≤ length text

front_width-IsWidth : IsWidth front_width
front_width-IsWidth = record { within = go }
  where
    go : (text : Bytes) → front_width text ≤ length text
    go [] = omega arith
    go (a ∷ []) = ground arith
    go (a ∷ b ∷ []) = ground arith
    go (a ∷ b ∷ c ∷ rest) = ground arith

back_width-IsWidth : IsWidth back_width
back_width-IsWidth = record { within = go }
  where
    go : (text : Bytes) → back_width text ≤ length text
    go [] = omega arith
    go (a ∷ []) = ground arith
    go (a ∷ b ∷ []) = ground arith
    go (a ∷ b ∷ c ∷ rest) = ground arith

-- The fuel is enough: nothing that `width` finds is left at the front.
pub strip_stops :
    (width : Bytes → ℕ) (fuel : ℕ) (text : Bytes)
    → IsWidth width
    → length text ≤ fuel
    → width (strip width fuel text) ≡ 0
unfolding strip
strip_stops width zero text w enough = omega (arith, w.within text)
strip_stops width (suc fuel) text w enough = elim (Bool-cases (nat_eqb (width text) 0)) [
  | inl none_left ↦ rw none_left ((nat_eqb_iff (width text) 0).0 none_left)
  | inr more ↦ rw more (
      strip_stops width fuel (drop (width text) text) w
        (shorter (width text) (nat_eqb_iff (width text) 0).1 more))
]
  where
    shorter :
        (n : ℕ) → (n ≡ 0 → nat_eqb n 0 ≡ true) → nat_eqb n 0 ≡ false → length (drop n text) ≤ fuel
    shorter zero zeroed more = cc (sym more ∙ zeroed refl)
    shorter (suc n) zeroed more = omega (arith, length-drop (suc n) text)

-- ===== src/Go/Strings.antt =====
-- Package strings: `TrimSpace`, `ToLower` and `EqualFold` on the bytes of UTF-8 texts.
use estate_ci.Prelude.{
  ℕ, ◌+◌, ◌≡◌, refl, true, text_eq_refl, Bool, ◌&&◌, ◌||◌, [], ◌∷◌, map, reverse, Text, leb, nat_eq,
  text_eq, if◌then◌else◌, arith,
}

-- The white space of one byte.
is_space : ℕ → Bool
is_space c = leb 9 c && leb c 13 || nat_eq c 32

-- U+0085 and U+00A0.
is_space_2 : ℕ → ℕ → Bool
is_space_2 a b = nat_eq a 0xC2 && (nat_eq b 0x85 || nat_eq b 0xA0)

-- U+1680, U+2000 to U+200A, U+2028, U+2029, U+202F, U+205F and U+3000.
is_space_3 : ℕ → ℕ → ℕ → Bool
is_space_3 a b c =
    nat_eq a 0xE1 && nat_eq b 0x9A && nat_eq c 0x80
    || nat_eq a 0xE2
      && nat_eq b 0x80
      && (leb 0x80 c && leb c 0x8A || nat_eq c 0xA8 || nat_eq c 0xA9 || nat_eq c 0xAF)
    || nat_eq a 0xE2 && nat_eq b 0x81 && nat_eq c 0x9F
    || nat_eq a 0xE3 && nat_eq b 0x80 && nat_eq c 0x80

trim_left : Text → Text
unfolding is_space is_space_2 is_space_3
trim_left [] = []
trim_left (a ∷ []) = if is_space a then [] else a ∷ []
trim_left (a ∷ b ∷ []) =
    let rest = trim_left (b ∷ []) in
    if is_space a then rest else if is_space_2 a b then [] else a ∷ b ∷ []
trim_left (a ∷ b ∷ c ∷ s) =
    let rest1 = trim_left (b ∷ c ∷ s) in
    let rest2 = trim_left (c ∷ s) in
    let rest3 = trim_left s in
    if is_space a
    then rest1
    else if is_space_2 a b
    then rest2
    else if is_space_3 a b c
    then rest3
    else a ∷ b ∷ c ∷ s

-- The same from the end of a text, which is given reversed.
trim_end : Text → Text
unfolding is_space is_space_2 is_space_3
trim_end [] = []
trim_end (a ∷ []) = if is_space a then [] else a ∷ []
trim_end (b ∷ a ∷ []) =
    let rest = trim_end (a ∷ []) in
    if is_space b then rest else if is_space_2 a b then [] else b ∷ a ∷ []
trim_end (c ∷ b ∷ a ∷ s) =
    let rest1 = trim_end (b ∷ a ∷ s) in
    let rest2 = trim_end (a ∷ s) in
    let rest3 = trim_end s in
    if is_space c
    then rest1
    else if is_space_2 b c
    then rest2
    else if is_space_3 a b c
    then rest3
    else c ∷ b ∷ a ∷ s

unfoldable pub trim_space : Text → Text
unfolding trim_left trim_end
trim_space s = reverse (trim_end (reverse (trim_left s)))

unfoldable pub lower_char : ℕ → ℕ
lower_char c = if leb 65 c && leb c 90 then c + 32 else c

-- `ToLower`, of ASCII texts: other letters are left as they are.
unfoldable pub to_lower : Text → Text
unfolding lower_char
to_lower s = map lower_char s

-- `EqualFold`, of ASCII texts.
unfoldable pub equal_fold : Text → Text → Bool
unfolding to_lower
equal_fold s t = text_eq (to_lower s) (to_lower t)

lower_char_idem : (c : ℕ) → lower_char (lower_char c) ≡ lower_char c
unfolding lower_char
lower_char_idem c = ground arith

pub to_lower_idem : (s : Text) → to_lower (to_lower s) ≡ to_lower s
unfolding to_lower
to_lower_idem [] = refl
to_lower_idem (c ∷ s) = ap2 (lower_char_idem c) (to_lower_idem s)
  where
    ap2 : {x y : ℕ} {xs ys : Text} → x ≡ y → xs ≡ ys → x ∷ xs ≡ y ∷ ys
    ap2 p q = cc

pub equal_fold-to_lower : (s : Text) → equal_fold (to_lower s) s ≡ true
unfolding equal_fold
equal_fold-to_lower s = rw (to_lower_idem s) (text_eq_refl (to_lower s))

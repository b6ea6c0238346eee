-- ===== src/Go/Hex.antt =====
-- `hex.EncodeToString`.
use estate_ci.Prelude.{
  ℕ, ◌+◌, ◌*◌, ◌/◌, ◌%◌, ◌<◌, ◌≡◌, refl, Bool, true, ◌&&◌, ◌||◌, [], ◌∷◌, Text, ltb, leb,
  if◌then◌else◌, All, arith, all, length,
}
use estate_ci.Go.Base64.{IsByte}

unfoldable pub is_hex : ℕ → Bool
is_hex c = leb 48 c && leb c 57 || leb 97 c && leb c 102

unfoldable pub hex_char : ℕ → ℕ
hex_char n = if ltb n 10 then 48 + n else 87 + n

unfoldable pub hex : Text → Text
unfolding hex_char
hex [] = []
hex (b ∷ s) = hex_char (b / 16) ∷ hex_char (b % 16) ∷ hex s

pub length-hex : (s : Text) → length (hex s) ≡ 2 * length s
unfolding hex
length-hex [] = refl
length-hex (b ∷ s) = omega (arith, length-hex s)

pub hex_char-is_hex : (n : ℕ) → n < 16 → is_hex (hex_char n) ≡ true
unfolding is_hex hex_char
hex_char-is_hex n h = ground arith

pub all-hex : (s : Text) → All IsByte s → all is_hex (hex s) ≡ true
unfolding all hex
all-hex [] h = refl
all-hex (b ∷ s) (h, hs) =
    rw (hex_char-is_hex (b / 16) (omega arith))
      (rw (hex_char-is_hex (b % 16) (omega arith)) (all-hex s hs))

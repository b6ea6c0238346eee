-- ===== src/Operations/Identifiers/Valid.antt =====
-- `newUUIDv4` and `NewNonce`, and the patterns of internal/contract/models.go for identifiers.
use estate_ci.Prelude.{
  ℕ, zero, suc, ◌+◌, ◌/◌, ◌%◌, ◌≡◌, Bool, true, [], ◌∷◌, Text, length, All, arith, nat_eq, ◌||◌,
  subst, replicate,
}
use estate_ci.Go.Base64.{IsByte}
use estate_ci.Go.Hex.{hex, hex_char, is_hex, hex_char-is_hex, all-hex, length-hex}
use estate_ci.Contract.Patterns.{is_request_id, is_nonce, fits}
use estate_ci.Contract.Crypto.{fits-replicate}
use estate_ci.Operations.Identifiers.{uuid_text, nonce_text, set_version}

-- A text of `n` bytes, taken apart.
data Bytes : ℕ → Text → Type 0 where
  done : Bytes 0 []
  more : {n b : ℕ} {s : Text} → IsByte b → Bytes n s → Bytes (suc n) (b ∷ s)

take_apart : (n : ℕ) (s : Text) → length s ≡ n → All IsByte s → Bytes n s
take_apart zero [] h all_bytes = done
take_apart zero (b ∷ s) h all_bytes = absurd (omega (arith, h))
take_apart (suc n) [] h all_bytes = absurd (omega (arith, h))
take_apart (suc n) (b ∷ s) h (hb, hs) = more hb (take_apart n s (omega (arith, h)) hs)

high : {b : ℕ} → IsByte b → is_hex (hex_char (b / 16)) ≡ true
high {b} h = hex_char-is_hex (b / 16) (omega arith)

low : (b : ℕ) → is_hex (hex_char (b % 16)) ≡ true
low b = hex_char-is_hex (b % 16) (omega arith)

version : (b : ℕ) → nat_eq b'4' (hex_char ((b % 16 + 64) / 16)) ≡ true
unfolding hex_char
version b = ground arith

abbrev variant_class : ℕ → Bool
variant_class c = nat_eq c b'8' || nat_eq c b'9' || nat_eq c b'a' || nat_eq c b'b'

variant : (b : ℕ) → variant_class (hex_char ((b % 64 + 128) / 16)) ≡ true
unfolding hex_char
variant b = ground arith

Bytes-is_request_id : (value : Text) → Bytes 16 value → is_request_id (uuid_text value) ≡ true
unfolding is_request_id uuid_text hex fits set_version
Bytes-is_request_id value
      (more h0 (
        more h1 (
          more h2 (
            more h3 (
              more h4 (
                more h5 (
                  more h6 (
                    more h7 (
                      more h8 (
                        more h9 (
                          more h10
                            (more h11 (more h12 (more h13 (more h14 (more h15 done)))))))))))))))) =
    simp (
      low,
      version,
      variant,
      high h0,
      high h1,
      high h2,
      high h3,
      high h4,
      high h5,
      high h7,
      high h9,
      high h10,
      high h11,
      high h12,
      high h13,
      high h14,
      high h15,
    )

-- `newUUIDv4` makes a valid request or receipt ID of any sixteen random bytes, and `NewNonce` a
-- valid nonce.
pub identifiers_valid :
    (value : Text)
    → length value ≡ 16
    → All IsByte value
    → (is_request_id (uuid_text value) ≡ true) × (is_nonce (nonce_text value) ≡ true)
unfolding is_nonce nonce_text
identifiers_valid value long bytes =
    let digits : length (hex value) ≡ 32 = omega (arith, length-hex value, long) in
    (
      Bytes-is_request_id value (take_apart 16 value long bytes),
      subst (λ n. fits (replicate n is_hex) (hex value) ≡ true) digits
          (fits-replicate is_hex (hex value) (all-hex value bytes)),
    )

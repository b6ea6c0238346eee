-- ===== src/Operations/Identifiers.antt =====
-- The random identifiers: `newUUIDv4` of internal/operations/service.go and `NewNonce` of
-- internal/contract/models.go, from the 16 bytes that crypto/rand gives.
pub mod Valid
use estate_ci.Prelude.{◌+◌, ◌%◌, ◌∷◌, ◌++◌, Text, take, drop}
use estate_ci.Go.Hex.{hex}

-- The version and the variant bits are set in the bytes 6 and 8.
unfoldable pub set_version : Text → Text
set_version (b0 ∷ b1 ∷ b2 ∷ b3 ∷ b4 ∷ b5 ∷ b6 ∷ b7 ∷ b8 ∷ rest) =
    b0 ∷ b1 ∷ b2 ∷ b3 ∷ b4 ∷ b5 ∷ (b6 % 16 + 64) ∷ b7 ∷ (b8 % 64 + 128) ∷ rest
set_version s = s

unfoldable pub uuid_text : Text → Text
uuid_text value =
    let v = set_version value in
    hex (take 4 v)
    ++ (b'-'
        ∷ (hex (take 2 (drop 4 v))
            ++ (b'-'
                ∷ (hex (take 2 (drop 6 v))
                    ++ (b'-' ∷ (hex (take 2 (drop 8 v)) ++ (b'-' ∷ hex (take 6 (drop 10 v)))))))))

unfoldable pub nonce_text : Text → Text
nonce_text value = hex value

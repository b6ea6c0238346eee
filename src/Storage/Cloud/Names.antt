-- ===== src/Storage/Cloud/Names.antt =====
-- The names of the objects of internal/storage/gcs.go.
use estate_ci.Prelude.{
  ℕ, Bool, false, ◌||◌, Option, none, some, List, [], ◌∷◌, ◌++◌, Text, bytes, strip_prefix,
  replicate, nat_eq, leb, ◌&&◌, reverse, starts_with, text_instance,
}
use estate_ci.Go.Hex.{is_hex}
use estate_ci.Contract.Patterns.{fits}

abbrev json_suffix : Text
json_suffix = bytes ".json"

unfoldable pub request_object : Text → Text
request_object request_id = bytes "audit/requests/" ++ (request_id ++ json_suffix)

unfoldable pub dispatch_object : Text → Text
dispatch_object request_id = bytes "audit/outbox/" ++ (request_id ++ bytes "/dispatch.json")

unfoldable pub result_object : Text → Text
result_object request_id = bytes "audit/outbox/" ++ (request_id ++ bytes "/result.json")

-- `strings.TrimPrefix(digest, "sha256:")`
abbrev or_whole : Text → Option Text → Text
or_whole s none = s
or_whole s (some rest) = rest

abbrev pub digest_part : Text → Text
digest_part digest = or_whole digest (strip_prefix (bytes "sha256:") digest)

unfoldable pub evidence_object : Text → Text
evidence_object digest = bytes "audit/evidence/" ++ (digest_part digest ++ json_suffix)

unfoldable pub replay_request_object : Text → Text
replay_request_object request_id = bytes "audit/replay/requests/" ++ (request_id ++ json_suffix)

unfoldable pub replay_binding_object : Text → Text
replay_binding_object digest = bytes "audit/replay/bindings/" ++ (digest_part digest ++ json_suffix)

unfoldable pub replay_approval_object : Text → Text
replay_approval_object approval_id = bytes "audit/replay/approvals/" ++ (approval_id ++ json_suffix)

is_digit : ℕ → Bool
is_digit c = leb 48 c && leb c 57

-- `[0-9]{4}/[0-9]{2}/[0-9]{2}/[0-9a-f-]{36}\.json`
receipt_classes : List (ℕ → Bool)
unfolding is_digit is_hex
receipt_classes =
    let slash : (ℕ → Bool) = nat_eq b'/' in
    replicate 4 is_digit
    ++ (slash
        ∷ (replicate 2 is_digit
            ++ (slash
                ∷ (replicate 2 is_digit
                    ++ (slash
                        ∷ (replicate 36 (λ c. is_hex c || nat_eq c b'-')
                            ++ (nat_eq b'.'
                                ∷ nat_eq b'j'
                                ∷ nat_eq b's'
                                ∷ nat_eq b'o'
                                ∷ nat_eq b'n'
                                ∷ [])))))))

abbrev fits_path : Option Text → Bool
fits_path none = false
fits_path (some path) = fits receipt_classes path

unfoldable pub is_receipt_object : Text → Bool
unfolding fits receipt_classes strip_prefix bytes
is_receipt_object name = fits_path (strip_prefix (bytes "audit/operations/") name)

-- `strings.HasSuffix(name, "/"+receiptID+".json")`
unfoldable pub is_receipt_of : Text → Text → Bool
unfolding starts_with bytes
is_receipt_of receipt_id name =
    starts_with (reverse (b'/' ∷ (receipt_id ++ json_suffix))) (reverse name)

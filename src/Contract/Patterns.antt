-- ===== src/Contract/Patterns.antt =====
-- The regular expressions of internal/contract/models.go. Go's `$` is the end of the text.
use estate_ci.Prelude.{
  ℕ, Bool, true, false, ◌&&◌, ◌||◌, Option, none, some, List, [], ◌∷◌, ◌++◌, reverse, Text, bytes,
  text_eq, ltb, leb, nat_eq, all, strip_prefix, length, replicate, if◌then◌else◌, contains_any,
  ◌==◌, text_instance, Result, guard,
}
use estate_ci.Go.Hex.{is_hex}
use estate_ci.Go.Strings.{trim_space}
use Prim.Native.String.{String}

-- A character class.
abbrev Class : Type 0
Class = ℕ → Bool

is_number : Class
is_number c = leb 48 c && leb c 57

is_lower : Class
is_lower c = leb 97 c && leb c 122

is_upper : Class
is_upper c = leb 65 c && leb c 90

-- `[a-z0-9]`
unfoldable pub is_alnum : Class
unfolding is_number is_lower
is_alnum c = is_lower c || is_number c

-- One class for each character of the text.
unfoldable pub fits : List Class → Text → Bool
fits [] [] = true
fits [] (c ∷ s) = false
fits (p ∷ ps) [] = false
fits (p ∷ ps) (c ∷ s) = p c && fits ps s

-- `[p][q]{lo,hi}`
unfoldable pub headed : Class → Class → ℕ → ℕ → Text → Bool
unfolding all
headed p q lo hi [] = false
headed p q lo hi (c ∷ s) = p c && leb lo (length s) && leb (length s) hi && all q s

-- The parts of a text between the bytes `c`.
split_from : ℕ → Text → Text → List Text
split_from c part [] = reverse part ∷ []
split_from c part (d ∷ s) =
    let next = split_from c [] s in
    let same = split_from c (d ∷ part) s in if nat_eq c d then reverse part ∷ next else same

unfoldable pub split : ℕ → Text → List Text
unfolding split_from
split c s = split_from c [] s

unfoldable pub is_sha : Text → Bool
unfolding fits is_hex
is_sha s = fits (replicate 40 is_hex) s

abbrev fits_rest : List Class → Option Text → Bool
fits_rest ps none = false
fits_rest ps (some s) = fits ps s

unfoldable pub is_digest : Text → Bool
unfolding fits is_hex strip_prefix bytes
is_digest s = fits_rest (replicate 64 is_hex) (strip_prefix (bytes "sha256:") s)

abbrev repository_name : Option Text → Bool
repository_name none = false
repository_name (some s) =
    s == bytes ".github"
    || headed is_alnum (λ c. is_alnum c || nat_eq c b'.' || nat_eq c b'_' || nat_eq c b'-') 0 99 s

unfoldable pub is_repository : Text → Bool
unfolding headed is_alnum strip_prefix bytes text_eq
is_repository s = repository_name (strip_prefix (bytes "mindclade/") s)

request_id_classes : List Class
unfolding is_hex
request_id_classes =
    let dash : Class = nat_eq b'-' in
    replicate 8 is_hex
    ++ (dash
        ∷ (replicate 4 is_hex
            ++ (dash
                ∷ nat_eq b'4'
                ∷ (replicate 3 is_hex
                    ++ (dash
                        ∷ (λ c. nat_eq c b'8' || nat_eq c b'9' || nat_eq c b'a' || nat_eq c b'b')
                        ∷ (replicate 3 is_hex ++ (dash ∷ replicate 12 is_hex)))))))

unfoldable pub is_request_id : Text → Bool
unfolding fits request_id_classes
is_request_id s = fits request_id_classes s

-- The first byte of a text is in `p`.
first_is : Class → Text → Bool
first_is p [] = false
first_is p (c ∷ s) = p c

-- `[a-z0-9](?:[a-z0-9-]{0,61}[a-z0-9])?`
is_label : Text → Bool
unfolding first_is is_alnum all
is_label s =
    leb (length s) 63
    && first_is is_alnum s
    && first_is is_alnum (reverse s)
    && all (λ c. is_alnum c || nat_eq c b'-') s

is_domain : List Text → Bool
unfolding is_label all
is_domain [] = false
is_domain (label ∷ []) = false
is_domain (label ∷ next ∷ labels) = all is_label (label ∷ next ∷ labels)

email_parts : List Text → Bool
unfolding headed is_domain split is_alnum
email_parts [] = false
email_parts (local ∷ []) = false
email_parts (local ∷ domain ∷ []) =
    headed is_alnum
      (λ c.
        is_alnum c
        || nat_eq c b'.'
        || nat_eq c b'_'
        || nat_eq c b'+'
        || nat_eq c b'%'
        || nat_eq c b'-')
      0 127 local
    && is_domain (split b'.' domain)
email_parts (local ∷ domain ∷ more ∷ rest) = false

unfoldable pub is_email : Text → Bool
unfolding email_parts
is_email s = email_parts (split b'@' s)

unfoldable pub is_key_id : Text → Bool
unfolding headed is_alnum
is_key_id s =
    headed is_alnum (λ c. is_alnum c || nat_eq c b'.' || nat_eq c b'_' || nat_eq c b'-') 2 63 s

unfoldable pub is_nonce : Text → Bool
unfolding fits is_hex
is_nonce s = fits (replicate 32 is_hex) s

unfoldable pub is_reason_code : Text → Bool
unfolding headed is_upper is_number
is_reason_code s = headed is_upper (λ c. is_upper c || is_number c || nat_eq c b'_') 2 63 s

unfoldable pub is_recovery : Text → Bool
unfolding is_upper is_alnum all
is_recovery s =
    ltb 0 (length s) && all (λ c. is_alnum c || is_upper c || nat_eq c b'_' || nat_eq c b'-') s

-- "\r\n\x00"
abbrev pub line_breaks : Text
line_breaks = 13 ∷ 10 ∷ 0 ∷ []

unfoldable pub validate_reason : Text → Result String (Unit {0})
unfolding trim_space text_eq contains_any
validate_reason reason =
    guard
      (trim_space reason == reason
        && leb 10 (length reason)
        && leb (length reason) 500
        && (if contains_any line_breaks reason then false else true))
      "reason must be a single trimmed line of 10 to 500 characters"

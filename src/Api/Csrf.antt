-- ===== src/Api/Csrf.antt =====
-- `validCSRF` and `queryLimit` of internal/api/server.go.
use estate_ci.Prelude.{
  ℕ, ◌+◌, ◌*◌, ◌-◌, Bool, true, false, ◌&&◌, Option, none, some, [], ◌∷◌, Text, bytes, reverse, leb,
  nat_eq, length, is_empty, if◌then◌else◌, ◌==◌, text_instance,
}
use estate_ci.Api.Http.{Request}

-- `strings.TrimSuffix(s, "/")`
abbrev trim_slash_reversed : Text → Text
trim_slash_reversed [] = []
trim_slash_reversed (c ∷ s) = if nat_eq c b'/' then s else c ∷ s

unfoldable pub trim_slash : Text → Text
trim_slash s = reverse (trim_slash_reversed (reverse s))

abbrev pub cookie_name : Bool → Text
cookie_name true = bytes "__Host-estate-csrf"
cookie_name false = bytes "estate-csrf"

-- The cookie's value and the header: as long as one another, and the same.
abbrev pub same_token : Option Text → Text → Bool
same_token none header = false
same_token (some value) header =
    leb 32 (length header)
    && leb (length header) 128
    && nat_eq (length value) (length header)
    && value == header

unfoldable pub valid_csrf : Text → Bool → Request → Bool
valid_csrf allowed_origin secure_cookies r =
    r.header (bytes "Origin") == trim_slash allowed_origin
    && r.header (bytes "Sec-Fetch-Site") == bytes "same-origin"
    && same_token (r.cookie (cookie_name secure_cookies)) (r.header (bytes "X-Estate-CSRF"))

-- The decimal digits of a text, `none` if there is none or another byte.
digits : ℕ → Text → Option ℕ
digits acc [] = some acc
digits acc (c ∷ s) =
    let rest = digits (acc * 10 + (c - 48)) s in if leb 48 c && leb c 57 then rest else none

-- `strconv.Atoi` with a test of the range; a number out of range of an int64 is an error there, and
-- out of this range too.
abbrev in_range : Option ℕ → Bool
in_range none = false
in_range (some n) = leb 1 n && leb n 100

abbrev or_zero : Option ℕ → ℕ
or_zero none = 0
or_zero (some n) = n

abbrev unsigned : Text → Option ℕ
unsigned [] = none
unsigned (c ∷ s) = digits 0 (c ∷ s)

-- A sign may stand first; what is negative is out of range.
unfoldable pub parse_limit : Text → Option ℕ
unfolding digits
parse_limit [] = none
parse_limit (c ∷ s) =
    if nat_eq c b'-' then none else if nat_eq c b'+' then unsigned s else unsigned (c ∷ s)

-- The limit, and whether it is valid.
unfoldable pub query_limit : Request → ℕ → ℕ × Bool
query_limit r fallback =
    let value = r.query (bytes "limit") in
    if is_empty value
    then (fallback, true)
    else (or_zero (parse_limit value), in_range (parse_limit value))

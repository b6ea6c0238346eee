-- ===== src/Contract/Canonical.antt =====
-- internal/contract/canonical.go: canonical JSON. Texts are valid UTF-8, as decoded JSON is.
use Prim.Native.String.{String}
use estate_ci.Prelude.{
  ℕ, ◌+◌, ◌-◌, ◌*◌, ◌/◌, ◌%◌, ◌^◌, Bool, true, false, ◌&&◌, ◌||◌, List, [], ◌∷◌, ◌++◌, Text, bytes,
  ltb, leb, nat_eq, text_lt, contains_any, if◌then◌else◌, Result, ok, err, ◌>>=◌, Option, none,
  some,
}
use estate_ci.Go.Hex.{hex_char}
use estate_ci.Contract.Json.{
  Json, Items, Fields, null, boolean, string, number, array, object, no_items, item, no_fields,
  field,
}

-- The escape of one byte: `json.Marshal` with HTML escapes.
escape_byte : ℕ → Text
unfolding hex_char
escape_byte c =
    if nat_eq c 34 || nat_eq c 92
    then 92 ∷ c ∷ []
    else if nat_eq c 8
    then bytes "\\b"
    else if nat_eq c 12
    then bytes "\\f"
    else if nat_eq c 10
    then bytes "\\n"
    else if nat_eq c 13
    then bytes "\\r"
    else if nat_eq c 9
    then bytes "\\t"
    else if ltb c 32 || nat_eq c 60 || nat_eq c 62 || nat_eq c 38
    then bytes "\\u00" ++ (hex_char (c / 16) ∷ hex_char (c % 16) ∷ [])
    else c ∷ []

-- U+2028 and U+2029 are escaped too.
escape : Text → Text
unfolding escape_byte
escape [] = []
escape (a ∷ []) = escape_byte a
escape (a ∷ b ∷ []) = escape_byte a ++ escape (b ∷ [])
escape (a ∷ b ∷ c ∷ s) =
    let rest1 = escape (b ∷ c ∷ s) in
    let rest3 = escape s in
    if nat_eq a 0xE2 && nat_eq b 0x80 && (nat_eq c 0xA8 || nat_eq c 0xA9)
    then bytes "\\u202" ++ (hex_char (c % 16) ∷ rest3)
    else escape_byte a ++ rest1

unfoldable pub encode_string : Text → Text
unfolding escape bytes
encode_string s = b'"' ∷ (escape s ++ (b'"' ∷ []))

-- The value of a run of digits, `none` if there is none or another byte.
digits_value : ℕ → Text → Option ℕ
digits_value acc [] = some acc
digits_value acc (c ∷ s) =
    let rest = digits_value (acc * 10 + (c - 48)) s in if leb 48 c && leb c 57 then rest else none

within : ℕ → Option ℕ → Bool
within limit none = false
within limit (some n) = leb n limit

-- `strconv.ParseInt(text, 10, 64)` succeeds.
unfoldable pub is_int64 : Text → Bool
unfolding digits_value within
is_int64 [] = false
is_int64 (c ∷ []) = within 9 (digits_value 0 (c ∷ []))
is_int64 (c ∷ d ∷ s) =
    if nat_eq c b'-'
    then within (2 ^ 63) (digits_value 0 (d ∷ s))
    else if nat_eq c b'+'
    then within (2 ^ 63 - 1) (digits_value 0 (d ∷ s))
    else within (2 ^ 63 - 1) (digits_value 0 (c ∷ d ∷ s))

-- The fields of an object with their encoded values, in the order of their keys.
abbrev pub Encoded : Type 0
Encoded = Text × Result String Text

unfoldable pub insert : Encoded → List Encoded → List Encoded
unfolding text_lt
insert e [] = e ∷ []
insert e (f ∷ fs) = if text_lt f.0 e.0 then f ∷ insert e fs else e ∷ f ∷ fs

unfoldable pub sort : List Encoded → List Encoded
unfolding insert
sort [] = []
sort (e ∷ es) = insert e (sort es)

-- The fields between the braces; the first error in the order of the keys is the result.
unfoldable pub write_fields : List Encoded → Result String Text
unfolding encode_string
write_fields [] = ok []
write_fields ((key, value) ∷ []) = do v ← value; ok (encode_string key ++ (b':' ∷ v))
write_fields ((key, value) ∷ next ∷ es) = do
  v ← value
  rest ← write_fields (next ∷ es)
  ok (encode_string key ++ (b':' ∷ (v ++ (b',' ∷ rest))))

unfoldable mutual
  unfolding encode_string is_int64 write_fields sort contains_any bytes

  pub write_canonical : Json → Result String Text
  write_canonical null = ok (bytes "null")
  write_canonical (boolean true) = ok (bytes "true")
  write_canonical (boolean false) = ok (bytes "false")
  write_canonical (string s) = ok (encode_string s)
  write_canonical (number text) =
      if contains_any (bytes ".eE") text
      then err "canonical JSON forbids floating-point numbers"
      else if is_int64 text
      then ok text
      else err "canonical JSON integer is invalid"
  write_canonical (array xs) = do body ← write_items xs; ok (b'[' ∷ (body ++ (b']' ∷ [])))
  write_canonical (object fs) = do
    body ← write_fields (sort (encode_fields fs))
    ok (b'{' ∷ (body ++ (b'}' ∷ [])))

  pub write_items : Items → Result String Text
  write_items no_items = ok []
  write_items (item x no_items) = write_canonical x
  write_items (item x (item y xs)) = do
    v ← write_canonical x
    rest ← write_items (item y xs)
    ok (v ++ (b',' ∷ rest))

  pub encode_fields : Fields → List Encoded
  encode_fields no_fields = []
  encode_fields (field key value fs) = (key, write_canonical value) ∷ encode_fields fs

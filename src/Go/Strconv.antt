-- ===== src/Go/Strconv.antt =====
-- Package strconv: `ParseInt(s, 10, 64)`.
use estate_ci.Prelude.{
  ℕ, ◌+◌, ◌-◌, ◌*◌, ◌^◌, ◌&&◌, Option, none, some, [], ◌∷◌, Text, ℤ, pos, negsuc, leb, nat_eq,
  if◌then◌else◌,
}

-- The value of a run of digits, `none` if there is another byte.
digits_from : ℕ → Text → Option ℕ
digits_from acc [] = some acc
digits_from acc (c ∷ s) =
    let rest = digits_from (acc * 10 + (c - 48)) s in if leb 48 c && leb c 57 then rest else none

natural : Text → Option ℕ
unfolding digits_from
natural [] = none
natural (c ∷ s) = digits_from 0 (c ∷ s)

abbrev up_to_max : Option ℕ → Option ℤ
up_to_max none = none
up_to_max (some n) = if leb n (2 ^ 63 - 1) then some (pos n) else none

abbrev from_min : Option ℕ → Option ℤ
from_min none = none
from_min (some n) =
    if nat_eq n 0 then some (pos 0) else if leb n (2 ^ 63) then some (negsuc (n - 1)) else none

-- A sign may stand first; `none` for a syntax error and for a number out of range.
unfoldable pub parse_int : Text → Option ℤ
unfolding natural
parse_int [] = none
parse_int (c ∷ s) =
    if nat_eq c b'-'
    then from_min (natural s)
    else if nat_eq c b'+'
    then up_to_max (natural s)
    else up_to_max (natural (c ∷ s))

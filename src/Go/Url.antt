-- ===== src/Go/Url.antt =====
-- Package net/url: `PathEscape` and `QueryEscape`.
use estate_ci.Prelude.{
  ℕ, ◌+◌, ◌/◌, ◌%◌, Bool, ◌&&◌, ◌||◌, [], ◌∷◌, ◌++◌, Text, leb, nat_eq, if◌then◌else◌,
}

-- The bytes that no part of a URL escapes: letters, digits and `-_.~`.
is_unreserved : ℕ → Bool
is_unreserved c =
    leb 97 c && leb c 122
    || leb 65 c && leb c 90
    || leb 48 c && leb c 57
    || nat_eq c b'-'
    || nat_eq c b'_'
    || nat_eq c b'.'
    || nat_eq c b'~'

upper_hex : ℕ → ℕ
upper_hex d = if leb 10 d then 55 + d else 48 + d

-- `%XX`
percent : ℕ → Text
unfolding upper_hex
percent c = b'%' ∷ upper_hex (c / 16) ∷ upper_hex (c % 16) ∷ []

-- `shouldEscape` in a path segment keeps `$&+=:@` too.
in_segment : ℕ → Bool
in_segment c =
    nat_eq c b'$'
    || nat_eq c b'&'
    || nat_eq c b'+'
    || nat_eq c b'='
    || nat_eq c b':'
    || nat_eq c b'@'

unfoldable pub path_escape : Text → Text
unfolding is_unreserved in_segment percent
path_escape [] = []
path_escape (c ∷ s) =
    let rest = path_escape s in
    if is_unreserved c || in_segment c then c ∷ rest else percent c ++ rest

unfoldable pub query_escape : Text → Text
unfolding is_unreserved percent
query_escape [] = []
query_escape (c ∷ s) =
    let rest = query_escape s in
    if nat_eq c b' ' then b'+' ∷ rest else if is_unreserved c then c ∷ rest else percent c ++ rest

-- The parts of what `url.Parse` returns.
pub record Url : Type 0 where
  pub scheme : Text
  pub host : Text
  pub hostname : Text
  pub has_user : Bool
  pub path : Text
  pub raw_query : Text
  pub fragment : Text

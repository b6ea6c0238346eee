-- ===== src/Go/Base64.antt =====
-- `base64.RawURLEncoding`: the URL alphabet, with no padding.
use estate_ci.Prelude.{
  ℕ, ◌+◌, ◌-◌, ◌*◌, ◌/◌, ◌%◌, ◌<◌, ◌≡◌, refl, Bool, true, false, ◌&&◌, ◌||◌, Option, none, some,
  List, [], ◌∷◌, map, Text, ltb, leb, nat_eq, if◌then◌else◌, All, arith, all_below, all_below_sound,
}

unfoldable pub char_of : ℕ → ℕ
char_of n =
    if ltb n 26
    then 65 + n
    else if ltb n 52
    then 71 + n
    else if ltb n 62
    then n - 4
    else if nat_eq n 62
    then 45
    else 95

unfoldable pub value_of : ℕ → Option ℕ
value_of c =
    if leb 65 c && leb c 90
    then some (c - 65)
    else if leb 97 c && leb c 122
    then some (c - 71)
    else if leb 48 c && leb c 57
    then some (c + 4)
    else if nat_eq c 45
    then some 62
    else if nat_eq c 95
    then some 63
    else none

-- The groups of six bits of a text.
sextets : Text → List ℕ
sextets [] = []
sextets (a ∷ []) = (a / 4) ∷ (a % 4 * 16) ∷ []
sextets (a ∷ b ∷ []) = (a / 4) ∷ (a % 4 * 16 + b / 16) ∷ (b % 16 * 4) ∷ []
sextets (a ∷ b ∷ c ∷ s) =
    (a / 4) ∷ (a % 4 * 16 + b / 16) ∷ (b % 16 * 4 + c / 64) ∷ (c % 64) ∷ sextets s

unfoldable pub encode : Text → Text
unfolding sextets char_of
encode s = map char_of (sextets s)

abbrev cons_some : Option ℕ → Option (List ℕ) → Option (List ℕ)
cons_some (some x) (some xs) = some (x ∷ xs)
cons_some (some x) none = none
cons_some none xs = none

-- Line breaks are skipped.
values : Text → Option (List ℕ)
unfolding value_of
values [] = some []
values (c ∷ s) =
    let rest = values s in if nat_eq c 10 || nat_eq c 13 then rest else cons_some (value_of c) rest

join : List ℕ → Option Text
join [] = some []
join (w ∷ []) = none
join (w ∷ x ∷ []) = some ((w * 4 + x / 16) ∷ [])
join (w ∷ x ∷ y ∷ []) = some ((w * 4 + x / 16) ∷ (x % 16 * 16 + y / 4) ∷ [])
join (w ∷ x ∷ y ∷ z ∷ s) =
    let rest = join s in
    elim rest [
      | none ↦ none
      | some t ↦ some ((w * 4 + x / 16) ∷ (x % 16 * 16 + y / 4) ∷ (y % 4 * 64 + z) ∷ t)
    ]

abbrev join_values : Option (List ℕ) → Option Text
join_values none = none
join_values (some vs) = join vs

unfoldable pub decode : Text → Option Text
unfolding values join
decode s = join_values (values s)

abbrev pub IsByte : ℕ → Type 0
IsByte b = b < 256

abbrev is_some_of : Option ℕ → ℕ → Bool
is_some_of none n = false
is_some_of (some m) n = nat_eq m n

char_table : all_below 64 (λ n. let c = char_of n in is_some_of (value_of c) n && leb 14 c) ≡ true
unfolding all_below char_of value_of
char_table = refl

value_of-char_of : (n : ℕ) → n < 64 → (value_of (char_of n) ≡ some n) × (13 < char_of n)
value_of-char_of n h =
    let t =
      all_below_sound 64 (λ n. let c = char_of n in is_some_of (value_of c) n && leb 14 c) n
        char_table h in
    (ground arith, ground arith)

values-map : (xs : List ℕ) → All (λ x. x < 64) xs → values (map char_of xs) ≡ some xs
unfolding values
values-map [] h = refl
values-map (x ∷ xs) (h, hs) = ground (arith, value_of-char_of x h, values-map xs hs)

sextets_bounds : (s : Text) → All IsByte s → All (λ x. x < 64) (sextets s)
unfolding sextets
sextets_bounds [] h = tt
sextets_bounds (a ∷ []) (h, _) = (omega arith, (omega arith, tt))
sextets_bounds (a ∷ b ∷ []) (h, (k, _)) = (omega arith, (omega arith, (omega arith, tt)))
sextets_bounds (a ∷ b ∷ c ∷ s) (h, (k, (l, hs))) =
    (omega arith, (omega arith, (omega arith, (omega arith, sextets_bounds s hs))))

join-sextets : (s : Text) → All IsByte s → join (sextets s) ≡ some s
unfolding join sextets
join-sextets [] h = refl
join-sextets (a ∷ []) (h, _) = ground arith
join-sextets (a ∷ b ∷ []) (h, (k, _)) = ground arith
join-sextets (a ∷ b ∷ c ∷ s) (h, (k, (l, hs))) = rw (join-sextets s hs) (ground arith)

-- What is encoded is decoded to itself.
pub decode-encode : (s : Text) → All IsByte s → decode (encode s) ≡ some s
unfolding decode encode
decode-encode s h = rw (values-map (sextets s) (sextets_bounds s h)) (join-sextets s h)

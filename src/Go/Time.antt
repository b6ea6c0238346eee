-- ===== src/Go/Time.antt =====
-- Package time: instants, `time.Parse(time.RFC3339, s)` and `Format` of it, in UTC.
-- An instant is a number of nanoseconds from 1 March of the year -400, so that every time that
-- RFC 3339 can write, offsets included, is a natural number.
use estate_ci.Prelude.{
  ℕ, zero, suc, ◌+◌, ◌-◌, ◌*◌, ◌/◌, ◌%◌, Bool, true, false, ◌&&◌, ◌||◌, not, Option, none, some, [],
  ◌∷◌, ◌++◌, Text, ltb, leb, nat_eq, if◌then◌else◌, decimal, length, replicate, ℤ, pos, negsuc,
}

abbrev pub Time : Type 0
Time = ℕ

abbrev pub second : ℕ
second = 1000000000

abbrev pub minute : ℕ
minute = 60 * second

abbrev pub hour : ℕ
hour = 3600 * second

abbrev pub day : ℕ
day = 86400 * second

unfoldable pub is_leap : ℕ → Bool
is_leap y = nat_eq (y % 4) 0 && (not (nat_eq (y % 100) 0) || nat_eq (y % 400) 0)

unfoldable pub days_in : ℕ → ℕ → ℕ
unfolding is_leap
days_in y m =
    if nat_eq m 2
    then (if is_leap y then 29 else 28)
    else if nat_eq m 4 || nat_eq m 6 || nat_eq m 9 || nat_eq m 11
    then 30
    else 31

-- Days from 1 March of the year -400 to a date of the proleptic Gregorian calendar.
unfoldable pub days_from_civil : ℕ → ℕ → ℕ → ℕ
days_from_civil y m d =
    let y' = y + 400 - (if leb m 2 then 1 else 0) in
    let yoe = y' % 400 in
    let doy = (153 * ((m + 9) % 12) + 2) / 5 + (d - 1) in
    y' / 400 * 146097 + (yoe * 365 + yoe / 4 - yoe / 100 + doy)

-- The date of a day, for days from the year 0 on.
unfoldable pub civil_from_days : ℕ → ℕ × ℕ × ℕ
civil_from_days z =
    let era = z / 146097 in
    let doe = z % 146097 in
    let yoe = (doe - doe / 1460 + doe / 36524 - doe / 146096) / 365 in
    let doy = doe - (365 * yoe + yoe / 4 - yoe / 100) in
    let mp = (5 * doy + 2) / 153 in
    let d = doy - (153 * mp + 2) / 5 + 1 in
    let m = (if ltb mp 10 then mp + 3 else mp - 9) in
    (yoe + era * 400 + (if leb m 2 then 1 else 0) - 400, m, d)

-- The zero `time.Time`: 1 January of the year 1.
abbrev pub zero_time : Time
zero_time = 146463 * day

is_digit : ℕ → Bool
is_digit c = leb 48 c && leb c 57

infixl 5 ◌>>=◌
abbrev ◌>>=◌ : {A B : Type 0} → Option A → (A → Option B) → Option B
none >>= f = none
some a >>= f = f a

abbrev check : {B : Type 0} → Bool → Option B → Option B
check true k = k
check false k = none

-- Exactly `n` digits, read after the number `acc`.
digits : ℕ → ℕ → Text → Option (ℕ × Text)
digits zero acc s = some (acc, s)
digits (suc n) acc [] = none
digits (suc n) acc (c ∷ s) = check (is_digit c) (digits n (acc * 10 + (c - 48)) s)

literal : ℕ → Text → Option Text
literal c [] = none
literal c (d ∷ s) = check (nat_eq c d) (some s)

-- The hour, which Go reads from one digit too.
hour_digits : Text → Option (ℕ × Text)
unfolding is_digit
hour_digits [] = none
hour_digits (c ∷ []) = check (is_digit c) (some (c - 48, []))
hour_digits (c ∷ d ∷ s) =
    check (is_digit c)
      (if is_digit d then some ((c - 48) * 10 + (d - 48), s) else some (c - 48, d ∷ s))

-- Any number of digits of a fraction; the first nine count. `scale` is the weight of the next.
fraction_digits : ℕ → ℕ → Text → ℕ × Text
fraction_digits scale acc [] = (acc, [])
fraction_digits scale acc (c ∷ s) =
    let more = fraction_digits (scale / 10) (acc + (c - 48) * scale) s in
    if is_digit c then more else (acc, c ∷ s)

fraction : Text → ℕ × Text
unfolding is_digit fraction_digits
fraction [] = (0, [])
fraction (p ∷ []) = (0, p ∷ [])
fraction (p ∷ c ∷ s) =
    if (nat_eq p b'.' || nat_eq p b',') && is_digit c
    then fraction_digits 100000000 0 (c ∷ s)
    else (0, p ∷ c ∷ s)

-- The zone at the end of the text: the nanoseconds to add to and to take off the local time.
zone : Text → Option (ℕ × ℕ)
unfolding digits literal
zone [] = none
zone (c ∷ s) = if nat_eq c b'Z' then (elim s [ [] ↦ some (0, 0) | _ ∷ _ ↦ none ]) else do
  (hh, s1) ← digits 2 0 s
  s2 ← literal b':' s1
  (mm, s3) ← digits 2 0 s2
  check (leb hh 24 && leb mm 60 && nat_eq (length s3) 0) (
      if nat_eq c b'+'
      then some (0, (hh * 60 + mm) * minute)
      else if nat_eq c b'-'
      then some ((hh * 60 + mm) * minute, 0)
      else none)

unfoldable pub parse_time : Text → Option Time
unfolding digits literal hour_digits fraction zone days_in days_from_civil
parse_time s = do
  (y, s1) ← digits 4 0 s
  s2 ← literal b'-' s1
  (m, s3) ← digits 2 0 s2
  s4 ← literal b'-' s3
  (d, s5) ← digits 2 0 s4
  s6 ← literal b'T' s5
  (hh, s7) ← hour_digits s6
  s8 ← literal b':' s7
  (mm, s9) ← digits 2 0 s8
  s10 ← literal b':' s9
  (ss, s11) ← digits 2 0 s10
  let ns = (fraction s11).0
  (plus, minus) ← zone (fraction s11).1
  check
      (leb 1 m && leb m 12 && ltb hh 24 && ltb mm 60 && ltb ss 60 && leb 1 d && leb d (days_in y m))
      (some (days_from_civil y m d * day + ((hh * 60 + mm) * 60 + ss) * second + ns + plus - minus))

-- A number in decimal, with zeros in front up to a width.
pad : ℕ → ℕ → Text
pad width n = let s = decimal n in replicate (width - length s) b'0' ++ s

-- `Format("2006/01/02")` of an instant in UTC.
unfoldable pub format_date : ℕ → Time → Text
unfolding pad decimal civil_from_days
format_date separator t =
    let (y, m, d) = civil_from_days (t / day) in
    pad 4 y ++ (separator ∷ (pad 2 m ++ (separator ∷ pad 2 d)))

-- `UTC().Truncate(time.Second).Format(time.RFC3339)`.
unfoldable pub format_time : Time → Text
unfolding format_date
format_time t =
    let s = t % day / second in
    format_date b'-' t
    ++ (b'T'
        ∷ (pad 2 (s / 3600)
            ++ (b':' ∷ (pad 2 (s / 60 % 60) ++ (b':' ∷ (pad 2 (s % 60) ++ (b'Z' ∷ [])))))))

-- `Truncate(time.Second)`.
unfoldable pub truncate_second : Time → Time
truncate_second t = t / second * second

-- The start of 1970 on this time line.
abbrev pub unix_epoch : Time
unix_epoch = 74784816000 * second

-- `Unix()`: the seconds from there on, rounded down.
unfoldable pub unix_seconds : Time → ℤ
unix_seconds t =
    if leb unix_epoch t
    then pos ((t - unix_epoch) / second)
    else negsuc ((unix_epoch - t - 1) / second)

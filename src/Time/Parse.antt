-- ===== src/Time/Parse.antt =====
-- `time.Parse(time.RFC3339, s)`, and the arithmetic of instants.
use star_car.Prelude.{
  ℕ, zero, suc, ◌+◌, ◌-◌, ◌*◌, ◌/◌, ◌%◌, ◌^◌, String, Bool, true, false, ◌&&◌, ◌||◌, Option, none,
  some, List, [], ◌∷◌, ◌≡◌, refl, not, ltb, leb, eqb, codes, ◌>>=◌, if◌then◌else◌,
}
use star_car.Prelude.Int.{ℤ, pos, negsuc}
use Prim.Native.Nat.{min}

abbrev pub Time : Type 0
Time = ℕ

abbrev pub second_ns : ℕ
second_ns = 1_000_000_000

-- Seconds in a day, and the two days before year 0.
abbrev pub day_s : ℕ
day_s = 86_400

abbrev pub origin_days : ℕ
origin_days = 2

-- `time.Unix(0, 0)`
abbrev pub unix_epoch : Time
unix_epoch = (719_528 + origin_days) * day_s * second_ns

-- `t.After(u)`
abbrev pub after : Time → Time → Bool
after t u = ltb u t

-- `t.Sub(u)`: a number of nanoseconds that saturates at the ends of int64.
unfoldable pub sub_time : Time → Time → ℤ
sub_time t u =
    if leb u t then pos (min (t - u) (2 ^ 63 - 1)) else negsuc (min (u - t - 1) (2 ^ 63 - 1))

abbrev Parsed : Type 0
Parsed = Option (ℕ × List ℕ)

is_digit : ℕ → Bool
is_digit c = leb b'0' c && leb c b'9'

-- Exactly `n` digits.
fixed_digits : ℕ → ℕ → List ℕ → Parsed
unfolding is_digit
fixed_digits zero acc s = some (acc, s)
fixed_digits (suc n) acc [] = none
fixed_digits (suc n) acc (c ∷ s) =
    let rest = fixed_digits n (acc * 10 + (c - b'0')) s in if is_digit c then rest else none

-- `getnum(value, false)`: one digit or two.
one_or_two_digits : List ℕ → Parsed
unfolding is_digit
one_or_two_digits [] = none
one_or_two_digits (c ∷ []) = if is_digit c then some (c - b'0', []) else none
one_or_two_digits (c ∷ d ∷ s) =
    if is_digit c
    then if is_digit d then some ((c - b'0') * 10 + (d - b'0'), s) else some (c - b'0', d ∷ s)
    else none

literal : ℕ → List ℕ → Option (List ℕ)
literal c [] = none
literal c (d ∷ s) = if eqb c d then some s else none

-- The digits of a fraction: the first nine count, the others are read over.
fraction_digits : ℕ → ℕ → List ℕ → ℕ × List ℕ
unfolding is_digit
fraction_digits places acc [] = (acc * 10 ^ places, [])
fraction_digits zero acc (c ∷ s) = if is_digit c then fraction_digits zero acc s else (acc, c ∷ s)
fraction_digits (suc p) acc (c ∷ s) =
    if is_digit c then fraction_digits p (acc * 10 + (c - b'0')) s else (acc * 10 ^ suc p, c ∷ s)

-- An optional fraction behind the seconds, in nanoseconds.
fraction : List ℕ → ℕ × List ℕ
unfolding is_digit fraction_digits
fraction (c ∷ d ∷ s) =
    if (eqb c b'.' || eqb c b',') && is_digit d then fraction_digits 9 0 (d ∷ s) else (0, c ∷ d ∷ s)
fraction s = (0, s)

-- A zone: whether it lies west of UTC, and its offset in seconds.
zone : List ℕ → Option (Bool × ℕ)
unfolding fixed_digits literal
zone [] = none
zone (c ∷ s) = if eqb c b'Z' then elim s [ [] ↦ some (false, 0) | _ ∷ _ ↦ none ] else (do
  (hours, s) ← fixed_digits 2 0 s
  s ← literal b':' s
  (minutes, s) ← fixed_digits 2 0 s
  let offset : ℕ = (hours * 60 + minutes) * 60
  let signed : Option (Bool × ℕ) =
      if eqb c b'+' then some (false, offset) else if eqb c b'-' then some (true, offset) else none
  let ended : Option (Bool × ℕ) = elim s [ [] ↦ signed | _ ∷ _ ↦ none ]
  if ltb 24 hours || ltb 60 minutes then none else ended)

is_leap : ℕ → Bool
is_leap y = eqb (y % 4) 0 && (not (eqb (y % 100) 0) || eqb (y % 400) 0)

-- `daysIn(month, year)`
days_in : ℕ → ℕ → ℕ
unfolding is_leap
days_in y m =
    if eqb m 2
    then if is_leap y then 29 else 28
    else if eqb m 4 || eqb m 6 || eqb m 9 || eqb m 11
    then 30
    else 31

-- The days of the months of year `y` before month `m + 1`.
days_before_month : ℕ → ℕ → ℕ
unfolding days_in
days_before_month y zero = 0
days_before_month y (suc m) = days_before_month y m + days_in y (suc m)

-- The days before year `y`, counted from year 0.
days_before_year : ℕ → ℕ
days_before_year y = 365 * y + (y + 3) / 4 - (y + 99) / 100 + (y + 399) / 400

instant : ℕ → ℕ → ℕ → ℕ → ℕ → Bool × ℕ → Time
unfolding days_before_year days_before_month
instant year month day clock nanos (west, offset) =
    let days =
      origin_days + days_before_year year + days_before_month year (month - 1) + (day - 1) in
    let local = days * day_s + clock in
    (if west then local + offset else local - offset) * second_ns + nanos

in_range : ℕ → ℕ → ℕ → ℕ → ℕ → ℕ → Bool
unfolding days_in
in_range year month day hour minute sec =
    leb 1 month
    && leb month 12
    && leb hour 23
    && leb minute 59
    && leb sec 59
    && leb 1 day
    && leb day (days_in year month)

-- The instant of a text "2006-01-02T15:04:05Z07:00", a fraction allowed behind the seconds.
parse_codes : List ℕ → Option Time
unfolding fixed_digits one_or_two_digits literal fraction zone in_range instant
parse_codes s = do
  (year, s) ← fixed_digits 4 0 s
  s ← literal b'-' s
  (month, s) ← fixed_digits 2 0 s
  s ← literal b'-' s
  (day, s) ← fixed_digits 2 0 s
  s ← literal b'T' s
  (hour, s) ← one_or_two_digits s
  s ← literal b':' s
  (minute, s) ← fixed_digits 2 0 s
  s ← literal b':' s
  (sec, s) ← fixed_digits 2 0 s
  let (nanos, s) = fraction s
  offset ← zone s
  let valid : Bool = in_range year month day hour minute sec
  let clock : ℕ = (hour * 60 + minute) * 60 + sec
  if valid then some (instant year month day clock nanos offset) else none

unfoldable pub parse_rfc3339 : String → Option Time
unfolding parse_codes
parse_rfc3339 s = parse_codes (codes s)

epoch_test : parse_rfc3339 "1970-01-01T00:00:00Z" ≡ some unix_epoch
unfolding parse_rfc3339
epoch_test = refl

offset_test :
    parse_rfc3339 "2026-07-23T10:00:00.25+02:00" ≡ parse_rfc3339 "2026-07-23T08:00:00,250Z"
unfolding parse_rfc3339
offset_test = refl

zoneless_test : parse_rfc3339 "2026-07-23T10:00:00" ≡ none
unfolding parse_rfc3339
zoneless_test = refl

leap_test : parse_rfc3339 "2026-02-29T10:00:00Z" ≡ none
unfolding parse_rfc3339
leap_test = refl

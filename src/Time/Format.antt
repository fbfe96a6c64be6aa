-- ===== src/Time/Format.antt =====
-- `t.UTC().Format(time.RFC3339)`, which for an instant in UTC is also the layout
-- "2006-01-02T15:04:05Z". The date is read off the day number by the 400-year cycle.
use star_car.Prelude.{
  ℕ, ◌+◌, ◌-◌, ◌*◌, ◌/◌, ◌%◌, String, ◌≡◌, refl, leb, eqb, Option, none, some, if◌then◌else◌,
}
use Prim.Native.String.{◌++◌}
use star_car.Time.Parse.{Time, second_ns, day_s, parse_rfc3339}

-- The digit of a number below ten.
digit : ℕ → String
digit n =
    if eqb n 0
    then "0"
    else if eqb n 1
    then "1"
    else if eqb n 2
    then "2"
    else if eqb n 3
    then "3"
    else if eqb n 4
    then "4"
    else if eqb n 5
    then "5"
    else if eqb n 6
    then "6"
    else if eqb n 7
    then "7"
    else if eqb n 8
    then "8"
    else "9"

two_digits : ℕ → String
unfolding digit
two_digits n = digit (n / 10 % 10) ++ digit (n % 10)

four_digits : ℕ → String
unfolding two_digits
four_digits n = two_digits (n / 100) ++ two_digits (n % 100)

-- Year, month and day of a day number; the 400-year cycle begins on the first of March.
civil : ℕ → ℕ × ℕ × ℕ
civil n =
    let z = n + 146_097 - 62 in
    let cycle = z / 146_097 in
    let d = z % 146_097 in
    let y = (d - d / 1_460 + d / 36_524 - d / 146_096) / 365 in
    let yday = d - (365 * y + y / 4 - y / 100) in
    let mp = (5 * yday + 2) / 153 in
    let day = yday - (153 * mp + 2) / 5 + 1 in
    if leb mp 9 then (cycle * 400 + y - 400, mp + 3, day) else (cycle * 400 + y - 399, mp - 9, day)

unfoldable pub format_rfc3339 : Time → String
unfolding civil two_digits four_digits
format_rfc3339 t =
    let s = t / second_ns in
    let clock = s % day_s in
    let (year, month, day) = civil (s / day_s) in
    four_digits year
    ++ "-"
    ++ two_digits month
    ++ "-"
    ++ two_digits day
    ++ "T"
    ++ two_digits (clock / 3_600)
    ++ ":"
    ++ two_digits (clock / 60 % 60)
    ++ ":"
    ++ two_digits (clock % 60)
    ++ "Z"

abbrev formatted : Option Time → String
formatted (some t) = format_rfc3339 t
formatted none = ""

format_test : formatted (parse_rfc3339 "2026-07-23T10:59:07Z") ≡ "2026-07-23T10:59:07Z"
unfolding parse_rfc3339 format_rfc3339
format_test = refl

format_leap_test : formatted (parse_rfc3339 "2024-02-29T23:59:59.5-01:00") ≡ "2024-03-01T00:59:59Z"
unfolding parse_rfc3339 format_rfc3339
format_leap_test = refl

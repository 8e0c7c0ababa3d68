-- ===== src/Notes/Title.antt =====
-- `defaultTitle` of backend/internal/notes/service.go: time.Format and Weekday.String in UTC, by the
-- civil calendar, for times from 1970 to 9999.
use crapnote.Base.{
  ℕ, length, ◌≤◌, arith, ◌+◌, ◌-◌, ◌*◌, ◌/◌, ◌%◌, ◌++◌, ◌∷◌, [], codes, ltb, leb, ◌==◌,
  if◌then◌else◌, ◌≡◌, refl,
}
use crapnote.Db.{Bytes, second}

two_digits : ℕ → Bytes
two_digits n = (48 + n / 10 % 10) ∷ (48 + n % 10) ∷ []

four_digits : ℕ → Bytes
unfolding two_digits
four_digits n = two_digits (n / 100) ++ two_digits (n % 100)

record Date : Type 0 where
  year : ℕ
  month : ℕ
  day : ℕ

-- The proleptic Gregorian date of a day counted from 1970-01-01.
date_of_days : ℕ → Date
date_of_days days =
    let z : ℕ = days + 719468 in
    let era : ℕ = z / 146097 in
    let doe : ℕ = z % 146097 in
    let yoe : ℕ = (doe - doe / 1460 + doe / 36524 - doe / 146096) / 365 in
    let doy : ℕ = doe - (365 * yoe + yoe / 4 - yoe / 100) in
    let mp : ℕ = (5 * doy + 2) / 153 in
    let month : ℕ = if ltb mp 10 then mp + 3 else mp - 9 in
    record {
      year = yoe + era * 400 + (if leb month 2 then 1 else 0);
      month = month;
      day = doy - (153 * mp + 2) / 5 + 1;
    }

weekday : ℕ → Bytes
weekday n =
    if n == 0
    then codes "Sunday"
    else if n == 1
    then codes "Monday"
    else if n == 2
    then codes "Tuesday"
    else if n == 3
    then codes "Wednesday"
    else if n == 4
    then codes "Thursday"
    else if n == 5
    then codes "Friday"
    else codes "Saturday"

unfoldable pub default_title : ℕ → Bytes
unfolding four_digits two_digits date_of_days weekday
default_title now =
    let seconds : ℕ = now / second in
    let days : ℕ = seconds / 86400 in
    let clock : ℕ = seconds % 86400 in
    let date = date_of_days days in
    four_digits date.year
    ++ (45
        ∷ (two_digits date.month
            ++ (45
                ∷ (two_digits date.day
                    ++ (32
                        ∷ (two_digits (clock / 3600)
                            ++ (58
                                ∷ (two_digits (clock / 60 % 60)
                                    ++ (58
                                        ∷ (two_digits (clock % 60)
                                            ++ (codes " - " ++ weekday ((days + 4) % 7))))))))))))

-- The example of the function's comment.
documented : default_title (1776176610 * second) ≡ codes "2026-04-14 14:23:30 - Tuesday"
unfolding default_title
documented = refl

length-weekday : (n : ℕ) → length (weekday n) ≤ 9
unfolding weekday
length-weekday n = ground arith

pub length-default_title : (now : ℕ) → length (default_title now) ≤ 31
unfolding default_title
length-default_title now =
    let tail = length-weekday ((now / second / 86400 + 4) % 7) in omega (arith, tail)

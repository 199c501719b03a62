-- ===== src/Commonlibs/Time/Calendar.antt =====
-- The calendar of src/lib/commonlibs.c against the Gregorian calendar, counted in closed form.
use aqua_core.Prelude.{
  ℕ, zero, suc, ◌+◌, ◌-◌, ◌*◌, ◌/◌, ◌<◌, ◌≤◌, ◌≡◌, refl, ap, sym, subst, ◌∙◌, ltb, arith, tests,
  ltb→lt, ltb-false→le, if-cases, ◌^◌, ◌==◌, ◌||◌, if◌then◌else◌,
}
use aqua_core.Commonlibs.Time.{is_leap_year, year_days, find_year, month_days, find_month, date_of}

-- The days of the years before year y, from year 1 on: 365 each, and a leap day for every fourth, but
-- not for every hundredth, but for every four hundredth.
abbrev pub days_before : ℕ → ℕ
days_before y = 365 * (y - 1) + (y - 1) / 4 - (y - 1) / 100 + (y - 1) / 400

next_year : (y : ℕ) → 0 < y → days_before (y + 1) ≡ days_before y + year_days y
unfolding is_leap_year
next_year y lo = ground arith

-- The days of a month, from 0 on: 30 in April, June, September and November, 31 in the others but
-- February, which has what the other months leave of the year, 337 days, up to the next one.
abbrev pub month_length : ℕ → ℕ → ℕ
month_length year month =
    if month == 1
    then days_before (year + 1) - (days_before year + 337)
    else if month == 3 || month == 5 || month == 8 || month == 10
    then 30
    else 31

february :
    (y : ℕ)
    → 0 < y
    → (if is_leap_year y then 29 else 28) ≡ days_before (y + 1) - (days_before y + 337)
unfolding is_leap_year
february y lo = ground (arith, next_year y lo)

month_days-month_length :
    (year month : ℕ) → 0 < year → month < 12 → month_days year month ≡ month_length year month
month_days-month_length year zero lo lt = refl
month_days-month_length year (suc zero) lo lt = february year lo
month_days-month_length year (suc (suc zero)) lo lt = refl
month_days-month_length year (suc (suc (suc zero))) lo lt = refl
month_days-month_length year (suc (suc (suc (suc zero)))) lo lt = refl
month_days-month_length year (suc (suc (suc (suc (suc zero))))) lo lt = refl
month_days-month_length year (suc (suc (suc (suc (suc (suc zero)))))) lo lt = refl
month_days-month_length year (suc (suc (suc (suc (suc (suc (suc zero))))))) lo lt = refl
month_days-month_length year (suc (suc (suc (suc (suc (suc (suc (suc zero)))))))) lo lt = refl
month_days-month_length year (suc (suc (suc (suc (suc (suc (suc (suc (suc zero))))))))) lo lt = refl
month_days-month_length year (suc (suc (suc (suc (suc (suc (suc (suc (suc (suc zero)))))))))) lo
      lt =
    refl
month_days-month_length year (suc (suc (suc (suc (suc (suc (suc (suc (suc (suc (suc zero)))))))))))
      lo lt =
    refl
month_days-month_length year
      (suc (suc (suc (suc (suc (suc (suc (suc (suc (suc (suc (suc m)))))))))))) lo lt =
    absurd (omega arith)

-- The days of the months before a month of the year.
unfoldable pub months_before : ℕ → ℕ → ℕ
months_before year zero = 0
months_before year (suc month) = months_before year month + month_length year month

-- A year and a day in it, for the days since the start of 1970.
pub record IsYear (days : ℕ) (r : ℕ × ℕ) : Type 0 where
  pub first : 1970 ≤ r.0
  pub sum : days_before r.0 + r.1 ≡ days_before 1970 + days
  pub inside : r.1 < year_days r.0

year_days_pos : (y : ℕ) → 0 < year_days y
year_days_pos y =
    if-cases (λ n. 0 < n) (is_leap_year y) 366 365 (λ e. omega arith) (λ e. omega arith)

-- The step of a loop that takes a part off and counts it.
later :
    (next before part rest total : ℕ)
    → next ≡ before + part
    → part ≤ rest
    → before + rest ≡ total
    → next + (rest - part) ≡ total
later next before part rest total e le sum = omega arith

shorter : (d part fuel : ℕ) → 0 < part → d < suc fuel → part ≤ d → d - part < fuel
shorter d part fuel lo hi le = omega arith

find_year-IsYear :
    (fuel days year d : ℕ)
    → 1970 ≤ year
    → days_before year + d ≡ days_before 1970 + days
    → d < fuel
    → IsYear days (find_year fuel year d)
unfolding find_year
find_year-IsYear zero days year d lo sum enough = absurd (omega arith)
find_year-IsYear (suc fuel) days year d lo sum enough =
    if-cases (IsYear days) (ltb d (year_days year)) _ _
      (λ e. record { first = lo; sum = sum; inside = omega (tests, e) })
      (λ e.
        let reached : year_days year ≤ d = ltb-false→le d (year_days year) e in
        let long : 0 < year_days year = year_days_pos year in
        let step = next_year year (omega arith) in
        find_year-IsYear fuel days (year + 1) (d - year_days year) (omega arith)
          (later (days_before (year + 1)) (days_before year) (year_days year) d
            (days_before 1970 + days) step reached sum)
          (shorter d (year_days year) fuel long enough reached))

-- A month and a day in it, for a day of a year.
pub record IsMonth (year d : ℕ) (r : ℕ × ℕ) : Type 0 where
  pub bounded : r.0 < 12
  pub sum : months_before year r.0 + r.1 ≡ d
  pub inside : r.1 < month_length year r.0

year_months : (year : ℕ) → 0 < year → months_before year 12 ≡ year_days year
unfolding months_before
year_months year lo = omega (arith, next_year year lo, year_days_pos year)

months_step :
    (year month : ℕ)
    → months_before year (month + 1) ≡ months_before year month + month_length year month
unfolding months_before
months_step year month = let e : month + 1 ≡ suc month = omega arith in ap (months_before year) e

find_month-IsMonth :
    (rounds year d month rest : ℕ)
    → 0 < year
    → month + rounds ≡ 12
    → months_before year month + rest ≡ d
    → d < year_days year
    → IsMonth year d (find_month rounds year month rest)
unfolding find_month
find_month-IsMonth zero year d month rest lo count sum lt =
    let last : month ≡ 12 = omega arith in
    let all : months_before year month ≡ year_days year =
      ap (months_before year) last ∙ year_months year lo in
    absurd (omega (arith, all))
find_month-IsMonth (suc rounds) year d month rest lo count sum lt =
    let same = month_days-month_length year month lo (omega arith) in
    if-cases (IsMonth year d) (ltb rest (month_days year month)) _ _
      (λ e. record {
        bounded = omega arith;
        sum = sum;
        inside = subst (λ n. rest < n) same (ltb→lt rest (month_days year month) e);
      })
      (λ e.
        let reached = ltb-false→le rest (month_days year month) e in
        find_month-IsMonth rounds year d (month + 1) (rest - month_days year month) lo (omega arith)
          (later (months_before year (month + 1)) (months_before year month) (month_days year month)
            rest d (months_step year month ∙ ap (λ n. months_before year month + n) (sym same))
            reached sum)
          lt)

-- A date of years below 2 ^ 31 that is the day `days` after 1 January 1970, where a month has its days
-- in the Gregorian calendar. Months count from 0, days of a month from 1.
pub record IsDate (days : ℕ) (r : ℕ × ℕ × ℕ) : Type 0 where
  pub first : 1970 ≤ r.0
  pub last : r.0 < 2 ^ 31
  pub month : r.1 < 12
  pub day_low : 1 ≤ r.2
  pub day_high : r.2 ≤ month_length r.0 r.1
  pub sum : days_before r.0 + months_before r.0 r.1 + r.2 ≡ days_before 1970 + days + 1

up : (a b : ℕ) → a < b → a + 1 ≤ b
up a b h = omega arith

total :
    (years months r d days : ℕ)
    → years + d ≡ days
    → months + r ≡ d
    → years + months + (r + 1) ≡ days + 1
total years months r d days a b = omega arith

from_january : (year d : ℕ) → months_before year 0 + d ≡ d
unfolding months_before
from_january year d = omega arith

dated :
    (days : ℕ) (y m : ℕ × ℕ)
    → days < 2 ^ 39
    → IsYear days y
    → IsMonth y.0 y.1 m
    → IsDate days (y.0, m.0, m.1 + 1)
dated days (y, d) (m, r) near year month =
    let a = year.sum in
    let b = month.sum in
    record {
      first = year.first;
      last = omega (arith, a);
      month = month.bounded;
      day_low = omega arith;
      day_high = up r (month_length y m) month.inside;
      sum = total (days_before y) (months_before y m) r d (days_before 1970 + days) a b;
    }

-- For every day of the 2 ^ 39 from 1 January 1970 on, the loops of `unix_time_to_utc_str` end, and give
-- the date of the day in the Gregorian calendar, in a year that an int holds: a month of the year and
-- a day of this month. A month has 30 days in April, June, September and November, 31 in the others,
-- and in February 28 or, in a leap year, 29. The number of the date, in days since the start of year 1
-- with a leap day in each year that is divisible by 4, but not by 100 unless by 400, is that of 1
-- January 1970 and the days after it.
pub date_of_lem : (days : ℕ) → days < 2 ^ 39 → IsDate days (date_of days)
unfolding date_of
date_of_lem days near =
    let y = find_year (days + 1) 1970 days in
    let year = find_year-IsYear (days + 1) days 1970 days (omega arith) refl (omega arith) in
    let m = find_month 12 y.0 0 y.1 in
    let month =
      find_month-IsMonth 12 y.0 y.1 0 y.1 (omega (arith, year.first)) refl (from_january y.0 y.1)
        year.inside in
    dated days y m near year month

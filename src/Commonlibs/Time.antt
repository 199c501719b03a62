-- ===== src/Commonlibs/Time.antt =====
-- The clock of src/lib/commonlibs.c: the 64-bit division, the calendar, and `unix_time_to_utc_str`.
pub mod Divide
pub mod Calendar
mod Tests
use aqua_core.Prelude.{
  ℕ, zero, suc, ◌+◌, ◌-◌, ◌*◌, ◌/◌, ◌%◌, ◌^◌, Bool, true, false, ◌&&◌, Option, none, some, List, [],
  ◌∷◌, get_or, ltb, ◌==◌, if◌then◌else◌, u32, ◌>>=◌,
}
use aqua_core.Commonlibs.Text.{codes, append_char, append_str, append_u32}

abbrev pub u64 : ℕ
u64 = 2 ^ 64

-- The rounds of `udiv64_32_full` from bit i - 1 down to bit 0. `rem << 1` has bit 0 clear, and q the bits
-- below i, so that `|` with a single bit adds it.
unfoldable pub udiv_from : ℕ → ℕ → ℕ → ℕ → ℕ → ℕ × ℕ
udiv_from zero n d q rem = (q, rem)
udiv_from (suc i) n d q rem =
    let rem' = 2 * rem % u64 + n / 2 ^ i % 2 in
    let below = ltb rem' d in
    udiv_from i n d (if below then q else q + 2 ^ i) (if below then rem' else rem' - d)

-- The quotient, and *rem_out.
unfoldable pub udiv64_32_full : ℕ → ℕ → ℕ × ℕ
unfolding udiv_from
udiv64_32_full n d = let (q, rem) = udiv_from 64 n d 0 0 in (q, rem % u32)

unfoldable pub is_leap_year : ℕ → Bool
is_leap_year y = if y % 400 == 0 then true else if y % 100 == 0 then false else y % 4 == 0

abbrev pub year_days : ℕ → ℕ
year_days y = if is_leap_year y then 366 else 365

-- The loop that finds the year, on fuel: the year, and the day in it. The code's `int year` is a natural
-- number here, which stands for it as long as the year stays below 2 ^ 31.
unfoldable pub find_year : ℕ → ℕ → ℕ → ℕ × ℕ
find_year zero year d = (year, d)
find_year (suc fuel) year d =
    if ltb d (year_days year) then (year, d) else find_year fuel (year + 1) (d - year_days year)

abbrev pub mon_days : List ℕ
mon_days = 31 ∷ 28 ∷ 31 ∷ 30 ∷ 31 ∷ 30 ∷ 31 ∷ 31 ∷ 30 ∷ 31 ∷ 30 ∷ 31 ∷ []

-- `dim`, the days of a month from 0 on.
abbrev pub month_days : ℕ → ℕ → ℕ
month_days year month = if month == 1 && is_leap_year year then 29 else get_or mon_days month 0

-- The loop that finds the month, `rounds` before month 12: the month, and the day in it.
unfoldable pub find_month : ℕ → ℕ → ℕ → ℕ → ℕ × ℕ
find_month zero year month d = (month, d)
find_month (suc rounds) year month d =
    if ltb d (month_days year month)
    then (month, d)
    else find_month rounds year (month + 1) (d - month_days year month)

abbrev pub wday_name : List (List ℕ)
wday_name =
    codes "Sun"
    ∷ codes "Mon"
    ∷ codes "Tue"
    ∷ codes "Wed"
    ∷ codes "Thu"
    ∷ codes "Fri"
    ∷ codes "Sat"
    ∷ []

abbrev pub mon_name : List (List ℕ)
mon_name =
    codes "Jan"
    ∷ codes "Feb"
    ∷ codes "Mar"
    ∷ codes "Apr"
    ∷ codes "May"
    ∷ codes "Jun"
    ∷ codes "Jul"
    ∷ codes "Aug"
    ∷ codes "Sep"
    ∷ codes "Oct"
    ∷ codes "Nov"
    ∷ codes "Dec"
    ∷ []

unfoldable pub append_2d : ℕ → List ℕ → ℕ → Option (List ℕ)
append_2d size out v =
    append_char size out (48 + v / 10 % 10) >>= λ out'. append_char size out' (48 + v % 10)

-- The date of a day: year, month from 0, day of the month from 1.
unfoldable pub date_of : ℕ → ℕ × ℕ × ℕ
unfolding find_year find_month
date_of days =
    let (year, d) = find_year (days + 1) 1970 days in
    let (month, m) = find_month 12 year 0 d in (year, month, m + 1)

-- The text in `out`, or none for -1. `year` is an int in the code, which the year must not leave: it is
-- below 2 ^ 31 for all times below 2 ^ 55.
unfoldable pub unix_time_to_utc_str : ℕ → ℕ → Option (List ℕ)
unfolding udiv64_32_full date_of
unix_time_to_utc_str unix_sec out_size =
    let (days, sod) = udiv64_32_full unix_sec 86400 in
    let wday = (udiv64_32_full ((days + 4) % u64) 7).1 in
    let (year, month, mday) = date_of days in
    if out_size == 0
    then none
    else (append_str out_size [] (get_or wday_name wday [])
        >>= (λ a. append_char out_size a 32)
        >>= (λ b. append_str out_size b (get_or mon_name month []))
        >>= (λ c. append_char out_size c 32)
        >>= (λ d. append_u32 out_size d mday)
        >>= (λ e. append_char out_size e 32)
        >>= (λ f. append_2d out_size f (sod / 3600))
        >>= (λ g. append_char out_size g 58)
        >>= (λ h. append_2d out_size h (sod % 3600 / 60))
        >>= (λ i. append_char out_size i 58)
        >>= (λ j. append_2d out_size j (sod % 60))
        >>= (λ k. append_str out_size k (codes " UTC "))
        >>= (λ l. append_u32 out_size l (year % u32)))

-- ===== src/Commonlibs/Time/Tests.antt =====
-- The text and the date of 1700000000 seconds after the start of 1970.
use aqua_core.Prelude.{◌≡◌, refl, arith, some}
use aqua_core.Commonlibs.Text.{codes, append_char, append_str, append_u32, low_digits}
use aqua_core.Commonlibs.Text.Decimal.{Prints, append_u32_lem}
use aqua_core.Commonlibs.Time.{
  udiv64_32_full, date_of, unix_time_to_utc_str, append_2d, is_leap_year, find_year, find_month,
  udiv_from,
}
use aqua_core.Commonlibs.Time.Divide.{IsDivided, udiv64_32_full_lem}
use aqua_core.Commonlibs.Time.Calendar.{IsDate, date_of_lem}

udiv64_32_full_lem_example : IsDivided 1700000000 86400 (udiv64_32_full 1700000000 86400)
udiv64_32_full_lem_example =
    udiv64_32_full_lem 1700000000 86400 (omega arith) (omega arith) (omega arith)

date_of_lem_example : IsDate 19675 (date_of 19675)
date_of_lem_example = date_of_lem 19675 (omega arith)

-- 31 behind "pid:\t".
append_u32_lem_example : Prints 256 (codes "pid:\t") 31 (append_u32 256 (codes "pid:\t") 31)
append_u32_lem_example = append_u32_lem 256 (codes "pid:\t") 31 (omega arith) (omega arith)

-- 14 November 2023
a_date : date_of 19675 ≡ (2023, 10, 14)
unfolding date_of find_year find_month is_leap_year
a_date = refl

a_text : unix_time_to_utc_str 1700000000 64 ≡ some (codes "Tue Nov 14 22:13:20 UTC 2023")
unfolding unix_time_to_utc_str udiv64_32_full date_of find_year find_month is_leap_year append_2d
    append_char append_str append_u32 low_digits udiv_from
a_text = refl

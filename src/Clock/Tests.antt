-- ===== src/Clock/Tests.antt =====
-- The leap day of 2024.
use nix_core_os.Base.{◌≡◌, ◌+◌, ◌%◌, refl, pos, arith, some, codes, ◌+ℤ◌, ◌*ℤ◌, ◌-ℤ◌}
use nix_core_os.Clock.{
  Datetime, unix_to_datetime, get_day_of_week, get_day_name, name_at, date_of, find_year,
  find_month, days_in_year, days_in_month, is_leap,
}
use nix_core_os.Clock.Months.{before_year, before_month, year_length}
use nix_core_os.Clock.Weekday.{get_day_of_week_lem}

abbrev leap_day : Datetime
leap_day = record {
  year = pos 2024;
  month = pos 2;
  day = pos 29;
  hour = pos 23;
  minute = pos 59;
  second = pos 58;
  timezone_offset = pos 60;
}

leap_day_lem : unix_to_datetime (pos 60) (pos 1709247598) ≡ leap_day
unfolding unix_to_datetime date_of find_year find_month days_in_month days_in_year is_leap ◌+ℤ◌ ◌*ℤ◌
leap_day_lem = refl

get_day_of_week_lem_example :
    get_day_of_week leap_day ≡ pos ((before_year 2024 + before_month 2024 1 + 28 + 1) % 7)
unfolding year_length
get_day_of_week_lem_example =
    get_day_of_week_lem leap_day 2024 1 28 refl refl refl (omega arith) (omega arith) (omega arith)
      (omega arith)

thursday : get_day_name (get_day_of_week leap_day) ≡ some (codes "Thursday")
unfolding get_day_of_week get_day_name name_at ◌+ℤ◌ ◌*ℤ◌ ◌-ℤ◌
thursday = refl

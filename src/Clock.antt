-- ===== src/Clock.antt =====
-- kernel/time.c: the clock, the calendar and the names that it prints. A signed sum or product that
-- leaves the range of its type is undefined in C and is not modelled: integers are unbounded here, but
-- for the conversion of the year to an `int`.
pub mod Months
pub mod Calendar
pub mod Weekday
mod Tests
use nix_core_os.Base.{
  ℕ, zero, suc, ◌+◌, ◌-◌, ◌*◌, ◌/◌, ◌%◌, ◌^◌, Bool, true, false, List, [], ◌∷◌, Option, none, some,
  ltb, leb, ◌==◌, ◌&&◌, ◌||◌, not, if◌then◌else◌, ℤ, pos, negsuc, neg_ℕ, ◌+ℤ◌, ◌-ℤ◌, ◌*ℤ◌, ltb_ℤ,
  get_elem?, codes,
}

-- `datetime_t`
pub record Datetime : Type 0 where
  pub year : ℤ
  pub month : ℤ
  pub day : ℤ
  pub hour : ℤ
  pub minute : ℤ
  pub second : ℤ
  pub timezone_offset : ℤ

-- The static variables.
pub record Clock : Type 0 where
  pub system_time_ms : ℕ
  pub unix_timestamp : ℤ
  pub timezone_offset_minutes : ℤ

-- `a / k` and `a % k` in C, which round towards zero.
abbrev pub quot : ℤ → ℕ → ℤ
quot (pos n) k = pos (n / k)
quot (negsuc n) k = neg_ℕ (suc n / k)

abbrev pub rem : ℤ → ℕ → ℤ
rem (pos n) k = pos (n % k)
rem (negsuc n) k = neg_ℕ (suc n % k)

pub is_leap : ℕ → Bool
is_leap year = ((year % 4 == 0) && not (year % 100 == 0)) || (year % 400 == 0)

pub days_in_year : ℕ → ℕ
days_in_year year = if is_leap year then 366 else 365

-- The loop over the years, on fuel.
pub find_year : ℕ → ℕ → ℕ → ℕ × ℕ
find_year zero year days = (year, days)
find_year (suc fuel) year days = elim (ltb days (days_in_year year)) [
  | true ↦ (year, days)
  | false ↦ find_year fuel (year + 1) (days - days_in_year year)
]

-- `days_in_month`, with 29 days of February in a leap year.
pub days_in_month : ℕ → List ℕ
days_in_month year =
    31 ∷ (if is_leap year then 29 else 28) ∷ 31 ∷ 30 ∷ 31 ∷ 30 ∷ 31 ∷ 31 ∷ 30 ∷ 31 ∷ 30 ∷ 31 ∷ []

-- The loop over the months from index `month` on; behind the array it would read on.
pub find_month : List ℕ → ℕ → ℕ → ℕ × ℕ
find_month [] month days = (month, days)
find_month (l ∷ r) month days =
    if ltb days l then (month, days) else find_month r (month + 1) (days - l)

-- The date of a day, counted from the start of 1970: year, month from 0 on, and days before it in the
-- month. Neither loop makes a round if the count is negative.
pub date_of : ℤ → ℕ × ℕ × ℤ
date_of (negsuc n) = (1970, 0, negsuc n)
date_of (pos n) =
    let (year, days) = find_year (n / 365 + 1) 1970 n in
    let (month, rest) = find_month (days_in_month year) 0 days in (year, month, pos rest)

-- The conversion of an int64_t to an `int`.
abbrev pub int32 : ℕ → ℤ
int32 n = let w = n % 2 ^ 32 in if ltb w (2 ^ 31) then pos w else negsuc (2 ^ 32 - 1 - w)

pub unix_to_datetime : ℤ → ℤ → Datetime
unix_to_datetime timezone_offset_minutes timestamp =
    let t = timestamp +ℤ timezone_offset_minutes *ℤ pos 60 in
    let (year, month, rest) = date_of (quot t 86400) in
    record {
      year = int32 year;
      month = pos (month + 1);
      day = rest +ℤ pos 1;
      hour = quot (rem t 86400) 3600;
      minute = quot (rem (rem t 86400) 3600) 60;
      second = rem (rem t 86400) 60;
      timezone_offset = timezone_offset_minutes;
    }

pub get_unix_timestamp : Clock → ℤ
get_unix_timestamp c = c.unix_timestamp +ℤ pos (c.system_time_ms / 1000)

pub get_current_time : Clock → Datetime
get_current_time c = unix_to_datetime c.timezone_offset_minutes (get_unix_timestamp c)

pub timer_tick : Clock → Clock
timer_tick c = record c { system_time_ms = (c.system_time_ms + 1) % 2 ^ 64 }

pub dhcp_set_timezone : Clock → ℤ → Clock
dhcp_set_timezone c offset_minutes = record c { timezone_offset_minutes = offset_minutes }

-- Zeller's congruence, 0 for Sunday.
pub get_day_of_week : Datetime → ℤ
get_day_of_week dt =
    let early = ltb_ℤ dt.month (pos 3) in
    let m = if early then dt.month +ℤ pos 12 else dt.month in
    let y = if early then dt.year -ℤ pos 1 else dt.year in
    let h =
      rem (dt.day +ℤ quot (pos 13 *ℤ (m +ℤ pos 1)) 5 +ℤ y +ℤ quot y 4 -ℤ quot y 100 +ℤ quot y 400)
        7 in
    rem (h +ℤ pos 6) 7

-- `days[day % 7]` and `months[month % 13]`; a negative index is out of range.
pub name_at : List (List ℕ) → ℤ → ℕ → Option (List ℕ)
name_at names i k = elim (rem i k) [ pos n ↦ get_elem? names n | negsuc n ↦ none ]

pub get_day_name : ℤ → Option (List ℕ)
get_day_name day =
    name_at
      (codes "Sunday"
        ∷ codes "Monday"
        ∷ codes "Tuesday"
        ∷ codes "Wednesday"
        ∷ codes "Thursday"
        ∷ codes "Friday"
        ∷ codes "Saturday"
        ∷ [])
      day 7

pub get_month_name : ℤ → Option (List ℕ)
get_month_name month =
    name_at
      ([]
        ∷ codes "January"
        ∷ codes "February"
        ∷ codes "March"
        ∷ codes "April"
        ∷ codes "May"
        ∷ codes "June"
        ∷ codes "July"
        ∷ codes "August"
        ∷ codes "September"
        ∷ codes "October"
        ∷ codes "November"
        ∷ codes "December"
        ∷ [])
      month 13

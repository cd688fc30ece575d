-- ===== src/Clock/Calendar.antt =====
-- `unix_to_datetime` against the calendar: the days before a year and a month in closed form.
use nix_core_os.Base.{
  ℕ, zero, suc, ◌+◌, ◌-◌, ◌*◌, ◌/◌, ◌≤◌, ◌<◌, ◌≡◌, refl, sym, List, [], ◌∷◌, ltb, pos, arith,
  Bool-cases, inl, inr, length, get_or, take,
}
use nix_core_os.Clock.{days_in_year, find_year, days_in_month, find_month, date_of, Datetime}
use nix_core_os.Clock.Months.{
  before_year, before_month, month_length, sum, before_year-suc, days_in_month_lem,
}
use mathlib.Core.Path.{subst}

find_year_lem :
    (fuel y n : ℕ)
    → 1 ≤ y
    → n < 365 * fuel
    → let (y', r) = find_year fuel y n in
      (r < days_in_year y') × (before_year y' + r ≡ before_year y + n) × (y ≤ y')
unfolding find_year
find_year_lem zero y n h e = absurd (omega arith)
find_year_lem (suc fuel) y n h e = elim (Bool-cases (ltb n (days_in_year y))) [
  | inl stop ↦ rw (stop, find_year) (ground arith, refl, omega arith)
  | inr more ↦
      let (a, b, c) =
        find_year_lem fuel (y + 1) (n - days_in_year y) (omega arith)
          (ground (arith, long_year y)) in
      rw (more, find_year) (a, ground (arith, b, before_year-suc y h), omega arith)
]
  where
    long_year : (y : ℕ) → 365 ≤ days_in_year y
    long_year y = unfold days_in_year in ground arith

find_month_lem :
    (l : List ℕ) (m n : ℕ)
    → n < sum l
    → let (m', r) = find_month l m n in
      (k : ℕ) × (m' ≡ m + k) × (k < length l) × (r < get_or l k 0) × (sum (take k l) + r ≡ n)
unfolding find_month
find_month_lem [] m n h = absurd (omega arith)
find_month_lem (x ∷ l) m n h = elim (Bool-cases (ltb n x)) [
  | inl stop ↦ rw (stop, find_month) (0, omega arith, omega arith, ground arith, omega arith)
  | inr more ↦
      let (k, a, b, c, d) = find_month_lem l (m + 1) (n - x) (ground arith) in
      rw (more, find_month) (suc k, omega arith, omega arith, c, ground (arith, d))
]

year_sum : (y : ℕ) → sum (days_in_month y) ≡ days_in_year y
unfolding days_in_month days_in_year
year_sum y = ground arith

-- The day that is `n` days after the start of 1970 has a month of 0 to 11 and a day within its month,
-- and there are `n` + 719162 days between the start of the year 1 and it.
pub date_of_lem :
    (n : ℕ)
    → let (year, month, rest) = date_of (pos n) in
      (d : ℕ) × (rest ≡ pos d)
      × (month < 12)
      × (1970 ≤ year)
      × (d < month_length year month)
      × (before_year year + before_month year month + d ≡ n + 719162)
unfolding date_of
date_of_lem n =
    let found = find_year (n / 365 + 1) 1970 n in
    let lengths = days_in_month found.0 in
    let (a, b, c) = find_year_lem (n / 365 + 1) 1970 n (omega arith) (omega arith) in
    let (k, f, g, h, i) = find_month_lem lengths 0 found.1 (omega (arith, a, year_sum found.0)) in
    let at_k : (find_month lengths 0 found.1).0 ≡ k = omega (arith, f) in
    let (before, long) =
      days_in_month_lem found.0 k (omega arith) (omega (arith, g, twelve found.0)) in
    (
      (find_month lengths 0 found.1).1,
      refl,
      omega (arith, at_k, g, twelve found.0),
      c,
      subst (λ m. (find_month lengths 0 found.1).1 < month_length found.0 m) (sym at_k)
          (omega (arith, h, long)),
      subst
          (λ m.
            before_year found.0 + before_month found.0 m + (find_month lengths 0 found.1).1
            ≡ n + 719162)
          (sym at_k) (omega (arith, b, i, before)),
    )
  where
    twelve : (y : ℕ) → length (days_in_month y) ≡ 12
    twelve y = unfold days_in_month in refl

-- What a date and time of day say of the seconds `t` since the start of 1970.
pub record Stands (t : ℕ) (dt : Datetime) : Type 0 where
  pub year : ℕ
  pub month : ℕ
  pub day : ℕ
  pub hour : ℕ
  pub minute : ℕ
  pub second : ℕ
  pub fields :
      (dt.year ≡ pos year)
      × (dt.month ≡ pos (month + 1))
      × (dt.day ≡ pos (day + 1))
      × (dt.hour ≡ pos hour)
      × (dt.minute ≡ pos minute)
      × (dt.second ≡ pos second)
  pub date_in : (month < 12) × (day < month_length year month)
  pub time_in : (hour < 24) × (minute < 60) × (second < 60)
  pub counts :
      ((before_year year + before_month year month + day) * 24 + hour) * 3600 + minute * 60 + second
      ≡ t + 719162 * 86400

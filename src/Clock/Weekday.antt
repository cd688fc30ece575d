-- ===== src/Clock/Weekday.antt =====
-- Zeller's congruence against the count of days.
use nix_core_os.Base.{
  ℕ, zero, suc, ◌+◌, ◌-◌, ◌*◌, ◌/◌, ◌%◌, ◌^◌, ◌≤◌, ◌<◌, ◌≡◌, refl, ◌∙◌, ap, true, false, ltb,
  if◌then◌else◌, pos, arith, Bool-cases, inl, inr, ltb_ℤ, take, ◌+ℤ◌, ◌-ℤ◌, ◌*ℤ◌,
}
use nix_core_os.Clock.{Datetime, is_leap, days_in_month, get_day_of_week, quot, rem}
use nix_core_os.Clock.Months.{before_year, before_month, month_length, sum, days_in_month_lem}

-- The congruence for a month from March on, or January and February as the months 13 and 14 of the
-- year before.
abbrev zeller : ℕ → ℕ → ℕ → ℕ
zeller y m d = ((d + 13 * (m + 1) / 5 + y + y / 4 - y / 100 + y / 400) % 7 + 6) % 7

add_pos : (a b : ℕ) → pos a +ℤ pos b ≡ pos (a + b)
unfolding ◌+ℤ◌
add_pos a b = ground arith

sub_pos : (a b : ℕ) → b ≤ a → pos a -ℤ pos b ≡ pos (a - b)
unfolding ◌-ℤ◌
sub_pos a b h = ground arith

mul_pos : (a b : ℕ) → pos a *ℤ pos b ≡ pos (a * b)
unfolding ◌*ℤ◌
mul_pos a b = ground arith

sum_pos :
    (y m d : ℕ)
    → pos d
        +ℤ quot (pos 13 *ℤ (pos m +ℤ pos 1)) 5
        +ℤ pos y
        +ℤ quot (pos y) 4
        -ℤ quot (pos y) 100
        +ℤ quot (pos y) 400
      ≡ pos (d + 13 * (m + 1) / 5 + y + y / 4 - y / 100 + y / 400)
sum_pos y m d =
    rw
      (
        add_pos m 1,
        mul_pos 13 (m + 1),
        add_pos d (13 * (m + 1) / 5),
        add_pos (d + 13 * (m + 1) / 5) y,
        add_pos (d + 13 * (m + 1) / 5 + y) (y / 4),
        sub_pos (d + 13 * (m + 1) / 5 + y + y / 4) (y / 100) (omega arith),
        add_pos (d + 13 * (m + 1) / 5 + y + y / 4 - y / 100) (y / 400),
      )
      refl

zeller_lem :
    (dt : Datetime) (y m d : ℕ)
    → 1 ≤ y
    → dt.year ≡ pos y
    → dt.month ≡ pos m
    → dt.day ≡ pos d
    → get_day_of_week dt ≡ pos (if ltb m 3 then zeller (y - 1) (m + 12) d else zeller y m d)
unfolding get_day_of_week
zeller_lem dt y m d h e f g = elim (Bool-cases (ltb m 3)) [
  | inl early ↦
      let at_3 : ltb_ℤ dt.month (pos 3) ≡ true = rw f (ground arith) in
      rw (at_3, early, get_day_of_week)
        (rw (e, f, g, add_pos m 12, sub_pos y 1 h, sum_pos (y - 1) (m + 12) d, get_day_of_week)
          (ap (λ z. rem z 7) (add_pos _ 6)))
  | inr late ↦
      let at_3 : ltb_ℤ dt.month (pos 3) ≡ false = rw f (ground arith) in
      rw (at_3, late, get_day_of_week)
        (rw (e, f, g, sum_pos y m d, get_day_of_week) (ap (λ z. rem z 7) (add_pos _ 6)))
]

agrees :
    (y m d : ℕ)
    → 1 ≤ y
    → m < 12
    → (if ltb (m + 1) 3 then zeller (y - 1) (m + 1 + 12) (d + 1) else zeller y (m + 1) (d + 1))
      ≡ (before_year y + sum (take m (days_in_month y)) + d + 1) % 7
unfolding days_in_month is_leap
agrees y zero d h l = omega arith
agrees y (suc zero) d h l = omega arith
agrees y (suc (suc zero)) d h l = ground arith
agrees y (suc (suc (suc zero))) d h l = ground arith
agrees y (suc (suc (suc (suc zero)))) d h l = ground arith
agrees y (suc (suc (suc (suc (suc zero))))) d h l = ground arith
agrees y (suc (suc (suc (suc (suc (suc zero)))))) d h l = ground arith
agrees y (suc (suc (suc (suc (suc (suc (suc zero))))))) d h l = ground arith
agrees y (suc (suc (suc (suc (suc (suc (suc (suc zero)))))))) d h l = ground arith
agrees y (suc (suc (suc (suc (suc (suc (suc (suc (suc zero))))))))) d h l = ground arith
agrees y (suc (suc (suc (suc (suc (suc (suc (suc (suc (suc zero)))))))))) d h l = ground arith
agrees y (suc (suc (suc (suc (suc (suc (suc (suc (suc (suc (suc zero))))))))))) d h l = ground arith
agrees y (suc (suc (suc (suc (suc (suc (suc (suc (suc (suc (suc (suc m)))))))))))) d h l =
    absurd (omega arith)

-- The day of the week of a date of the calendar, in a year from 1 on and below 2^29, follows from the days
-- since Monday, the first day of the year 1.
pub get_day_of_week_lem :
    (dt : Datetime) (year month day : ℕ)
    → dt.year ≡ pos year
    → dt.month ≡ pos (month + 1)
    → dt.day ≡ pos (day + 1)
    → 1 ≤ year
    → year < 2 ^ 29
    → month < 12
    → day < month_length year month
    → get_day_of_week dt ≡ pos ((before_year year + before_month year month + day + 1) % 7)
get_day_of_week_lem dt year month day e f g h small l within =
    zeller_lem dt year (month + 1) (day + 1) h e f g
    ∙ ap pos (
        agrees year month day h l
        ∙ ap (λ b. (before_year year + b + day + 1) % 7) (days_in_month_lem year month h l).0)

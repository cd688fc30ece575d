-- ===== src/Clock/Months.antt =====
-- The calendar that the dates of lib/time.c are compared with, as closed formulas, and its months beside the
-- table of the code.
use nix_core_os.Base.{
  ℕ, zero, suc, ◌+◌, ◌-◌, ◌*◌, ◌/◌, ◌≤◌, ◌<◌, ◌≡◌, refl, ◌∙◌, sym, List, [], ◌∷◌, ltb,
  if◌then◌else◌, arith, Bool-cases, inl, inr, get_or, take,
}
use mathlib.Core.Path.{subst₂}
use nix_core_os.Clock.{is_leap, days_in_year, days_in_month}

-- The days of the years 1 to `year` - 1 of the Gregorian calendar.
abbrev pub before_year : ℕ → ℕ
before_year year = let p = year - 1 in 365 * p + p / 4 - p / 100 + p / 400

unfoldable pub year_length : ℕ → ℕ
year_length year = before_year (year + 1) - before_year year

-- The days before a month, counted from 0, in a year of `n` days.
abbrev pub days_before : ℕ → ℕ → ℕ
days_before n month = (367 * (month + 1) - 362) / 12 - (if ltb month 2 then 0 else 367 - n)

-- The days of a year before a month, counted from 0, and those of a month.
abbrev pub before_month : ℕ → ℕ → ℕ
before_month year month = days_before (year_length year) month

abbrev pub month_length : ℕ → ℕ → ℕ
month_length year month = before_month year (month + 1) - before_month year month

abbrev pub sum : List ℕ → ℕ
sum [] = 0
sum (l ∷ r) = l + sum r

pub before_year-suc : (y : ℕ) → 1 ≤ y → before_year (y + 1) ≡ before_year y + days_in_year y
unfolding days_in_year is_leap
before_year-suc y h = ground arith

year_length_lem : (y : ℕ) → 1 ≤ y → year_length y ≡ days_in_year y
unfolding year_length
year_length_lem y h = omega (arith, before_year-suc y h)

abbrev table : ℕ → List ℕ
table february = 31 ∷ february ∷ 31 ∷ 30 ∷ 31 ∷ 30 ∷ 31 ∷ 31 ∷ 30 ∷ 31 ∷ 30 ∷ 31 ∷ []

-- The formulas are those of the usual lengths.
abbrev Fits : List ℕ → ℕ → ℕ → Type 0
Fits l n month =
    (sum (take month l) ≡ days_before n month)
    × (get_or l month 0 ≡ days_before n (month + 1) - days_before n month)

table-Fits : (month : ℕ) → month < 12 → Fits (table 28) 365 month
table-Fits zero h = (refl, refl)
table-Fits (suc zero) h = (refl, refl)
table-Fits (suc (suc zero)) h = (refl, refl)
table-Fits (suc (suc (suc zero))) h = (refl, refl)
table-Fits (suc (suc (suc (suc zero)))) h = (refl, refl)
table-Fits (suc (suc (suc (suc (suc zero))))) h = (refl, refl)
table-Fits (suc (suc (suc (suc (suc (suc zero)))))) h = (refl, refl)
table-Fits (suc (suc (suc (suc (suc (suc (suc zero))))))) h = (refl, refl)
table-Fits (suc (suc (suc (suc (suc (suc (suc (suc zero)))))))) h = (refl, refl)
table-Fits (suc (suc (suc (suc (suc (suc (suc (suc (suc zero))))))))) h = (refl, refl)
table-Fits (suc (suc (suc (suc (suc (suc (suc (suc (suc (suc zero)))))))))) h = (refl, refl)
table-Fits (suc (suc (suc (suc (suc (suc (suc (suc (suc (suc (suc zero))))))))))) h = (refl, refl)
table-Fits (suc (suc (suc (suc (suc (suc (suc (suc (suc (suc (suc (suc m)))))))))))) h =
    absurd (omega arith)

table-Fits_leap : (month : ℕ) → month < 12 → Fits (table 29) 366 month
table-Fits_leap zero h = (refl, refl)
table-Fits_leap (suc zero) h = (refl, refl)
table-Fits_leap (suc (suc zero)) h = (refl, refl)
table-Fits_leap (suc (suc (suc zero))) h = (refl, refl)
table-Fits_leap (suc (suc (suc (suc zero)))) h = (refl, refl)
table-Fits_leap (suc (suc (suc (suc (suc zero))))) h = (refl, refl)
table-Fits_leap (suc (suc (suc (suc (suc (suc zero)))))) h = (refl, refl)
table-Fits_leap (suc (suc (suc (suc (suc (suc (suc zero))))))) h = (refl, refl)
table-Fits_leap (suc (suc (suc (suc (suc (suc (suc (suc zero)))))))) h = (refl, refl)
table-Fits_leap (suc (suc (suc (suc (suc (suc (suc (suc (suc zero))))))))) h = (refl, refl)
table-Fits_leap (suc (suc (suc (suc (suc (suc (suc (suc (suc (suc zero)))))))))) h = (refl, refl)
table-Fits_leap (suc (suc (suc (suc (suc (suc (suc (suc (suc (suc (suc zero))))))))))) h =
    (refl, refl)
table-Fits_leap (suc (suc (suc (suc (suc (suc (suc (suc (suc (suc (suc (suc m)))))))))))) h =
    absurd (omega arith)

-- The table of the code has the months of the calendar.
pub days_in_month_lem :
    (y m : ℕ)
    → 1 ≤ y
    → m < 12
    → (sum (take m (days_in_month y)) ≡ before_month y m)
      × (get_or (days_in_month y) m 0 ≡ month_length y m)
unfolding days_in_month days_in_year
days_in_month_lem y m h l = elim (Bool-cases (is_leap y)) [
  | inl e ↦
      let n : year_length y ≡ 366 = year_length_lem y h ∙ rw (days_in_year, e) refl in
      let t : days_in_month y ≡ table 29 = rw (days_in_month, e) refl in
      subst₂ (λ l n. Fits l n m) (sym t) (sym n) (table-Fits_leap m l)
  | inr e ↦
      let n : year_length y ≡ 365 = year_length_lem y h ∙ rw (days_in_year, e) refl in
      let t : days_in_month y ≡ table 28 = rw (days_in_month, e) refl in
      subst₂ (λ l n. Fits l n m) (sym t) (sym n) (table-Fits m l)
]

-- ===== src/Infrastructure/TimeFormat/Days.antt =====
-- infrastructure/time_format.py: the days of the calendar, and their order.
-- A day is numbered as by toordinal of Python's date: the first of January of the year 1 is day 1.
use ai_coach_keyholder.Prelude.{
  ap, ◌∙◌, ℕ, zero, suc, ◌+◌, ◌-◌, ◌*◌, ◌/◌, ◌<◌, ◌≤◌, ◌≡◌, inl, inr, refl, arith, ◌==◌, subst,
  Bool-cases,
}
use ai_coach_keyholder.Infrastructure.TimeFormat.Texts.{leap_day, days_in_month}

-- The days of the years before a year.
unfoldable pub days_before_year : ℕ → ℕ
days_before_year year = (year - 1) * 365 + (year - 1) / 4 - (year - 1) / 100 + (year - 1) / 400

-- The days of a year before a month.
unfoldable pub days_before_month : ℕ → ℕ → ℕ
days_before_month year zero = 0
days_before_month year (suc zero) = 0
days_before_month year (suc (suc n)) = days_before_month year (suc n) + days_in_month year (suc n)

unfoldable pub ordinal : ℕ → ℕ → ℕ → ℕ
ordinal year month day = days_before_year year + days_before_month year month + day

days_before_year-suc :
    (y : ℕ) → days_before_year (suc (suc y)) ≡ days_before_year (suc y) + 365 + leap_day (suc y)
unfolding days_before_year
days_before_year-suc y = ground arith

≤-of_same : {a b : ℕ} → a ≡ b → a ≤ b
≤-of_same e = omega (arith, e)

years_le : (y y' : ℕ) → y ≤ y' → days_before_year (suc y) ≤ days_before_year (suc y')
years_le y zero h = ≤-of_same (ap (λ n. days_before_year (suc n)) (omega (arith, h)))
years_le y (suc n) h = elim (Bool-cases (y == suc n)) [
  | inl same ↦ ≤-of_same (ap (λ n. days_before_year (suc n)) (ground (arith, same)))
  | inr less ↦ omega (arith, years_le y n (ground (arith, h, less)), days_before_year-suc n)
]

-- A month that is over, and every later month.
months_le :
    (year m m' : ℕ)
    → m ≤ m'
    → days_before_month year (suc (suc m)) ≤ days_before_month year (suc (suc m'))
months_le year m zero h =
    ≤-of_same (ap (λ n. days_before_month year (suc (suc n))) (omega (arith, h)))
months_le year m (suc n) h = elim (Bool-cases (m == suc n)) [
  | inl same ↦ ≤-of_same (ap (λ n. days_before_month year (suc (suc n))) (ground (arith, same)))
  | inr less ↦
      let longer : days_before_month year (suc (suc (suc n)))
          ≡ days_before_month year (suc (suc n)) + days_in_month year (suc (suc n)) =
        unfold days_before_month in refl in
      omega (arith, months_le year m n (ground (arith, h, less)), longer)
]

year_length : (year : ℕ) → days_before_month year 12 + days_in_month year 12 ≡ 365 + leap_day year
unfolding days_before_month
year_length year = ground arith

pub later_month :
    (year m m' d : ℕ)
    → 1 ≤ m
    → m < m'
    → d ≤ days_in_month year m
    → days_before_month year m + d ≤ days_before_month year m'
later_month year zero m' d h k l = omega arith
later_month year (suc m) zero d h k l = omega arith
later_month year (suc m) (suc zero) d h k l = omega arith
later_month year (suc m) (suc (suc n)) d h k l =
    let over : days_before_month year (suc (suc m))
        ≡ days_before_month year (suc m) + days_in_month year (suc m) =
      unfold days_before_month in refl in
    omega (arith, l, over, months_le year m n (omega (arith, k)))

-- No day of a year is later than its last.
within_year :
    (year m d : ℕ)
    → 1 ≤ m
    → m ≤ 12
    → d ≤ days_in_month year m
    → days_before_month year m + d ≤ 365 + leap_day year
within_year year m d h k l = elim (Bool-cases (m == 12)) [
  | inl last ↦
      let bound : days_before_month year m + d ≤ days_before_month year m + days_in_month year m =
        omega (arith, l) in
      subst (λ n. days_before_month year m + d ≤ n)
        (ap (λ i. days_before_month year i + days_in_month year i) (ground (arith, last))
          ∙ year_length year)
        bound
  | inr earlier ↦
      omega (arith, year_length year, later_month year m 12 d h (ground (arith, earlier)) l)
]

pub later_year :
    (y y' m d : ℕ)
    → 1 ≤ y
    → y < y'
    → 1 ≤ m
    → m ≤ 12
    → d ≤ days_in_month y m
    → days_before_year y + days_before_month y m + d ≤ days_before_year y'
later_year zero y' m d h k i j l = omega arith
later_year (suc y) zero m d h k i j l = omega arith
later_year (suc y) (suc zero) m d h k i j l = omega arith
later_year (suc y) (suc (suc n)) m d h k i j l = omega (
  arith,
  years_le (suc y) (suc n) (omega (arith, k)),
  days_before_year-suc y,
  within_year (suc y) m d i j l,
)

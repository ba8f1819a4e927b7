-- ===== src/Infrastructure/TimeFormat/Instants.antt =====
-- infrastructure/time_format.py: the texts of the tables compare as the key of their instants does.
use ai_coach_keyholder.Prelude.{
  ap, ◌∙◌, sym, ℕ, ◌+◌, ◌*◌, ◌/◌, ◌%◌, ◌<◌, ◌≤◌, ◌≡◌, refl, Bool, true, false, arith, ltb,
  Bool-cases, inl, inr,
}
use ai_coach_keyholder.Infrastructure.TimeFormat.{second, iso_key, iso_leb}
use ai_coach_keyholder.Infrastructure.TimeFormat.Texts.{DateTime, is_valid, iso}
use ai_coach_keyholder.Infrastructure.TimeFormat.Days.{
  ordinal, days_before_year, days_before_month, later_month, later_year,
}
use ai_coach_keyholder.Infrastructure.TimeFormat.Order.{
  text_leb, first, fraction_key, fields, InRange, in_range, fraction, fields_leb,
}

-- The seconds and the microseconds from the beginning of the day before the first of January of
-- the year 1.
unfoldable pub seconds : DateTime → ℕ
seconds d = ordinal d.year d.month d.day * 86_400 + d.hour * 3_600 + d.minute * 60 + d.second

unfoldable pub instant : DateTime → ℕ
instant d = seconds d * second + d.microsecond

ltb-false : (m n : ℕ) → ltb m n ≡ false → n ≤ m
ltb-false m n h = ground (arith, h)

abbrev date_fields : DateTime → ℕ
date_fields d = (d.year * 100 + d.month) * 100 + d.day

abbrev day_number : DateTime → ℕ
day_number d = ordinal d.year d.month d.day

-- A later date has a higher number.
later_date :
    (a b : DateTime)
    → InRange a
    → InRange b
    → date_fields a < date_fields b
    → day_number a < day_number b
unfolding ordinal
later_date a b p q h = elim (Bool-cases (ltb a.year b.year)) [
  | inl less ↦
      omega
        (arith, q.4, later_year a.year b.year a.month a.day p.0 (ground (arith, less)) p.2 p.3 p.5)
  | inr same_year ↦
      let year : a.year ≡ b.year =
        omega (arith, h, p.3, q.3, p.6, q.6, ltb-false a.year b.year same_year) in
      elim (Bool-cases (ltb a.month b.month)) [
        | inl less ↦
            let earlier : days_before_month a.year a.month + a.day
                ≤ days_before_month a.year b.month =
              later_month a.year a.month b.month a.day p.2 (ground (arith, less)) p.5 in
            let other_year : days_before_month a.year b.month ≡ days_before_month b.year b.month =
              ap (λ y. days_before_month y b.month) year in
            omega (arith, q.4, earlier, other_year, ap days_before_year year)
        | inr same_month ↦
            let month : a.month ≡ b.month =
              omega (arith, h, year, p.6, q.6, ltb-false a.month b.month same_month) in
            omega (
              arith,
              h,
              year,
              month,
              ap days_before_year year,
              ap (λ y. days_before_month y a.month) year,
              ap (λ m. days_before_month b.year m) month,
            )
      ]
]

same_day :
    (a b : DateTime)
    → InRange a
    → InRange b
    → date_fields a ≡ date_fields b
    → day_number a ≡ day_number b
same_day a b p q h =
    let year : a.year ≡ b.year = omega (arith, h, p.3, q.3, p.6, q.6) in
    let month : a.month ≡ b.month = omega (arith, h, year, p.6, q.6) in
    let day : a.day ≡ b.day = omega (arith, h, year, month) in rw (year, month, day) refl

same_second : (a b : DateTime) → InRange a → InRange b → fields a ≡ fields b → seconds a ≡ seconds b
unfolding seconds
same_second a b p q h =
    let same : date_fields a ≡ date_fields b = omega (arith, h, p.7, q.7, p.8, q.8, p.9, q.9) in
    omega (arith, h, same, same_day a b p q same, p.7, q.7, p.8, q.8, p.9, q.9)

-- And a later second a higher number of seconds.
later_second :
    (a b : DateTime) → InRange a → InRange b → fields a < fields b → seconds a < seconds b
unfolding seconds
later_second a b p q h = elim (Bool-cases (ltb (date_fields a) (date_fields b))) [
  | inl less ↦ omega (arith, p.7, p.8, p.9, later_date a b p q (ground (arith, less)))
  | inr other ↦
      let same : date_fields a ≡ date_fields b =
        omega (
          arith,
          h,
          p.7,
          q.7,
          p.8,
          q.8,
          p.9,
          q.9,
          ltb-false (date_fields a) (date_fields b) other,
        ) in
      omega (arith, h, same, same_day a b p q same, p.7, q.7, p.8, q.8, p.9, q.9)
]

fraction_key-bounds : (u : ℕ) → u < second → (1 ≤ fraction_key u) × (fraction_key u ≤ second)
fraction_key-bounds u h = ground arith

iso_key-instant :
    (d : DateTime)
    → d.microsecond < second
    → iso_key (instant d) ≡ seconds d * (2 * second) + fraction_key d.microsecond
unfolding iso_key instant
iso_key-instant d h =
    let whole : (seconds d * second + d.microsecond) / second ≡ seconds d = omega (arith, h) in
    let part : (seconds d * second + d.microsecond) % second ≡ d.microsecond = omega (arith, h) in
    rw (whole, part) refl

key_leb :
    (a b : DateTime)
    → InRange a
    → InRange b
    → iso_leb (instant a) (instant b) ≡ first (seconds a) (seconds b) (fraction a b)
unfolding iso_leb
key_leb a b p q =
    rw (iso_key-instant a p.10, iso_key-instant b q.10)
      (ground
        (arith, fraction_key-bounds a.microsecond p.10, fraction_key-bounds b.microsecond q.10))

first_same_order :
    (m n m' n' : ℕ) (rest : Bool)
    → (m ≡ n → m' ≡ n')
    → (m < n → m' < n')
    → (n < m → n' < m')
    → first m n rest ≡ first m' n' rest
first_same_order m n m' n' rest e h k = grind arith

-- For dates and times with their fields in the ranges of datetime, the texts that `iso` writes compare,
-- code point by code point, as `iso_leb` compares the instants, counted in microseconds by the
-- calendar.
pub text_leb-iso :
    (a b : DateTime)
    → is_valid a ≡ true
    → is_valid b ≡ true
    → text_leb (iso a) (iso b) ≡ iso_leb (instant a) (instant b)
text_leb-iso a b h k =
    let p = in_range a h in
    let q = in_range b k in
    fields_leb a b p q
    ∙ first_same_order (fields a) (fields b) (seconds a) (seconds b) (fraction a b)
        (same_second a b p q) (later_second a b p q) (later_second b a q p)
    ∙ sym (key_leb a b p q)

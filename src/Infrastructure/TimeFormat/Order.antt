-- ===== src/Infrastructure/TimeFormat/Order.antt =====
-- infrastructure/time_format.py: texts that `iso` wrote compare field by field.
use ai_coach_keyholder.Prelude.{
  ◌∙◌, ℕ, ◌+◌, ◌*◌, ◌/◌, ◌%◌, ◌<◌, ◌≤◌, ◌≡◌, refl, Bool, true, false, List, [], ◌∷◌, arith, ◌==◌,
  leb, ltb, if◌then◌else◌, Bool-cases, inl, inr, ==_self,
}
use ai_coach_keyholder.Infrastructure.TimeFormat.{second}
use ai_coach_keyholder.Infrastructure.TimeFormat.Texts.{
  DateTime, days_in_month, is_valid, put, put_fraction, iso,
}

-- `a <= b` between two texts of the tables, which compare code point by code point.
unfoldable pub text_leb : List ℕ → List ℕ → Bool
text_leb [] ys = true
text_leb (x ∷ xs) [] = false
text_leb (x ∷ xs) (y ∷ ys) = if x == y then text_leb xs ys else ltb x y

-- A comparison that `rest` decides where the two numbers are equal.
abbrev pub first : ℕ → ℕ → Bool → Bool
first a b rest = if a == b then rest else ltb a b

put_rest :
    (a b : ℕ) (xs ys : List ℕ) (rest : Bool)
    → a < 100
    → b < 100
    → text_leb xs ys ≡ rest
    → text_leb (put a xs) (put b ys) ≡ first a b rest
unfolding text_leb
put_rest a b xs ys rest h k e = ground (arith, e)

same_rest : (c : ℕ) (xs ys : List ℕ) → text_leb (c ∷ xs) (c ∷ ys) ≡ text_leb xs ys
unfolding text_leb
same_rest c xs ys = rw (==_self c) refl

-- The comparison of two texts gives `result`.
record Compares (xs ys : List ℕ) (result : Bool) : Type 0 where
  outcome : text_leb xs ys ≡ result

module _ {xs ys : List ℕ} {rest : Bool} (c : Compares xs ys rest) where
  put_leb : (a b : ℕ) → a < 100 → b < 100 → Compares (put a xs) (put b ys) (first a b rest)
  put_leb a b h k = record { outcome = put_rest a b xs ys rest h k c.outcome }

  same_leb : (x : ℕ) → Compares (x ∷ xs) (x ∷ ys) rest
  same_leb x = record { outcome = same_rest x xs ys ∙ c.outcome }

first_two :
    (a b c d : ℕ) (rest : Bool)
    → c < 100
    → d < 100
    → first a b (first c d rest) ≡ first (a * 100 + c) (b * 100 + d) rest
first_two a b c d rest h k = ground arith

-- The fraction's share of the key.
abbrev pub fraction_key : ℕ → ℕ
fraction_key u = if u == 0 then second else u

digits : (u : ℕ) → (u / 10_000 * 100 + u / 100 % 100) * 100 + u % 100 ≡ u
digits u = omega arith

text_leb-nil : Compares [] [] true
unfolding text_leb
text_leb-nil = record { outcome = refl }

six_leb :
    (u v : ℕ)
    → u < second
    → v < second
    → text_leb
        (put (u / 10_000) (put (u / 100 % 100) (put (u % 100) (90 ∷ []))))
        (put (v / 10_000) (put (v / 100 % 100) (put (v % 100) (90 ∷ []))))
      ≡ leb u v
six_leb u v h k =
    (put_leb
      (put_leb (put_leb (same_leb text_leb-nil 90) (u % 100) (v % 100) (omega arith) (omega arith))
        (u / 100 % 100) (v / 100 % 100) (omega arith) (omega arith))
      (u / 10_000) (v / 10_000) (omega (arith, h)) (omega (arith, k))).outcome
    ∙ first_two (u / 10_000) (v / 10_000) (u / 100 % 100) (v / 100 % 100)
        (first (u % 100) (v % 100) true) (omega arith) (omega arith)
    ∙ first_two (u / 10_000 * 100 + u / 100 % 100) (v / 10_000 * 100 + v / 100 % 100) (u % 100)
        (v % 100) true (omega arith) (omega arith)
    ∙ rw (digits u, digits v) (ground arith)

fraction_leb :
    (u v : ℕ)
    → u < second
    → v < second
    → text_leb (put_fraction u) (put_fraction v) ≡ leb (fraction_key u) (fraction_key v)
fraction_leb u v h k = elim (Bool-cases (u == 0)) [
  | inl e ↦ elim (Bool-cases (v == 0)) [
    | inl g ↦ unfold text_leb in rw (e, g) refl
    | inr g ↦ unfold text_leb in rw (e, g) (ground (arith, g))
  ]
  | inr e ↦ elim (Bool-cases (v == 0)) [
    | inl g ↦ unfold text_leb in rw (e, g) (ground (arith, e))
    | inr g ↦ unfold text_leb in rw (e, g) (six_leb u v h k)
  ]
]

-- The fields down to the second, with two digits for each but the year.
abbrev pub fields : DateTime → ℕ
fields d =
    ((((d.year * 100 + d.month) * 100 + d.day) * 100 + d.hour) * 100 + d.minute) * 100 + d.second

-- The parts that the texts and the days depend on are in their ranges.
abbrev pub InRange : DateTime → Type 0
InRange d =
    (1 ≤ d.year)
    × (d.year < 10_000)
    × (1 ≤ d.month)
    × (d.month ≤ 12)
    × (1 ≤ d.day)
    × (d.day ≤ days_in_month d.year d.month)
    × (d.day < 100)
    × (d.hour < 24)
    × (d.minute < 60)
    × (d.second < 60)
    × (d.microsecond < second)

pub in_range : (d : DateTime) → is_valid d ≡ true → InRange d
unfolding is_valid
in_range d h = ground arith

-- The comparison of the fractions of two instants in one second.
abbrev pub fraction : DateTime → DateTime → Bool
fraction a b = leb (fraction_key a.microsecond) (fraction_key b.microsecond)

module _ (a b : DateTime) (p : InRange a) (q : InRange b) where
  parts_leb :
      text_leb (iso a) (iso b)
      ≡ first (a.year / 100) (b.year / 100) (
          first (a.year % 100) (b.year % 100) (
            first a.month b.month (
              first a.day b.day (
                first a.hour b.hour
                  (first a.minute b.minute (first a.second b.second (fraction a b)))))))
  unfolding iso
  parts_leb =
      let seconds_leb =
        put_leb (record { outcome = fraction_leb a.microsecond b.microsecond p.10 q.10 }) a.second
          b.second (omega (arith, p.9)) (omega (arith, q.9)) in
      let minutes_leb =
        put_leb (same_leb seconds_leb 58) a.minute b.minute (omega (arith, p.8))
          (omega (arith, q.8)) in
      let hours_leb =
        put_leb (same_leb minutes_leb 58) a.hour b.hour (omega (arith, p.7)) (omega (arith, q.7)) in
      let days_leb = put_leb (same_leb hours_leb 84) a.day b.day p.6 q.6 in
      let months_leb =
        put_leb (same_leb days_leb 45) a.month b.month (omega (arith, p.3)) (omega (arith, q.3)) in
      let years_leb =
        put_leb (same_leb months_leb 45) (a.year % 100) (b.year % 100) (omega arith)
          (omega arith) in
      (put_leb years_leb (a.year / 100) (b.year / 100) (omega (arith, p.1))
        (omega (arith, q.1))).outcome

  year_digits : (y : ℕ) → y / 100 * 100 + y % 100 ≡ y
  year_digits y = omega arith

  pub fields_leb : text_leb (iso a) (iso b) ≡ first (fields a) (fields b) (fraction a b)
  fields_leb =
      parts_leb
      ∙ first_two (a.year / 100) (b.year / 100) (a.year % 100) (b.year % 100) _ (omega arith)
          (omega arith)
      ∙ rw (year_digits a.year, year_digits b.year)
          (first_two a.year b.year a.month b.month _ (omega (arith, p.3)) (omega (arith, q.3))
            ∙ first_two (a.year * 100 + a.month) (b.year * 100 + b.month) a.day b.day _ p.6 q.6
            ∙ first_two ((a.year * 100 + a.month) * 100 + a.day)
                ((b.year * 100 + b.month) * 100 + b.day) a.hour b.hour _ (omega (arith, p.7))
                (omega (arith, q.7))
            ∙ first_two (((a.year * 100 + a.month) * 100 + a.day) * 100 + a.hour)
                (((b.year * 100 + b.month) * 100 + b.day) * 100 + b.hour) a.minute b.minute _
                (omega (arith, p.8)) (omega (arith, q.8))
            ∙ first_two ((((a.year * 100 + a.month) * 100 + a.day) * 100 + a.hour) * 100 + a.minute)
                ((((b.year * 100 + b.month) * 100 + b.day) * 100 + b.hour) * 100 + b.minute)
                a.second b.second (fraction a b) (omega (arith, p.9)) (omega (arith, q.9)))

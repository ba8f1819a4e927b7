-- ===== src/Infrastructure/TimeFormat/Texts.antt =====
-- infrastructure/time_format.py: the texts themselves, as lists of code points.
-- A date and time in UTC has the fields of Python's datetime. `iso` writes YYYY-MM-DDTHH:MM:SS, a
-- fraction of six digits where the microseconds are not 0, and Z. `parse_iso` is modelled on texts of
-- that form; of any other it gives nothing here, although fromisoformat reads some of those, too.
use ai_coach_keyholder.Prelude.{
  ap, ℕ, ◌+◌, ◌-◌, ◌*◌, ◌/◌, ◌%◌, ◌<◌, ◌≡◌, refl, ◌∙◌, Bool, true, Option, none, some, List, [],
  ◌∷◌, arith, leb, ltb, ◌==◌, ◌&&◌, ◌||◌, not, if◌then◌else◌, Bool-cases, inl, inr,
}

pub record DateTime : Type 0 where
  pub year : ℕ
  pub month : ℕ
  pub day : ℕ
  pub hour : ℕ
  pub minute : ℕ
  pub second : ℕ
  pub microsecond : ℕ

-- 1 in a leap year.
abbrev pub leap_day : ℕ → ℕ
leap_day y = if y % 4 == 0 && (not (y % 100 == 0) || y % 400 == 0) then 1 else 0

abbrev pub days_in_month : ℕ → ℕ → ℕ
days_in_month y m =
    if m == 2 then 28 + leap_day y else if m == 4 || m == 6 || m == 9 || m == 11 then 30 else 31

-- The ranges that the constructor of datetime checks.
unfoldable pub is_valid : DateTime → Bool
is_valid d =
    leb 1 d.year
    && leb d.year 9_999
    && leb 1 d.month
    && leb d.month 12
    && leb 1 d.day
    && leb d.day (days_in_month d.year d.month)
    && ltb d.hour 24
    && ltb d.minute 60
    && ltb d.second 60
    && ltb d.microsecond 1_000_000

-- Two decimal digits.
abbrev pub put : ℕ → List ℕ → List ℕ
put n rest = (48 + n / 10) ∷ (48 + n % 10) ∷ rest

abbrev pub put_fraction : ℕ → List ℕ
put_fraction u =
    if u == 0
    then 90 ∷ []
    else 46 ∷ put (u / 10_000) (put (u / 100 % 100) (put (u % 100) (90 ∷ [])))

unfoldable pub iso : DateTime → List ℕ
iso d = put (d.year / 100) (
    put (d.year % 100) (
      45
      ∷ put d.month (
          45
          ∷ put d.day (
              84
              ∷ put d.hour (58 ∷ put d.minute (58 ∷ put d.second (put_fraction d.microsecond)))))))

abbrev pub is_digit : ℕ → Bool
is_digit c = leb 48 c && leb c 57

module _ {A : Type 0} where
  unfoldable pub get : List ℕ → (ℕ → List ℕ → Option A) → Option A
  get (a ∷ b ∷ rest) k =
      if is_digit a && is_digit b then k ((a - 48) * 10 + (b - 48)) rest else none
  get _ k = none

  unfoldable pub skip : ℕ → List ℕ → (List ℕ → Option A) → Option A
  skip c [] k = none
  skip c (x ∷ rest) k = if x == c then k rest else none

  -- The end of a text: Z, or a fraction and Z.
  unfoldable pub get_fraction : List ℕ → (ℕ → Option A) → Option A
  get_fraction [] k = none
  get_fraction (x ∷ []) k = if x == 90 then k 0 else none
  get_fraction (x ∷ y ∷ rest) k = skip 46 (x ∷ y ∷ rest) λ rest. get rest λ a rest.
      get rest λ b rest. get rest λ c rest.
        skip 90 rest λ rest. elim rest [ [] ↦ k (a * 10_000 + b * 100 + c) | _ ∷ _ ↦ none ]

unfoldable pub parse_iso : List ℕ → Option DateTime
parse_iso text = get text λ century rest. get rest λ year rest. skip 45 rest λ rest.
    get rest λ month rest. skip 45 rest λ rest. get rest λ day rest. skip 84 rest λ rest.
      get rest λ hour rest. skip 58 rest λ rest. get rest λ minute rest. skip 58 rest λ rest.
        get rest λ second rest. get_fraction rest λ microsecond.
          let d : DateTime = record {
            year = century * 100 + year;
            month = month;
            day = day;
            hour = hour;
            minute = minute;
            second = second;
            microsecond = microsecond;
          } in
          if is_valid d then some d else none

module _ {A : Type 0} where
  get-put :
      (n : ℕ) (rest : List ℕ) (k : ℕ → List ℕ → Option A) → n < 100 → get (put n rest) k ≡ k n rest
  unfolding get
  get-put n rest k h =
      let same : (48 + n / 10 - 48) * 10 + (48 + n % 10 - 48) ≡ n = omega arith in
      rw same (ground arith)

  get_fraction-put :
      (u : ℕ) (k : ℕ → Option A) → u < 1_000_000 → get_fraction (put_fraction u) k ≡ k u
  unfolding get_fraction skip
  get_fraction-put u k h = elim (Bool-cases (u == 0)) [
    | inl whole ↦ ground (arith, whole)
    | inr part ↦
        let same : u / 10_000 * 10_000 + u / 100 % 100 * 100 + u % 100 ≡ u = omega arith in
        rw part (
          get-put (u / 10_000) _ _ (omega arith)
          ∙ get-put (u / 100 % 100) _ _ (omega arith)
          ∙ get-put (u % 100) _ _ (omega arith)
          ∙ ap k same)
  ]

valid_parts :
    (d : DateTime)
    → is_valid d ≡ true
    → (d.year < 10_000)
      × (d.month < 100)
      × (d.day < 100)
      × (d.hour < 100)
      × (d.minute < 100)
      × (d.second < 100)
      × (d.microsecond < 1_000_000)
unfolding is_valid
valid_parts d h = ground arith

-- For every date and time with its fields in the ranges of datetime, `parse_iso` reads from the text
-- that `iso` writes the same date and time.
pub parse_iso-iso : (d : DateTime) → is_valid d ≡ true → parse_iso (iso d) ≡ some d
unfolding parse_iso iso skip
parse_iso-iso d h =
    let (y, mo, da, ho, mi, se, us) = valid_parts d h in
    let same : d.year / 100 * 100 + d.year % 100 ≡ d.year = omega arith in
    get-put (d.year / 100) _ _ (omega (arith, y))
    ∙ get-put (d.year % 100) _ _ (omega arith)
    ∙ get-put d.month _ _ mo
    ∙ get-put d.day _ _ da
    ∙ get-put d.hour _ _ ho
    ∙ get-put d.minute _ _ mi
    ∙ get-put d.second _ _ se
    ∙ get_fraction-put d.microsecond _ us
    ∙ ap (λ n. let e = record d { year = n } in if is_valid e then some e else none) same
    ∙ rw h refl

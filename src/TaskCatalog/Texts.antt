-- ===== src/TaskCatalog/Texts.antt =====
-- task_catalog/repository.py: the text of a template, as the list of its code points.
use ai_coach_keyholder.Prelude.{
  ℕ, ◌≤◌, ◌≡◌, refl, sym, ap, ◌∙◌, Bool, true, false, List, [], ◌∷◌, Result, ok, err, arith, ◌==◌,
  ◌||◌, ◌&&◌, leb, ltb, if◌then◌else◌, Bool-cases, inl, inr,
}
use ai_coach_keyholder.Prelude.Lists.{length}

abbrev pub Text : Type 0
Text = List ℕ

-- `str.isspace` of one code point.
unfoldable pub is_space : ℕ → Bool
is_space c =
    (leb 9 c && leb c 13)
    || (leb 28 c && leb c 32)
    || c == 133
    || c == 160
    || c == 5760
    || (leb 8192 c && leb c 8202)
    || c == 8232
    || c == 8233
    || c == 8239
    || c == 8287
    || c == 12288

abbrev lstrip : Text → Text
lstrip [] = []
lstrip (c ∷ cs) = if is_space c then lstrip cs else c ∷ cs

-- A character before a text that has no space at its end.
abbrev before : ℕ → Text → Text
before c [] = if is_space c then [] else c ∷ []
before c (d ∷ ds) = c ∷ d ∷ ds

abbrev rstrip : Text → Text
rstrip [] = []
rstrip (c ∷ cs) = before c (rstrip cs)

-- `str.strip`
abbrev pub strip : Text → Text
strip text = rstrip (lstrip text)

abbrev pub is_empty : Text → Bool
is_empty [] = true
is_empty (c ∷ cs) = false

pub data TextError : Type 0 where
  empty_text text_too_long : TextError

-- `_normalize_required_text`
unfoldable pub normalize_required_text : ℕ → Text → Result TextError Text
normalize_required_text max_length value =
    let stripped = strip value in
    if is_empty stripped
    then err empty_text
    else if ltb max_length (length stripped)
    then err text_too_long
    else ok stripped

rstrip-before : (c : ℕ) (ds : Text) → rstrip ds ≡ ds → rstrip (before c ds) ≡ before c ds
rstrip-before c [] h = elim (Bool-cases (is_space c)) [
  | inl e ↦ rw e refl
  | inr e ↦ rw e (rw e refl)
]
rstrip-before c (d ∷ ds) h = ap (before c) h

rstrip_again : (cs : Text) → rstrip (rstrip cs) ≡ rstrip cs
rstrip_again [] = refl
rstrip_again (c ∷ cs) = rstrip-before c (rstrip cs) (rstrip_again cs)

lstrip-before : (c : ℕ) (ds : Text) → is_space c ≡ false → lstrip (before c ds) ≡ before c ds
lstrip-before c [] e = rw e (rw e refl)
lstrip-before c (d ∷ ds) e = rw e refl

lstrip-strip : (cs : Text) → lstrip (strip cs) ≡ strip cs
lstrip-strip [] = refl
lstrip-strip (c ∷ cs) = elim (Bool-cases (is_space c)) [
  | inl e ↦ rw e (lstrip-strip cs)
  | inr e ↦ rw e (lstrip-before c (rstrip cs) e)
]

strip_again : (cs : Text) → strip (strip cs) ≡ strip cs
strip_again cs = ap rstrip (lstrip-strip cs) ∙ rstrip_again (lstrip cs)

normalize-cases :
    (max_length : ℕ) (value text : Text)
    → normalize_required_text max_length value ≡ ok text
    → (text ≡ strip value) × (is_empty text ≡ false) × (length text ≤ max_length)
unfolding normalize_required_text
normalize-cases max_length value text h = ground arith

-- A text that is normalized is not empty and within its length, and normalizing it again gives it.
pub normalize_required_text_again :
    (max_length : ℕ) (value text : Text)
    → normalize_required_text max_length value ≡ ok text
    → (is_empty (strip text) ≡ false)
      × (length text ≤ max_length)
      × (normalize_required_text max_length text ≡ ok text)
unfolding normalize_required_text
normalize_required_text_again max_length value text h =
    let (e, full, short) = normalize-cases max_length value text h in
    let same : strip text ≡ text = ap strip e ∙ strip_again value ∙ sym e in
    (rw same full, short, rw same (ground (arith, full, short)))

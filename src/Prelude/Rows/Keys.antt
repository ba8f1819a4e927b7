-- ===== src/Prelude/Rows/Keys.antt =====
-- Rows of a table with a key: what it finds, and what updates leave of it.
use mathlib.Core.Option
use ai_coach_keyholder.Prelude.{
  ℕ, ==_iff, ◌<◌, ◌≡◌, ◌≢◌, subst, sym, ap, ◌∙◌, refl, Bool, true, false, some, List, [], ◌∷◌,
  arith, ◌==◌, ◌+◌, if◌then◌else◌, Bool-cases, inl, inr,
}
use ai_coach_keyholder.Prelude.Lists.{All, count_where, exists, find, update_where}
use ai_coach_keyholder.Prelude.Rows.Kept.{All-map, All-both}

module _ {ℓ} {A : Type ℓ} (key : A → ℕ) where
  abbrev pub has_key : ℕ → A → Bool
  has_key k x = key x == k

  -- PRIMARY KEY
  abbrev pub Distinct : List A → Type 0
  Distinct [] = Unit
  Distinct (x ∷ xs) = (exists (has_key (key x)) xs ≡ false) × Distinct xs

  exists-All : (k : ℕ) (xs : List A) → exists (has_key k) xs ≡ false → All (λ x. key x ≢ k) xs
  exists-All k [] h = tt
  exists-All k (x ∷ xs) h = (ground arith, exists-All k xs (ground arith))

  -- A key that every row is below is the key of none.
  pub exists_fresh : (k : ℕ) (xs : List A) → All (λ x. key x < k) xs → exists (has_key k) xs ≡ false
  exists_fresh k [] a = refl
  exists_fresh k (x ∷ xs) a = ground (arith, exists_fresh k xs a.1)

  -- A key that is there is below what every row is below.
  pub exists_below :
      (k n : ℕ) (xs : List A) → All (λ x. key x < n) xs → exists (has_key k) xs ≡ true → k < n
  exists_below k n [] a h = cc
  exists_below k n (x ∷ xs) a h = elim (Bool-cases (has_key k x)) [
    | inl hit ↦ ground (arith, a.0, hit)
    | inr miss ↦ exists_below k n xs a.1 (ground (arith, h, miss))
  ]

  -- Each row is the one that its key finds.
  pub find_self : (xs : List A) → Distinct xs → All (λ x. find (has_key (key x)) xs ≡ some x) xs
  find_self [] d = tt
  find_self (x ∷ xs) d = (
    ground arith,
    All-both xs (λ y found other. ground arith) (find_self xs d.1) (exists-All (key x) xs d.0),
  )

  -- The rows with a key are the row that it finds.
  pub found_rows :
      (k : ℕ) (x : A) (xs : List A)
      → Distinct xs
      → find (has_key k) xs ≡ some x
      → All (λ y. has_key k y ≡ true → y ≡ x) xs
  found_rows k x xs d found =
      All-map {P = λ y. find (has_key (key y)) xs ≡ some y} xs
        (λ y self hit.
          cc (sym self ∙ ap (λ j. find (has_key j) xs) ((==_iff (key y) k).0 hit) ∙ found))
        (find_self xs d)

  pub exists-update_where :
      (q : A → Bool) (f : A → A) (k : ℕ) (xs : List A)
      → ((x : A) → key (f x) ≡ key x)
      → exists (has_key k) (update_where q f xs) ≡ exists (has_key k) xs
  exists-update_where q f k [] keeps = refl
  exists-update_where q f k (x ∷ xs) keeps =
      ground (arith, keeps x, exists-update_where q f k xs keeps)

  pub Distinct-update_where :
      (q : A → Bool) (f : A → A) (xs : List A)
      → ((x : A) → key (f x) ≡ key x)
      → Distinct xs
      → Distinct (update_where q f xs)
  Distinct-update_where q f [] keeps d = tt
  Distinct-update_where q f (x ∷ xs) keeps d = (
    ground (
      arith,
      keeps x,
      exists-update_where q f (key (f x)) xs keeps,
      exists-update_where q f (key x) xs keeps,
    ),
    Distinct-update_where q f xs keeps d.1,
  )

  -- What a key finds behind an update of the rows with that key, or with another.
  pub find-update_where :
      (f : A → A) (j k : ℕ) (xs : List A)
      → ((x : A) → key (f x) ≡ key x)
      → find (has_key j) (update_where (has_key k) f xs)
        ≡ (if k == j then Option.map f (find (has_key j) xs) else find (has_key j) xs)
  find-update_where f j k [] keeps = ground arith
  find-update_where f j k (x ∷ xs) keeps = ground (arith, keeps x, find-update_where f j k xs keeps)

  -- What a key finds behind an update of any rows.
  pub find-update_where_any :
      (q : A → Bool) (f : A → A) (j : ℕ) (xs : List A)
      → ((x : A) → key (f x) ≡ key x)
      → find (has_key j) (update_where q f xs)
        ≡ Option.map (λ x. if q x then f x else x) (find (has_key j) xs)
  find-update_where_any q f j [] keeps = refl
  find-update_where_any q f j (x ∷ xs) keeps =
      ground (arith, keeps x, find-update_where_any q f j xs keeps)

  -- A field that an update does not set, read by a key.
  pub find-update_where_field {κ} :
      {B : Type κ} (g : A → B) (q : A → Bool) (f : A → A) (j : ℕ) (xs : List A)
      → ((x : A) → key (f x) ≡ key x)
      → ((x : A) → g (f x) ≡ g x)
      → Option.map g (find (has_key j) (update_where q f xs)) ≡ Option.map g (find (has_key j) xs)
  find-update_where_field g q f j [] keeps same = refl
  find-update_where_field g q f j (x ∷ xs) keeps same =
      ground (arith, keeps x, same x, find-update_where_field g q f j xs keeps same)

  -- A row whose key is new is not found by another.
  pub find_behind :
      (x : A) (j n : ℕ) (xs : List A)
      → key x ≡ n
      → j < n
      → find (has_key j) (x ∷ xs) ≡ find (has_key j) xs
  find_behind x j n xs new h = ground arith

  update_where_none :
      (q : A → Bool) (f : A → A) (xs : List A) → exists q xs ≡ false → update_where q f xs ≡ xs
  update_where_none q f [] h = refl
  update_where_none q f (x ∷ xs) h = ground (arith, update_where_none q f xs)

  -- The rows that meet a test, behind an update of the one row with a key, which did not meet it.
  pub count_where-update_one :
      (p : A → Bool) (f : A → A) (k : ℕ) (x : A) (xs : List A)
      → Distinct xs
      → find (has_key k) xs ≡ some x
      → p x ≡ false
      → count_where p (update_where (has_key k) f xs)
        ≡ (if p (f x) then 1 else 0) + count_where p xs
  count_where-update_one p f k x [] d found no_hit = cc
  count_where-update_one p f k x (y ∷ ys) d found no_hit = elim (Bool-cases (has_key k y)) [
    | inr miss ↦
        ground
          (arith, miss, count_where-update_one p f k x ys d.1 (ground (arith, found, miss)) no_hit)
    | inl hit ↦
        let same : y ≡ x = ground (arith, found, hit) in
        let alone : exists (has_key k) ys ≡ false =
          subst (λ j. exists (has_key j) ys ≡ false) ((==_iff (key y) k).0 hit) d.0 in
        rw (hit, update_where_none (has_key k) f ys alone, same, no_hit) (omega arith)
  ]

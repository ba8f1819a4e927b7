-- ===== src/Prelude/Rows/Kept.antt =====
-- Rows of a table under updates: what stays, and what is counted and selected.
use ai_coach_keyholder.Prelude.{
  leb, ℕ, ◌≤◌, ◌≡◌, ◌⊎◌, subst, sym, ◌∙◌, refl, Bool, true, false, none, some, List, [], ◌∷◌, arith,
  if◌then◌else◌, Bool-cases, inl, inr,
}
use ai_coach_keyholder.Prelude.Lists.{
  insert_by, order_by, All, count_where, select, find, update_where, latest,
}

module _ {ℓ} {A : Type ℓ} where
  pub All-map {κ μ} :
      {P : A → Type κ} {Q : A → Type μ} (xs : List A) → ((x : A) → P x → Q x) → All P xs → All Q xs
  All-map [] h a = tt
  All-map (x ∷ xs) h a = (h x a.0, All-map xs h a.1)

  pub All-both {κ μ ν} :
      {P : A → Type κ} {Q : A → Type μ} {R : A → Type ν} (xs : List A)
      → ((x : A) → P x → Q x → R x)
      → All P xs
      → All Q xs
      → All R xs
  All-both [] h a b = tt
  All-both (x ∷ xs) h a b = (h x a.0 b.0, All-both xs h a.1 b.1)

  pub All-all {κ} : {P : A → Type κ} (xs : List A) → ((x : A) → P x) → All P xs
  All-all [] h = tt
  All-all (x ∷ xs) h = (h x, All-all xs h)

  -- A property of the rows after an UPDATE, from what it says of the rows that meet the test and
  -- of those that do not.
  pub All-update_where {κ μ} :
      {P : A → Type κ} {Q : A → Type μ} (q : A → Bool) (f : A → A) (xs : List A)
      → ((x : A) → P x → q x ≡ true → Q (f x))
      → ((x : A) → P x → q x ≡ false → Q x)
      → All P xs
      → All Q (update_where q f xs)
  All-update_where q f [] hit miss a = tt
  All-update_where {Q = Q} q f (x ∷ xs) hit miss a = (
    elim (Bool-cases (q x)) [ inl e ↦ rw e (hit x a.0 e) | inr e ↦ rw e (miss x a.0 e) ],
    All-update_where q f xs hit miss a.1,
  )

  pub All-select {κ} :
      (P : A → Type κ) (p : A → Bool) (xs : List A)
      → All (λ x. p x ≡ true → P x) xs
      → All P (select p xs)
  All-select P p [] a = tt
  All-select P p (x ∷ xs) a = elim (Bool-cases (p x)) [
    | inl e ↦ rw e (a.0 e, All-select P p xs a.1)
    | inr e ↦ rw e (All-select P p xs a.1)
  ]

  latest-cases :
      (key : A → ℕ) (x : A) (xs : List A) (y : A)
      → latest key (x ∷ xs) ≡ some y
      → (x ≡ y) ⊎ (latest key xs ≡ some y)
  latest-cases key x xs y h = ground arith

  pub All-latest {κ} :
      (P : A → Type κ) (key : A → ℕ) (xs : List A) (y : A) → All P xs → latest key xs ≡ some y → P y
  All-latest P key [] y a h = cc
  All-latest P key (x ∷ xs) y a h = elim (latest-cases key x xs y h) [
    | inl e ↦ subst P e a.0
    | inr e ↦ All-latest P key xs y a.1 e
  ]

  find-cases :
      (q : A → Bool) (x : A) (xs : List A) (y : A)
      → find q (x ∷ xs) ≡ some y
      → ((x ≡ y) × (q x ≡ true)) ⊎ (find q xs ≡ some y)
  find-cases q x xs y h = ground arith

  pub All-find {κ} :
      (P : A → Type κ) (q : A → Bool) (xs : List A) (y : A)
      → All P xs
      → find q xs ≡ some y
      → P y × (q y ≡ true)
  All-find P q [] y a h = cc
  All-find P q (x ∷ xs) y a h = elim (find-cases q x xs y h) [
    | inl (e, hit) ↦ (subst P e a.0, subst (λ z. q z ≡ true) e hit)
    | inr rest ↦ All-find P q xs y a.1 rest
  ]

  pub latest-none : (key : A → ℕ) (xs : List A) → latest key xs ≡ none → xs ≡ []
  latest-none key [] h = refl
  latest-none key (x ∷ xs) h = ground arith

  pub count_where-update_where :
      (p q : A → Bool) (f : A → A) (xs : List A)
      → All (λ x. q x ≡ true → p (f x) ≡ p x) xs
      → count_where p (update_where q f xs) ≡ count_where p xs
  count_where-update_where p q f [] a = refl
  count_where-update_where p q f (x ∷ xs) a =
      ground (arith, a.0, count_where-update_where p q f xs a.1)

  pub count_where-update_where_le :
      (p q : A → Bool) (f : A → A) (xs : List A)
      → All (λ x. q x ≡ true → p (f x) ≡ false) xs
      → count_where p (update_where q f xs) ≤ count_where p xs
  count_where-update_where_le p q f [] a = omega arith
  count_where-update_where_le p q f (x ∷ xs) a =
      ground (arith, a.0, count_where-update_where_le p q f xs a.1)

  pub select-nil : (p : A → Bool) (xs : List A) → select p xs ≡ [] → count_where p xs ≡ 0
  select-nil p [] h = refl
  select-nil p (x ∷ xs) h = ground (arith, select-nil p xs)

  pub count_where_none :
      (p : A → Bool) (xs : List A) → All (λ x. p x ≡ false) xs → count_where p xs ≡ 0
  count_where_none p [] a = refl
  count_where_none p (x ∷ xs) a = ground (arith, count_where_none p xs a.1)

  pub count_where-eq :
      (p q : A → Bool) (xs : List A) → All (λ x. p x ≡ q x) xs → count_where p xs ≡ count_where q xs
  count_where-eq p q [] a = refl
  count_where-eq p q (x ∷ xs) a = rw (a.0, count_where-eq p q xs a.1)

module _ {ℓ κ} {A : Type ℓ} (P : A → Type κ) where
  -- What holds of the selected rows holds of the rows that meet the test.
  pub All-of_select :
      (p : A → Bool) (xs : List A) → All P (select p xs) → All (λ x. p x ≡ true → P x) xs
  All-of_select p [] a = tt
  All-of_select p (x ∷ xs) a = elim (Bool-cases (p x)) [
    | inl e ↦
        let b = subst (λ c. All P (if c then x ∷ select p xs else select p xs)) e a in
        ((λ _. b.0), All-of_select p xs b.1)
    | inr e ↦ (
      (λ hit. cc (sym e ∙ hit)),
      All-of_select p xs (subst (λ c. All P (if c then x ∷ select p xs else select p xs)) e a),
    )
  ]

  All-of_insert_by :
      (key : A → ℕ) (x : A) (xs : List A) → All P (insert_by key x xs) → P x × All P xs
  All-of_insert_by key x [] a = a
  All-of_insert_by key x (y ∷ ys) a = elim (Bool-cases (leb (key x) (key y))) [
    | inl e ↦ subst (λ c. All P (if c then x ∷ y ∷ ys else y ∷ insert_by key x ys)) e a
    | inr e ↦
        let b = subst (λ c. All P (if c then x ∷ y ∷ ys else y ∷ insert_by key x ys)) e a in
        let (h, rest) = All-of_insert_by key x ys b.1 in (h, (b.0, rest))
  ]

  pub All-of_order_by : (key : A → ℕ) (xs : List A) → All P (order_by key xs) → All P xs
  All-of_order_by key [] a = tt
  All-of_order_by key (x ∷ xs) a =
      let (h, rest) = All-of_insert_by key x (order_by key xs) a in (h, All-of_order_by key xs rest)

pub select_none {ℓ} :
    {A : Type ℓ} (p : A → Bool) (xs : List A) → All (λ x. p x ≡ false) xs → select p xs ≡ []
select_none p [] a = refl
select_none p (x ∷ xs) a = rw (a.0, select_none p xs a.1) refl

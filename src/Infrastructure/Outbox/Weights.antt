-- ===== src/Infrastructure/Outbox/Weights.antt =====
-- infrastructure/outbox.py: a weight of the pending events, and what a round of the publisher leaves of it.
use ai_coach_keyholder.Prelude.{
  ℕ, zero, suc, ◌+◌, ◌≤◌, ◌≡◌, refl, sym, ◌∙◌, subst, Bool, true, List, [], ◌∷◌, ◌++◌, arith,
  if◌then◌else◌, Bool-cases, inl, inr, ==_iff, ==_self,
}
use ai_coach_keyholder.Prelude.Lists.{All, select, order_by, insert_by, update_where}
use ai_coach_keyholder.Prelude.Rows.{All-map}
use ai_coach_keyholder.Infrastructure.TimeFormat.{iso_key}
use ai_coach_keyholder.Infrastructure.Outbox.{
  EventRow, is_pending, has_event_id, update_each, take, event_ids, claim_row, publish_row,
  claimable,
}
use ai_coach_keyholder.Infrastructure.Outbox.Claims.{contains}

abbrev pub sum_by : (EventRow → ℕ) → List EventRow → ℕ
sum_by f [] = 0
sum_by f (e ∷ es) = f e + sum_by f es

sum_by_le :
    (f g : EventRow → ℕ) (es : List EventRow)
    → ((e : EventRow) → f e ≤ g e)
    → sum_by f es ≤ sum_by g es
sum_by_le f g [] h = omega arith
sum_by_le f g (e ∷ es) h = omega (arith, h e, sum_by_le f g es h)

pub sum_by-append :
    (f : EventRow → ℕ) (es fs : List EventRow) → sum_by f (es ++ fs) ≡ sum_by f es + sum_by f fs
sum_by-append f [] fs = omega arith
sum_by-append f (e ∷ es) fs = omega (arith, sum_by-append f es fs)

sum_by-select :
    (f : EventRow → ℕ) (p : EventRow → Bool) (es : List EventRow)
    → sum_by f (select p es) ≡ sum_by (λ e. if p e then f e else 0) es
sum_by-select f p [] = refl
sum_by-select f p (e ∷ es) = ground (arith, sum_by-select f p es)

sum_by-insert_by :
    (f key : EventRow → ℕ) (e : EventRow) (es : List EventRow)
    → sum_by f (insert_by key e es) ≡ f e + sum_by f es
sum_by-insert_by f key e [] = refl
sum_by-insert_by f key e (x ∷ es) = ground (arith, sum_by-insert_by f key e es)

sum_by-order_by :
    (f key : EventRow → ℕ) (es : List EventRow) → sum_by f (order_by key es) ≡ sum_by f es
sum_by-order_by f key [] = refl
sum_by-order_by f key (e ∷ es) =
    omega (arith, sum_by-insert_by f key e (order_by key es), sum_by-order_by f key es)

sum_by-take : (f : EventRow → ℕ) (n : ℕ) (es : List EventRow) → sum_by f (take n es) ≤ sum_by f es
sum_by-take f zero es = omega arith
sum_by-take f (suc n) [] = omega arith
sum_by-take f (suc n) (e ∷ es) = omega (arith, sum_by-take f n es)

own_ids : (es : List EventRow) → All (λ e. contains (event_ids es) e.id ≡ true) es
own_ids [] = tt
own_ids (e ∷ es) = (rw (==_self e.id) refl, All-map es (λ x h. ground (arith, h)) (own_ids es))

-- A function of the rows that an update does not change is summed as before.
sum_by-update_where :
    (h : EventRow → ℕ) (f : EventRow → EventRow) (id : ℕ) (es : List EventRow)
    → ((e : EventRow) → has_event_id id e ≡ true → h (f e) ≡ h e)
    → sum_by h (update_where (has_event_id id) f es) ≡ sum_by h es
sum_by-update_where h f id [] same = refl
sum_by-update_where h f id (e ∷ es) same = elim (Bool-cases (has_event_id id e)) [
  | inl hit ↦ rw hit (omega (arith, same e hit, sum_by-update_where h f id es same))
  | inr miss ↦ rw miss (omega (arith, sum_by-update_where h f id es same))
]

module _ (weight : EventRow → ℕ) (now : ℕ) where
  -- The weight of an event that is pending.
  abbrev pub pending : EventRow → ℕ
  pending e = if is_pending now e then weight e else 0

  abbrev outside : List ℕ → EventRow → ℕ
  outside ids e = if contains ids e.id then 0 else pending e

  abbrev within : List ℕ → EventRow → ℕ
  within ids e = if contains ids e.id then weight e else 0

  split_pending :
      (ids : List ℕ) (es : List EventRow)
      → sum_by (outside ids) es + sum_by (λ e. if is_pending now e then within ids e else 0) es
        ≡ sum_by pending es
  split_pending ids [] = refl
  split_pending ids (e ∷ es) = elim (Bool-cases (contains ids e.id)) [
    | inl hit ↦ rw hit (omega (arith, split_pending ids es))
    | inr miss ↦ elim (Bool-cases (is_pending now e)) [
      | inl p ↦ rw miss (rw p (omega (arith, split_pending ids es)))
      | inr p ↦ rw miss (rw p (omega (arith, split_pending ids es)))
    ]
  ]

  publish_one :
      (at id : ℕ) (ids : List ℕ) (es : List EventRow)
      → sum_by (outside ids) (update_where (has_event_id id) (publish_row at) es)
        ≤ sum_by (outside (id ∷ ids)) es
  publish_one at id ids [] = omega arith
  publish_one at id ids (e ∷ es) = elim (Bool-cases (has_event_id id e)) [
    | inl hit ↦ elim (Bool-cases (contains ids e.id)) [
      | inl within_them ↦ rw hit (rw within_them (omega (arith, publish_one at id ids es)))
      | inr others ↦ rw hit (rw others (omega (arith, publish_one at id ids es)))
    ]
    | inr miss ↦ rw miss (omega (arith, publish_one at id ids es))
  ]

  -- Behind the publication of some events the others alone are pending.
  published :
      (at : ℕ) (ids : List ℕ) (es : List EventRow)
      → sum_by pending (update_each (publish_row at) ids es) ≤ sum_by (outside ids) es
  published at [] es = sum_by_le pending (outside []) es (λ e. omega arith)
  published at (id ∷ ids) es = omega (
    arith,
    published at ids (update_where (has_event_id id) (publish_row at) es),
    publish_one at id ids es,
  )

  claimed :
      (lease_duration : ℕ) (ids js : List ℕ) (es : List EventRow)
      → All (λ j. contains ids j ≡ true) js
      → sum_by (outside ids) (update_each (claim_row now lease_duration) js es)
        ≡ sum_by (outside ids) es
  claimed lease_duration ids [] es a = refl
  claimed lease_duration ids (j ∷ js) es a =
      claimed lease_duration ids js
        (update_where (has_event_id j) (claim_row now lease_duration) es) a.1
      ∙ sum_by-update_where (outside ids) (claim_row now lease_duration) j es (λ e hit.
        let known = subst (λ k. contains ids k ≡ true) (sym ((==_iff e.id j).0 hit)) a.0 in
        rw known refl)

  sum_within :
      (ids : List ℕ) (es : List EventRow)
      → All (λ e. contains ids e.id ≡ true) es
      → sum_by weight es ≡ sum_by (within ids) es
  sum_within ids [] a = refl
  sum_within ids (e ∷ es) a = rw a.0 (omega (arith, sum_within ids es a.1))

  -- What is outside of a claim weighs less by the weight of the claim.
  outside_claim :
      (batch_size : ℕ) (es : List EventRow)
      → sum_by (outside (event_ids (claimable batch_size now es))) es
          + sum_by weight (claimable batch_size now es)
        ≤ sum_by pending es
  unfolding claimable
  outside_claim batch_size es =
      let key : EventRow → ℕ = λ e. iso_key e.created_at in
      let rows = claimable batch_size now es in
      let ids = event_ids rows in
      let waiting = select (is_pending now) es in
      omega (
        arith,
        split_pending ids es,
        sum_within ids rows (own_ids rows),
        sum_by-take (within ids) batch_size (order_by key waiting),
        sum_by-order_by (within ids) key waiting,
        sum_by-select (within ids) (is_pending now) es,
      )

  ids-All :
      (ids : List ℕ) (es : List EventRow)
      → All (λ e. contains ids e.id ≡ true) es
      → All (λ j. contains ids j ≡ true) (event_ids es)
  ids-All ids [] a = tt
  ids-All ids (e ∷ es) a = (a.0, ids-All ids es a.1)

  outside_le : (ids : List ℕ) (e : EventRow) → outside ids e ≤ weight e
  outside_le ids e = elim (Bool-cases (contains ids e.id)) [
    | inl hit ↦ rw hit (omega arith)
    | inr miss ↦ elim (Bool-cases (is_pending now e)) [
      | inl p ↦ rw miss (rw p (omega arith))
      | inr p ↦ rw miss (rw p (omega arith))
    ]
  ]

  -- A round: a claim, new events of the handlers, and the publication of what was claimed.
  pub round_weight :
      (batch_size lease_duration at : ℕ) (es new : List EventRow)
      → let rows = claimable batch_size now es in
        sum_by pending (
            update_each
              (publish_row at)
              (event_ids rows)
              (new ++ update_each (claim_row now lease_duration) (event_ids rows) es))
          + sum_by weight rows
        ≤ sum_by weight new + sum_by pending es
  round_weight batch_size lease_duration at es new =
      let rows = claimable batch_size now es in
      let ids = event_ids rows in
      let claims = update_each (claim_row now lease_duration) ids es in
      omega (
        arith,
        published at ids (new ++ claims),
        sum_by-append (outside ids) new claims,
        sum_by_le (outside ids) weight new (λ e. outside_le ids e),
        claimed lease_duration ids ids es (ids-All ids rows (own_ids rows)),
        outside_claim batch_size es,
      )

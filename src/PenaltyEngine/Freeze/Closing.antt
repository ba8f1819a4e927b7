-- ===== src/PenaltyEngine/Freeze/Closing.antt =====
-- penalty_engine/repository.py: the rows that `_close_freeze_periods_in_transaction` closes one by
-- one are those that a single UPDATE with the same test would close.
use ai_coach_keyholder.Prelude.{
  ℕ, ◌≡◌, refl, ◌∙◌, ap, Bool, false, Option, none, some, List, [], ◌∷◌, arith, ◌==◌, ◌||◌, ◌&&◌,
  not,
}
use ai_coach_keyholder.Prelude.Lists.{All, exists, select, update_where, order_by, insert_by}
use ai_coach_keyholder.Prelude.Rows.{All-both, All-map, Distinct, has_key}
use ai_coach_keyholder.Infrastructure.TimeFormat.{iso_key}
use ai_coach_keyholder.PenaltyEngine.Models.{FreezePeriod, FreezeReason, FreezeEndReason}
use ai_coach_keyholder.PenaltyEngine.Freeze.{
  is_some, is_open_for, has_freeze_id, close_freeze, close_each, rows_to_close, freeze_ids,
}

abbrev pub freeze_key : FreezePeriod → ℕ
freeze_key f = f.id

abbrev pub contains : List ℕ → ℕ → Bool
contains ids k = exists (λ i. k == i) ids

-- The test of the rows to close.
abbrev pub closes : ℕ → FreezeReason → Option ℕ → FreezePeriod → Bool
closes window_id reason none f = is_open_for window_id reason f
closes window_id reason (some id) f = has_freeze_id id f && not (is_some f.ended_at)

update_where-eq :
    (p q : FreezePeriod → Bool) (g : FreezePeriod → FreezePeriod) (fs : List FreezePeriod)
    → All (λ f. p f ≡ q f) fs
    → update_where p g fs ≡ update_where q g fs
update_where-eq p q g [] a = refl
update_where-eq p q g (f ∷ fs) a = rw (a.0, update_where-eq p q g fs a.1)

module _ (now : ℕ) (end_reason : FreezeEndReason) where
  close_twice :
      (i : ℕ) (ids : List ℕ) (fs : List FreezePeriod)
      → update_where
          (λ f. contains ids f.id)
          (close_freeze now end_reason)
          (update_where (has_freeze_id i) (close_freeze now end_reason) fs)
        ≡ update_where (λ f. contains (i ∷ ids) f.id) (close_freeze now end_reason) fs
  close_twice i ids [] = refl
  close_twice i ids (f ∷ fs) = ground (arith, close_twice i ids fs)

  close_each-update_where :
      (ids : List ℕ) (fs : List FreezePeriod)
      → close_each now end_reason ids fs
        ≡ update_where (λ f. contains ids f.id) (close_freeze now end_reason) fs
  unfolding close_each
  close_each-update_where [] [] = refl
  close_each-update_where [] (f ∷ fs) = ap (λ r. f ∷ r) (close_each-update_where [] fs)
  close_each-update_where (i ∷ ids) fs =
      close_each-update_where ids (update_where (has_freeze_id i) (close_freeze now end_reason) fs)
      ∙ close_twice i ids fs

contains-select :
    (p : FreezePeriod → Bool) (k : ℕ) (fs : List FreezePeriod)
    → exists (has_key freeze_key k) fs ≡ false
    → contains (freeze_ids (select p fs)) k ≡ false
contains-select p k [] h = refl
contains-select p k (f ∷ fs) h = ground (arith, contains-select p k fs)

other_keys :
    (k : ℕ) (fs : List FreezePeriod)
    → exists (has_key freeze_key k) fs ≡ false
    → All (λ f. (f.id == k) ≡ false) fs
other_keys k [] h = tt
other_keys k (f ∷ fs) h = (ground arith, other_keys k fs (ground arith))

pub selected_ids :
    (p : FreezePeriod → Bool) (fs : List FreezePeriod)
    → Distinct freeze_key fs
    → All (λ f. contains (freeze_ids (select p fs)) f.id ≡ p f) fs
selected_ids p [] d = tt
selected_ids p (f ∷ fs) d = (
  ground (arith, contains-select p f.id fs),
  All-both {P = λ g. contains (freeze_ids (select p fs)) g.id ≡ p g}
      {Q = λ g. (g.id == f.id) ≡ false} fs (λ g same other. ground arith) (selected_ids p fs d.1)
      (other_keys f.id fs d.0),
)

contains-insert_by :
    (k : ℕ) (key : FreezePeriod → ℕ) (f : FreezePeriod) (fs : List FreezePeriod)
    → contains (freeze_ids (insert_by key f fs)) k ≡ contains (freeze_ids (f ∷ fs)) k
contains-insert_by k key f [] = refl
contains-insert_by k key f (g ∷ fs) = ground (arith, contains-insert_by k key f fs)

contains-order_by :
    (k : ℕ) (key : FreezePeriod → ℕ) (fs : List FreezePeriod)
    → contains (freeze_ids (order_by key fs)) k ≡ contains (freeze_ids fs) k
contains-order_by k key [] = refl
contains-order_by k key (f ∷ fs) =
    contains-insert_by k key f (order_by key fs)
    ∙ ap (λ b. (k == f.id) || b) (contains-order_by k key fs)

closed_ids :
    (window_id : ℕ) (reason : FreezeReason) (freeze_id : Option ℕ) (fs : List FreezePeriod)
    → Distinct freeze_key fs
    → All
        (λ f.
          contains (freeze_ids (rows_to_close window_id reason freeze_id fs)) f.id
          ≡ closes window_id reason freeze_id f)
        fs
unfolding rows_to_close
closed_ids window_id reason none fs d =
    All-map fs
      (λ f h.
        contains-order_by f.id (λ g. iso_key g.started_at)
          (select (is_open_for window_id reason) fs)
        ∙ h)
      (selected_ids (is_open_for window_id reason) fs d)
closed_ids window_id reason (some id) fs d = selected_ids (closes window_id reason (some id)) fs d

-- Where freeze periods have distinct ids, closing the selected rows one after another closes
-- exactly the rows that meet the test of the selection.
pub close_each-rows_to_close :
    (window_id : ℕ) (reason : FreezeReason) (freeze_id : Option ℕ) (now : ℕ)
    (end_reason : FreezeEndReason) (fs : List FreezePeriod)
    → Distinct freeze_key fs
    → close_each now end_reason (freeze_ids (rows_to_close window_id reason freeze_id fs)) fs
      ≡ update_where (closes window_id reason freeze_id) (close_freeze now end_reason) fs
close_each-rows_to_close window_id reason freeze_id now end_reason fs d =
    close_each-update_where now end_reason
      (freeze_ids (rows_to_close window_id reason freeze_id fs)) fs
    ∙ update_where-eq
        (λ f. contains (freeze_ids (rows_to_close window_id reason freeze_id fs)) f.id)
        (closes window_id reason freeze_id) (close_freeze now end_reason) fs
        (closed_ids window_id reason freeze_id fs d)

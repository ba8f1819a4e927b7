-- ===== src/PenaltyEngine/FreezeSet/Expiring.antt =====
-- `_close_expired_freezes` keeps the invariant: the rows that it closes stand at the window.
use ai_coach_keyholder.Prelude.{
  ℕ, ◌≡◌, ◌∙◌, ap, true, Option, some, List, [], ◌∷◌, ok, arith, ◌==◌, ◌&&◌, Bool-cases, inl, inr,
}
use ai_coach_keyholder.Prelude.Lists.{All, find, update_where}
use ai_coach_keyholder.Prelude.Rows.{
  All-map, All-select, All-update_where, Distinct, find_self, found_rows, has_key,
}
use ai_coach_keyholder.Infrastructure.Transaction.{write_and_events}
use ai_coach_keyholder.Infrastructure.Transaction.Keeps.{
  Leaves, write_and_events_keeps, then_do_keeps, then_do_gives,
}
use ai_coach_keyholder.PenaltyEngine.Models.{FreezePeriod, FreezeReason, FreezeEndReason, expired}
use ai_coach_keyholder.PenaltyEngine.Store.{Tables}
use ai_coach_keyholder.PenaltyEngine.Freeze.{
  is_open_at, close_freeze, close_each, close_rows, close_write, close_events, close_freeze_periods,
  has_freeze_id, freeze_ids, rows_to_close,
}
use ai_coach_keyholder.PenaltyEngine.Reconcile.{
  has_expired, expired_rows, close_all, close_expired_freezes,
}
use ai_coach_keyholder.PenaltyEngine.FreezeSet.{freeze_key, open_freezes, IsFreezeSet}
use ai_coach_keyholder.PenaltyEngine.FreezeSet.Closing.{
  close_freeze_periods-IsFreezeSet, Emits-close_events,
}

module _ (P : FreezePeriod → Type 0) (now : ℕ) (end_reason : FreezeEndReason)
    (stable : (f : FreezePeriod) → P f → P (close_freeze now end_reason f)) where
  close_each-All :
      (ids : List ℕ) (fs : List FreezePeriod) → All P fs → All P (close_each now end_reason ids fs)
  unfolding close_each
  close_each-All [] fs a = a
  close_each-All (id ∷ ids) fs a =
      close_each-All ids (update_where (has_freeze_id id) (close_freeze now end_reason) fs) (
        All-update_where {P = P} (has_freeze_id id) (close_freeze now end_reason) fs
          (λ f h _. stable f h) (λ f h _. h) a)

  close_rows-All :
      (t : Tables) (window_id : ℕ) (ids : List ℕ)
      → All P t.freeze_periods
      → Leaves (λ s. All P s.freeze_periods) (close_rows window_id now end_reason ids t)
  unfolding close_rows
  close_rows-All t window_id [] a = a
  close_rows-All t window_id (id ∷ ids) a =
      elim (Bool-cases
        (open_freezes window_id (close_each now end_reason (id ∷ ids) t.freeze_periods) == 0)) [
          | inl e ↦ rw e (close_each-All (id ∷ ids) t.freeze_periods a)
          | inr e ↦ rw e (close_each-All (id ∷ ids) t.freeze_periods a)
        ]

  abbrev Holds : Tables → Type 0
  Holds s = All P s.freeze_periods

  -- What closing a freeze period does not change holds of all rows behind a close.
  pub close_freeze_periods-All :
      (t : Tables) (window_id : ℕ) (reason : FreezeReason) (freeze_id : Option ℕ)
      → All P t.freeze_periods
      → All P (close_freeze_periods window_id reason now end_reason freeze_id t).1.freeze_periods
  unfolding close_freeze_periods close_write
  close_freeze_periods-All t window_id reason freeze_id a =
      then_do_keeps Holds
        (write_and_events (close_write window_id reason now end_reason freeze_id)
          (close_events window_id reason now end_reason))
        (λ _ s. (ok tt, s)) t
        (write_and_events_keeps Holds (close_write window_id reason now end_reason freeze_id)
          (close_events window_id reason now end_reason) t a
          (close_rows-All t window_id
            (freeze_ids (rows_to_close window_id reason freeze_id t.freeze_periods)) a)
          (λ p s h. let (es, e) = Emits-close_events window_id reason now end_reason p s in rw e h))
        (λ _ s h. h)

-- The freeze period with the id of a row stands at the window.
abbrev pub Owned : ℕ → List FreezePeriod → FreezePeriod → Type 0
Owned window_id fs row =
    All (λ f. has_freeze_id row.id f ≡ true → (f.penalty_window_id == window_id) ≡ true) fs

-- Closing the first of the rows keeps the invariant, and leaves the others at the window.
pub close_row-Owned :
    (window_id now : ℕ) (row : FreezePeriod) (rows : List FreezePeriod) (t : Tables)
    → IsFreezeSet t
    → All (Owned window_id t.freeze_periods) (row ∷ rows)
    → IsFreezeSet (close_freeze_periods window_id row.reason now expired (some row.id) t).1
      × All
          (Owned window_id
            (close_freeze_periods window_id row.reason now expired
              (some row.id)
              t).1.freeze_periods)
          rows
close_row-Owned window_id now row rows t inv own = (
  close_freeze_periods-IsFreezeSet t window_id row.reason now expired (some row.id) inv
      (All-map t.freeze_periods (λ f own_row hit. ground (arith, own_row)) own.0),
  All-map rows
      (λ other h.
        close_freeze_periods-All
          (λ f. has_freeze_id other.id f ≡ true → (f.penalty_window_id == window_id) ≡ true) now
          expired (λ f g. g) t window_id row.reason (some row.id) h)
      own.1,
)

close_all-IsFreezeSet :
    (window_id now : ℕ) (rows : List FreezePeriod) (t : Tables)
    → IsFreezeSet t
    → All (Owned window_id t.freeze_periods) rows
    → IsFreezeSet (close_all window_id now rows t).1
unfolding close_all
close_all-IsFreezeSet window_id now [] t inv own = inv
close_all-IsFreezeSet window_id now (row ∷ rows) t inv own =
    then_do_gives (λ s. IsFreezeSet s × All (Owned window_id s.freeze_periods) rows) IsFreezeSet
      (close_freeze_periods window_id row.reason now expired (some row.id))
      (λ _. close_all window_id now rows) t (close_row-Owned window_id now row rows t inv own)
      (λ s h. h.0) (λ _ s h. close_all-IsFreezeSet window_id now rows s h.0 h.1)

at_window :
    (window_id now : ℕ) (f : FreezePeriod)
    → (is_open_at window_id f && has_expired now f) ≡ true
    → (f.penalty_window_id == window_id) ≡ true
at_window window_id now f h = ground arith

-- The expired rows are read before the first of them is closed, and stand at the window.
pub expired_rows-Owned :
    (window_id now : ℕ) (fs : List FreezePeriod)
    → Distinct freeze_key fs
    → All (Owned window_id fs) (expired_rows window_id now fs)
expired_rows-Owned window_id now fs d =
    All-select (Owned window_id fs) (λ f. is_open_at window_id f && has_expired now f) fs
      (All-map {P = λ row. find (has_key freeze_key row.id) fs ≡ some row} fs
        (λ row self hit.
          All-map {P = λ f. has_key freeze_key row.id f ≡ true → f ≡ row} fs
            (λ f same e.
              ap (λ (g : FreezePeriod). g.penalty_window_id == window_id) (same e)
              ∙ at_window window_id now row hit)
            (found_rows freeze_key row.id row fs d self))
        (find_self freeze_key fs d))

pub close_expired_freezes-IsFreezeSet :
    (t : Tables) (window_id now : ℕ)
    → IsFreezeSet t
    → IsFreezeSet (close_expired_freezes window_id now t).1
unfolding close_expired_freezes
close_expired_freezes-IsFreezeSet t window_id now inv =
    close_all-IsFreezeSet window_id now (expired_rows window_id now t.freeze_periods) t inv
      (expired_rows-Owned window_id now t.freeze_periods inv.freeze_ids)

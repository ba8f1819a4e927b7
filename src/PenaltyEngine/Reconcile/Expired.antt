-- ===== src/PenaltyEngine/Reconcile/Expired.antt =====
-- penalty_engine/repository.py: `_close_expired_freezes` leaves no expired freeze period open.
use ai_coach_keyholder.Prelude.{
  ℕ, ⊤, ◌≡◌, ◌∙◌, sym, ap, Bool, true, false, some, List, [], ◌∷◌, ok, arith, ◌&&◌, subst, Result,
  refl,
}
use ai_coach_keyholder.Prelude.Lists.{All, update_where}
use ai_coach_keyholder.Prelude.Rows.{All-map, All-update_where, Distinct}
use ai_coach_keyholder.Infrastructure.Transaction.{write_and_events}
use ai_coach_keyholder.Infrastructure.Transaction.Keeps.{Leaves, write_and_events_returned}
use ai_coach_keyholder.Infrastructure.Transaction.Returns.{
  then_do_returned, then_do_ok, write_and_events_ok,
}
use ai_coach_keyholder.PenaltyEngine.Models.{FreezePeriod, FreezeReason, expired}
use ai_coach_keyholder.PenaltyEngine.Store.{Tables, EngineError}
use ai_coach_keyholder.PenaltyEngine.Freeze.{
  is_open_at, close_freeze, close_each, freeze_ids, rows_to_close, close_rows, close_write,
  close_events, close_freeze_periods,
}
use ai_coach_keyholder.PenaltyEngine.Freeze.Closing.{
  contains, closes, close_each-rows_to_close, freeze_key, selected_ids,
}
use ai_coach_keyholder.PenaltyEngine.FreezeSet.{IsFreezeSet}
use ai_coach_keyholder.PenaltyEngine.FreezeSet.Closing.{close_rows_tables, Emits-close_events}
use ai_coach_keyholder.PenaltyEngine.FreezeSet.Expiring.{Owned, close_row-Owned, expired_rows-Owned}
use ai_coach_keyholder.PenaltyEngine.Reconcile.{
  has_expired, expired_rows, close_all, close_expired_freezes,
}

-- Closing freeze periods never raises.
rows_returned :
    (window_id now : ℕ) (ids : List ℕ) (t : Tables)
    → (p : List ℕ × Bool) × (s : Tables) × (close_rows window_id now expired ids t ≡ ok (p, s))
unfolding close_rows
rows_returned window_id now [] t = (([], false), t, refl)
rows_returned window_id now (id ∷ ids) t =
    (_, _, close_rows_tables t window_id now expired id ids _ refl)

closed_returned :
    (window_id now : ℕ) (reason : FreezeReason) (id : ℕ) (t : Tables)
    → (close_freeze_periods window_id reason now expired (some id) t).0 ≡ ok tt
unfolding close_freeze_periods close_write
closed_returned window_id now reason id t =
    let (p, s, wrote) =
      rows_returned window_id now
        (freeze_ids (rows_to_close window_id reason (some id) t.freeze_periods)) t in
    let (es, emitted) = Emits-close_events window_id reason now expired p s in
    let write = close_write window_id reason now expired (some id) in
    let events = close_events window_id reason now expired in
    ap (λ (r : Result EngineError ⊤ × Tables). r.0)
      (then_do_ok (write_and_events write events) (λ _ s. (ok tt, s))
        (write_and_events_ok write events wrote emitted))

-- A freeze period of the window that is open and has expired.
abbrev pub is_overdue : ℕ → ℕ → FreezePeriod → Bool
is_overdue window_id now f = is_open_at window_id f && has_expired now f

-- The overdue rows are among those that are still to be closed.
abbrev Due : ℕ → ℕ → List ℕ → FreezePeriod → Type 0
Due window_id now ids f = is_overdue window_id now f ≡ true → contains ids f.id ≡ true

module _ (window_id now : ℕ) (ids : List ℕ) where
  abbrev AllDue : Tables → Type 0
  AllDue s = All (Due window_id now ids) s.freeze_periods

  module _ (t : Tables) (reason : FreezeReason) (id : ℕ)
      (distinct : Distinct freeze_key t.freeze_periods)
      (due : All (Due window_id now (id ∷ ids)) t.freeze_periods) where
    abbrev hits : FreezePeriod → Bool
    hits = closes window_id reason (some id)

    closed-Due :
        All (Due window_id now ids) (update_where hits (close_freeze now expired) t.freeze_periods)
    closed-Due =
        All-update_where {P = Due window_id now (id ∷ ids)} hits (close_freeze now expired)
          t.freeze_periods (λ f h hit o. ground arith) (λ f h miss o. ground (arith, h o)) due

    same_rows :
        (ids' : List ℕ)
        → freeze_ids (rows_to_close window_id reason (some id) t.freeze_periods) ≡ ids'
        → close_each now expired ids' t.freeze_periods
          ≡ update_where hits (close_freeze now expired) t.freeze_periods
    same_rows ids' e =
        ap (λ l. close_each now expired l t.freeze_periods) (sym e)
        ∙ close_each-rows_to_close window_id reason (some id) now expired t.freeze_periods distinct

    rows_due :
        (ids' : List ℕ)
        → freeze_ids (rows_to_close window_id reason (some id) t.freeze_periods) ≡ ids'
        → Leaves AllDue (close_rows window_id now expired ids' t)
    unfolding close_rows close_each
    rows_due [] e = subst (All (Due window_id now ids)) (sym (same_rows [] e)) closed-Due
    rows_due (i ∷ is) e =
        rw
          (close_rows_tables t window_id now expired i is
            (update_where hits (close_freeze now expired) t.freeze_periods) (same_rows (i ∷ is) e))
          closed-Due

    write_due : Leaves AllDue (close_write window_id reason now expired (some id) t)
    unfolding close_write
    write_due =
        rows_due (freeze_ids (rows_to_close window_id reason (some id) t.freeze_periods)) refl

    close_due :
        (close_freeze_periods window_id reason now expired (some id) t).0 ≡ ok tt
        → AllDue (close_freeze_periods window_id reason now expired (some id) t).1
    unfolding close_freeze_periods
    close_due h =
        let m =
          write_and_events (close_write window_id reason now expired (some id))
            (close_events window_id reason now expired) in
        let (p, first, returned) = then_do_returned m (λ _ s. (ok tt, s)) t h in
        subst (λ r. AllDue r.1) (sym returned)
          (write_and_events_returned AllDue (close_write window_id reason now expired (some id))
            (close_events window_id reason now expired) t write_due
            (λ p s a. let (es, e) = Emits-close_events window_id reason now expired p s in rw e a)
            first)

close_all_due :
    (window_id now : ℕ) (rows : List FreezePeriod) (t : Tables)
    → IsFreezeSet t
    → All (Owned window_id t.freeze_periods) rows
    → AllDue window_id now (freeze_ids rows) t
    → (close_all window_id now rows t).0 ≡ ok tt
    → AllDue window_id now [] (close_all window_id now rows t).1
unfolding close_all
close_all_due window_id now [] t inv own due h = due
close_all_due window_id now (row ∷ rows) t inv own due h =
    let m = close_freeze_periods window_id row.reason now expired (some row.id) in
    let (u, first, returned) = then_do_returned m (λ _. close_all window_id now rows) t h in
    let (inv', own') = close_row-Owned window_id now row rows t inv own in
    subst (λ r. AllDue window_id now [] r.1) (sym returned)
      (close_all_due window_id now rows (m t).1 inv' own'
        (close_due window_id now (freeze_ids rows) t row.reason row.id inv.freeze_ids due first)
        (ap (λ r. r.0) (sym returned) ∙ h))

close_all_returned :
    (window_id now : ℕ) (rows : List FreezePeriod) (t : Tables)
    → (close_all window_id now rows t).0 ≡ ok tt
unfolding close_all
close_all_returned window_id now [] t = refl
close_all_returned window_id now (row ∷ rows) t =
    let m = close_freeze_periods window_id row.reason now expired (some row.id) in
    ap (λ (r : Result EngineError ⊤ × Tables). r.0)
      (then_do_ok m (λ _. close_all window_id now rows)
        (ap (λ r. (r, (m t).1)) (closed_returned window_id now row.reason row.id t)))
    ∙ close_all_returned window_id now rows (m t).1

-- `_close_expired_freezes` returns, and leaves no expired freeze period of the window open.
pub close_expired_freezes-none_overdue :
    (window_id now : ℕ) (t : Tables)
    → IsFreezeSet t
    → ((close_expired_freezes window_id now t).0 ≡ ok tt)
      × All
          (λ f. is_overdue window_id now f ≡ false)
          (close_expired_freezes window_id now t).1.freeze_periods
unfolding close_expired_freezes
close_expired_freezes-none_overdue window_id now t inv =
    let rows = expired_rows window_id now t.freeze_periods in
    let returned = close_all_returned window_id now rows t in
    (
      returned,
      All-map {P = Due window_id now []} (close_all window_id now rows t).1.freeze_periods
          (λ f due. ground (arith, due))
          (close_all_due window_id now rows t inv
            (expired_rows-Owned window_id now t.freeze_periods inv.freeze_ids)
            (All-map t.freeze_periods (λ f same o. same ∙ o)
              (selected_ids (is_overdue window_id now) t.freeze_periods inv.freeze_ids))
            returned),
    )

-- ===== src/PenaltyEngine/FreezeSet/Closing.antt =====
-- `_close_freeze_periods_in_transaction` keeps the invariant, for rows of its own window.
use ai_coach_keyholder.Prelude.{
  ℕ, ◌≡◌, ◌≢◌, refl, sym, ◌∙◌, ap, Bool, true, false, Option, none, some, List, [], ◌∷◌, ⊤, ok,
  arith, ◌==◌, ==_iff, if◌then◌else◌, Bool-cases, inl, inr,
}
use ai_coach_keyholder.Prelude.Lists.{All, update_where, select}
use ai_coach_keyholder.Prelude.Rows.{
  All-map, All-all, All-update_where, count_where-update_where, Distinct, Distinct-update_where,
}
use ai_coach_keyholder.Infrastructure.Transaction.Keeps.{
  Leaves, write_and_events_keeps, then_do_keeps,
}
use ai_coach_keyholder.Infrastructure.Transaction.{write_and_events}
use ai_coach_keyholder.PenaltyEngine.Models.{
  PenaltyWindow, frozen, FreezePeriod, FreezeReason, FreezeEndReason, resumed_normally,
}
use ai_coach_keyholder.PenaltyEngine.Store.{Tables, Action, has_id, is_open}
use ai_coach_keyholder.PenaltyEngine.Store.Events.{Emits, Emits-pure, Emits-then, emits_rules}
use ai_coach_keyholder.PenaltyEngine.Freeze.{
  is_open_at, close_freeze, close_each, freeze_ids as ids_of, rows_to_close, restart_countdown,
  for_each, close_rows, close_write, close_events, close_freeze_periods, resume,
}
use ai_coach_keyholder.PenaltyEngine.Freeze.Closing.{closes, close_each-rows_to_close}
use ai_coach_keyholder.PenaltyEngine.FreezeSet.{
  window_key, freeze_key, open_freezes, Agrees, IsBelow, IsFreezeSet, Emits-IsFreezeSet,
}
use ai_coach_keyholder.PenaltyEngine.FreezeSet.Freezing.{fresh-update_where}

-- Every row to close is an open one of the window.
abbrev pub AreOpenAt : ℕ → (FreezePeriod → Bool) → List FreezePeriod → Type 0
AreOpenAt window_id test fs = All (λ f. test f ≡ true → is_open_at window_id f ≡ true) fs

pub closes_reason :
    (window_id : ℕ) (reason : FreezeReason) (fs : List FreezePeriod)
    → AreOpenAt window_id (closes window_id reason none) fs
closes_reason window_id reason fs = All-all fs (λ f h. ground arith)

select_none :
    (test : FreezePeriod → Bool) (window_id : ℕ) (fs : List FreezePeriod)
    → AreOpenAt window_id test fs
    → open_freezes window_id fs ≡ 0
    → select test fs ≡ []
select_none test window_id [] a h = refl
select_none test window_id (f ∷ fs) a h = ground (arith, a.0, select_none test window_id fs a.1)

rows_none :
    (window_id : ℕ) (reason : FreezeReason) (freeze_id : Option ℕ) (fs : List FreezePeriod)
    → AreOpenAt window_id (closes window_id reason freeze_id) fs
    → open_freezes window_id fs ≡ 0
    → rows_to_close window_id reason freeze_id fs ≡ []
unfolding rows_to_close
rows_none window_id reason none fs a h =
    rw (select_none (closes window_id reason none) window_id fs a h)
rows_none window_id reason (some id) fs a h =
    select_none (closes window_id reason (some id)) window_id fs a h

module _ (t : Tables) (inv : IsFreezeSet t) (window_id : ℕ) (test : FreezePeriod → Bool) (now : ℕ)
    (end_reason : FreezeEndReason) (own : AreOpenAt window_id test t.freeze_periods)
    (some_open : open_freezes window_id t.freeze_periods ≢ 0) where
  abbrev closed : List FreezePeriod
  closed = update_where test (close_freeze now end_reason) t.freeze_periods

  abbrev resumed : List PenaltyWindow
  resumed =
      if open_freezes window_id closed == 0
      then update_where (has_id window_id) (restart_countdown now) t.penalty_windows
      else t.penalty_windows

  abbrev after_close : Tables
  after_close = record t { freeze_periods = closed; penalty_windows = resumed }

  others : (j : ℕ) → j ≢ window_id → open_freezes j closed ≡ open_freezes j t.freeze_periods
  others j ne =
      count_where-update_where (is_open_at j) test (close_freeze now end_reason) t.freeze_periods
        (All-map t.freeze_periods (λ f open_here hit. ground (arith, open_here hit)) own)

  frozen_row :
      (x : PenaltyWindow)
      → Agrees t.freeze_periods x
      → has_id window_id x ≡ true
      → (x.status ≡ frozen) × (x.active_period_started_at ≡ none)
  frozen_row x a hit = ground (arith, ==_iff x.id window_id)

  miss :
      (x : PenaltyWindow) → Agrees t.freeze_periods x → has_id window_id x ≡ false → Agrees closed x
  miss x a other = rw (others x.id (λ e. cc ((==_iff x.id window_id).1 e))) a

  restarted :
      open_freezes window_id closed ≡ 0
      → (x : PenaltyWindow) → Agrees t.freeze_periods x
      → has_id window_id x ≡ true
      → Agrees closed (restart_countdown now x)
  restarted none_left x a hit =
      (ap (λ j. open_freezes j closed) ((==_iff x.id window_id).0 hit) ∙ none_left, refl)

  still_frozen :
      open_freezes window_id closed ≢ 0
      → (x : PenaltyWindow) → Agrees t.freeze_periods x
      → Agrees closed x
  still_frozen left x a = elim (Bool-cases (has_id window_id x)) [
    | inl hit ↦
        let (is_frozen, stopped) = frozen_row x a hit in
        let same = ap (λ j. open_freezes j closed) ((==_iff x.id window_id).0 hit) in
        rw is_frozen (omega (arith, same), stopped)
    | inr other ↦ miss x a other
  ]

  distinct : Distinct freeze_key closed
  distinct =
      Distinct-update_where freeze_key test (close_freeze now end_reason) t.freeze_periods
        (λ f. refl) inv.freeze_ids

  freeze_fresh : All (IsBelow t.next_id) closed
  freeze_fresh =
      All-update_where {P = IsBelow t.next_id} test (close_freeze now end_reason) t.freeze_periods
        (λ f h _. h) (λ f h _. h) inv.freezes_fresh

  restart-open :
      All
        (λ x. has_id window_id x ≡ true → is_open (restart_countdown now x) ≡ is_open x)
        t.penalty_windows
  restart-open =
      All-map t.penalty_windows (λ x a hit. let (e, _) = frozen_row x a hit in rw e) inv.agrees

  pub after_close-IsFreezeSet : IsFreezeSet after_close
  after_close-IsFreezeSet = elim (Bool-cases (open_freezes window_id closed == 0)) [
    | inl e ↦ rw e (record {
      window_ids =
          Distinct-update_where window_key (has_id window_id) (restart_countdown now)
            t.penalty_windows (λ x. refl) inv.window_ids;
      windows_fresh =
          fresh-update_where t.next_id t.next_id (has_id window_id) (restart_countdown now)
            t.penalty_windows (omega arith) (λ x. refl) inv.windows_fresh;
      freeze_ids = distinct;
      freezes_fresh = freeze_fresh;
      one_open =
          rw
            (count_where-update_where is_open (has_id window_id) (restart_countdown now)
              t.penalty_windows restart-open)
            inv.one_open;
      agrees =
          All-update_where {P = Agrees t.freeze_periods} (has_id window_id) (restart_countdown now)
            t.penalty_windows (restarted ((==_iff _ 0).0 e)) miss inv.agrees;
    })
    | inr e ↦ rw e (record {
      window_ids = inv.window_ids;
      windows_fresh = inv.windows_fresh;
      freeze_ids = distinct;
      freezes_fresh = freeze_fresh;
      one_open = inv.one_open;
      agrees = All-map t.penalty_windows (still_frozen (λ z. cc ((==_iff _ 0).1 z))) inv.agrees;
    })
  ]

-- What closing some rows leaves, in terms of the freeze periods behind it.
pub close_rows_tables :
    (t : Tables) (window_id now : ℕ) (end_reason : FreezeEndReason) (id : ℕ) (ids : List ℕ)
    (fs : List FreezePeriod)
    → close_each now end_reason (id ∷ ids) t.freeze_periods ≡ fs
    → close_rows window_id now end_reason (id ∷ ids) t
      ≡ ok (
        (id ∷ ids, open_freezes window_id fs == 0),
        record t {
          freeze_periods = fs;
          penalty_windows =
              if open_freezes window_id fs == 0
              then update_where (has_id window_id) (restart_countdown now) t.penalty_windows
              else t.penalty_windows;
        },
      )
unfolding close_rows
close_rows_tables t window_id now end_reason id ids fs e =
    rw e (elim (Bool-cases (open_freezes window_id fs == 0)) [
      | inl none_left ↦ rw none_left
      | inr left ↦ rw left
    ])

-- The rows that the ids name are closed, and the window is active again once none is left open.
close_rows-IsFreezeSet :
    (t : Tables) (window_id : ℕ) (reason : FreezeReason) (now : ℕ) (end_reason : FreezeEndReason)
    (freeze_id : Option ℕ) (ids : List ℕ)
    → IsFreezeSet t
    → AreOpenAt window_id (closes window_id reason freeze_id) t.freeze_periods
    → ids_of (rows_to_close window_id reason freeze_id t.freeze_periods) ≡ ids
    → Leaves IsFreezeSet (close_rows window_id now end_reason ids t)
close_rows-IsFreezeSet t window_id reason now end_reason freeze_id [] inv own e =
    unfold close_rows in inv
close_rows-IsFreezeSet t window_id reason now end_reason freeze_id (id ∷ ids) inv own e =
    let test = closes window_id reason freeze_id in
    rw
      (close_rows_tables t window_id now end_reason id ids
        (update_where test (close_freeze now end_reason) t.freeze_periods)
        (ap (λ l. close_each now end_reason l t.freeze_periods) (sym e)
          ∙ close_each-rows_to_close window_id reason freeze_id now end_reason t.freeze_periods
              inv.freeze_ids))
      (after_close-IsFreezeSet t inv window_id test now end_reason own
        (λ z. cc (e, ap ids_of (rows_none window_id reason freeze_id t.freeze_periods own z))))

close_write-IsFreezeSet :
    (t : Tables) (window_id : ℕ) (reason : FreezeReason) (now : ℕ) (end_reason : FreezeEndReason)
    (freeze_id : Option ℕ)
    → IsFreezeSet t
    → AreOpenAt window_id (closes window_id reason freeze_id) t.freeze_periods
    → Leaves IsFreezeSet (close_write window_id reason now end_reason freeze_id t)
unfolding close_write
close_write-IsFreezeSet t window_id reason now end_reason freeze_id inv own =
    close_rows-IsFreezeSet t window_id reason now end_reason freeze_id
      (ids_of (rows_to_close window_id reason freeze_id t.freeze_periods)) inv own refl

Emits-for_each :
    (f : ℕ → Action ⊤) (ids : List ℕ) → ((id : ℕ) → Emits (f id)) → Emits (for_each ids f)
Emits-for_each f [] h = Emits-pure
Emits-for_each f (id ∷ ids) h = Emits-then (f id) (for_each ids f) (h id) (Emits-for_each f ids h)

pub Emits-close_events :
    (window_id : ℕ) (reason : FreezeReason) (now : ℕ) (end_reason : FreezeEndReason)
    (p : List ℕ × Bool)
    → Emits (close_events window_id reason now end_reason p)
unfolding close_events
Emits-close_events window_id reason now end_reason (ids, again) =
    search (emits_rules, Emits-for_each)

-- Closing freeze periods of a window keeps the invariant.
pub close_freeze_periods-IsFreezeSet :
    (t : Tables) (window_id : ℕ) (reason : FreezeReason) (now : ℕ) (end_reason : FreezeEndReason)
    (freeze_id : Option ℕ)
    → IsFreezeSet t
    → AreOpenAt window_id (closes window_id reason freeze_id) t.freeze_periods
    → IsFreezeSet (close_freeze_periods window_id reason now end_reason freeze_id t).1
unfolding close_freeze_periods
close_freeze_periods-IsFreezeSet t window_id reason now end_reason freeze_id inv own =
    then_do_keeps IsFreezeSet
      (write_and_events (close_write window_id reason now end_reason freeze_id)
        (close_events window_id reason now end_reason))
      (λ _ s. (ok tt, s)) t
      (write_and_events_keeps IsFreezeSet (close_write window_id reason now end_reason freeze_id)
        (close_events window_id reason now end_reason) t inv
        (close_write-IsFreezeSet t window_id reason now end_reason freeze_id inv own)
        (λ p s h.
          Emits-IsFreezeSet (close_events window_id reason now end_reason p) s
            (Emits-close_events window_id reason now end_reason p) h))
      (λ a s h. h)

-- Resuming a window from a reason keeps the invariant, whichever window and reason are given.
pub resume-IsFreezeSet :
    (t : Tables) (window_id : ℕ) (reason : FreezeReason) (now : ℕ)
    → IsFreezeSet t
    → IsFreezeSet (resume window_id reason now t).1
unfolding resume
resume-IsFreezeSet t window_id reason now inv =
    close_freeze_periods-IsFreezeSet t window_id reason now resumed_normally none inv
      (closes_reason window_id reason t.freeze_periods)

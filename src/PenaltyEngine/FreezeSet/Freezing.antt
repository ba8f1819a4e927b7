-- ===== src/PenaltyEngine/FreezeSet/Freezing.antt =====
-- `_freeze_in_transaction` keeps the invariant, for a window that is not completed.
use ai_coach_keyholder.Prelude.{
  ℕ, suc, ◌≤◌, ◌<◌, ◌≡◌, ◌≢◌, ◌⊎◌, refl, Bool, true, false, some, List, ◌∷◌, ok, err, arith,
  if◌then◌else◌, Bool-cases, Option-cases, inl, inr, ==_iff,
}
use ai_coach_keyholder.Prelude.Lists.{All, exists, update_where}
use ai_coach_keyholder.Prelude.Rows.{
  All-map, All-find, All-both, All-update_where, count_where-update_where, Distinct-update_where,
  exists_fresh, found_rows, has_key,
}
use ai_coach_keyholder.PenaltyEngine.Models.{PenaltyWindow, completed, FreezePeriod, FreezeReason}
use ai_coach_keyholder.PenaltyEngine.Window.{active_hours_elapsed}
use ai_coach_keyholder.PenaltyEngine.Store.{Tables, integrity_error, has_id, find_window, is_open}
use ai_coach_keyholder.PenaltyEngine.Freeze.{
  is_active, freeze_in_transaction, open_freeze, freeze_write, freeze_events, FreezeRequest,
  new_freeze, stop_countdown,
}
use ai_coach_keyholder.PenaltyEngine.Store.Events.{Emits, emits_rules}
use ai_coach_keyholder.Infrastructure.Transaction.Keeps.{Leaves, write_and_events_keeps}
use ai_coach_keyholder.PenaltyEngine.FreezeSet.{
  Emits-IsFreezeSet, window_key, freeze_key, Agrees, IsBelow, IsFreezeSet,
}

-- A window's row after an update that keeps its id is as new as before.
pub fresh-update_where :
    (n m : ℕ) (q : PenaltyWindow → Bool) (f : PenaltyWindow → PenaltyWindow)
    (ws : List PenaltyWindow)
    → n ≤ m
    → ((w : PenaltyWindow) → (f w).id ≡ w.id)
    → All (λ w. w.id < n) ws
    → All (λ w. w.id < m) (update_where q f ws)
fresh-update_where n m q f ws le keeps =
    All-update_where {P = λ w. w.id < n} q f ws (λ w h _. omega (arith, keeps w))
      (λ w h _. omega arith)

module _ (t : Tables) (inv : IsFreezeSet t) (window : PenaltyWindow) (window_id now : ℕ)
    (r : FreezeRequest) (found : find_window window_id t.penalty_windows ≡ some window)
    (not_completed : window.status ≢ completed) where
  abbrev stopped : PenaltyWindow → PenaltyWindow
  stopped = stop_countdown (active_hours_elapsed window now)

  abbrev pub frozen_windows : List PenaltyWindow
  frozen_windows =
      if is_active window
      then update_where (has_id window_id) stopped t.penalty_windows
      else t.penalty_windows

  abbrev pub after_freeze : Tables
  after_freeze = record t {
    penalty_windows = frozen_windows;
    freeze_periods = new_freeze t.next_id window_id now r ∷ t.freeze_periods;
    next_id = suc t.next_id;
  }

  rows : All (λ x. has_id window_id x ≡ true → x ≡ window) t.penalty_windows
  rows = found_rows window_key window_id window t.penalty_windows inv.window_ids found

  -- What is known of each row: it agrees with the freezes, and it is the one with the id or another.
  abbrev Known : PenaltyWindow → Type 0
  Known x = Agrees t.freeze_periods x × (has_id window_id x ≡ true → x ≡ window)

  known : All Known t.penalty_windows
  known = All-both t.penalty_windows (λ x a b. (a, b)) inv.agrees rows

  hit_active :
      is_active window ≡ true
      → (x : PenaltyWindow) → Known x
      → has_id window_id x ≡ true
      → Agrees after_freeze.freeze_periods (stopped x)
  hit_active active_window x k hit = ground (arith, ==_iff x.id window_id)

  hit_frozen :
      is_active window ≡ false
      → (x : PenaltyWindow) → Known x
      → Agrees after_freeze.freeze_periods x
  hit_frozen frozen_window x k = ground (arith, ==_iff x.id window_id, k.1)

  miss :
      (x : PenaltyWindow)
      → Known x
      → has_id window_id x ≡ false
      → Agrees after_freeze.freeze_periods x
  miss x k other = ground arith

  below : All (λ w. w.id < suc t.next_id) t.penalty_windows
  below =
      All-map {P = λ w. w.id < t.next_id} t.penalty_windows (λ w h. omega arith) inv.windows_fresh

  -- The id that finds a window is below the next one.
  found-lt : window_id < t.next_id
  found-lt =
      let (lt, same) =
        All-find (λ w. w.id < t.next_id) (has_id window_id) t.penalty_windows window
          inv.windows_fresh found in
      omega (arith, (==_iff window.id window_id).0 same)

  freezes : All (IsBelow (suc t.next_id)) t.freeze_periods
  freezes = All-map {P = IsBelow t.next_id} t.freeze_periods (λ f h. omega arith) inv.freezes_fresh

  new_id_is_fresh : exists (has_key freeze_key t.next_id) t.freeze_periods ≡ false
  new_id_is_fresh =
      exists_fresh freeze_key t.next_id t.freeze_periods
        (All-map {P = IsBelow t.next_id} t.freeze_periods (λ f h. h.0) inv.freezes_fresh)

  stopped-open :
      is_active window ≡ true
      → All (λ x. has_id window_id x ≡ true → is_open (stopped x) ≡ is_open x) t.penalty_windows
  stopped-open active_window =
      All-map t.penalty_windows (λ x same hit. ground (arith, same hit)) rows

  pub after_freeze-IsFreezeSet : IsFreezeSet after_freeze
  after_freeze-IsFreezeSet = elim (Bool-cases (is_active window)) [
    | inl e ↦ rw e (record {
      window_ids =
          Distinct-update_where window_key (has_id window_id) stopped t.penalty_windows (λ x. refl)
            inv.window_ids;
      windows_fresh =
          fresh-update_where t.next_id (suc t.next_id) (has_id window_id) stopped t.penalty_windows
            (omega arith) (λ x. refl) inv.windows_fresh;
      freeze_ids = (new_id_is_fresh, inv.freeze_ids);
      freezes_fresh = ((omega arith, omega (arith, found-lt)), freezes);
      one_open =
          rw
            (count_where-update_where is_open (has_id window_id) stopped t.penalty_windows
              (stopped-open e))
            inv.one_open;
      agrees =
          All-update_where {P = Known} (has_id window_id) stopped t.penalty_windows (hit_active e)
            miss known;
    })
    | inr e ↦ rw e (record {
      window_ids = inv.window_ids;
      windows_fresh = below;
      freeze_ids = (new_id_is_fresh, inv.freeze_ids);
      freezes_fresh = ((omega arith, omega (arith, found-lt)), freezes);
      one_open = inv.one_open;
      agrees = All-map {P = Known} t.penalty_windows (hit_frozen e) known;
    })
  ]

open_freeze_tables :
    (t : Tables) (window : PenaltyWindow) (window_id now : ℕ) (r : FreezeRequest)
    → (open_freeze window window_id now r t ≡ err integrity_error)
      ⊎ (open_freeze window window_id now r t
          ≡ ok (
            (new_freeze t.next_id window_id now r, is_active window),
            record t {
              penalty_windows =
                  if is_active window
                  then update_where
                      (has_id window_id)
                      (stop_countdown (active_hours_elapsed window now))
                      t.penalty_windows
                  else t.penalty_windows;
              freeze_periods = new_freeze t.next_id window_id now r ∷ t.freeze_periods;
              next_id = suc t.next_id;
            },
          ))
unfolding open_freeze
open_freeze_tables t window window_id now r = ground arith

freeze_write-IsFreezeSet :
    (t : Tables) (window_id now : ℕ) (r : FreezeRequest)
    → IsFreezeSet t
    → ((w : PenaltyWindow)
        → find_window window_id t.penalty_windows ≡ some w
        → w.status ≢ completed)
    → Leaves IsFreezeSet (freeze_write window_id now r t)
unfolding freeze_write
freeze_write-IsFreezeSet t window_id now r inv not_completed =
    elim (Option-cases (find_window window_id t.penalty_windows)) [
      | inl missing ↦ rw (missing, freeze_write) tt
      | inr (w, found) ↦
          rw (found, freeze_write)
            (elim (open_freeze_tables t w window_id now r) [
              | inl refused ↦ rw refused tt
              | inr opened ↦
                  rw opened
                    (after_freeze-IsFreezeSet t inv w window_id now r found (not_completed w found))
            ])
    ]

Emits-freeze_events :
    (window_id now : ℕ) (reason : FreezeReason) (emergency : Bool) (p : FreezePeriod × Bool)
    → Emits (freeze_events window_id now reason emergency p)
unfolding freeze_events
Emits-freeze_events window_id now reason emergency (fp, was_first) = search emits_rules

-- A freeze of a window that is not completed keeps the invariant, on every path: the window may be
-- unknown, the CHECK constraint or the unique index may refuse the row, and the freeze may be the
-- first or a further one.
pub freeze_in_transaction-IsFreezeSet :
    (t : Tables) (window_id now : ℕ) (r : FreezeRequest) (emergency : Bool)
    → IsFreezeSet t
    → ((w : PenaltyWindow)
        → find_window window_id t.penalty_windows ≡ some w
        → w.status ≢ completed)
    → IsFreezeSet (freeze_in_transaction window_id now r emergency t).1
unfolding freeze_in_transaction
freeze_in_transaction-IsFreezeSet t window_id now r emergency inv not_completed =
    write_and_events_keeps IsFreezeSet (freeze_write window_id now r)
      (freeze_events window_id now r.reason emergency) t inv
      (freeze_write-IsFreezeSet t window_id now r inv not_completed)
      (λ p s h.
        Emits-IsFreezeSet (freeze_events window_id now r.reason emergency p) s
          (Emits-freeze_events window_id now r.reason emergency p) h)

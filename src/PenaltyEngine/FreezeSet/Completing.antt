-- ===== src/PenaltyEngine/FreezeSet/Completing.antt =====
-- `ensure_current_state` keeps the invariant: its expiries, and the completion behind them.
use ai_coach_keyholder.Prelude.{
  ℕ, ◌≡◌, refl, Bool, true, none, some, List, ok, arith, ◌&&◌, Bool-cases, Option-cases, inl, inr,
}
use ai_coach_keyholder.Prelude.Lists.{All, update_where, select}
use ai_coach_keyholder.Prelude.Rows.{
  All-map, All-all, All-both, All-select, All-latest, All-update_where, count_where-update_where_le,
  Distinct, Distinct-update_where, find_self, found_rows,
}
use ai_coach_keyholder.Infrastructure.TimeFormat.{iso_key}
use ai_coach_keyholder.Infrastructure.Transaction.Keeps.{write_and_events_keeps, then_do_keeps}
use ai_coach_keyholder.PenaltyEngine.Models.{PenaltyWindow, countdown_complete}
use ai_coach_keyholder.PenaltyEngine.Window.{is_complete}
use ai_coach_keyholder.PenaltyEngine.Store.{
  Tables, has_id, is_open, find_open_window, find_window, update_window, write_event,
  penalty_window_completed,
}
use ai_coach_keyholder.PenaltyEngine.Store.Events.{Emits-write_event}
use ai_coach_keyholder.PenaltyEngine.Freeze.{is_active}
use ai_coach_keyholder.PenaltyEngine.Reconcile.{
  close_expired_freezes, close_window, complete_window, settle, ensure_current_state,
}
use ai_coach_keyholder.PenaltyEngine.FreezeSet.{window_key, Agrees, IsFreezeSet, Emits-IsFreezeSet}
use ai_coach_keyholder.PenaltyEngine.FreezeSet.Freezing.{fresh-update_where}
use ai_coach_keyholder.PenaltyEngine.FreezeSet.Expiring.{close_expired_freezes-IsFreezeSet}

-- What holds of every window, and that it is open, holds of the open window that is found.
pub find_open_window-All :
    (P : PenaltyWindow → Type 0) (ws : List PenaltyWindow) (w : PenaltyWindow)
    → All P ws
    → find_open_window ws ≡ some w
    → P w × (is_open w ≡ true)
unfolding find_open_window
find_open_window-All P ws w a found =
    let (p, o) =
      All-latest (λ x. P x × (is_open x ≡ true)) (λ x. iso_key x.created_at) (select is_open ws) w
        (All-select (λ x. P x × (is_open x ≡ true)) is_open ws (All-map ws (λ x h o. (h, o)) a))
        found in
    (p, o)

-- The open window that is found is the one with its id.
pub find_open_window-find :
    (ws : List PenaltyWindow) (w : PenaltyWindow)
    → Distinct window_key ws
    → find_open_window ws ≡ some w
    → find_window w.id ws ≡ some w
find_open_window-find ws w d found =
    (find_open_window-All (λ x. find_window x.id ws ≡ some x) ws w (find_self window_key ws d)
      found).0

module _ (t : Tables) (inv : IsFreezeSet t) (window : PenaltyWindow) (now : ℕ)
    (found : find_window window.id t.penalty_windows ≡ some window)
    (is_running : is_active window ≡ true) where
  rows : All (λ x. has_id window.id x ≡ true → x ≡ window) t.penalty_windows
  rows = found_rows window_key window.id window t.penalty_windows inv.window_ids found

  abbrev Known : PenaltyWindow → Type 0
  Known x = Agrees t.freeze_periods x × (has_id window.id x ≡ true → x ≡ window)

  hit :
      (x : PenaltyWindow)
      → Known x
      → has_id window.id x ≡ true
      → Agrees t.freeze_periods (close_window now x)
  hit x k e = ground (arith, k.1 e)

  completed-IsFreezeSet : IsFreezeSet (record t {
    penalty_windows = update_where (has_id window.id) (close_window now) t.penalty_windows;
  })
  completed-IsFreezeSet = record {
    window_ids =
        Distinct-update_where window_key (has_id window.id) (close_window now) t.penalty_windows
          (λ x. refl) inv.window_ids;
    windows_fresh =
        fresh-update_where t.next_id t.next_id (has_id window.id) (close_window now)
          t.penalty_windows (omega arith) (λ x. refl) inv.windows_fresh;
    freeze_ids = inv.freeze_ids;
    freezes_fresh = inv.freezes_fresh;
    one_open = omega (
      arith,
      inv.one_open,
      count_where-update_where_le is_open (has_id window.id) (close_window now) t.penalty_windows
          (All-all t.penalty_windows (λ x e. refl)),
    );
    agrees =
        All-update_where {P = Known} (has_id window.id) (close_window now) t.penalty_windows hit
          (λ x k e. k.0) (All-both t.penalty_windows (λ x a b. (a, b)) inv.agrees rows);
  }

  pub complete_window-IsFreezeSet : IsFreezeSet (complete_window window.id now t).1
  unfolding complete_window
  complete_window-IsFreezeSet =
      write_and_events_keeps IsFreezeSet (update_window window.id (close_window now))
        (λ _. write_event now (penalty_window_completed window.id countdown_complete)) t inv
        completed-IsFreezeSet
        (λ _ s h.
          Emits-IsFreezeSet
            (write_event now (penalty_window_completed window.id countdown_complete)) s
            (Emits-write_event now (penalty_window_completed window.id countdown_complete)) h)

is_active_of_and : (a b : Bool) → (a && b) ≡ true → a ≡ true
is_active_of_and a b h = ground arith

pub settle-IsFreezeSet : (t : Tables) (now : ℕ) → IsFreezeSet t → IsFreezeSet (settle now t).1
settle-IsFreezeSet t now inv = elim (Option-cases (find_open_window t.penalty_windows)) [
  | inl none_open ↦ unfold settle in rw (none_open, settle) inv
  | inr (w, found) ↦ elim (Bool-cases (is_active w && is_complete w now)) [
    | inl due ↦
        unfold settle in
        rw (found, settle)
          (rw due (
            then_do_keeps IsFreezeSet (complete_window w.id now) (λ _ s. (ok none, s)) t
              (complete_window-IsFreezeSet t inv w now
                (find_open_window-find t.penalty_windows w inv.window_ids found)
                (is_active_of_and (is_active w) (is_complete w now) due))
              (λ _ s h. h)))
    | inr not_due ↦ unfold settle in rw (found, settle) (rw not_due inv)
  ]
]

-- Bringing the state up to an instant keeps the invariant, with any number of expired freezes.
pub ensure_current_state-IsFreezeSet :
    (t : Tables) (now : ℕ) → IsFreezeSet t → IsFreezeSet (ensure_current_state now t).1
unfolding ensure_current_state
ensure_current_state-IsFreezeSet t now inv =
    elim (Option-cases (find_open_window t.penalty_windows)) [
      | inl none_open ↦ rw (none_open, ensure_current_state) inv
      | inr (w, found) ↦
          rw (found, ensure_current_state)
            (then_do_keeps IsFreezeSet (close_expired_freezes w.id now) (λ _. settle now) t
              (close_expired_freezes-IsFreezeSet t w.id now inv)
              (λ _ s h. settle-IsFreezeSet s now h))
    ]

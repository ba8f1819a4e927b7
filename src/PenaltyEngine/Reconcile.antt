-- ===== src/PenaltyEngine/Reconcile.antt =====
-- penalty_engine/repository.py: expired freezes, completion, and the state as of an instant.
pub mod Settled
pub mod Expired
use ai_coach_keyholder.Prelude.{
  ℕ, ⊤, Bool, false, Option, none, some, List, [], ◌∷◌, ok, err, ◌&&◌, if◌then◌else◌,
}
use ai_coach_keyholder.Prelude.Lists.{select}
use ai_coach_keyholder.Infrastructure.TimeFormat.{iso_leb}
use ai_coach_keyholder.Infrastructure.Transaction.{
  Method, ◌then_do◌, write_and_events, apply_transition,
}
use ai_coach_keyholder.PenaltyEngine.Models.{
  PenaltyWindow, completed, FreezePeriod, expired, countdown_complete,
}
use ai_coach_keyholder.PenaltyEngine.Window.{is_complete}
use ai_coach_keyholder.PenaltyEngine.Store.{
  Tables, EngineError, write_event, find_open_window, update_window, penalty_window_completed,
}
use ai_coach_keyholder.PenaltyEngine.Freeze.{is_active, is_open_at, close_freeze_periods}

-- expires_at IS NOT NULL AND expires_at <= ?
abbrev pub has_expired : ℕ → FreezePeriod → Bool
has_expired now f = elim f.expires_at [ none ↦ false | some t ↦ iso_leb t now ]

abbrev pub expired_rows : ℕ → ℕ → List FreezePeriod → List FreezePeriod
expired_rows window_id now = select (λ f. is_open_at window_id f && has_expired now f)

-- `for row in expired`, each in a transaction of its own.
unfoldable pub close_all : ℕ → ℕ → List FreezePeriod → Method Tables EngineError ⊤
close_all window_id now [] = λ t. (ok tt, t)
close_all window_id now (row ∷ rows) =
    close_freeze_periods window_id row.reason now expired (some row.id) then_do λ _.
    close_all window_id now rows

-- `_close_expired_freezes`
unfoldable pub close_expired_freezes : ℕ → ℕ → Method Tables EngineError ⊤
close_expired_freezes window_id now t =
    close_all window_id now (expired_rows window_id now t.freeze_periods) t

abbrev pub close_window : ℕ → PenaltyWindow → PenaltyWindow
close_window now w = record w {
  status = completed;
  closed_at = some now;
  resolution_method = some countdown_complete;
}

-- `_complete_window`
unfoldable pub complete_window : ℕ → ℕ → Method Tables EngineError ⊤
unfolding apply_transition
complete_window window_id now =
    write_and_events (update_window window_id (close_window now))
      (λ _. write_event now (penalty_window_completed window_id countdown_complete))

-- The second half of `ensure_current_state`, on the window as it is behind the expiries.
unfoldable pub settle : ℕ → Method Tables EngineError (Option PenaltyWindow)
settle now t = elim (find_open_window t.penalty_windows) [
  | none ↦ (ok none, t)
  | some window ↦
      if is_active window && is_complete window now
      then (complete_window window.id now then_do λ _ t'. (ok none, t')) t
      else (ok (some window), t)
]

unfoldable pub ensure_current_state : ℕ → Method Tables EngineError (Option PenaltyWindow)
ensure_current_state now t = elim (find_open_window t.penalty_windows) [
  | none ↦ (ok none, t)
  | some window ↦ (close_expired_freezes window.id now then_do λ _. settle now) t
]

-- `recover_penalty_window_state`
unfoldable pub recover_penalty_window_state : ℕ → Method Tables EngineError ⊤
recover_penalty_window_state now = ensure_current_state now then_do λ _ t. (ok tt, t)

-- ===== src/PenaltyEngine/Window.antt =====
-- penalty_engine/window.py: the countdown of a window, as pure functions of it and an instant.
pub mod Countdown
use ai_coach_keyholder.Prelude.{ℕ, ◌*◌, Bool, none, some}
use ai_coach_keyholder.Prelude.Int.{pos, ◌+ℤ◌, ◌-ℤ◌, leb_ℤ, min_ℤ, max_ℤ}
use ai_coach_keyholder.PenaltyEngine.Models.{
  Hours, hour, hours_between, PenaltyWindow, PenaltyWindowStatus, active, frozen, completed,
}

abbrev pub max_target_active_hours : Hours
max_target_active_hours = pos (336 * hour)

abbrev pub default_base_duration_hours : Hours
default_base_duration_hours = pos (24 * hour)

unfoldable pub target_active_hours : PenaltyWindow → Hours
target_active_hours window =
    min_ℤ (window.base_duration_hours +ℤ window.extensions_hours) max_target_active_hours

-- `active_hours_elapsed`; `active_hours_elapsed_from_row` of repository.py is the same formula.
unfoldable pub active_hours_elapsed : PenaltyWindow → ℕ → Hours
active_hours_elapsed window now = elim window.status [
  | active ↦ elim window.active_period_started_at [
    | none ↦ window.accumulated_active_hours
    | some started ↦ window.accumulated_active_hours +ℤ hours_between started now
  ]
  | frozen ↦ window.accumulated_active_hours
  | completed ↦ window.accumulated_active_hours
]

unfoldable pub is_complete : PenaltyWindow → ℕ → Bool
is_complete window now = leb_ℤ (target_active_hours window) (active_hours_elapsed window now)

unfoldable pub remaining_active_hours : PenaltyWindow → ℕ → Hours
remaining_active_hours window now =
    max_ℤ (pos 0) (target_active_hours window -ℤ active_hours_elapsed window now)

-- ===== src/PenaltyEngine/Window/Countdown.antt =====
-- penalty_engine/window.py: the cap on the target, and how the countdown runs out.
use ai_coach_keyholder.Prelude.{ℕ, ◌≤◌, ◌≡◌, ◌↔◌, true, arith, some}
use ai_coach_keyholder.Prelude.Int.{pos, ◌≤ℤ◌, ◌+ℤ◌, int_laws, min_ℤ, max_ℤ}
use ai_coach_keyholder.PenaltyEngine.Models.{PenaltyWindow, active, hours_between, hours_laws}
use ai_coach_keyholder.PenaltyEngine.Window.{
  max_target_active_hours, target_active_hours, active_hours_elapsed, is_complete,
  remaining_active_hours,
}

-- A window is complete exactly when no active hours remain, and never does a negative amount remain.
pub remaining_active_hours_lem :
    (w : PenaltyWindow) (now : ℕ)
    → ((is_complete w now ≡ true) ↔ (remaining_active_hours w now ≡ pos 0))
      × (pos 0 ≤ℤ remaining_active_hours w now)
unfolding is_complete remaining_active_hours max_ℤ
remaining_active_hours_lem w now = grind int_laws

-- A window that is not active does not count down; an active one counts by the time that passes.
pub active_hours_elapsed_later :
    (w : PenaltyWindow) (started now later : ℕ)
    → w.active_period_started_at ≡ some started
    → w.status ≡ active
    → active_hours_elapsed w later ≡ active_hours_elapsed w now +ℤ hours_between now later
unfolding active_hours_elapsed
active_hours_elapsed_later w started now later h k = rw (h, k) (omega hours_laws)

-- Once a window is complete it is so at every later instant.
pub is_complete_mono :
    (w : PenaltyWindow) (now later : ℕ)
    → now ≤ later
    → is_complete w now ≡ true
    → is_complete w later ≡ true
unfolding is_complete active_hours_elapsed
is_complete_mono w now later h c = grind hours_laws

pub target_active_hours-le-max :
    (w : PenaltyWindow) → target_active_hours w ≤ℤ max_target_active_hours
unfolding target_active_hours min_ℤ
target_active_hours-le-max w = ground arith

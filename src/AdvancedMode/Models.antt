-- ===== src/AdvancedMode/Models.antt =====
-- advanced_mode/models.py, the tables, and `_compute_next_state` of advanced_mode/repository.py.
use ai_coach_keyholder.Prelude.{
  ℕ, ◌+◌, Bool, true, false, Option, none, some, List, not, leb, if◌then◌else◌,
}

pub data OperatingMode : Type 0 where
  standard advanced : OperatingMode

pub data ModeTransitionStatus : Type 0 where
  blocked_by_penalty_window waiting paused_by_penalty_window awaiting_confirmation cancelled
        completed invalidated :
      ModeTransitionStatus

pub record OperatingModeState : Type 0 where
  pub current_mode : OperatingMode
  pub mode_activated_at : ℕ

pub record ModeTransitionRequest : Type 0 where
  pub id : ℕ
  pub source_mode : OperatingMode
  pub target_mode : OperatingMode
  pub status : ModeTransitionStatus
  pub requested_at : ℕ
  pub requested_via_consent_id : ℕ
  pub wait_started_at : Option ℕ
  pub wait_interrupted_at : Option ℕ
  pub confirmable_at : Option ℕ
  pub confirmed_at : Option ℕ
  pub confirmed_via_consent_id : Option ℕ
  pub cancelled_at : Option ℕ
  pub invalidated_at : Option ℕ
  pub resolved_at : Option ℕ

abbrev pub is_terminal_status : ModeTransitionStatus → Bool
is_terminal_status blocked_by_penalty_window = false
is_terminal_status waiting = false
is_terminal_status paused_by_penalty_window = false
is_terminal_status awaiting_confirmation = false
is_terminal_status cancelled = true
is_terminal_status completed = true
is_terminal_status invalidated = true

-- 24 hours and 30 days, in microseconds.
abbrev pub confirmation_wait : ℕ
confirmation_wait = 86400000000

abbrev pub minimum_in_advanced : ℕ
minimum_in_advanced = 2592000000000

abbrev pub start_wait : ℕ → ModeTransitionRequest → ModeTransitionRequest
start_wait now r = record r {
  status = waiting;
  wait_started_at = some now;
  confirmable_at = some (now + confirmation_wait);
}

abbrev pub pause : ℕ → ModeTransitionRequest → ModeTransitionRequest
pause now r = record r {
  status = paused_by_penalty_window;
  wait_interrupted_at = some now;
  confirmable_at = none;
}

abbrev pub is_confirmable : Option ℕ → ℕ → Bool
is_confirmable none now = false
is_confirmable (some at) now = leb at now

unfoldable pub compute_next_state : ModeTransitionRequest → Bool → ℕ → ModeTransitionRequest
compute_next_state r pw now = elim r.status [
  | blocked_by_penalty_window ↦ if not pw then start_wait now r else r
  | waiting ↦
      if pw
      then pause now r
      else if is_confirmable r.confirmable_at now
      then record r { status = awaiting_confirmation }
      else r
  | paused_by_penalty_window ↦ if not pw then start_wait now r else r
  | awaiting_confirmation ↦ if pw then pause now r else r
  | cancelled ↦ r
  | completed ↦ r
  | invalidated ↦ r
]

pub record ModeTables : Type 0 where
  pub mode_state : OperatingModeState
  pub requests : List ModeTransitionRequest
  pub next_id : ℕ

pub data ModeError : Type 0 where
  empty_consent active_transition_exists same_mode minimum_time_not_met no_active_transition
        not_confirmable source_mode_mismatch interrupted_by_penalty_window :
      ModeError

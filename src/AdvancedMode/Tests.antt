-- ===== src/AdvancedMode/Tests.antt =====
-- A confirmation in advanced_mode/, and the properties at it. The number 0 stands for the empty text.
use ai_coach_keyholder.Prelude.{ℕ, ◌≡◌, refl, Bool, true, false, some, [], ◌∷◌, ok, err, ◌==◌, ◌⊎◌}
use ai_coach_keyholder.Infrastructure.Transaction.{apply_transition}
use ai_coach_keyholder.AdvancedMode.Models.{
  ModeTransitionRequest, ModeTables, ModeError, standard, advanced, awaiting_confirmation,
  interrupted_by_penalty_window, active_transition_exists, compute_next_state, pause,
}
use ai_coach_keyholder.AdvancedMode.{
  confirm_row, confirm_write, confirm_transition, request_write, request_transition, advance_write,
  advance_transition_state, get_active_request, new_request, cancel, cancel_write, cancel_request,
}
use ai_coach_keyholder.AdvancedMode.Requests.{Refuses, Confirms, confirm_transition-mode}

abbrev is_zero : ℕ → Bool
is_zero n = n == 0

abbrev asked : ModeTransitionRequest
asked = new_request 1 standard advanced false 3 10

abbrev awaits : ModeTransitionRequest
awaits = record asked { status = awaiting_confirmation }

abbrev start : ModeTables
start = record {
  mode_state = record { current_mode = standard; mode_activated_at = 0 };
  requests = [];
  next_id = 1;
}

abbrev with_request : ModeTables
with_request = record start { requests = asked ∷ []; next_id = 2 }

abbrev ready : ModeTables
ready = record with_request { requests = awaits ∷ [] }

requests : request_transition is_zero false advanced 3 10 start ≡ (ok asked, with_request)
unfolding request_transition request_write apply_transition
requests = refl

second_request :
    request_transition is_zero false advanced 3 11 with_request
    ≡ (err active_transition_exists, with_request)
unfolding request_transition request_write apply_transition
second_request = refl

too_early :
    advance_transition_state false 86400000009 with_request ≡ (ok (some asked), with_request)
unfolding advance_transition_state advance_write get_active_request compute_next_state
    apply_transition
too_early = refl

waits_a_day : advance_transition_state false 86400000010 with_request ≡ (ok (some awaits), ready)
unfolding advance_transition_state advance_write get_active_request compute_next_state
    apply_transition
waits_a_day = refl

interrupts :
    confirm_transition is_zero 1 true 5 86400000020 ready
    ≡ (err interrupted_by_penalty_window, record ready { requests = pause 86400000020 awaits ∷ [] })
unfolding confirm_transition confirm_write confirm_row apply_transition
interrupts = refl

cancels :
    cancel_request 1 20 with_request
    ≡ (ok (cancel 20 asked), record with_request { requests = cancel 20 asked ∷ [] })
unfolding cancel_request cancel_write apply_transition
cancels = refl

confirm_transition-mode_example :
    ((e : ModeError) × Refuses is_zero 1 false 5 86400000020 ready e)
    ⊎ ((r : ModeTransitionRequest) × Confirms is_zero 1 false 5 86400000020 ready r)
confirm_transition-mode_example = confirm_transition-mode is_zero 1 false 5 86400000020 ready

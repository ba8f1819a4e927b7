-- ===== src/AdvancedMode.antt =====
-- advanced_mode/: the operating mode, and the request that changes it in two stages.
-- `pw` says whether the penalty engine has a window that is active or frozen, read in the transaction.
pub mod Models
pub mod Requests
mod Tests
use ai_coach_keyholder.Prelude.{
  ℕ, suc, ◌+◌, ⊤, Bool, true, false, Option, none, some, List, [], ◌∷◌, Result, ok, err, ◌==◌, ◌&&◌,
  not, leb, ltb, if◌then◌else◌,
}
use ai_coach_keyholder.Prelude.Lists.{exists, find, update_where}
use ai_coach_keyholder.Infrastructure.Transaction.{
  Tx, Method, pure, raise_if, modify, ◌>>=◌, ◌>>◌, apply_transition,
}
use ai_coach_keyholder.AdvancedMode.Models.{
  OperatingMode, ModeTransitionStatus, OperatingModeState, ModeTransitionRequest,
  is_terminal_status, confirmation_wait, minimum_in_advanced, start_wait, pause, is_confirmable,
  compute_next_state, ModeTables, ModeError, standard, advanced, blocked_by_penalty_window, waiting,
  paused_by_penalty_window, awaiting_confirmation, cancelled, completed, invalidated, empty_consent,
  active_transition_exists, same_mode, minimum_time_not_met, no_active_transition, not_confirmable,
  source_mode_mismatch, interrupted_by_penalty_window,
}

abbrev pub is_open : ModeTransitionRequest → Bool
is_open r = not (is_terminal_status r.status)

unfoldable pub get_active_request : ModeTables → Option ModeTransitionRequest
get_active_request t = find is_open t.requests

abbrev pub has_request_id : ℕ → ModeTransitionRequest → Bool
has_request_id id r = r.id == id

-- `_write_request_fields`: every field but those of the request itself, which `r` has from the row.
abbrev pub write_request_fields : ModeTransitionRequest → ModeTables → ModeTables
write_request_fields r t = record t {
  requests =
      update_where (has_request_id r.id)
        (λ old. record old {
          status = r.status;
          wait_started_at = r.wait_started_at;
          wait_interrupted_at = r.wait_interrupted_at;
          confirmable_at = r.confirmable_at;
          confirmed_at = r.confirmed_at;
          confirmed_via_consent_id = r.confirmed_via_consent_id;
          cancelled_at = r.cancelled_at;
          invalidated_at = r.invalidated_at;
          resolved_at = r.resolved_at;
        })
        t.requests;
}

abbrev pub eq_mode : OperatingMode → OperatingMode → Bool
eq_mode standard standard = true
eq_mode standard advanced = false
eq_mode advanced standard = false
eq_mode advanced advanced = true

abbrev pub is_awaiting : ModeTransitionStatus → Bool
is_awaiting blocked_by_penalty_window = false
is_awaiting waiting = false
is_awaiting paused_by_penalty_window = false
is_awaiting awaiting_confirmation = true
is_awaiting cancelled = false
is_awaiting completed = false
is_awaiting invalidated = false

-- The texts of the statuses, as numbers.
abbrev pub status_value : ModeTransitionStatus → ℕ
status_value blocked_by_penalty_window = 0
status_value waiting = 1
status_value paused_by_penalty_window = 2
status_value awaiting_confirmation = 3
status_value cancelled = 4
status_value completed = 5
status_value invalidated = 6

-- The test `updated == request` compares the statuses, which differ wherever a step sets a field.
unfoldable pub advance_write : Bool → ℕ → Tx ModeTables ModeError (Option ModeTransitionRequest)
advance_write pw now t = elim (get_active_request t) [
  | none ↦ ok (none, t)
  | some r ↦
      (let updated = compute_next_state r pw now in
        if status_value updated.status == status_value r.status
        then ok (some r, t)
        else ok (some updated, write_request_fields updated t))
]

unfoldable pub advance_transition_state :
    Bool → ℕ → Method ModeTables ModeError (Option ModeTransitionRequest)
advance_transition_state pw now =
    apply_transition {L = ⊤} none none (λ _. advance_write pw now) none

abbrev pub new_request : ℕ → OperatingMode → OperatingMode → Bool → ℕ → ℕ → ModeTransitionRequest
new_request id source target pw consent_id now = record {
  id = id;
  source_mode = source;
  target_mode = target;
  status = if pw then blocked_by_penalty_window else waiting;
  requested_at = now;
  requested_via_consent_id = consent_id;
  wait_started_at = if pw then none else some now;
  wait_interrupted_at = none;
  confirmable_at = if pw then none else some (now + confirmation_wait);
  confirmed_at = none;
  confirmed_via_consent_id = none;
  cancelled_at = none;
  invalidated_at = none;
  resolved_at = none;
}

unfoldable pub request_write :
    Bool → OperatingMode → ℕ → ℕ → Tx ModeTables ModeError ModeTransitionRequest
request_write pw target consent_id now t =
    let r = new_request t.next_id t.mode_state.current_mode target pw consent_id now in
    (do
      raise_if (exists is_open t.requests) active_transition_exists
      raise_if (eq_mode target t.mode_state.current_mode) same_mode
      raise_if
          (eq_mode target standard
            && ltb now (t.mode_state.mode_activated_at + minimum_in_advanced))
          minimum_time_not_met
      modify λ s. record s { requests = r ∷ s.requests; next_id = suc s.next_id }
      pure r)
      t

abbrev pub cancel : ℕ → ModeTransitionRequest → ModeTransitionRequest
cancel now r = record r { status = cancelled; cancelled_at = some now; resolved_at = some now }

unfoldable pub cancel_write : ℕ → ℕ → Tx ModeTables ModeError ModeTransitionRequest
cancel_write request_id now t = elim (find (has_request_id request_id) t.requests) [
  | none ↦ err no_active_transition
  | some r ↦
      if is_terminal_status r.status
      then err no_active_transition
      else ok (cancel now r, write_request_fields (cancel now r) t)
]

unfoldable pub cancel_request : ℕ → ℕ → Method ModeTables ModeError ModeTransitionRequest
cancel_request request_id now =
    apply_transition {L = ⊤} none none (λ _. cancel_write request_id now) none

-- What the transaction of `confirm_transition` returns: the request, and how it ended.
pub data Outcome : Type 0 where
  mismatch interrupted success : Outcome

unfoldable pub confirm_row :
    ModeTransitionRequest → Bool → ℕ → ℕ → Tx ModeTables ModeError (ModeTransitionRequest × Outcome)
confirm_row r pw consent_id now t =
    if not (is_awaiting r.status)
    then err not_confirmable
    else if not (eq_mode t.mode_state.current_mode r.source_mode)
    then (let invalid = record r {
      status = invalidated;
      invalidated_at = some now;
      resolved_at = some now;
      confirmed_at = none;
      confirmed_via_consent_id = none;
      cancelled_at = none;
    } in
        ok ((invalid, mismatch), write_request_fields invalid t))
    else if pw
    then ok ((pause now r, interrupted), write_request_fields (pause now r) t)
    else (let done = record r {
      status = completed;
      confirmed_at = some now;
      confirmed_via_consent_id = some consent_id;
      resolved_at = some now;
    } in
        ok (
          (done, success),
          record (write_request_fields done t) {
            mode_state = record { current_mode = r.target_mode; mode_activated_at = now };
          },
        ))

unfoldable pub confirm_write :
    ℕ → Bool → ℕ → ℕ → Tx ModeTables ModeError (ModeTransitionRequest × Outcome)
confirm_write request_id pw consent_id now t = elim (find (has_request_id request_id) t.requests) [
  | none ↦ err no_active_transition
  | some r ↦ confirm_row r pw consent_id now t
]

-- The exceptions that are raised behind the transaction, which has been committed.
abbrev pub report_outcome :
    Result ModeError (ModeTransitionRequest × Outcome) → Result ModeError ModeTransitionRequest
report_outcome (err e) = err e
report_outcome (ok (r, mismatch)) = err source_mode_mismatch
report_outcome (ok (r, interrupted)) = err interrupted_by_penalty_window
report_outcome (ok (r, success)) = ok r

module _ (is_blank : ℕ → Bool) where
  unfoldable pub confirm_transition :
      ℕ → Bool → ℕ → ℕ → Method ModeTables ModeError ModeTransitionRequest
  confirm_transition request_id pw consent_id now t =
      if is_blank consent_id
      then (err empty_consent, t)
      else (let r =
            apply_transition {L = ⊤} none none (λ _. confirm_write request_id pw consent_id now)
              none t in
          (report_outcome r.0, r.1))

  unfoldable pub request_transition :
      Bool → OperatingMode → ℕ → ℕ → Method ModeTables ModeError ModeTransitionRequest
  request_transition pw target consent_id now t =
      if is_blank consent_id
      then (err empty_consent, t)
      else apply_transition {L = ⊤} none none (λ _. request_write pw target consent_id now) none t

-- ===== src/PenaltyEngine/Freeze.antt =====
-- penalty_engine/repository.py: freezing and resuming a window, for a set of reasons.
pub mod Closing
use ai_coach_keyholder.Prelude.{
  ℕ, ⊤, Bool, true, false, Option, none, some, List, [], ◌∷◌, map, ok, err, ◌==◌, ◌&&◌, not,
}
use ai_coach_keyholder.Prelude.Lists.{count_where, exists, select, order_by, update_where}
use ai_coach_keyholder.Infrastructure.TimeFormat.{iso_key}
use ai_coach_keyholder.Infrastructure.Transaction.{
  Method, gets, modify, pure, raise_if, when, ◌>>=◌, ◌>>◌, ◌then_do◌, write_and_events,
  apply_transition,
}
use ai_coach_keyholder.PenaltyEngine.Models.{
  Hours, PenaltyWindow, active, frozen, completed, FreezePeriod, FreezeReason,
  temporary_wear_exemption, emergency_override, partnered_intimacy_authorization, FreezeEndReason,
  resumed_normally, expired,
}
use ai_coach_keyholder.PenaltyEngine.Window.{active_hours_elapsed}
use ai_coach_keyholder.PenaltyEngine.Store.{
  Tables, Action, EngineError, penalty_window_not_found, integrity_error, new_id, write_event,
  find_window, update_window, freeze_periods_opened, penalty_window_frozen,
  emergency_override_triggered, freeze_periods_closed, freeze_expired, penalty_window_resumed,
}

abbrev pub is_some : {A : Type 0} → Option A → Bool
is_some none = false
is_some (some a) = true

abbrev pub eq_reason : FreezeReason → FreezeReason → Bool
eq_reason temporary_wear_exemption temporary_wear_exemption = true
eq_reason emergency_override emergency_override = true
eq_reason partnered_intimacy_authorization partnered_intimacy_authorization = true
eq_reason _ _ = false

abbrev pub is_active : PenaltyWindow → Bool
is_active w = elim w.status [ active ↦ true | frozen ↦ false | completed ↦ false ]

-- The CHECK constraint of freeze_periods.
unfoldable pub meets_check : FreezeReason → Option ℕ → Option ℕ → Bool
meets_check temporary_wear_exemption exemption authorization =
    is_some exemption && not (is_some authorization)
meets_check partnered_intimacy_authorization exemption authorization =
    is_some authorization && not (is_some exemption)
meets_check emergency_override exemption authorization =
    not (is_some exemption) && not (is_some authorization)

-- penalty_window_id = ? AND ended_at IS NULL
abbrev pub is_open_at : ℕ → FreezePeriod → Bool
is_open_at window_id f = f.penalty_window_id == window_id && not (is_some f.ended_at)

-- penalty_window_id = ? AND reason = ? AND ended_at IS NULL
abbrev pub is_open_for : ℕ → FreezeReason → FreezePeriod → Bool
is_open_for window_id reason f = is_open_at window_id f && eq_reason f.reason reason

-- The unique index idx_freeze_periods_one_open_intimacy_auth.
unfoldable pub clashes : ℕ → FreezeReason → List FreezePeriod → Bool
clashes window_id reason fs =
    eq_reason reason partnered_intimacy_authorization
    && exists (is_open_for window_id partnered_intimacy_authorization) fs

-- The arguments of a freeze.
pub record FreezeRequest : Type 0 where
  pub reason : FreezeReason
  pub exemption_id : Option ℕ
  pub authorization_decision_id : Option ℕ
  pub expires_at : Option ℕ

abbrev pub new_freeze : ℕ → ℕ → ℕ → FreezeRequest → FreezePeriod
new_freeze id window_id now r = record {
  id = id;
  penalty_window_id = window_id;
  started_at = now;
  ended_at = none;
  reason = r.reason;
  exemption_id = r.exemption_id;
  authorization_decision_id = r.authorization_decision_id;
  expires_at = r.expires_at;
  end_reason = none;
}

abbrev pub stop_countdown : Hours → PenaltyWindow → PenaltyWindow
stop_countdown accumulated w = record w {
  status = frozen;
  accumulated_active_hours = accumulated;
  active_period_started_at = none;
}

-- `write` of `_freeze_in_transaction`, behind the test that the window is there.
unfoldable pub open_freeze : PenaltyWindow → ℕ → ℕ → FreezeRequest → Action (FreezePeriod × Bool)
open_freeze window window_id now r = do
  id ← new_id
  let was_first_freeze = is_active window
  raise_if (not (meets_check r.reason r.exemption_id r.authorization_decision_id)) integrity_error
  clash ← gets (λ t. clashes window_id r.reason t.freeze_periods)
  raise_if clash integrity_error
  modify λ t. record t { freeze_periods = new_freeze id window_id now r ∷ t.freeze_periods }
  when was_first_freeze (update_window window_id (stop_countdown (active_hours_elapsed window now)))
  pure (new_freeze id window_id now r, was_first_freeze)

unfoldable pub freeze_write : ℕ → ℕ → FreezeRequest → Action (FreezePeriod × Bool)
freeze_write window_id now r t = elim (find_window window_id t.penalty_windows) [
  | none ↦ err (penalty_window_not_found window_id)
  | some window ↦ open_freeze window window_id now r t
]

unfoldable pub freeze_events : ℕ → ℕ → FreezeReason → Bool → FreezePeriod × Bool → Action ⊤
freeze_events window_id now reason emit_emergency_event (fp, was_first) = do
  write_event now (freeze_periods_opened fp.id window_id reason)
  when was_first (write_event now (penalty_window_frozen window_id reason))
  when emit_emergency_event (write_event now (emergency_override_triggered window_id fp.id))

-- `_freeze_in_transaction`
unfoldable pub freeze_in_transaction :
    ℕ → ℕ → FreezeRequest → Bool → Method Tables EngineError (FreezePeriod × Bool)
freeze_in_transaction window_id now r emit_emergency_event =
    write_and_events (freeze_write window_id now r)
      (freeze_events window_id now r.reason emit_emergency_event)

abbrev first_of_pair :
    {A B : Type 0} → Method Tables EngineError (A × B) → Method Tables EngineError A
first_of_pair m = m then_do λ r t. (ok r.0, t)

unfoldable pub freeze : ℕ → FreezeRequest → ℕ → Method Tables EngineError FreezePeriod
freeze window_id r now = first_of_pair (freeze_in_transaction window_id now r false)

abbrev pub emergency : FreezeRequest
emergency = record {
  reason = emergency_override;
  exemption_id = none;
  authorization_decision_id = none;
  expires_at = none;
}

unfoldable pub emergency_freeze : ℕ → ℕ → Method Tables EngineError FreezePeriod
emergency_freeze window_id now = first_of_pair (freeze_in_transaction window_id now emergency true)

abbrev pub close_freeze : ℕ → FreezeEndReason → FreezePeriod → FreezePeriod
close_freeze now end_reason f = record f { ended_at = some now; end_reason = some end_reason }

abbrev pub has_freeze_id : ℕ → FreezePeriod → Bool
has_freeze_id id f = f.id == id

-- `for row_id in closed_ids`
unfoldable pub close_each : ℕ → FreezeEndReason → List ℕ → List FreezePeriod → List FreezePeriod
close_each now end_reason [] fs = fs
close_each now end_reason (id ∷ ids) fs =
    close_each now end_reason ids (update_where (has_freeze_id id) (close_freeze now end_reason) fs)

-- The rows to close: one by its id, or all that are open for the reason.
unfoldable pub rows_to_close : ℕ → FreezeReason → Option ℕ → List FreezePeriod → List FreezePeriod
rows_to_close window_id reason (some id) fs =
    select (λ f. has_freeze_id id f && not (is_some f.ended_at)) fs
rows_to_close window_id reason none fs =
    order_by (λ f. iso_key f.started_at) (select (is_open_for window_id reason) fs)

abbrev pub restart_countdown : ℕ → PenaltyWindow → PenaltyWindow
restart_countdown now w = record w { status = active; active_period_started_at = some now }

abbrev pub freeze_ids : List FreezePeriod → List ℕ
freeze_ids = map (λ f. f.id)

-- `write` of `_close_freeze_periods_in_transaction`, for the ids of the rows that it selected.
unfoldable pub close_rows : ℕ → ℕ → FreezeEndReason → List ℕ → Action (List ℕ × Bool)
close_rows window_id now end_reason [] = pure ([], false)
close_rows window_id now end_reason (id ∷ ids) = do
  modify λ t. record t { freeze_periods = close_each now end_reason (id ∷ ids) t.freeze_periods }
  remaining_open ← gets (λ t. count_where (is_open_at window_id) t.freeze_periods)
  let became_active_again = remaining_open == 0
  when became_active_again (update_window window_id (restart_countdown now))
  pure (id ∷ ids, became_active_again)

unfoldable pub close_write :
    ℕ → FreezeReason → ℕ → FreezeEndReason → Option ℕ → Action (List ℕ × Bool)
close_write window_id reason now end_reason freeze_period_id t =
    close_rows window_id now end_reason
      (freeze_ids (rows_to_close window_id reason freeze_period_id t.freeze_periods)) t

abbrev pub for_each : List ℕ → (ℕ → Action ⊤) → Action ⊤
for_each [] body = pure tt
for_each (id ∷ ids) body = body id >> for_each ids body

abbrev is_expired_end : FreezeEndReason → Bool
is_expired_end resumed_normally = false
is_expired_end expired = true

unfoldable pub close_events : ℕ → FreezeReason → ℕ → FreezeEndReason → List ℕ × Bool → Action ⊤
close_events window_id reason now end_reason (closed_ids, became_active_again) = do
  for_each closed_ids (λ id. write_event now (freeze_periods_closed id window_id reason end_reason))
  when (is_expired_end end_reason)
      (for_each closed_ids (λ id. write_event now (freeze_expired id window_id reason)))
  when became_active_again (write_event now (penalty_window_resumed window_id))

-- `_close_freeze_periods_in_transaction`
unfoldable pub close_freeze_periods :
    ℕ → FreezeReason → ℕ → FreezeEndReason → Option ℕ → Method Tables EngineError ⊤
close_freeze_periods window_id reason now end_reason freeze_period_id =
    write_and_events (close_write window_id reason now end_reason freeze_period_id)
      (close_events window_id reason now end_reason)
    then_do λ _ t. (ok tt, t)

unfoldable pub resume : ℕ → FreezeReason → ℕ → Method Tables EngineError ⊤
resume window_id reason now = close_freeze_periods window_id reason now resumed_normally none

-- ===== src/PenaltyEngine/Consume.antt =====
-- penalty_engine/repository.py: the consumption of confirmed incidents.
pub mod Once
pub mod Cap
use ai_coach_keyholder.Prelude.{
  ℕ, ⊤, Bool, true, false, Option, none, some, ◌∷◌, ok, ◌&&◌, ◌==◌, if◌then◌else◌,
}
use ai_coach_keyholder.Prelude.Int.{pos, ◌+ℤ◌, ◌-ℤ◌, max_ℤ, ltb_ℤ}
use ai_coach_keyholder.Prelude.Lists.{count_where, exists}
use ai_coach_keyholder.Infrastructure.Transaction.{
  Method, gets, modify, pure, when, ◌>>=◌, ◌>>◌, ◌then_do◌, write_and_events, apply_transition,
}
use ai_coach_keyholder.PenaltyEngine.Models.{
  Hours, PenaltyWindow, active, SeverityTier, CooperationAssessment,
}
use ai_coach_keyholder.PenaltyEngine.Window.{max_target_active_hours}
use ai_coach_keyholder.PenaltyEngine.Extension.{ExtensionContext, ExtensionDecision, should_extend}
use ai_coach_keyholder.PenaltyEngine.Store.{
  Tables, Action, EngineError, IncidentConsumption, ExtensionDecisionRow, new_id, write_event,
  find_open_window, update_window, penalty_window_started, extension_decision_recorded,
  penalty_window_extended, target_duration_changed,
}

abbrev pub new_window : ℕ → ℕ → Hours → PenaltyWindow
new_window id now base_duration_hours = record {
  id = id;
  created_at = now;
  status = active;
  closed_at = none;
  resolution_method = none;
  base_duration_hours = base_duration_hours;
  extensions_hours = pos 0;
  accumulated_active_hours = pos 0;
  active_period_started_at = some now;
  recovery_credits_earned_hours = pos 0;
}

-- The window that takes the incident, and whether it was started for it.
unfoldable pub window_for_incident : ℕ → Hours → Action (PenaltyWindow × Bool)
window_for_incident now base_duration_hours t = elim (find_open_window t.penalty_windows) [
  | some window ↦ ok ((window, false), t)
  | none ↦
      let window = new_window t.next_id now base_duration_hours in
      (do
        new_id
        modify λ t. record t { penalty_windows = window ∷ t.penalty_windows }
        pure (window, true))
        t
]

abbrev pub is_same_rule : ℕ → ℕ → IncidentConsumption → Bool
is_same_rule window_id rule_group_id c =
    c.penalty_window_id == window_id && c.rule_group_id == rule_group_id

abbrev pub is_incident : ℕ → IncidentConsumption → Bool
is_incident incident_id c = c.incident_id == incident_id

unfoldable pub remaining_capacity : PenaltyWindow → Hours
remaining_capacity window =
    max_ℤ (pos 0)
      (max_target_active_hours -ℤ (window.base_duration_hours +ℤ window.extensions_hours))

unfoldable pub extension_context :
    PenaltyWindow → SeverityTier → CooperationAssessment → ℕ → ExtensionContext
extension_context window intrinsic_severity cooperation same_rule_count = record {
  intrinsic_severity = intrinsic_severity;
  cooperation = cooperation;
  same_rule_confirmed_incident_count_in_current_window = same_rule_count;
  remaining_active_hour_capacity = remaining_capacity window;
  occurred_during_recovery_task = false;
}

abbrev pub add_extension : Hours → PenaltyWindow → PenaltyWindow
add_extension assigned w = record w { extensions_hours = w.extensions_hours +ℤ assigned }

-- The decision is stored, and a positive extension is added to the window, in the table and in the
-- copy that is returned.
unfoldable pub record_extension :
    ℕ → ℕ → PenaltyWindow → ExtensionDecision → Action (PenaltyWindow × ExtensionDecisionRow)
record_extension now incident_id window decision = do
  id ← new_id
  let row : ExtensionDecisionRow = record {
    id = id;
    created_at = now;
    incident_id = incident_id;
    penalty_window_id = window.id;
    decision = decision;
  }
  modify λ t. record t { extension_decisions = row ∷ t.extension_decisions }
  when (ltb_ℤ (pos 0) decision.assigned_hours)
      (update_window window.id (add_extension decision.assigned_hours))
  pure (
    if ltb_ℤ (pos 0) decision.assigned_hours
        then add_extension decision.assigned_hours window
        else window,
    row,
  )

-- What a consumption returns: the window, the decision, and whether the window was started.
abbrev pub Consumption : Type 0
Consumption = PenaltyWindow × ExtensionDecisionRow × Bool

-- The part of `_consume_confirmed_incident_in_transaction` behind its first test. The key of
-- incident_consumption cannot clash there.
unfoldable pub consume_new_incident :
    ℕ → ℕ → ℕ → SeverityTier → CooperationAssessment → ℕ → Hours → Action Consumption
consume_new_incident incident_id trust_domain rule_group_id severity cooperation now base = do
  (window, started) ← window_for_incident now base
  modify λ t. record t {
    incident_consumption =
        record {
          incident_id = incident_id;
          penalty_window_id = window.id;
          trust_domain = trust_domain;
          rule_group_id = rule_group_id;
          consumed_at = now;
        }
        ∷ t.incident_consumption;
  }
  same_rule_count ←
      gets (λ t. count_where (is_same_rule window.id rule_group_id) t.incident_consumption)
  (extended, row) ←
      record_extension now incident_id window
        (should_extend (extension_context window severity cooperation same_rule_count))
  pure (extended, row, started)

-- `_consume_confirmed_incident_in_transaction`
unfoldable pub consume_in_transaction :
    ℕ → ℕ → ℕ → SeverityTier → CooperationAssessment → ℕ → Hours → Action (Option Consumption)
consume_in_transaction incident_id trust_domain rule_group_id severity cooperation now base t =
    if exists (is_incident incident_id) t.incident_consumption
    then ok (none, t)
    else (do
      c ← consume_new_incident incident_id trust_domain rule_group_id severity cooperation now base
      pure (some c))
        t

-- `_emit_consumption_events`
unfoldable pub emit_consumption_events : ℕ → Consumption → Action ⊤
emit_consumption_events now (window, row, started) = do
  when started (
      write_event now (penalty_window_started window.id window.base_duration_hours row.incident_id))
  write_event now (
      extension_decision_recorded row.id row.incident_id row.penalty_window_id row.decision.eligible
        row.decision.eligibility_reason row.decision.assigned_hours row.decision.capacity_limited)
  when (ltb_ℤ (pos 0) row.decision.assigned_hours) (do
    write_event now (penalty_window_extended window.id row.decision.assigned_hours)
    write_event now
        (target_duration_changed window.id (window.base_duration_hours +ℤ window.extensions_hours)))

abbrev pub emit_if_consumed : ℕ → Option Consumption → Action ⊤
emit_if_consumed now none = pure tt
emit_if_consumed now (some c) = emit_consumption_events now c

abbrev pub consumed_window : Option Consumption → Option PenaltyWindow
consumed_window none = none
consumed_window (some c) = some c.0

unfoldable pub consume_confirmed_incident :
    ℕ
    → ℕ
    → ℕ
    → SeverityTier
    → CooperationAssessment
    → ℕ
    → Hours
    → Method Tables EngineError (Option PenaltyWindow)
consume_confirmed_incident incident_id trust_domain rule_group_id severity cooperation now base =
    write_and_events
      (consume_in_transaction incident_id trust_domain rule_group_id severity cooperation now base)
      (emit_if_consumed now)
    then_do (λ result t. (ok (consumed_window result), t))

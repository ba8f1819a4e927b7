-- ===== src/System.antt =====
-- system/startup.py: what each module does about the events of the others. A handler runs in one
-- transaction over the tables of all modules; the module that it runs in sees the tables that are its
-- own, and the recovery plan the windows of the engine besides.
pub mod Credit
pub mod Startup
mod Tests
use ai_coach_keyholder.Prelude.{
  ℕ, ⊤, Bool, true, false, Option, none, some, ok, err, Result, List, if◌then◌else◌, not,
}
use ai_coach_keyholder.Infrastructure.Transaction.{Tx, pure, raise, ◌>>=◌, ◌>>◌}
use ai_coach_keyholder.PenaltyEngine.Models.{Hours}
use ai_coach_keyholder.PenaltyEngine.Window.{default_base_duration_hours}
use ai_coach_keyholder.PenaltyEngine.Store.{
  Tables, EngineError, Action, EventPayload, penalty_window_started, extension_decision_recorded,
  penalty_window_extended, target_duration_changed, recovery_credit_recorded, freeze_periods_opened,
  penalty_window_frozen, emergency_override_triggered, freeze_periods_closed, freeze_expired,
  penalty_window_resumed, penalty_window_completed,
}
use ai_coach_keyholder.PenaltyEngine.Consume.{consume_in_transaction, emit_if_consumed}
use ai_coach_keyholder.PenaltyEngine.Credit.{
  record_credit_in_transaction, emit_recovery_credit_event,
}
use ai_coach_keyholder.TrustManager.Store.{
  TrustTables, TrustError, IncidentAssessment, TrustEvent, domain_created, domain_deactivated,
  domain_reactivated, domain_recalculated, incident_reported, evidence_recorded,
  confirmation_changed,
}
use ai_coach_keyholder.TrustManager.Incidents.{is_confirmed}
use ai_coach_keyholder.RecoveryPlan.Models.{
  RecoveryPlanStatus, PlanTables, PlanError, PlanAction, PlanEvent, plan_created, plan_frozen,
  plan_resumed, plan_completed, plan_regenerated, task_proposed, task_accepted, task_withdrawn,
  task_completed, write_event,
}
use ai_coach_keyholder.RecoveryPlan.Plans.{
  create_plan_in_transaction, mirror_status_in_transaction, regenerate_in_transaction, emit_for,
  emit_regenerated,
}

pub record SystemTables : Type 0 where
  pub trust : TrustTables
  pub engine : Tables
  pub plans : PlanTables

pub data SystemError : Type 0 where
  engine_error : EngineError → SystemError
  plan_error : PlanError → SystemError
  payload_error : SystemError

abbrev pub SystemAction : Type 0 → Type 0
SystemAction = Tx SystemTables SystemError

abbrev pub in_engine : {A : Type 0} → Action A → SystemAction A
in_engine m s = elim (m s.engine) [
  | ok r ↦ ok (r.0, record s { engine = r.1 })
  | err e ↦ err (engine_error e)
]

abbrev pub in_plans : {A : Type 0} → PlanAction A → SystemAction A
in_plans m s = elim (m (record s.plans { penalty_windows = s.engine.penalty_windows })) [
  | ok r ↦ ok (r.0, record s { plans = r.1 })
  | err e ↦ err (plan_error e)
]

-- `on_incident_confirmation_changed`, where the keys of the assessment may be missing.
unfoldable pub on_incident_confirmation_changed :
    ℕ → ℕ → ℕ → Bool → Option IncidentAssessment → ℕ → SystemAction ⊤
on_incident_confirmation_changed incident_id trust_domain rule_group_id false assessment now =
    pure tt
on_incident_confirmation_changed incident_id trust_domain rule_group_id true none now =
    raise payload_error
on_incident_confirmation_changed incident_id trust_domain rule_group_id true (some a) now =
    in_engine (do
      result ←
          consume_in_transaction incident_id trust_domain rule_group_id a.intrinsic_severity
            a.cooperation now default_base_duration_hours
      emit_if_consumed now result)

unfoldable pub on_penalty_window_started : ℕ → Hours → ℕ → SystemAction ⊤
on_penalty_window_started window_id base_duration_hours now = in_plans (do
  plan ← create_plan_in_transaction window_id base_duration_hours now
  write_event now (plan_created plan.id plan.penalty_window_id))

-- `on_penalty_window_frozen`, `on_penalty_window_resumed` and `on_penalty_window_completed`.
unfoldable pub mirror_event : ℕ → RecoveryPlanStatus → (ℕ → ℕ → PlanEvent) → ℕ → SystemAction ⊤
mirror_event window_id new_status event now = in_plans (do
  plan ← mirror_status_in_transaction window_id new_status now
  emit_for event window_id now plan)

unfoldable pub on_target_duration_changed : ℕ → Hours → ℕ → SystemAction ⊤
on_target_duration_changed window_id new_target_active_hours now = in_plans (do
  plan ← regenerate_in_transaction window_id new_target_active_hours now
  emit_regenerated window_id now plan)

unfoldable pub on_recovery_plan_task_completed : ℕ → ℕ → Hours → ℕ → SystemAction ⊤
on_recovery_plan_task_completed completion_id window_id credit_hours now = in_engine (do
  decision ← record_credit_in_transaction completion_id window_id credit_hours now
  emit_recovery_credit_event now decision)

-- `build_consumer_registry`: the handler of each event type, where one is registered.
unfoldable pub handle_trust_event : TrustEvent → ℕ → SystemAction ⊤
handle_trust_event (confirmation_changed incident_id trust_domain rule_group_id old new a) now =
    on_incident_confirmation_changed incident_id trust_domain rule_group_id (is_confirmed new) a now
handle_trust_event (domain_created d) now = pure tt
handle_trust_event (domain_deactivated d) now = pure tt
handle_trust_event (domain_reactivated d e) now = pure tt
handle_trust_event (domain_recalculated r) now = pure tt
handle_trust_event (incident_reported i d) now = pure tt
handle_trust_event (evidence_recorded e d) now = pure tt

unfoldable pub handle_engine_event : EventPayload → ℕ → SystemAction ⊤
handle_engine_event (penalty_window_started w base i) now = on_penalty_window_started w base now
handle_engine_event (penalty_window_frozen w reason) now =
    mirror_event w RecoveryPlanStatus.frozen plan_frozen now
handle_engine_event (penalty_window_resumed w) now =
    mirror_event w RecoveryPlanStatus.active plan_resumed now
handle_engine_event (penalty_window_completed w method) now =
    mirror_event w RecoveryPlanStatus.completed plan_completed now
handle_engine_event (target_duration_changed w target) now = on_target_duration_changed w target now
handle_engine_event (extension_decision_recorded d i w e r h c) now = pure tt
handle_engine_event (penalty_window_extended w h) now = pure tt
handle_engine_event (recovery_credit_recorded d c w h l) now = pure tt
handle_engine_event (freeze_periods_opened f w r) now = pure tt
handle_engine_event (emergency_override_triggered w f) now = pure tt
handle_engine_event (freeze_periods_closed f w r e) now = pure tt
handle_engine_event (freeze_expired f w r) now = pure tt

unfoldable pub handle_plan_event : PlanEvent → ℕ → SystemAction ⊤
handle_plan_event (task_completed c task plan w hours) now =
    on_recovery_plan_task_completed c w hours now
handle_plan_event (plan_created p w) now = pure tt
handle_plan_event (plan_frozen p w) now = pure tt
handle_plan_event (plan_resumed p w) now = pure tt
handle_plan_event (plan_completed p w) now = pure tt
handle_plan_event (plan_regenerated p w v h) now = pure tt
handle_plan_event (task_proposed t p h) now = pure tt
handle_plan_event (task_accepted t p) now = pure tt
handle_plan_event (task_withdrawn t p) now = pure tt

-- ===== src/System/Tests.antt =====
-- A credit for a completed task, its delivery by the outbox, and a startup, and the properties at them.
use ai_coach_keyholder.Prelude.{
  ⊤, List, ◌≤◌, ℕ, ◌⊎◌, true, false, err, ◌≡◌, refl, none, some, map, [], ◌∷◌, ok,
}
use ai_coach_keyholder.Prelude.Int.{pos, min_ℤ, max_ℤ, ◌-ℤ◌, half, ◌+ℤ◌}
use ai_coach_keyholder.PenaltyEngine.Window.{target_active_hours}
use ai_coach_keyholder.Infrastructure.Transaction.{Method, apply_transition, commit}
use ai_coach_keyholder.PenaltyEngine.Models.{countdown_complete, PenaltyWindow, PenaltyWindowStatus}
use ai_coach_keyholder.PenaltyEngine.Store.{penalty_window_completed, empty, find_open_window}
use ai_coach_keyholder.PenaltyEngine.Credit.{
  record_credit_in_transaction, credit_window, credit_for, remaining_credit, book_credit,
  emit_recovery_credit_event,
}
use ai_coach_keyholder.TrustManager.Store.{TrustTables}
use ai_coach_keyholder.RecoveryPlan.Models.{PlanTables, PlanEvent, task_completed}
use ai_coach_keyholder.RecoveryPlan.Plans.{
  mirror_status_in_transaction, create_plan, create_plan_in_transaction, regenerate,
}
use ai_coach_keyholder.RecoveryPlan.Tasks.{
  propose_task, propose_write, complete_task, complete_write, new_completion,
}
use ai_coach_keyholder.RecoveryPlan.Tracked.Runs.{
  Reach, here, next, windows_change, creates, proposes, regenerates, no_plans,
}
use ai_coach_keyholder.Infrastructure.Outbox.{
  EventRow, event_row, Outbox, consume_event, mark_processed,
}
use ai_coach_keyholder.Infrastructure.Outbox.Deliveries.{
  Delivery, on_business, on_business-KeepsProcessed, times_run, times_run_le,
}
use ai_coach_keyholder.System.{
  handle_engine_event, mirror_event, SystemAction, payload_error, SystemTables, SystemError,
  handle_plan_event, on_recovery_plan_task_completed,
}
use ai_coach_keyholder.System.Startup.{
  StartupTables, startup_lease_not_acquired, recover_all, on_system_startup, acquired_lease,
  outcome, on_system_startup-lease,
}
use ai_coach_keyholder.Infrastructure.StartupLease.{
  is_live, acquire_system_startup_lease, release_system_startup_lease,
}
use ai_coach_keyholder.TrustManager.Incidents.{
  recover_trust_manager_state, repair_each, get_confirmed_incidents_with_null_assessment,
}
use ai_coach_keyholder.PenaltyEngine.Reconcile.{recover_penalty_window_state, ensure_current_state}
use ai_coach_keyholder.GoalManagement.Reads.{recover_goal_management_state, expire_each}
use ai_coach_keyholder.GoalManagement.Governed.Runs.{no_goals}
use ai_coach_keyholder.System.Credit.{CreditsAs, complete_task-credit}

abbrev window : PenaltyWindow
window = record {
  id = 7;
  created_at = 1;
  status = PenaltyWindowStatus.active;
  closed_at = none;
  resolution_method = none;
  base_duration_hours = pos 48;
  extensions_hours = pos 0;
  accumulated_active_hours = pos 0;
  active_period_started_at = some 1;
  recovery_credits_earned_hours = pos 0;
}

abbrev with_plan : PlanTables
with_plan = (create_plan 7 (pos 48) 2 (record no_plans { penalty_windows = window ∷ [] })).1

abbrev with_task : PlanTables
with_task = (propose_task 0 11 12 (pos 4) 3 with_plan).1

abbrev with_done : PlanTables
with_done = (complete_task 1 4 none with_task).1

abbrev no_trust : TrustTables
no_trust = record {
  trust_domains = [];
  trust_domain_state = [];
  incidents = [];
  confirmation_records = [];
  trust_evidence = [];
  trust_recalculations = [];
  trust_recalculation_evidence = [];
  outbox = [];
  next_id = 0;
}

abbrev tables : SystemTables
tables = record {
  trust = no_trust;
  engine = record empty { penalty_windows = window ∷ []; next_id = 8 };
  plans = with_done;
}

Reach-with_task : Reach no_plans with_task
Reach-with_task =
    next
      (next (next here (windows_change no_plans (window ∷ [])))
        (creates (record no_plans { penalty_windows = window ∷ [] }) 7 (pos 48) 2))
      (proposes with_plan 0 11 12 (pos 4) 3)

completes : complete_task 1 4 none with_task ≡ (ok (new_completion 2 1 0 4 none), with_done)
unfolding create_plan create_plan_in_transaction propose_task propose_write complete_task
    complete_write apply_transition
completes = refl

complete_task-credit_example :
    (payload : PlanEvent) × (with_done.plan_events
      ≡ record { payload = payload; occurred_at = 4 } ∷ with_task.plan_events)
    × CreditsAs (new_completion 2 1 0 4 none) 4 payload (regenerate 7 (pos 60) 5 with_done).1 tables
complete_task-credit_example =
    complete_task-credit with_task with_done (regenerate 7 (pos 60) 5 with_done).1 1 4 none
      (new_completion 2 1 0 4 none) tables Reach-with_task completes
      (next here (regenerates with_done 7 (pos 60) 5))

-- Four of the window's hours are credited behind the event.
credits :
    map
      (λ w. w.recovery_credits_earned_hours)
      (commit
        (handle_plan_event (task_completed 2 1 0 7 (pos 4)) 4)
        tables).1.engine.penalty_windows
    ≡ pos 4 ∷ []
unfolding handle_plan_event on_recovery_plan_task_completed record_credit_in_transaction
    credit_window credit_for remaining_credit book_credit emit_recovery_credit_event min_ℤ max_ℤ
    ◌-ℤ◌ half target_active_hours ◌+ℤ◌
credits = refl

-- Nothing is published; the lease is free.
abbrev publishes_nothing : ℕ → Method SystemTables SystemError ℕ
publishes_nothing now s = (ok 0, s)

abbrev at_rest : StartupTables
at_rest = record {
  system = record { trust = no_trust; engine = empty; plans = with_done };
  goals = no_goals;
  lease = none;
}

starts_up : on_system_startup publishes_nothing 5 10 at_rest ≡ (ok tt, at_rest)
unfolding on_system_startup recover_all acquire_system_startup_lease release_system_startup_lease
    recover_trust_manager_state recover_penalty_window_state ensure_current_state
    recover_goal_management_state expire_each repair_each
    get_confirmed_incidents_with_null_assessment find_open_window
starts_up = refl

on_system_startup-lease_example :
    ((is_live 10 at_rest.lease ≡ true)
      × (on_system_startup publishes_nothing 5 10 at_rest
          ≡ (err startup_lease_not_acquired, at_rest)))
    ⊎ ((is_live 10 at_rest.lease ≡ false)
        × (on_system_startup publishes_nothing 5 10 at_rest ≡ (
            let body =
              recover_all publishes_nothing 10
                (record at_rest { lease = some (acquired_lease publishes_nothing 5 10) }) in
            (outcome publishes_nothing body.0, record body.1 { lease = none }))))
on_system_startup-lease_example = on_system_startup-lease publishes_nothing 5 10 at_rest

abbrev event : EventRow
event = event_row 0 (record { event_type = 1; source_module = 2; payload = 3; occurred_at = 4 })

-- The consumer of the completions, for an event whose payload is that of the completion above.
abbrev credits_windows : EventRow → SystemAction ⊤
credits_windows e = handle_plan_event (task_completed 2 1 0 7 (pos 4)) e.occurred_at

-- A consumer of another name that mirrors the completion of a window, which fails without one.
abbrev mirrors : EventRow → SystemAction ⊤
mirrors e = handle_engine_event (penalty_window_completed 9 countdown_complete) e.occurred_at

abbrev delivery : ℕ → (EventRow → SystemAction ⊤) → ℕ → Delivery SystemTables SystemError
delivery consumer_name handler now = record {
  event = event;
  registration = record {
    consumer_name = consumer_name;
    handler = on_business payload_error handler;
  };
  now = now;
}

abbrev outbox : Outbox SystemTables
outbox = record {
  domain_events = event ∷ [];
  domain_event_consumers = [];
  next_event_id = 1;
  business = tables;
}

abbrev deliveries : List (Delivery SystemTables SystemError)
deliveries =
    delivery 5 credits_windows 10 ∷ delivery 6 mirrors 10 ∷ delivery 5 credits_windows 20 ∷ []

runs_once : times_run payload_error 0 5 deliveries outbox ≡ 1
unfolding times_run consume_event apply_transition mark_processed handle_plan_event
    on_recovery_plan_task_completed record_credit_in_transaction credit_window credit_for
    remaining_credit book_credit emit_recovery_credit_event handle_engine_event mirror_event
    mirror_status_in_transaction complete_task complete_write propose_task propose_write create_plan
    create_plan_in_transaction min_ℤ max_ℤ ◌-ℤ◌ half target_active_hours ◌+ℤ◌
runs_once = refl

times_run_le_example : times_run payload_error 0 5 deliveries outbox ≤ 1
times_run_le_example = times_run_le payload_error deliveries outbox 0 5 (
  on_business-KeepsProcessed payload_error credits_windows,
  (
    on_business-KeepsProcessed payload_error mirrors,
    (on_business-KeepsProcessed payload_error credits_windows, tt),
  ),
)

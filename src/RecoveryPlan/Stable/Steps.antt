-- ===== src/RecoveryPlan/Stable/Steps.antt =====
-- recovery_plan/repository.py: every method keeps what was read of the rows before it.
use ai_coach_keyholder.Prelude.{
  ℕ, suc, refl, sym, ap, subst, Bool, Option, List, ◌∷◌, arith, ok, Bool-cases, Option-cases, inl,
  inr,
}
use ai_coach_keyholder.Prelude.Int.{half}
use ai_coach_keyholder.Prelude.Lists.{exists, find, update_where}
use ai_coach_keyholder.Infrastructure.Transaction.Keeps.{write_and_events_keeps, then_do_keeps}
use ai_coach_keyholder.PenaltyEngine.Models.{Hours, PenaltyWindow}
use ai_coach_keyholder.PenaltyEngine.Store.{has_id}
use ai_coach_keyholder.RecoveryPlan.Models.{
  RecoveryPlanStatus, RecoveryTaskStatus, PlanTables, PlanEvent, accepted, withdrawn, has_plan_id,
  has_task_id, is_plan_of, is_open_status, write_event, plan_created, task_proposed, task_accepted,
  task_withdrawn, task_completed, plan_regenerated,
}
use ai_coach_keyholder.RecoveryPlan.Plans.{
  new_plan, create_plan_in_transaction, with_status, mirror_status_in_transaction, is_open_task_of,
  expire, with_version, regenerate_in_transaction, create_plan, mirror_status_and_emit, regenerate,
  emit_for, emit_regenerated,
}
use ai_coach_keyholder.RecoveryPlan.Tasks.{
  new_task, propose_write, propose_task, with_task_status, transition_write, transition_task,
  is_proposed, accept_task, withdraw_task, new_completion, complete_task,
}
use ai_coach_keyholder.RecoveryPlan.Tasks.Completing.{with_completion, complete_task-cases}
use ai_coach_keyholder.RecoveryPlan.Stable.{
  reads_of, IsStable, IsStable-refl, IsStable-trans, IsStable-events,
}
use ai_coach_keyholder.RecoveryPlan.Tracked.Runs.{
  Step, Reach, windows_change, creates, mirrors, regenerates, proposes, accepts, withdraws,
  completes, here, next,
}
use ai_coach_keyholder.RecoveryPlan.Stable.Rows.{
  plan_inserted, rows_updated, plans_changed, task_changed, task_inserted, completion_inserted,
  emitted,
}

module _ (t : PlanTables) where
  create_plan-IsStable :
      (window_id : ℕ) (base : Hours) (now : ℕ) → IsStable t (create_plan window_id base now t).1
  unfolding create_plan create_plan_in_transaction
  create_plan-IsStable window_id base now =
      write_and_events_keeps (IsStable t) (create_plan_in_transaction window_id base now)
        (λ result. write_event now (plan_created result.id window_id)) t (IsStable-refl t)
        (elim (Bool-cases (exists (is_plan_of window_id) t.recovery_plans)) [
          | inl clash ↦ rw clash tt
          | inr fresh ↦ elim (Bool-cases (exists (has_id window_id) t.penalty_windows)) [
            | inr missing ↦ rw (fresh, missing) tt
            | inl known ↦
                rw (fresh, known) (plan_inserted t (new_plan t.next_id window_id base now) refl)
          ]
        ])
        (λ r s p. emitted t s now (plan_created r.id window_id) p)

  mirror_status_and_emit-IsStable :
      (window_id : ℕ) (new_status : RecoveryPlanStatus) (event : ℕ → ℕ → PlanEvent) (now : ℕ)
      → IsStable t (mirror_status_and_emit window_id new_status event now t).1
  unfolding mirror_status_and_emit mirror_status_in_transaction
  mirror_status_and_emit-IsStable window_id new_status event now =
      write_and_events_keeps (IsStable t) (mirror_status_in_transaction window_id new_status now)
        (emit_for event window_id now) t (IsStable-refl t)
        (elim (Option-cases (find (is_plan_of window_id) t.recovery_plans)) [
          | inl missing ↦ rw (missing, mirror_status_in_transaction) (IsStable-refl t)
          | inr (row, found) ↦
              rw (found, mirror_status_in_transaction)
                (plans_changed t (is_plan_of window_id) (with_status new_status now)
                  (λ p. (refl, refl)))
        ])
        (λ r s p. elim (Option-cases r) [
          | inl e ↦ rw e p
          | inr (plan, e) ↦ rw e (emitted t s now (event plan.id window_id) p)
        ])

  regenerate-IsStable :
      (window_id : ℕ) (target : Hours) (now : ℕ) → IsStable t (regenerate window_id target now t).1
  unfolding regenerate regenerate_in_transaction
  regenerate-IsStable window_id target now =
      write_and_events_keeps (IsStable t) (regenerate_in_transaction window_id target now)
        (emit_regenerated window_id now) t (IsStable-refl t)
        (elim (Option-cases (find (is_plan_of window_id) t.recovery_plans)) [
          | inl missing ↦ rw (missing, regenerate_in_transaction) (IsStable-refl t)
          | inr (row, found) ↦
              rw (found, regenerate_in_transaction)
                (rows_updated t (is_plan_of window_id)
                  (with_version (suc row.current_version) (half target) now)
                  (is_open_task_of row.id row.current_version) (expire now) (λ p. (refl, refl))
                  (λ x. (refl, refl)))
        ])
        (λ r s p. elim (Option-cases r) [
          | inl e ↦ rw e p
          | inr (plan, e) ↦ rw e (
              emitted t s now
                (plan_regenerated plan.id window_id plan.current_version
                  plan.recovery_credit_capacity_hours)
                p)
        ])

  propose_task-IsStable :
      (plan_id title description : ℕ) (credit : Hours) (now : ℕ)
      → IsStable t (propose_task plan_id title description credit now t).1
  unfolding propose_task propose_write
  propose_task-IsStable plan_id title description credit now =
      write_and_events_keeps (IsStable t) (propose_write plan_id title description credit now)
        (λ result. write_event now (task_proposed result.id plan_id credit)) t (IsStable-refl t)
        (elim (Option-cases (find (has_plan_id plan_id) t.recovery_plans)) [
          | inl missing ↦ rw (missing, propose_write) tt
          | inr (plan, found) ↦
              rw (found, propose_write)
                (task_inserted t
                  (new_task t.next_id plan_id plan.current_version title description credit now)
                  refl)
        ])
        (λ r s p. emitted t s now (task_proposed r.id plan_id credit) p)

  transition_task-IsStable :
      (task_id : ℕ) (target : RecoveryTaskStatus) (event : ℕ → ℕ → PlanEvent) (now : ℕ)
      (allowed : RecoveryTaskStatus → Bool)
      → IsStable t (transition_task task_id target event now allowed t).1
  unfolding transition_task transition_write
  transition_task-IsStable task_id target event now allowed =
      write_and_events_keeps (IsStable t) (transition_write task_id target now allowed)
        (λ result. write_event now (event task_id result.recovery_plan_id)) t (IsStable-refl t)
        (elim (Option-cases (find (has_task_id task_id) t.recovery_tasks)) [
          | inl missing ↦ rw (missing, transition_write) tt
          | inr (row, found) ↦ elim (Bool-cases (allowed row.status)) [
            | inr refused ↦ rw (found, transition_write) (rw refused tt)
            | inl fine ↦
                rw (found, transition_write)
                  (rw fine (task_changed t (has_task_id task_id) target now))
          ]
        ])
        (λ r s p. emitted t s now (event task_id r.recovery_plan_id) p)

  accept_task-IsStable : (task_id now : ℕ) → IsStable t (accept_task task_id now t).1
  unfolding accept_task
  accept_task-IsStable task_id now =
      then_do_keeps (IsStable t) (transition_task task_id accepted task_accepted now is_proposed)
        (λ _ s. (ok tt, s)) t
        (transition_task-IsStable task_id accepted task_accepted now is_proposed) (λ _ s p. p)

  withdraw_task-IsStable : (task_id now : ℕ) → IsStable t (withdraw_task task_id now t).1
  unfolding withdraw_task
  withdraw_task-IsStable task_id now =
      then_do_keeps (IsStable t)
        (transition_task task_id withdrawn task_withdrawn now is_open_status) (λ _ s. (ok tt, s)) t
        (transition_task-IsStable task_id withdrawn task_withdrawn now is_open_status) (λ _ s p. p)

complete_task-IsStable :
    (t : PlanTables) (task_id now : ℕ) (notes : Option ℕ)
    → IsStable t (complete_task task_id now notes t).1
complete_task-IsStable t task_id now notes = elim (complete_task-cases task_id now notes t) [
  | inl (e, raised) ↦ subst (IsStable t) (sym (ap (λ p. p.1) raised)) (IsStable-refl t)
  | inr (row, plan, c, done) ↦
      let moved = record t {
        recovery_tasks =
            update_where (has_task_id task_id) (with_task_status RecoveryTaskStatus.completed now)
              t.recovery_tasks;
      } in
      subst (IsStable t) (sym (ap (λ p. p.1) done)) (
        IsStable-events t (with_completion task_id now notes t row)
          (record {
            payload =
                task_completed t.next_id task_id row.recovery_plan_id plan.penalty_window_id
                  row.credit_hours;
            occurred_at = now;
          }
            ∷ t.plan_events)
          (IsStable-trans t moved (with_completion task_id now notes t row)
            (task_changed t (has_task_id task_id) RecoveryTaskStatus.completed now)
            (completion_inserted moved
              (new_completion t.next_id task_id row.recovery_plan_id now notes) refl)))
]

windows_change-IsStable :
    (t : PlanTables) (ws : List PenaltyWindow) → IsStable t (record t { penalty_windows = ws })
unfolding reads_of
windows_change-IsStable t ws = record {
  next_grows = omega arith;
  completions_stay = λ id h. refl;
  hours_stay = λ id h. refl;
  windows_stay = λ id h. refl;
}

Step-IsStable : {t u : PlanTables} → Step t u → IsStable t u
Step-IsStable (windows_change t ws) = windows_change-IsStable t ws
Step-IsStable (creates t w base now) = create_plan-IsStable t w base now
Step-IsStable (mirrors t w s event now) = mirror_status_and_emit-IsStable t w s event now
Step-IsStable (regenerates t w target now) = regenerate-IsStable t w target now
Step-IsStable (proposes t plan title description credit now) =
    propose_task-IsStable t plan title description credit now
Step-IsStable (accepts t task now) = accept_task-IsStable t task now
Step-IsStable (withdraws t task now) = withdraw_task-IsStable t task now
Step-IsStable (completes t task now notes) = complete_task-IsStable t task now notes

pub Reach-IsStable : {t u : PlanTables} → Reach t u → IsStable t u
Reach-IsStable {t} here = IsStable-refl t
Reach-IsStable {t} (next {t = m} {u = u} r step) =
    IsStable-trans t m u (Reach-IsStable r) (Step-IsStable step)

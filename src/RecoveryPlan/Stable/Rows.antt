-- ===== src/RecoveryPlan/Stable/Rows.antt =====
-- recovery_plan/repository.py: the changes of rows that keep what another module reads.
use ai_coach_keyholder.Prelude.{ℕ, suc, ◌≡◌, refl, ap, Bool, ◌∷◌, arith}
use mathlib.Core.Option
use ai_coach_keyholder.Prelude.Lists.{update_where}
use ai_coach_keyholder.Prelude.Rows.{find-update_where_field, find_behind}
use ai_coach_keyholder.Infrastructure.Transaction.Keeps.{Leaves}
use ai_coach_keyholder.RecoveryPlan.Models.{
  RecoveryPlan, RecoveryTask, RecoveryTaskStatus, RecoveryTaskCompletion, PlanTables, PlanEvent,
  write_event,
}
use ai_coach_keyholder.RecoveryPlan.Tasks.{with_task_status}
use ai_coach_keyholder.RecoveryPlan.Stable.{reads_of, IsStable, IsStable-events}

module _ (t : PlanTables) where
  pub plan_inserted :
      (plan : RecoveryPlan)
      → plan.id ≡ t.next_id
      → IsStable t (record t { recovery_plans = plan ∷ t.recovery_plans; next_id = suc t.next_id })
  unfolding reads_of
  plan_inserted plan new = record {
    next_grows = omega arith;
    completions_stay = λ id h. refl;
    hours_stay = λ id h. refl;
    windows_stay = λ id h.
        ap (Option.map (λ p. p.penalty_window_id))
          (find_behind (λ p. p.id) plan id t.next_id t.recovery_plans new h);
  }

  -- Updates of plans and tasks that set neither an id, nor a window, nor hours.
  pub rows_updated :
      (q : RecoveryPlan → Bool) (f : RecoveryPlan → RecoveryPlan) (r : RecoveryTask → Bool)
      (g : RecoveryTask → RecoveryTask)
      → ((p : RecoveryPlan) → ((f p).id ≡ p.id) × ((f p).penalty_window_id ≡ p.penalty_window_id))
      → ((x : RecoveryTask) → ((g x).id ≡ x.id) × ((g x).credit_hours ≡ x.credit_hours))
      → IsStable t (record t {
        recovery_plans = update_where q f t.recovery_plans;
        recovery_tasks = update_where r g t.recovery_tasks;
      })
  unfolding reads_of
  rows_updated q f r g kf kg = record {
    next_grows = omega arith;
    completions_stay = λ id h. refl;
    hours_stay = λ id h.
        find-update_where_field (λ x. x.id) (λ x. x.credit_hours) r g id t.recovery_tasks
          (λ x. (kg x).0) (λ x. (kg x).1);
    windows_stay = λ id h.
        find-update_where_field (λ p. p.id) (λ p. p.penalty_window_id) q f id t.recovery_plans
          (λ p. (kf p).0) (λ p. (kf p).1);
  }

  pub plans_changed :
      (q : RecoveryPlan → Bool) (f : RecoveryPlan → RecoveryPlan)
      → ((p : RecoveryPlan) → ((f p).id ≡ p.id) × ((f p).penalty_window_id ≡ p.penalty_window_id))
      → IsStable t (record t { recovery_plans = update_where q f t.recovery_plans })
  unfolding reads_of
  plans_changed q f kf = record {
    next_grows = omega arith;
    completions_stay = λ id h. refl;
    hours_stay = λ id h. refl;
    windows_stay = λ id h.
        find-update_where_field (λ p. p.id) (λ p. p.penalty_window_id) q f id t.recovery_plans
          (λ p. (kf p).0) (λ p. (kf p).1);
  }

  pub task_changed :
      (r : RecoveryTask → Bool) (target : RecoveryTaskStatus) (now : ℕ)
      → IsStable t (record t {
        recovery_tasks = update_where r (with_task_status target now) t.recovery_tasks;
      })
  unfolding reads_of
  task_changed r target now = record {
    next_grows = omega arith;
    completions_stay = λ id h. refl;
    hours_stay = λ id h.
        find-update_where_field (λ x. x.id) (λ x. x.credit_hours) r (with_task_status target now) id
          t.recovery_tasks (λ x. refl) (λ x. refl);
    windows_stay = λ id h. refl;
  }

  pub task_inserted :
      (task : RecoveryTask)
      → task.id ≡ t.next_id
      → IsStable t (record t { recovery_tasks = task ∷ t.recovery_tasks; next_id = suc t.next_id })
  unfolding reads_of
  task_inserted task new = record {
    next_grows = omega arith;
    completions_stay = λ id h. refl;
    hours_stay = λ id h.
        ap (Option.map (λ x. x.credit_hours))
          (find_behind (λ x. x.id) task id t.next_id t.recovery_tasks new h);
    windows_stay = λ id h. refl;
  }

  pub completion_inserted :
      (c : RecoveryTaskCompletion)
      → c.id ≡ t.next_id
      → IsStable t (record t {
        recovery_task_completions = c ∷ t.recovery_task_completions;
        next_id = suc t.next_id;
      })
  unfolding reads_of
  completion_inserted c new = record {
    next_grows = omega arith;
    completions_stay = λ id h.
        ap (Option.map (λ d. (d.recovery_task_id, d.recovery_plan_id)))
          (find_behind (λ d. d.id) c id t.next_id t.recovery_task_completions new h);
    hours_stay = λ id h. refl;
    windows_stay = λ id h. refl;
  }

  -- The events of a method add rows to the outbox only.
  pub emitted :
      (u : PlanTables) (now : ℕ) (e : PlanEvent)
      → IsStable t u
      → Leaves (IsStable t) (write_event now e u)
  emitted u now e = IsStable-events t u (record { payload = e; occurred_at = now } ∷ u.plan_events)

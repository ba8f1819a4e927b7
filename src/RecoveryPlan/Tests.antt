-- ===== src/RecoveryPlan/Tests.antt =====
-- A run of recovery_plan/, and the properties at it.
use ai_coach_keyholder.Prelude.{◌≡◌, refl, true, false, none, some, [], ◌∷◌, err}
use ai_coach_keyholder.Prelude.Int.{pos}
use ai_coach_keyholder.Prelude.Lists.{count_where, find}
use ai_coach_keyholder.Infrastructure.Transaction.{apply_transition}
use ai_coach_keyholder.PenaltyEngine.Models.{PenaltyWindow, PenaltyWindowStatus}
use ai_coach_keyholder.RecoveryPlan.Models.{
  RecoveryPlan, RecoveryTask, RecoveryTaskStatus, PlanTables, invalid_task_transition, has_plan_id,
  has_task_id, is_completion_of,
}
use ai_coach_keyholder.RecoveryPlan.Plans.{
  create_plan, create_plan_in_transaction, mirror_frozen, mirror_status_and_emit,
  mirror_status_in_transaction, regenerate,
}
use ai_coach_keyholder.RecoveryPlan.Tasks.{
  propose_task, propose_write, complete_task, complete_write, new_task,
}
use ai_coach_keyholder.RecoveryPlan.Reads.{lacks_plan, recover_recovery_plan_state}
use ai_coach_keyholder.RecoveryPlan.Tracked.Runs.{
  Reach, here, next, windows_change, creates, proposes, completes, regenerates, no_plans,
  no_plans-IsTracked, Reach-IsTracked, completed_iff_completion,
}
use ai_coach_keyholder.RecoveryPlan.Stable.Final.{final_stays}

abbrev window : PenaltyWindow
window = record {
  id = 7;
  created_at = 1;
  status = PenaltyWindowStatus.active;
  closed_at = none;
  resolution_method = none;
  base_duration_hours = pos 48;
  extensions_hours = pos 0;
  accumulated_active_hours = pos 0;
  active_period_started_at = some 1;
  recovery_credits_earned_hours = pos 0;
}

abbrev with_window : PlanTables
with_window = record no_plans { penalty_windows = window ∷ [] }

abbrev with_plan : PlanTables
with_plan = (create_plan 7 (pos 48) 2 with_window).1

abbrev with_task : PlanTables
with_task = (propose_task 0 11 12 (pos 4) 3 with_plan).1

abbrev with_done : PlanTables
with_done = (complete_task 1 4 none with_task).1

abbrev with_version : PlanTables
with_version = (regenerate 7 (pos 60) 5 with_done).1

abbrev done : RecoveryTask
done = record (new_task 1 0 1 11 12 (pos 4) 3) {
  status = RecoveryTaskStatus.completed;
  status_changed_at = 4;
}

Reach-with_done : Reach no_plans with_done
Reach-with_done =
    next
      (next
        (next (next here (windows_change no_plans (window ∷ [])))
          (creates with_window 7 (pos 48) 2))
        (proposes with_plan 0 11 12 (pos 4) 3))
      (completes with_task 1 4 none)

found_done : find (has_task_id 1) with_done.recovery_tasks ≡ some done
unfolding create_plan create_plan_in_transaction propose_task propose_write complete_task
    complete_write apply_transition
found_done = refl

completes_once :
    (complete_task 1 6 none with_done).0
    ≡ err (invalid_task_transition 1 RecoveryTaskStatus.completed RecoveryTaskStatus.completed)
unfolding create_plan create_plan_in_transaction propose_task propose_write complete_task
    complete_write apply_transition
completes_once = refl

-- A plan that does not mirror its window is reported, and one that does is not.
reports :
    (recover_recovery_plan_state with_done ≡ [])
    × (recover_recovery_plan_state (mirror_frozen 7 6 with_done).1 ≡ 7 ∷ [])
unfolding create_plan create_plan_in_transaction propose_task propose_write complete_task
    complete_write apply_transition mirror_frozen mirror_status_and_emit
    mirror_status_in_transaction recover_recovery_plan_state lacks_plan
reports = (refl, refl)

completed_iff_completion_example :
    (count_where (is_completion_of 1) with_done.recovery_task_completions ≡ 1)
    × ((p : RecoveryPlan) × (find (has_plan_id 0) with_done.recovery_plans ≡ some p)
        × (false ≡ true → 1 ≡ p.current_version))
completed_iff_completion_example = completed_iff_completion 1 done Reach-with_done found_done

final_stays_example : find (has_task_id 1) with_version.recovery_tasks ≡ some done
final_stays_example =
    final_stays 1 done refl {t = with_done} {u = with_version}
      (Reach-IsTracked no_plans-IsTracked Reach-with_done)
      (next here (regenerates with_done 7 (pos 60) 5)) found_done

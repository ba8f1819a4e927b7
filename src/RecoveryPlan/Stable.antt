-- ===== src/RecoveryPlan/Stable.antt =====
-- recovery_plan/repository.py: what another module reads of a row does not change after it is written.
pub mod Rows
pub mod Steps
pub mod Final
use mathlib.Core.Option
use ai_coach_keyholder.Prelude.{List, ℕ, ◌≤◌, ◌<◌, ◌≡◌, refl, ◌∙◌, Option, arith}
use ai_coach_keyholder.Prelude.Lists.{find}
use ai_coach_keyholder.PenaltyEngine.Credit.{RecoveryReads}
use ai_coach_keyholder.RecoveryPlan.Models.{PlanTables, PlanEventRow, has_plan_id, has_task_id}
use ai_coach_keyholder.RecoveryPlan.Reads.{
  get_recovery_task_completion, get_recovery_task, get_recovery_plan, has_completion_id,
}

-- The reads that the penalty engine makes, at these tables.
unfoldable pub reads_of : PlanTables → RecoveryReads
unfolding get_recovery_task_completion get_recovery_task get_recovery_plan
reads_of t = record {
  get_recovery_task_completion = λ id.
      Option.map (λ c. (c.recovery_task_id, c.recovery_plan_id))
        (get_recovery_task_completion id t);
  credit_hours_of_task = λ id. Option.map (λ task. task.credit_hours) (get_recovery_task id t);
  window_of_plan = λ id. Option.map (λ p. p.penalty_window_id) (get_recovery_plan id t);
}

-- From `t` to `u` no id is given again, and what is read by an id that `t` has given stays.
pub record IsStable (t u : PlanTables) : Type 0 where
  pub next_grows : t.next_id ≤ u.next_id
  pub completions_stay :
      (id : ℕ)
      → id < t.next_id
      → (reads_of u).get_recovery_task_completion id ≡ (reads_of t).get_recovery_task_completion id
  pub hours_stay :
      (id : ℕ)
      → id < t.next_id
      → (reads_of u).credit_hours_of_task id ≡ (reads_of t).credit_hours_of_task id
  pub windows_stay :
      (id : ℕ) → id < t.next_id → (reads_of u).window_of_plan id ≡ (reads_of t).window_of_plan id

pub IsStable-refl : (t : PlanTables) → IsStable t t
IsStable-refl t = record {
  next_grows = omega arith;
  completions_stay = λ id h. refl;
  hours_stay = λ id h. refl;
  windows_stay = λ id h. refl;
}

pub IsStable-trans : (t u w : PlanTables) → IsStable t u → IsStable u w → IsStable t w
IsStable-trans t u w a b = record {
  next_grows = omega (arith, a.next_grows, b.next_grows);
  completions_stay =
      λ id h. b.completions_stay id (omega (arith, a.next_grows)) ∙ a.completions_stay id h;
  hours_stay = λ id h. b.hours_stay id (omega (arith, a.next_grows)) ∙ a.hours_stay id h;
  windows_stay = λ id h. b.windows_stay id (omega (arith, a.next_grows)) ∙ a.windows_stay id h;
}

pub IsStable-events :
    (t u : PlanTables) (es : List PlanEventRow)
    → IsStable t u
    → IsStable t (record u { plan_events = es })
unfolding reads_of
IsStable-events t u es s = record {
  next_grows = s.next_grows;
  completions_stay = s.completions_stay;
  hours_stay = s.hours_stay;
  windows_stay = s.windows_stay;
}

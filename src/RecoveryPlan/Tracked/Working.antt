-- ===== src/RecoveryPlan/Tracked/Working.antt =====
-- recovery_plan/repository.py: the work on the tasks of a plan keeps the invariant.
use ai_coach_keyholder.Prelude.{
  ℕ, suc, ◌≤◌, ◌<◌, ◌≡◌, refl, sym, ap, ◌∙◌, subst, Bool, true, false, Option, some, List, ◌∷◌,
  arith, ok, Bool-cases, Option-cases, inl, inr,
}
use ai_coach_keyholder.Prelude.Lists.{All, find, update_where}
use ai_coach_keyholder.Prelude.Rows.{
  All-map, All-both, All-update_where, All-find, Distinct-update_where, found_rows, exists_fresh,
  count_where_none,
}
use ai_coach_keyholder.Infrastructure.Transaction.Keeps.{
  Leaves, write_and_events_keeps, then_do_keeps,
}
use ai_coach_keyholder.PenaltyEngine.Models.{Hours}
use ai_coach_keyholder.RecoveryPlan.Models.{
  RecoveryPlan, RecoveryTask, RecoveryTaskStatus, RecoveryTaskCompletion, PlanTables, PlanEvent,
  proposed, accepted, expired, withdrawn, has_plan_id, has_task_id, is_completion_of,
  is_open_status, write_event, task_proposed, task_accepted, task_withdrawn,
}
use ai_coach_keyholder.RecoveryPlan.Tasks.{
  new_task, propose_write, propose_task, with_task_status, transition_write, transition_task,
  is_proposed, accept_task, withdraw_task, new_completion, complete_task,
}
use ai_coach_keyholder.RecoveryPlan.Tasks.Completing.{
  with_completion, IsCompletable, complete_task-cases,
}
use ai_coach_keyholder.RecoveryPlan.Tracked.{is_completed, Current, Counted, Tracked, IsTracked}

pub proposed_is_open : (s : RecoveryTaskStatus) → is_proposed s ≡ true → is_open_status s ≡ true
proposed_is_open proposed h = refl
proposed_is_open accepted h = refl
proposed_is_open RecoveryTaskStatus.completed h = cc
proposed_is_open expired h = cc
proposed_is_open withdrawn h = cc

module _ (t : PlanTables) (v : IsTracked t) where
  task_added :
      (task : RecoveryTask)
      → task.id ≡ t.next_id
      → is_completed task.status ≡ false
      → Current t.recovery_plans task
      → Tracked t.recovery_plans
          (task ∷ t.recovery_tasks)
          t.recovery_task_completions
          (suc t.next_id)
  task_added task new open_yet cur = record {
    plans_below = All-map t.recovery_plans (λ p h. omega arith) v.plans_below;
    tasks_below = (omega arith, All-map t.recovery_tasks (λ x h. omega arith) v.tasks_below);
    completions_below =
        All-map t.recovery_task_completions (λ c h. omega arith) v.completions_below;
    windows = v.windows;
    task_ids = (
      exists_fresh (λ x. x.id) task.id t.recovery_tasks
          (All-map t.recovery_tasks (λ x h. rw new h) v.tasks_below),
      v.task_ids,
    );
    current = (cur, v.current);
    counted = (
      rw open_yet (
          count_where_none (is_completion_of task.id) t.recovery_task_completions (
            All-map t.recovery_task_completions (λ c h. ground (arith, h, new))
              v.completions_below)),
      v.counted,
    );
  }

  propose_write-IsTracked :
      (plan_id title description : ℕ) (credit : Hours) (now : ℕ)
      → Leaves IsTracked (propose_write plan_id title description credit now t)
  unfolding propose_write
  propose_write-IsTracked plan_id title description credit now =
      elim (Option-cases (find (has_plan_id plan_id) t.recovery_plans)) [
        | inl missing ↦ rw (missing, propose_write) tt
        | inr (plan, found) ↦
            rw (found, propose_write)
              (task_added
                (new_task t.next_id plan_id plan.current_version title description credit now) refl
                refl (plan, found, (λ _. refl)))
      ]

  module _ (row : RecoveryTask) (task_id : ℕ)
      (found : find (has_task_id task_id) t.recovery_tasks ≡ some row) (target : RecoveryTaskStatus)
      (now : ℕ) where
    moved : List RecoveryTask
    moved = update_where (has_task_id task_id) (with_task_status target now) t.recovery_tasks

    the_row : All (λ x. has_task_id task_id x ≡ true → x ≡ row) t.recovery_tasks
    the_row = found_rows (λ x. x.id) task_id row t.recovery_tasks v.task_ids found

    -- A task that is found is moved to another status.
    task_moved :
        (completions : List RecoveryTaskCompletion) (next : ℕ)
        → t.next_id ≤ next
        → (is_open_status target ≡ true → is_open_status row.status ≡ true)
        → All (λ c. c.recovery_task_id < next) completions
        → All (Counted completions) moved
        → Tracked t.recovery_plans moved completions next
    unfolding moved
    task_moved completions next up opens below count = record {
      plans_below = All-map t.recovery_plans (λ p h. omega arith) v.plans_below;
      tasks_below =
          All-update_where (has_task_id task_id) (with_task_status target now) t.recovery_tasks
            (λ x h _. omega arith) (λ x h _. omega arith) v.tasks_below;
      completions_below = below;
      windows = v.windows;
      task_ids =
          Distinct-update_where (λ x. x.id) (has_task_id task_id) (with_task_status target now)
            t.recovery_tasks (λ x. refl) v.task_ids;
      current =
          All-update_where (has_task_id task_id) (with_task_status target now) t.recovery_tasks
            (λ x h hit.
              (h.0.0, h.0.1, (λ o. h.0.2 (ap (λ y. is_open_status y.status) (h.1 hit) ∙ opens o))))
            (λ x h _. h.0)
            (All-both
              {R = λ x. Current t.recovery_plans x × (has_task_id task_id x ≡ true → x ≡ row)}
              t.recovery_tasks (λ x c r. (c, r)) v.current the_row);
      counted = count;
    }

    -- The completions of an open task that is not completed stay none.
    moved-Counted :
        is_open_status row.status ≡ true
        → is_completed target ≡ false
        → All (Counted t.recovery_task_completions) moved
    unfolding moved
    moved-Counted o n =
        All-update_where (has_task_id task_id) (with_task_status target now) t.recovery_tasks
          (λ x h hit. ground (arith, h.0, ap (λ y. y.status) (h.1 hit), o, n)) (λ x h _. h.0)
          (All-both
            {R = λ x.
              Counted t.recovery_task_completions x × (has_task_id task_id x ≡ true → x ≡ row)}
            t.recovery_tasks (λ x c r. (c, r)) v.counted the_row)

    -- A completion is added with the status.
    moved-Counted_done :
        (c : RecoveryTaskCompletion)
        → c.recovery_task_id ≡ task_id
        → is_open_status row.status ≡ true
        → is_completed target ≡ true
        → All (Counted (c ∷ t.recovery_task_completions)) moved
    unfolding moved
    moved-Counted_done c of_task o n =
        All-update_where (has_task_id task_id) (with_task_status target now) t.recovery_tasks
          (λ x h hit. ground (arith, h.0, ap (λ y. y.status) (h.1 hit), o, n, hit, of_task))
          (λ x h miss. ground (arith, h.0, miss, of_task))
          (All-both
            {R = λ x.
              Counted t.recovery_task_completions x × (has_task_id task_id x ≡ true → x ≡ row)}
            t.recovery_tasks (λ x c r. (c, r)) v.counted the_row)

  transition_write-IsTracked :
      (task_id : ℕ) (target : RecoveryTaskStatus) (now : ℕ) (allowed : RecoveryTaskStatus → Bool)
      → is_completed target ≡ false
      → ((s : RecoveryTaskStatus) → allowed s ≡ true → is_open_status s ≡ true)
      → Leaves IsTracked (transition_write task_id target now allowed t)
  unfolding transition_write moved
  transition_write-IsTracked task_id target now allowed n opens =
      elim (Option-cases (find (has_task_id task_id) t.recovery_tasks)) [
        | inl missing ↦ rw (missing, transition_write) tt
        | inr (row, found) ↦ elim (Bool-cases (allowed row.status)) [
          | inr refused ↦ rw (found, transition_write) (rw refused tt)
          | inl fine ↦
              rw (found, transition_write)
                (rw fine (
                  task_moved row task_id found target now t.recovery_task_completions t.next_id
                    (omega arith) (λ _. opens row.status fine) v.completions_below
                    (moved-Counted row task_id found target now (opens row.status fine) n)))
        ]
      ]

  completion-IsTracked :
      (task_id now : ℕ) (notes : Option ℕ) (row : RecoveryTask) (plan : RecoveryPlan)
      → IsCompletable task_id now notes t row plan
      → IsTracked (with_completion task_id now notes t row)
  unfolding moved
  completion-IsTracked task_id now notes row plan (found, fine, at) =
      let c = new_completion t.next_id task_id row.recovery_plan_id now notes in
      let (less, hit) =
        All-find (λ x. x.id < t.next_id) (has_task_id task_id) t.recovery_tasks row v.tasks_below
          found in
      task_moved row task_id found RecoveryTaskStatus.completed now
        (c ∷ t.recovery_task_completions) (suc t.next_id) (omega arith) (λ h. cc)
        (
          ground (arith, less, hit),
          All-map t.recovery_task_completions (λ d h. omega arith) v.completions_below,
        )
        (moved-Counted_done row task_id found RecoveryTaskStatus.completed now c refl fine refl)

module _ (t : PlanTables) (v : IsTracked t) where
  pub propose_task-IsTracked :
      (plan_id title description : ℕ) (credit : Hours) (now : ℕ)
      → IsTracked (propose_task plan_id title description credit now t).1
  unfolding propose_task
  propose_task-IsTracked plan_id title description credit now =
      write_and_events_keeps IsTracked (propose_write plan_id title description credit now)
        (λ result. write_event now (task_proposed result.id plan_id credit)) t v
        (propose_write-IsTracked t v plan_id title description credit now) (λ r s p. p)

  transition_task-IsTracked :
      (task_id : ℕ) (target : RecoveryTaskStatus) (event : ℕ → ℕ → PlanEvent) (now : ℕ)
      (allowed : RecoveryTaskStatus → Bool)
      → is_completed target ≡ false
      → ((s : RecoveryTaskStatus) → allowed s ≡ true → is_open_status s ≡ true)
      → IsTracked (transition_task task_id target event now allowed t).1
  unfolding transition_task
  transition_task-IsTracked task_id target event now allowed n opens =
      write_and_events_keeps IsTracked (transition_write task_id target now allowed)
        (λ result. write_event now (event task_id result.recovery_plan_id)) t v
        (transition_write-IsTracked t v task_id target now allowed n opens) (λ r s p. p)

  pub accept_task-IsTracked : (task_id now : ℕ) → IsTracked (accept_task task_id now t).1
  unfolding accept_task
  accept_task-IsTracked task_id now =
      then_do_keeps IsTracked (transition_task task_id accepted task_accepted now is_proposed)
        (λ _ s. (ok tt, s)) t
        (transition_task-IsTracked task_id accepted task_accepted now is_proposed refl
          proposed_is_open)
        (λ _ s p. p)

  pub withdraw_task-IsTracked : (task_id now : ℕ) → IsTracked (withdraw_task task_id now t).1
  unfolding withdraw_task
  withdraw_task-IsTracked task_id now =
      then_do_keeps IsTracked (transition_task task_id withdrawn task_withdrawn now is_open_status)
        (λ _ s. (ok tt, s)) t
        (transition_task-IsTracked task_id withdrawn task_withdrawn now is_open_status refl
          (λ s h. h))
        (λ _ s p. p)

  pub complete_task-IsTracked :
      (task_id now : ℕ) (notes : Option ℕ) → IsTracked (complete_task task_id now notes t).1
  complete_task-IsTracked task_id now notes = elim (complete_task-cases task_id now notes t) [
    | inl (e, raised) ↦ subst IsTracked (sym (ap (λ p. p.1) raised)) v
    | inr (row, plan, c, done) ↦
        subst IsTracked (sym (ap (λ p. p.1) done))
          (completion-IsTracked t v task_id now notes row plan c)
  ]

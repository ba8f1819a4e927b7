-- ===== src/RecoveryPlan/Stable/Final.antt =====
-- recovery_plan/repository.py: a task that is completed, expired or withdrawn stays as it is.
use ai_coach_keyholder.Prelude.{
  ℕ, ◌<◌, ◌≡◌, refl, sym, ap, ◌∙◌, subst, ⊤, Bool, true, false, Option, none, some, List, arith, ok,
  Bool-cases, Option-cases, inl, inr, if◌then◌else◌,
}
use mathlib.Core.Option
use ai_coach_keyholder.Prelude.Lists.{exists, find, update_where}
use ai_coach_keyholder.Prelude.Rows.{All-all, All-find, find-update_where_any, find_behind}
use ai_coach_keyholder.Infrastructure.Transaction.Keeps.{write_and_events_keeps, then_do_keeps}
use ai_coach_keyholder.PenaltyEngine.Models.{Hours}
use ai_coach_keyholder.PenaltyEngine.Store.{has_id}
use ai_coach_keyholder.RecoveryPlan.Models.{
  RecoveryPlanStatus, RecoveryTask, RecoveryTaskStatus, PlanTables, PlanEvent, accepted, withdrawn,
  has_plan_id, has_task_id, is_plan_of, is_open_status, write_event, plan_created, task_proposed,
  task_accepted, task_withdrawn,
}
use ai_coach_keyholder.RecoveryPlan.Plans.{
  create_plan_in_transaction, mirror_status_in_transaction, is_open_task_of, expire,
  regenerate_in_transaction, create_plan, mirror_status_and_emit, regenerate, emit_for,
  emit_regenerated,
}
use ai_coach_keyholder.RecoveryPlan.Tasks.{
  new_task, propose_write, propose_task, with_task_status, transition_write, transition_task,
  is_proposed, accept_task, withdraw_task, complete_task,
}
use ai_coach_keyholder.RecoveryPlan.Tasks.Completing.{complete_task-cases}
use ai_coach_keyholder.RecoveryPlan.Tracked.{IsTracked}
use ai_coach_keyholder.RecoveryPlan.Tracked.Working.{proposed_is_open}
use ai_coach_keyholder.RecoveryPlan.Tracked.Runs.{
  Step, Reach, windows_change, creates, mirrors, regenerates, proposes, accepts, withdraws,
  completes, here, next, Reach-IsTracked,
}

module _ (id : ℕ) (task : RecoveryTask) (final : is_open_status task.status ≡ false) where
  abbrev Holds : PlanTables → Type 0
  Holds t = find (has_task_id id) t.recovery_tasks ≡ some task

  -- An update that does not touch the row.
  untouched :
      (q : RecoveryTask → Bool) (f : RecoveryTask → RecoveryTask) (rows : List RecoveryTask)
      → ((x : RecoveryTask) → (f x).id ≡ x.id)
      → q task ≡ false
      → find (has_task_id id) rows ≡ some task
      → find (has_task_id id) (update_where q f rows) ≡ some task
  untouched q f rows keeps miss found =
      find-update_where_any (λ x. x.id) q f id rows keeps
      ∙ ap (Option.map (λ x. if q x then f x else x)) found
      ∙ rw miss refl

  not_the_task :
      (task_id : ℕ) (row : RecoveryTask) (rows : List RecoveryTask)
      → find (has_task_id task_id) rows ≡ some row
      → is_open_status row.status ≡ true
      → find (has_task_id id) rows ≡ some task
      → has_task_id task_id task ≡ false
  not_the_task task_id row rows at running found =
      let own = (All-find (λ _. ⊤) (has_task_id id) rows task (All-all rows (λ _. tt)) found).1 in
      elim (Bool-cases (has_task_id task_id task)) [
        | inr miss ↦ miss
        | inl hit ↦
            let same : task_id ≡ id = ground (arith, hit, own) in
            let one : some row ≡ some task =
              sym at ∙ ap (λ k. find (has_task_id k) rows) same ∙ found in
            cc (
              sym running
              ∙ ap (λ o. elim o [ some x ↦ is_open_status x.status | none ↦ true ]) one
              ∙ final)
      ]

  module _ (t : PlanTables) (h : Holds t) where
    create_plan-Holds : (w : ℕ) (base : Hours) (now : ℕ) → Holds (create_plan w base now t).1
    unfolding create_plan create_plan_in_transaction
    create_plan-Holds w base now =
        write_and_events_keeps Holds (create_plan_in_transaction w base now)
          (λ result. write_event now (plan_created result.id w)) t h
          (elim (Bool-cases (exists (is_plan_of w) t.recovery_plans)) [
            | inl clash ↦ rw clash tt
            | inr fresh ↦ elim (Bool-cases (exists (has_id w) t.penalty_windows)) [
              | inr missing ↦ rw (fresh, missing) tt
              | inl known ↦ rw (fresh, known) h
            ]
          ])
          (λ r s p. p)

    mirror_status_and_emit-Holds :
        (w : ℕ) (new_status : RecoveryPlanStatus) (event : ℕ → ℕ → PlanEvent) (now : ℕ)
        → Holds (mirror_status_and_emit w new_status event now t).1
    unfolding mirror_status_and_emit mirror_status_in_transaction
    mirror_status_and_emit-Holds w new_status event now =
        write_and_events_keeps Holds (mirror_status_in_transaction w new_status now)
          (emit_for event w now) t h
          (elim (Option-cases (find (is_plan_of w) t.recovery_plans)) [
            | inl missing ↦ rw (missing, mirror_status_in_transaction) h
            | inr (row, found) ↦ rw (found, mirror_status_in_transaction) h
          ])
          (λ r s p. elim (Option-cases r) [ inl e ↦ rw e p | inr (_, e) ↦ rw e p ])

    regenerate-Holds : (w : ℕ) (target : Hours) (now : ℕ) → Holds (regenerate w target now t).1
    unfolding regenerate regenerate_in_transaction
    regenerate-Holds w target now =
        write_and_events_keeps Holds (regenerate_in_transaction w target now)
          (emit_regenerated w now) t h
          (elim (Option-cases (find (is_plan_of w) t.recovery_plans)) [
            | inl missing ↦ rw (missing, regenerate_in_transaction) h
            | inr (row, found) ↦
                rw (found, regenerate_in_transaction)
                  (untouched (is_open_task_of row.id row.current_version) (expire now)
                    t.recovery_tasks (λ x. refl) (ground (arith, final)) h)
          ])
          (λ r s p. elim (Option-cases r) [ inl e ↦ rw e p | inr (_, e) ↦ rw e p ])

    propose_task-Holds :
        (plan_id title description : ℕ) (credit : Hours) (now : ℕ)
        → id < t.next_id
        → Holds (propose_task plan_id title description credit now t).1
    unfolding propose_task propose_write
    propose_task-Holds plan_id title description credit now given =
        write_and_events_keeps Holds (propose_write plan_id title description credit now)
          (λ result. write_event now (task_proposed result.id plan_id credit)) t h
          (elim (Option-cases (find (has_plan_id plan_id) t.recovery_plans)) [
            | inl missing ↦ rw (missing, propose_write) tt
            | inr (plan, found) ↦
                rw (found, propose_write)
                  (find_behind (λ x. x.id)
                      (new_task t.next_id plan_id plan.current_version title description credit now)
                      id t.next_id t.recovery_tasks refl given
                    ∙ h)
          ])
          (λ r s p. p)

    task_moved-Holds :
        (task_id : ℕ) (row : RecoveryTask) (target : RecoveryTaskStatus) (now : ℕ)
        → find (has_task_id task_id) t.recovery_tasks ≡ some row
        → is_open_status row.status ≡ true
        → find
            (has_task_id id)
            (update_where (has_task_id task_id) (with_task_status target now) t.recovery_tasks)
          ≡ some task
    task_moved-Holds task_id row target now found running =
        untouched (has_task_id task_id) (with_task_status target now) t.recovery_tasks (λ x. refl)
          (not_the_task task_id row t.recovery_tasks found running h) h

    transition_task-Holds :
        (task_id : ℕ) (target : RecoveryTaskStatus) (event : ℕ → ℕ → PlanEvent) (now : ℕ)
        (allowed : RecoveryTaskStatus → Bool)
        → ((s : RecoveryTaskStatus) → allowed s ≡ true → is_open_status s ≡ true)
        → Holds (transition_task task_id target event now allowed t).1
    unfolding transition_task transition_write
    transition_task-Holds task_id target event now allowed opens =
        write_and_events_keeps Holds (transition_write task_id target now allowed)
          (λ result. write_event now (event task_id result.recovery_plan_id)) t h
          (elim (Option-cases (find (has_task_id task_id) t.recovery_tasks)) [
            | inl missing ↦ rw (missing, transition_write) tt
            | inr (row, found) ↦ elim (Bool-cases (allowed row.status)) [
              | inr refused ↦ rw (found, transition_write) (rw refused tt)
              | inl fine ↦
                  rw (found, transition_write)
                    (rw fine
                      (task_moved-Holds task_id row target now found (opens row.status fine)))
            ]
          ])
          (λ r s p. p)

    accept_task-Holds : (task_id now : ℕ) → Holds (accept_task task_id now t).1
    unfolding accept_task
    accept_task-Holds task_id now =
        then_do_keeps Holds (transition_task task_id accepted task_accepted now is_proposed)
          (λ _ s. (ok tt, s)) t
          (transition_task-Holds task_id accepted task_accepted now is_proposed proposed_is_open)
          (λ _ s p. p)

    withdraw_task-Holds : (task_id now : ℕ) → Holds (withdraw_task task_id now t).1
    unfolding withdraw_task
    withdraw_task-Holds task_id now =
        then_do_keeps Holds (transition_task task_id withdrawn task_withdrawn now is_open_status)
          (λ _ s. (ok tt, s)) t
          (transition_task-Holds task_id withdrawn task_withdrawn now is_open_status (λ s o. o))
          (λ _ s p. p)

    complete_task-Holds :
        (task_id now : ℕ) (notes : Option ℕ) → Holds (complete_task task_id now notes t).1
    complete_task-Holds task_id now notes = elim (complete_task-cases task_id now notes t) [
      | inl (e, raised) ↦ subst Holds (sym (ap (λ p. p.1) raised)) h
      | inr (row, plan, c, done) ↦
          subst Holds (sym (ap (λ p. p.1) done))
            (task_moved-Holds task_id row RecoveryTaskStatus.completed now c.0 c.1)
    ]

  Step-Holds : {t u : PlanTables} → Step t u → Holds t → id < t.next_id → Holds u
  Step-Holds (windows_change t ws) h given = h
  Step-Holds (creates t w base now) h given = create_plan-Holds t h w base now
  Step-Holds (mirrors t w s event now) h given = mirror_status_and_emit-Holds t h w s event now
  Step-Holds (regenerates t w target now) h given = regenerate-Holds t h w target now
  Step-Holds (proposes t plan title description credit now) h given =
      propose_task-Holds t h plan title description credit now given
  Step-Holds (accepts t x now) h given = accept_task-Holds t h x now
  Step-Holds (withdraws t x now) h given = withdraw_task-Holds t h x now
  Step-Holds (completes t x now notes) h given = complete_task-Holds t h x now notes

  -- From tables in which ids are distinct and below the next one, tasks are of their plans and completed
  -- where they have a completion, a task that is completed, expired or withdrawn is final: its row is the
  -- same in every later state, whatever is called and however often its plan is regenerated.
  pub final_stays :
      {t u : PlanTables}
      → IsTracked t
      → Reach t u
      → find (has_task_id id) t.recovery_tasks ≡ some task
      → find (has_task_id id) u.recovery_tasks ≡ some task
  final_stays v here h = h
  final_stays v (next {t = m} r step) h =
      let before = final_stays v r h in
      let w = Reach-IsTracked v r in
      let (less, own) =
        All-find (λ x. x.id < m.next_id) (has_task_id id) m.recovery_tasks task w.tasks_below
          before in
      Step-Holds step before (ground (arith, less, own))

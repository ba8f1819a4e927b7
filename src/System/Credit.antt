-- ===== src/System/Credit.antt =====
-- system/startup.py: the credit for a completed recovery task, which the event of the completion and a
-- read of the recovery plan give alike.
use mathlib.Core.Option
use ai_coach_keyholder.Prelude.{
  ℕ, suc, ◌<◌, ◌≡◌, refl, sym, ap, ◌∙◌, subst, ⊤, Option, some, List, ◌∷◌, arith, ok, err,
  Result-cases, ==_self, inl, inr, Result,
}
use ai_coach_keyholder.Prelude.Rows.{All-find, find-update_where_field}
use ai_coach_keyholder.Infrastructure.Transaction.{commit, ◌>>=◌}
use ai_coach_keyholder.Infrastructure.Transaction.Returns.{write_and_events_tables}
use ai_coach_keyholder.PenaltyEngine.Models.{Hours}
use ai_coach_keyholder.PenaltyEngine.Store.{Action}
use ai_coach_keyholder.PenaltyEngine.Credit.{
  RecoveryReads, record_recovery_credit, record_credit_in_transaction, emit_recovery_credit_event,
}
use ai_coach_keyholder.RecoveryPlan.Models.{
  RecoveryPlan, RecoveryTask, RecoveryTaskStatus, RecoveryTaskCompletion, PlanTables, PlanError,
  PlanEvent, PlanEventRow, task_completed, has_plan_id, has_task_id,
}
use ai_coach_keyholder.RecoveryPlan.Tasks.{with_task_status, complete_task}
use ai_coach_keyholder.RecoveryPlan.Tasks.Completing.{
  with_completion, IsCompletable, complete_task-cases,
}
use ai_coach_keyholder.RecoveryPlan.Tracked.{IsTracked}
use ai_coach_keyholder.RecoveryPlan.Tracked.Runs.{
  Reach, no_plans, no_plans-IsTracked, Reach-IsTracked,
}
use ai_coach_keyholder.RecoveryPlan.Stable.{reads_of}
use ai_coach_keyholder.RecoveryPlan.Stable.Steps.{Reach-IsStable}
use ai_coach_keyholder.System.{
  SystemTables, in_engine, on_recovery_plan_task_completed, handle_plan_event,
}

completion_of :
    {a b : RecoveryTaskCompletion} {r : Result PlanError RecoveryTaskCompletion}
    → r ≡ ok a
    → r ≡ ok b
    → a ≡ b
completion_of {a = a} g h = ap (λ r. elim r [ ok b ↦ b | err e ↦ a ]) (sym g ∙ h)

in_engine_tables :
    (m : Action ⊤) (s : SystemTables) → (commit (in_engine m) s).1.engine ≡ (commit m s.engine).1
in_engine_tables m s = elim (Result-cases (m s.engine)) [
  | inl (r, e) ↦ ground (arith, e)
  | inr (x, e) ↦ ground (arith, e)
]

-- The credit that is read is the credit that the payload gives.
credit_by_reads :
    (reads : RecoveryReads) (completion_id task_id plan_id window_id : ℕ) (hours : Hours) (now : ℕ)
    (s : SystemTables)
    → reads.get_recovery_task_completion completion_id ≡ some (task_id, plan_id)
    → reads.window_of_plan plan_id ≡ some window_id
    → reads.credit_hours_of_task task_id ≡ some hours
    → (record_recovery_credit reads completion_id now s.engine).1
      ≡ (commit
          (handle_plan_event (task_completed completion_id task_id plan_id window_id hours) now)
          s).1.engine
unfolding record_recovery_credit handle_plan_event on_recovery_plan_task_completed
credit_by_reads reads completion_id task_id plan_id window_id hours now s c w h =
    rw (c, record_recovery_credit)
      (rw (w, record_recovery_credit)
        (rw (h, record_recovery_credit)
          (write_and_events_tables (record_credit_in_transaction completion_id window_id hours now)
              (emit_recovery_credit_event now) s.engine
            ∙ sym (
                in_engine_tables
                  (record_credit_in_transaction completion_id window_id hours now
                    >>= emit_recovery_credit_event now)
                  s))))

module _ (t : PlanTables) (task_id now : ℕ) (notes : Option ℕ) (row : RecoveryTask)
    (plan : RecoveryPlan) (c : IsCompletable task_id now notes t row plan) where
  -- The tables that a completion leaves, with any events.
  abbrev left : List PlanEventRow → PlanTables
  left es = record (with_completion task_id now notes t row) { plan_events = es }

  completion_read :
      (es : List PlanEventRow)
      → (reads_of (left es)).get_recovery_task_completion t.next_id
        ≡ some (task_id, row.recovery_plan_id)
  unfolding reads_of
  completion_read es = rw (==_self t.next_id) refl

  hours_read :
      (es : List PlanEventRow)
      → (reads_of (left es)).credit_hours_of_task task_id ≡ some row.credit_hours
  unfolding reads_of
  hours_read es =
      find-update_where_field (λ x. x.id) (λ x. x.credit_hours) (has_task_id task_id)
        (with_task_status RecoveryTaskStatus.completed now) task_id t.recovery_tasks (λ x. refl)
        (λ x. refl)
      ∙ ap (Option.map (λ x. x.credit_hours)) c.0

  window_read :
      (es : List PlanEventRow)
      → (reads_of (left es)).window_of_plan row.recovery_plan_id ≡ some plan.penalty_window_id
  unfolding reads_of
  window_read es = ap (Option.map (λ p. p.penalty_window_id)) c.2

  ids_given : IsTracked t → (task_id < suc t.next_id) × (row.recovery_plan_id < suc t.next_id)
  ids_given v =
      let (task_less, task_hit) =
        All-find (λ x. x.id < t.next_id) (has_task_id task_id) t.recovery_tasks row v.tasks_below
          c.0 in
      let (plan_less, plan_hit) =
        All-find (λ p. p.id < t.next_id) (has_plan_id row.recovery_plan_id) t.recovery_plans plan
          v.plans_below c.2 in
      (ground (arith, task_less, task_hit), ground (arith, plan_less, plan_hit))

  credit_later :
      (es : List PlanEventRow) (u : PlanTables) (s : SystemTables)
      → IsTracked t
      → Reach (left es) u
      → (record_recovery_credit (reads_of u) t.next_id now s.engine).1
        ≡ (commit
            (handle_plan_event
              (task_completed t.next_id task_id row.recovery_plan_id plan.penalty_window_id
                row.credit_hours)
              now)
            s).1.engine
  credit_later es u s v r =
      let stable = Reach-IsStable r in
      let (task_given, plan_given) = ids_given v in
      credit_by_reads (reads_of u) t.next_id task_id row.recovery_plan_id plan.penalty_window_id
        row.credit_hours now s
        (stable.completions_stay t.next_id (omega arith) ∙ completion_read es)
        (stable.windows_stay row.recovery_plan_id plan_given ∙ window_read es)
        (stable.hours_stay task_id task_given ∙ hours_read es)

-- What a completion puts in the outbox, for the completion `c` at `now`.
abbrev pub CreditsAs : RecoveryTaskCompletion → ℕ → PlanEvent → PlanTables → SystemTables → Type 0
CreditsAs c now payload u s =
    (record_recovery_credit (reads_of u) c.id now s.engine).1
    ≡ (commit (handle_plan_event payload now) s).1.engine

-- In every state that the methods of the recovery plan reach from empty tables, a task that is
-- completed leaves one event more in the outbox. However long the event waits, whatever those methods
-- do to the plans in the meantime, and whatever the engine's tables are, the handler of the event
-- does to them what the engine's own method does, which reads the completion, the task and the plan
-- as they are by then.
pub complete_task-credit :
    (t t' u : PlanTables) (task_id now : ℕ) (notes : Option ℕ) (c : RecoveryTaskCompletion)
    (s : SystemTables)
    → Reach no_plans t
    → complete_task task_id now notes t ≡ (ok c, t')
    → Reach t' u
    → (payload : PlanEvent) × (t'.plan_events
        ≡ record { payload = payload; occurred_at = now } ∷ t.plan_events)
      × CreditsAs c now payload u s
complete_task-credit t t' u task_id now notes c s from h r =
    elim (complete_task-cases task_id now notes t) [
      | inl (e, raised) ↦ cc
      | inr (row, plan, fits, done) ↦
          let payload =
            task_completed t.next_id task_id row.recovery_plan_id plan.penalty_window_id
              row.credit_hours in
          let es = record { payload = payload; occurred_at = now } ∷ t.plan_events in
          let same = ap (λ p. p.1) (sym done ∙ h) in
          let made = completion_of (ap (λ p. p.0) done) (ap (λ p. p.0) h) in
          (
            payload,
            ap (λ z. z.plan_events) (sym same),
            subst (λ z. CreditsAs z now payload u s) made
                (credit_later t task_id now notes row plan fits es u s
                  (Reach-IsTracked no_plans-IsTracked from) (subst (λ z. Reach z u) (sym same) r)),
          )
    ]

-- ===== src/TaskRuntime/Resolving.antt =====
-- task_runtime/repository.py: an assignment is resolved once.
use ai_coach_keyholder.Prelude.{
  ℕ, ◌≤◌, ◌<◌, ◌≡◌, refl, Bool, true, false, some, List, [], ◌∷◌, ok, err, sym, ap, ◌∙◌, arith,
  ◌||◌, Bool-cases, Option-cases, inl, inr, ◌⊎◌,
}
use ai_coach_keyholder.Prelude.Lists.{count_where, find, update_where}
use ai_coach_keyholder.Prelude.Rows.{All-all, count_where-update_where_le}
use ai_coach_keyholder.Infrastructure.Transaction.{apply_transition}
use ai_coach_keyholder.TaskRuntime.{
  TaskAssignment, TaskAssignmentStatus, active, completed, cancelled, TaskTables, TaskError,
  empty_value, assignment_not_found, not_active, is_active_status, is_active_of, has_assignment_id,
  resolve_row, resolve_write, resolve_task,
}
use ai_coach_keyholder.TaskRuntime.Assigning.{assigned}

active_lem : (status : TaskAssignmentStatus) → is_active_status status ≡ true → status ≡ active
active_lem active h = refl
active_lem completed h = cc
active_lem cancelled h = cc

pub fewer :
    (user_id assignment_id : ℕ) (target : TaskAssignmentStatus) (consent_id now : ℕ)
    (rows : List TaskAssignment)
    → is_active_status target ≡ false
    → count_where
        (is_active_of user_id)
        (update_where (has_assignment_id assignment_id) (resolve_row target consent_id now) rows)
      ≤ count_where (is_active_of user_id) rows
fewer user_id assignment_id target consent_id now rows closed =
    count_where-update_where_le (is_active_of user_id) (has_assignment_id assignment_id)
      (resolve_row target consent_id now) rows (All-all rows (λ x hit. ground (arith, closed)))

still_found :
    (assignment_id : ℕ) (target : TaskAssignmentStatus) (consent_id now : ℕ)
    (rows : List TaskAssignment) (a : TaskAssignment)
    → find (has_assignment_id assignment_id) rows ≡ some a
    → find
        (has_assignment_id assignment_id)
        (update_where (has_assignment_id assignment_id) (resolve_row target consent_id now) rows)
      ≡ some (resolve_row target consent_id now a)
still_found assignment_id target consent_id now [] a h = cc
still_found assignment_id target consent_id now (x ∷ rows) a h =
    ground (arith, still_found assignment_id target consent_id now rows a)

pub free_again :
    (user_id assignment_id : ℕ) (target : TaskAssignmentStatus) (consent_id now : ℕ)
    (rows : List TaskAssignment) (a : TaskAssignment)
    → is_active_status target ≡ false
    → find (has_assignment_id assignment_id) rows ≡ some a
    → is_active_of user_id a ≡ true
    → count_where
        (is_active_of user_id)
        (update_where (has_assignment_id assignment_id) (resolve_row target consent_id now) rows)
      < count_where (is_active_of user_id) rows
free_again user_id assignment_id target consent_id now [] a closed found running = cc
free_again user_id assignment_id target consent_id now (x ∷ rows) a closed found running = ground (
  arith,
  free_again user_id assignment_id target consent_id now rows a,
  fewer user_id assignment_id target consent_id now rows closed,
)

module _ (is_blank : ℕ → Bool) where
  resolve_write-cases :
      (assignment_id : ℕ) (target : TaskAssignmentStatus) (consent_id now : ℕ) (t : TaskTables)
      → ((e : TaskError) × ((resolve_write assignment_id target consent_id now t) ≡ err e))
        ⊎ ((current : TaskAssignment) × (find (has_assignment_id assignment_id) t.task_assignments
              ≡ some current)
            × (current.status ≡ active)
            × (resolve_write assignment_id target consent_id now t
                ≡ ok (
                  resolve_row target consent_id now current,
                  record t {
                    task_assignments =
                        update_where
                          (has_assignment_id assignment_id)
                          (resolve_row target consent_id now)
                          t.task_assignments;
                  },
                )))
  unfolding resolve_write
  resolve_write-cases assignment_id target consent_id now t =
      elim (Option-cases (find (has_assignment_id assignment_id) t.task_assignments)) [
        | inl missing ↦ inl (assignment_not_found, rw (missing, resolve_write) refl)
        | inr (current, found) ↦ elim (Bool-cases (is_active_status current.status)) [
          | inl running ↦ inr (
            current,
            found,
            active_lem current.status running,
            rw (found, resolve_write) (ground (arith, running)),
          )
          | inr closed ↦ inl (not_active, rw (found, resolve_write) (ground (arith, closed)))
        ]
      ]

  closed_write :
      (assignment_id : ℕ) (target : TaskAssignmentStatus) (consent_id now : ℕ) (t : TaskTables)
      (a : TaskAssignment)
      → find (has_assignment_id assignment_id) t.task_assignments ≡ some a
      → is_active_status a.status ≡ false
      → resolve_write assignment_id target consent_id now t ≡ err not_active
  unfolding resolve_write
  closed_write assignment_id target consent_id now t a found closed =
      rw (found, resolve_write) (ground (arith, closed))

  module _ (assignment_id : ℕ) (target : TaskAssignmentStatus) (consent_id now : ℕ)
      (t : TaskTables) where
    abbrev pub Resolves : TaskAssignment → Type 0
    Resolves current =
        (find (has_assignment_id assignment_id) t.task_assignments ≡ some current)
        × (current.status ≡ active)
        × (is_blank assignment_id ≡ false)
        × (resolve_task is_blank assignment_id target consent_id now t ≡ (
          ok (resolve_row target consent_id now current),
          record t {
            task_assignments =
                update_where (has_assignment_id assignment_id) (resolve_row target consent_id now)
                  t.task_assignments;
          },
        ))

    pub resolve_task-cases :
        ((e : TaskError) × (resolve_task is_blank assignment_id target consent_id now t
            ≡ (err e, t)))
        ⊎ ((current : TaskAssignment) × Resolves current)
    unfolding resolve_task apply_transition
    resolve_task-cases = elim (Bool-cases (is_blank assignment_id || is_blank consent_id)) [
      | inl blank ↦ inl (empty_value, rw blank refl)
      | inr named ↦ elim (resolve_write-cases assignment_id target consent_id now t) [
        | inl (e, raised) ↦ inl (e, rw named (ground (arith, raised)))
        | inr (current, found, running, done) ↦
            inr (current, (found, running, ground (arith, named), rw named (ground (arith, done))))
      ]
    ]

  resolve_closed :
      (assignment_id : ℕ) (target : TaskAssignmentStatus) (consent_id now : ℕ) (t : TaskTables)
      (a : TaskAssignment)
      → is_blank assignment_id ≡ false
      → is_blank consent_id ≡ false
      → find (has_assignment_id assignment_id) t.task_assignments ≡ some a
      → is_active_status a.status ≡ false
      → resolve_task is_blank assignment_id target consent_id now t ≡ (err not_active, t)
  unfolding resolve_task apply_transition
  resolve_closed assignment_id target consent_id now t a named given found closed =
      rw (named, given)
        (ground (arith, closed_write assignment_id target consent_id now t a found closed))

  -- Behind a call that completed or cancelled an assignment, the row that its id finds is the one that
  -- was returned, with the status asked for. A later call for it, with a consent that is not blank, is
  -- refused as not active and changes nothing.
  pub resolve_task-once :
      (assignment_id : ℕ) (target target' : TaskAssignmentStatus)
      (consent_id now consent_id' now' : ℕ) (t t' : TaskTables) (a : TaskAssignment)
      → is_active_status target ≡ false
      → is_blank consent_id' ≡ false
      → resolve_task is_blank assignment_id target consent_id now t ≡ (ok a, t')
      → (find (has_assignment_id assignment_id) t'.task_assignments ≡ some a)
        × (a.status ≡ target)
        × (resolve_task is_blank assignment_id target' consent_id' now' t' ≡ (err not_active, t'))
  resolve_task-once assignment_id target target' consent_id now consent_id' now' t t' a closed named
        h =
      elim (resolve_task-cases assignment_id target consent_id now t) [
        | inl (e, raised) ↦ cc
        | inr (current, (found, running, given, done)) ↦
            let same = assigned (ap (λ p. p.0) done) (ap (λ p. p.0) h) in
            let tables = ap (λ p. p.1) (sym done ∙ h) in
            let now_found =
              ap (λ z. find (has_assignment_id assignment_id) z.task_assignments) (sym tables)
              ∙ still_found assignment_id target consent_id now t.task_assignments current found
              ∙ ap some same in
            let status = ap (λ z. z.status) (sym same) in
            (
              now_found,
              status,
              resolve_closed assignment_id target' consent_id' now' t' a given named now_found
                  (ap is_active_status status ∙ closed),
            )
      ]

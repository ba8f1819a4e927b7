-- ===== src/TaskRuntime/OneActive.antt =====
-- task_runtime/repository.py: a user has one active assignment at most, over any sequence of calls.
use ai_coach_keyholder.Prelude.{
  ℕ, ◌≤◌, ◌≡◌, refl, Bool, false, Option, none, some, List, [], ◌∷◌, ok, arith, sym, ap, subst,
  ◌==◌, ==_self, Bool-cases, inl, inr,
}
use ai_coach_keyholder.Prelude.Lists.{count_where, find, select, update_where}
use ai_coach_keyholder.LockState.{LockKnowledgeState}
use ai_coach_keyholder.TaskRuntime.{
  TaskAssignment, TaskAssignmentStatus, completed, cancelled, CatalogReads, TaskTables,
  is_active_status, is_active_of, has_assignment_id, assign_task, resolve_row, resolve_task,
  complete_task, cancel_task, get_active_assignment,
}
use ai_coach_keyholder.TaskRuntime.Assigning.{assigned, none_active, assign_task-cases}
use ai_coach_keyholder.TaskRuntime.Resolving.{fewer, free_again, resolve_task-cases}

abbrev pub OneActive : TaskTables → Type 0
OneActive t = (user_id : ℕ) → count_where (is_active_of user_id) t.task_assignments ≤ 1

-- A call of `TaskRuntimeAdministration`, with its arguments.
pub data TaskCall : Type 0 where
  assign_call : ℕ → ℕ → LockKnowledgeState → ℕ → ℕ → TaskCall
  complete_call : ℕ → ℕ → ℕ → TaskCall
  cancel_call : ℕ → ℕ → ℕ → TaskCall

none_left :
    (p : TaskAssignment → Bool) (rows : List TaskAssignment)
    → count_where p rows ≤ 0
    → (select p rows ≡ []) × (find p rows ≡ none)
none_left p [] few = (refl, refl)
none_left p (x ∷ rows) few = (ground (arith, none_left p rows), ground (arith, none_left p rows))

only_row :
    (p : TaskAssignment → Bool) (rows : List TaskAssignment)
    → count_where p rows ≤ 1
    → select p rows ≡ elim (find p rows) [ none ↦ [] | some a ↦ a ∷ [] ]
only_row p [] few = refl
only_row p (x ∷ rows) few = elim (Bool-cases (p x)) [
  | inl hit ↦ rw hit (ap (λ xs. x ∷ xs) (none_left p rows (ground (arith, hit))).0)
  | inr miss ↦ rw miss (only_row p rows (ground (arith, miss)))
]

module _ (is_blank : ℕ → Bool) (catalog : CatalogReads) where
  unfoldable pub perform : TaskCall → TaskTables → TaskTables
  perform (assign_call user_id template_id state consent_id now) t =
      (assign_task is_blank catalog user_id template_id state consent_id now t).1
  perform (complete_call assignment_id consent_id now) t =
      (complete_task is_blank assignment_id consent_id now t).1
  perform (cancel_call assignment_id consent_id now) t =
      (cancel_task is_blank assignment_id consent_id now t).1

  unfoldable pub perform_all : List TaskCall → TaskTables → TaskTables
  perform_all [] t = t
  perform_all (call ∷ calls) t = perform_all calls (perform call t)

  assigned_once :
      (user_id template_id : ℕ) (state : LockKnowledgeState) (consent_id now : ℕ) (t : TaskTables)
      → OneActive t
      → OneActive (assign_task is_blank catalog user_id template_id state consent_id now t).1
  assigned_once user_id template_id state consent_id now t one =
      elim (assign_task-cases is_blank catalog user_id template_id state consent_id now t) [
        | inl (e, refused) ↦ subst OneActive (sym (ap (λ p. p.1) refused)) one
        | inr (template, (current, fits, free, done)) ↦
            subst OneActive (sym (ap (λ p. p.1) done)) (λ other.
              elim (Bool-cases (user_id == other)) [
                | inl same ↦ ground (arith, same, none_active user_id t.task_assignments free)
                | inr differs ↦ ground (arith, differs, one other)
              ])
      ]

  resolved_once :
      (assignment_id : ℕ) (target : TaskAssignmentStatus) (consent_id now : ℕ) (t : TaskTables)
      → is_active_status target ≡ false
      → OneActive t
      → OneActive (resolve_task is_blank assignment_id target consent_id now t).1
  resolved_once assignment_id target consent_id now t closed one =
      elim (resolve_task-cases is_blank assignment_id target consent_id now t) [
        | inl (e, refused) ↦ subst OneActive (sym (ap (λ p. p.1) refused)) one
        | inr (current, (found, running, given, done)) ↦
            subst OneActive (sym (ap (λ p. p.1) done)) (λ other. omega (
              arith,
              fewer other assignment_id target consent_id now t.task_assignments closed,
              one other,
            ))
      ]

  perform-OneActive : (call : TaskCall) (t : TaskTables) → OneActive t → OneActive (perform call t)
  unfolding perform complete_task cancel_task
  perform-OneActive (assign_call user_id template_id state consent_id now) t one =
      assigned_once user_id template_id state consent_id now t one
  perform-OneActive (complete_call assignment_id consent_id now) t one =
      resolved_once assignment_id completed consent_id now t refl one
  perform-OneActive (cancel_call assignment_id consent_id now) t one =
      resolved_once assignment_id cancelled consent_id now t refl one

  perform_all-OneActive :
      (calls : List TaskCall) (t : TaskTables) → OneActive t → OneActive (perform_all calls t)
  unfolding perform_all
  perform_all-OneActive [] t one = one
  perform_all-OneActive (call ∷ calls) t one =
      perform_all-OneActive calls (perform call t) (perform-OneActive call t one)

  -- Behind any sequence of calls a user has one active assignment at most, and it is the one that
  -- `get_active_assignment` returns for a user id that is not blank, where the tables had at most one
  -- for each user at the start.
  pub perform_all-get_active_assignment :
      (calls : List TaskCall) (t : TaskTables) (user_id : ℕ)
      → OneActive t
      → is_blank user_id ≡ false
      → (found : Option TaskAssignment) × (get_active_assignment is_blank user_id
            (perform_all calls t)
          ≡ ok found)
        × (select (is_active_of user_id) (perform_all calls t).task_assignments
            ≡ elim found [ none ↦ [] | some a ↦ a ∷ [] ])
  unfolding get_active_assignment
  perform_all-get_active_assignment calls t user_id one named = (
    find (is_active_of user_id) (perform_all calls t).task_assignments,
    rw named refl,
    only_row (is_active_of user_id) (perform_all calls t).task_assignments
        (perform_all-OneActive calls t one user_id),
  )

module _ (is_blank : ℕ → Bool) where
  -- Behind a task that was completed or cancelled its user has no active assignment, where each user
  -- had at most one before.
  pub resolve_task-frees :
      (assignment_id : ℕ) (target : TaskAssignmentStatus) (consent_id now : ℕ) (t : TaskTables)
      (a : TaskAssignment)
      → is_active_status target ≡ false
      → OneActive t
      → is_blank a.user_id ≡ false
      → (resolve_task is_blank assignment_id target consent_id now t).0 ≡ ok a
      → get_active_assignment is_blank a.user_id
          (resolve_task is_blank assignment_id target consent_id now t).1
        ≡ ok none
  unfolding get_active_assignment
  resolve_task-frees assignment_id target consent_id now t a closed one named h =
      elim (resolve_task-cases is_blank assignment_id target consent_id now t) [
        | inl (e, refused) ↦ cc
        | inr (current, (found, running, given, done)) ↦
            let same = assigned (ap (λ p. p.0) done) h in
            let users = ap (λ z. z.user_id) same in
            let fewer_rows =
              free_again a.user_id assignment_id target consent_id now t.task_assignments current
                closed found
                (ground (arith, users, ap is_active_status running, ==_self a.user_id)) in
            rw (named, done)
              (ap ok
                (none_left (is_active_of a.user_id)
                  (update_where (has_assignment_id assignment_id)
                    (resolve_row target consent_id now) t.task_assignments)
                  (omega (arith, fewer_rows, one a.user_id))).1)
      ]

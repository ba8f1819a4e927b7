-- ===== src/GoalManagement/Lifecycle.antt =====
-- goal_management/repository.py: the creation of a goal, and the transitions that need no proposal.
use ai_coach_keyholder.Prelude.{ℕ, ⊤, Bool, Option, none, some, ◌∷◌, ok, err, not, if◌then◌else◌}
use ai_coach_keyholder.Prelude.Lists.{find, update_where}
use ai_coach_keyholder.Infrastructure.Transaction.{
  Method, modify, pure, ◌>>=◌, ◌>>◌, write_and_events,
}
use ai_coach_keyholder.GoalManagement.Models.{
  GoalLifecycleStatus, active, paused, completed, CreatedVia, GoalVersion, Goal, GoalEvent,
  goal_created, goal_paused, goal_completed, goal_resumed, goal_archived, GoalTables, GoalError,
  goal_not_found, invalid_goal_transition, GoalAction, new_id, write_event, has_goal_id, is_live,
  is_active, is_paused,
}

abbrev pub new_goal : ℕ → ℕ → Option ℕ → ℕ → Goal
new_goal id version_id replaces now = record {
  goal_group_id = id;
  current_version_id = version_id;
  status = active;
  created_at = now;
  status_changed_at = now;
  replaces_goal_group_id = replaces;
  archived_at = none;
}

abbrev pub first_version : ℕ → ℕ → ℕ → ℕ → ℕ → CreatedVia → ℕ → GoalVersion
first_version id goal_group_id title target_description trust_domain created_via now = record {
  id = id;
  goal_group_id = goal_group_id;
  version = 1;
  title = title;
  target_description = target_description;
  trust_domain = trust_domain;
  created_at = now;
  created_via = created_via;
  adaptation_reason = none;
  supersedes_id = none;
}

-- A goal and its first version, whose ids are fresh.
abbrev pub insert_goal : Goal → GoalVersion → GoalTables → GoalTables
insert_goal goal version t = record t {
  goals = goal ∷ t.goals;
  goal_versions = version ∷ t.goal_versions;
}

unfoldable pub create_write : ℕ → ℕ → ℕ → CreatedVia → ℕ → GoalAction Goal
create_write title target_description trust_domain created_via now = do
  version_id ← new_id
  goal_id ← new_id
  let goal = new_goal goal_id version_id none now
  modify (
      insert_goal goal
        (first_version version_id goal_id title target_description trust_domain created_via now))
  pure goal

unfoldable pub create_goal : ℕ → ℕ → ℕ → CreatedVia → ℕ → Method GoalTables GoalError Goal
create_goal title target_description trust_domain created_via now =
    write_and_events (create_write title target_description trust_domain created_via now) (λ result.
      write_event now (goal_created result.goal_group_id result.current_version_id trust_domain))

abbrev pub with_status : GoalLifecycleStatus → ℕ → Goal → Goal
with_status new_status now g = record g { status = new_status; status_changed_at = now }

-- The read of a goal and the test of its status, before `f` is applied to its row.
unfoldable pub change_goal : ℕ → (GoalLifecycleStatus → Bool) → (Goal → Goal) → GoalAction ⊤
change_goal goal_group_id allowed_from f t = elim (find (has_goal_id goal_group_id) t.goals) [
  | none ↦ err (goal_not_found goal_group_id)
  | some row ↦
      if not (allowed_from row.status)
      then err (invalid_goal_transition goal_group_id row.status)
      else ok (tt, record t { goals = update_where (has_goal_id goal_group_id) f t.goals })
]

-- `_transition_goal`
unfoldable pub transition_goal :
    ℕ
    → GoalLifecycleStatus
    → (GoalLifecycleStatus → Bool)
    → GoalEvent
    → ℕ
    → Method GoalTables GoalError ⊤
transition_goal goal_group_id new_status allowed_from event now =
    write_and_events (change_goal goal_group_id allowed_from (with_status new_status now))
      (λ _. write_event now event)

unfoldable pub pause_goal : ℕ → ℕ → ℕ → Method GoalTables GoalError ⊤
pause_goal goal_group_id reason =
    transition_goal goal_group_id paused is_active (goal_paused goal_group_id reason)

unfoldable pub resume_goal : ℕ → ℕ → Method GoalTables GoalError ⊤
resume_goal goal_group_id =
    transition_goal goal_group_id active is_paused (goal_resumed goal_group_id)

unfoldable pub complete_goal : ℕ → ℕ → ℕ → Method GoalTables GoalError ⊤
complete_goal goal_group_id reason =
    transition_goal goal_group_id completed is_live (goal_completed goal_group_id reason)

abbrev pub archive : ℕ → Goal → Goal
archive now g = record g { archived_at = some now }

abbrev pub is_terminal : GoalLifecycleStatus → Bool
is_terminal s = not (is_live s)

unfoldable pub archive_goal : ℕ → ℕ → Method GoalTables GoalError ⊤
archive_goal goal_group_id now =
    write_and_events (change_goal goal_group_id is_terminal (archive now))
      (λ _. write_event now (goal_archived goal_group_id))

-- ===== src/GoalManagement/Tests.antt =====
-- A run of goal_management/, and the property at it.
use ai_coach_keyholder.Prelude.{ℕ, suc, ◌≡◌, refl, Bool, true, false, none, some, err, ◌==◌}
use ai_coach_keyholder.Prelude.Lists.{count_where, find}
use ai_coach_keyholder.Infrastructure.Transaction.{apply_transition}
use ai_coach_keyholder.GoalManagement.Models.{
  coach_initial_setup, GoalVersion, Goal, adapt_target, replaced, propose_replacement, accepted,
  GoalTables, invalid_proposal_state, has_goal_id, has_version_id,
}
use ai_coach_keyholder.GoalManagement.Lifecycle.{new_goal, create_goal, create_write}
use ai_coach_keyholder.GoalManagement.Proposals.{
  proposal_write, create_change_proposal, resolve_pending, adapt_row, apply_adaptation, replace_row,
  apply_replacement, apply_change, accept_write, accept_proposal,
}
use ai_coach_keyholder.GoalManagement.Governed.{is_adapt, is_replacement, is_abandonment, granted}
use ai_coach_keyholder.GoalManagement.Governed.Runs.{
  Reach, here, next, creates, proposes, accepts, no_goals, version_by_proposal,
}

abbrev zero_is_empty : ℕ → Bool
zero_is_empty n = n == 0

abbrev with_goal : GoalTables
with_goal = (create_goal 21 22 23 coach_initial_setup 1 no_goals).1

-- An adaptation that gives a title, and the empty text as its description.
abbrev with_proposal : GoalTables
with_proposal =
    (create_change_proposal 1 adapt_target 30 9 none (some 31) (some 0) none 2 with_goal).1

-- It is accepted past its time.
abbrev with_adapted : GoalTables
with_adapted = (accept_proposal zero_is_empty 2 12 with_proposal).1

abbrev with_second : GoalTables
with_second =
    (create_change_proposal 1 propose_replacement 30 90 none none none none 13 with_adapted).1

abbrev with_replaced : GoalTables
with_replaced = (accept_proposal zero_is_empty 5 14 with_second).1

abbrev old_goal : Goal
old_goal = record (new_goal 1 0 none 1) {
  current_version_id = 4;
  status = replaced;
  status_changed_at = 14;
}

Reach-with_replaced : Reach zero_is_empty no_goals with_replaced
Reach-with_replaced =
    next
      (next
        (next
          (next (next here (creates no_goals 21 22 23 coach_initial_setup 1))
            (proposes with_goal 1 adapt_target 30 9 none (some 31) (some 0) none 2))
          (accepts with_proposal 2 12))
        (proposes with_adapted 1 propose_replacement 30 90 none none none none 13))
      (accepts with_second 5 14)

found_old_goal : find (has_goal_id 1) with_replaced.goals ≡ some old_goal
unfolding create_goal create_write create_change_proposal proposal_write accept_proposal
    accept_write resolve_pending apply_change apply_adaptation adapt_row apply_replacement
    replace_row apply_transition
found_old_goal = refl

-- A proposal is accepted once.
accepts_once :
    (accept_proposal zero_is_empty 2 13 with_adapted).0 ≡ err (invalid_proposal_state 2 accepted)
unfolding create_goal create_write create_change_proposal proposal_write accept_proposal
    accept_write resolve_pending apply_change apply_adaptation adapt_row apply_transition
accepts_once = refl

version_by_proposal_example :
    ((x : GoalVersion) × (find (has_version_id 4) with_replaced.goal_versions ≡ some x)
      × (x.goal_group_id ≡ 1)
      × (x.version ≡ suc (count_where (granted is_adapt 1) with_replaced.goal_change_proposals)))
    × ((count_where (granted is_replacement 1) with_replaced.goal_change_proposals ≡ 1)
        × (count_where (granted is_abandonment 1) with_replaced.goal_change_proposals ≡ 0)
        × (false ≡ true → false ≡ false))
version_by_proposal_example =
    version_by_proposal zero_is_empty 1 old_goal Reach-with_replaced found_old_goal

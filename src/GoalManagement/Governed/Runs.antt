-- ===== src/GoalManagement/Governed/Runs.antt =====
-- goal_management/repository.py: any sequence of the module's methods.
use ai_coach_keyholder.Prelude.{
  ℕ, suc, ◌≡◌, Bool, true, false, Option, some, List, [], if◌then◌else◌,
}
use ai_coach_keyholder.Prelude.Lists.{count_where, find}
use ai_coach_keyholder.Prelude.Rows.{All-find}
use ai_coach_keyholder.GoalManagement.Models.{
  CreatedVia, GoalVersion, Goal, GoalOutcome, GoalInterventionType, GoalTables, has_goal_id,
  has_version_id, is_live,
}
use ai_coach_keyholder.GoalManagement.Lifecycle.{
  create_goal, pause_goal, resume_goal, complete_goal, archive_goal,
}
use ai_coach_keyholder.GoalManagement.Observations.{record_evidence, record_evaluation}
use ai_coach_keyholder.GoalManagement.Proposals.{
  create_change_proposal, accept_proposal, decline_proposal,
}
use ai_coach_keyholder.GoalManagement.Reads.{recover_goal_management_state}
use ai_coach_keyholder.GoalManagement.Governed.{
  is_adapt, is_replacement, is_abandonment, granted, is_replaced, is_abandoned, is_archived,
  IsGoverned,
}
use ai_coach_keyholder.GoalManagement.Governed.Methods.{
  create_goal-IsGoverned, pause_goal-IsGoverned, resume_goal-IsGoverned, complete_goal-IsGoverned,
  archive_goal-IsGoverned,
}
use ai_coach_keyholder.GoalManagement.Governed.Adding.{
  record_evidence-IsGoverned, record_evaluation-IsGoverned, create_change_proposal-IsGoverned,
}
use ai_coach_keyholder.GoalManagement.Governed.Resolving.{
  accept_proposal-IsGoverned, decline_proposal-IsGoverned, recover_goal_management_state-IsGoverned,
}

module _ (is_empty : ℕ → Bool) where
  -- A call of a method that writes, whether it returns or raises.
  pub data Step : GoalTables → GoalTables → Type 0 where
    creates :
        (t : GoalTables) (title target domain : ℕ) (via : CreatedVia) (now : ℕ)
        → Step t (create_goal title target domain via now t).1
    pauses : (t : GoalTables) (goal reason now : ℕ) → Step t (pause_goal goal reason now t).1
    resumes : (t : GoalTables) (goal now : ℕ) → Step t (resume_goal goal now t).1
    completes : (t : GoalTables) (goal reason now : ℕ) → Step t (complete_goal goal reason now t).1
    archives : (t : GoalTables) (goal now : ℕ) → Step t (archive_goal goal now t).1
    observes :
        (t : GoalTables) (goal version from until : ℕ) (outcome : GoalOutcome)
        (progress source now : ℕ)
        → Step t (record_evidence goal version from until outcome progress source now t).1
    evaluates :
        (t : GoalTables) (goal : ℕ) (evidence : List ℕ) (findings : ℕ)
        (intervention : GoalInterventionType) (detail now : ℕ)
        → Step t (record_evaluation goal evidence findings intervention detail now t).1
    proposes :
        (t : GoalTables) (goal : ℕ) (change : GoalInterventionType) (reason expires_at : ℕ)
        (evaluation title target replacement : Option ℕ) (now : ℕ)
        → Step t
            (create_change_proposal goal change reason expires_at evaluation title target
              replacement now t).1
    accepts :
        (t : GoalTables) (proposal now : ℕ) → Step t (accept_proposal is_empty proposal now t).1
    declines : (t : GoalTables) (proposal now : ℕ) → Step t (decline_proposal proposal now t).1
    recovers : (t : GoalTables) (now : ℕ) → Step t (recover_goal_management_state now t).1

  pub data Reach (s : GoalTables) : GoalTables → Type 0 where
    here : Reach s s
    next : {t u : GoalTables} → Reach s t → Step t u → Reach s u

  Step-IsGoverned : {t u : GoalTables} → Step t u → IsGoverned t → IsGoverned u
  Step-IsGoverned (creates t title target domain via now) v =
      create_goal-IsGoverned t v title target domain via now
  Step-IsGoverned (pauses t goal reason now) v = pause_goal-IsGoverned t v goal reason now
  Step-IsGoverned (resumes t goal now) v = resume_goal-IsGoverned t v goal now
  Step-IsGoverned (completes t goal reason now) v = complete_goal-IsGoverned t v goal reason now
  Step-IsGoverned (archives t goal now) v = archive_goal-IsGoverned t v goal now
  Step-IsGoverned (observes t goal version from until outcome progress source now) v =
      record_evidence-IsGoverned t v goal version from until outcome progress source now
  Step-IsGoverned (evaluates t goal evidence findings intervention detail now) v =
      record_evaluation-IsGoverned t v goal evidence findings intervention detail now
  Step-IsGoverned (proposes t goal change reason expires_at evaluation title target replacement now)
        v =
      create_change_proposal-IsGoverned t v goal change reason expires_at evaluation title target
        replacement now
  Step-IsGoverned (accepts t proposal now) v = accept_proposal-IsGoverned is_empty t v proposal now
  Step-IsGoverned (declines t proposal now) v = decline_proposal-IsGoverned t v proposal now
  Step-IsGoverned (recovers t now) v = recover_goal_management_state-IsGoverned now t v

  Reach-IsGoverned : {s t : GoalTables} → IsGoverned s → Reach s t → IsGoverned t
  Reach-IsGoverned v here = v
  Reach-IsGoverned v (next r step) = Step-IsGoverned step (Reach-IsGoverned v r)

abbrev pub no_goals : GoalTables
no_goals = record {
  goals = [];
  goal_versions = [];
  goal_evidence = [];
  goal_evaluations = [];
  goal_change_proposals = [];
  goal_change_proposal_contents = [];
  goal_events = [];
  next_id = 0;
}

no_goals-IsGoverned : IsGoverned no_goals
no_goals-IsGoverned = record {
  goals_below = tt;
  versions_below = tt;
  proposals_below = tt;
  goal_ids = tt;
  proposal_ids = tt;
  granted_goals = tt;
}

-- GOAL-6: in every state that the module's methods reach from empty tables, a goal's current version
-- is a version of that goal, whose number is one more than its accepted adaptations; the goal is
-- replaced where one proposal of its replacement was accepted, and abandoned where one of its
-- abandonment was, and no such proposal was accepted else; and an archived goal has ended.
pub version_by_proposal :
    (is_empty : ℕ → Bool) {t : GoalTables} (id : ℕ) (goal : Goal)
    → Reach is_empty no_goals t
    → find (has_goal_id id) t.goals ≡ some goal
    → ((x : GoalVersion) × (find (has_version_id goal.current_version_id) t.goal_versions ≡ some x)
        × (x.goal_group_id ≡ goal.goal_group_id)
        × (x.version
            ≡ suc (count_where (granted is_adapt goal.goal_group_id) t.goal_change_proposals)))
      × ((count_where (granted is_replacement goal.goal_group_id) t.goal_change_proposals
            ≡ (if is_replaced goal.status then 1 else 0))
          × (count_where (granted is_abandonment goal.goal_group_id) t.goal_change_proposals
              ≡ (if is_abandoned goal.status then 1 else 0))
          × (is_archived goal.archived_at ≡ true → is_live goal.status ≡ false))
version_by_proposal is_empty {t} id goal r found =
    let v = Reach-IsGoverned is_empty no_goals-IsGoverned r in
    (All-find (λ x. _) (has_goal_id id) t.goals goal v.granted_goals found).0

-- ===== src/GoalManagement/Observations.antt =====
-- goal_management/repository.py: evidence and evaluations, which only add rows.
use ai_coach_keyholder.Prelude.{ℕ, List, [], ◌∷◌, err, not}
use ai_coach_keyholder.Prelude.Lists.{exists}
use ai_coach_keyholder.Infrastructure.Transaction.{
  Method, gets, modify, pure, raise_if, ◌>>=◌, ◌>>◌, write_and_events,
}
use ai_coach_keyholder.GoalManagement.Models.{
  GoalOutcome, GoalEvidence, GoalInterventionType, GoalEvaluation, evidence_recorded,
  evaluation_recorded, GoalTables, GoalError, value_error, integrity_error, GoalAction, new_id,
  write_event, has_goal_id, has_version_id,
}

-- The columns goal_group_id and goal_version_id are references.
unfoldable pub evidence_write : ℕ → ℕ → ℕ → ℕ → GoalOutcome → ℕ → ℕ → ℕ → GoalAction GoalEvidence
evidence_write goal_id version_id period_start period_end outcome progress source now = do
  id ← new_id
  goal ← gets (λ t. exists (has_goal_id goal_id) t.goals)
  raise_if (not goal) integrity_error
  version ← gets (λ t. exists (has_version_id version_id) t.goal_versions)
  raise_if (not version) integrity_error
  let evidence : GoalEvidence = record {
    id = id;
    goal_group_id = goal_id;
    goal_version_id = version_id;
    period_start = period_start;
    period_end = period_end;
    outcome = outcome;
    observed_progress = progress;
    source = source;
    created_at = now;
  }
  modify λ t. record t { goal_evidence = evidence ∷ t.goal_evidence }
  pure evidence

unfoldable pub record_evidence :
    ℕ → ℕ → ℕ → ℕ → GoalOutcome → ℕ → ℕ → ℕ → Method GoalTables GoalError GoalEvidence
record_evidence goal_id version_id period_start period_end outcome progress source now =
    write_and_events
      (evidence_write goal_id version_id period_start period_end outcome progress source now)
      (λ result. write_event now (evidence_recorded result.id goal_id outcome))

unfoldable pub evaluation_write :
    ℕ → List ℕ → ℕ → GoalInterventionType → ℕ → ℕ → GoalAction GoalEvaluation
evaluation_write goal_id evidence_ids findings intervention detail now = do
  id ← new_id
  goal ← gets (λ t. exists (has_goal_id goal_id) t.goals)
  raise_if (not goal) integrity_error
  let evaluation : GoalEvaluation = record {
    id = id;
    goal_group_id = goal_id;
    created_at = now;
    triggering_evidence_ids = evidence_ids;
    findings = findings;
    proposed_intervention = intervention;
    proposed_intervention_detail = detail;
  }
  modify λ t. record t { goal_evaluations = evaluation ∷ t.goal_evaluations }
  pure evaluation

unfoldable pub record_evaluation :
    ℕ → List ℕ → ℕ → GoalInterventionType → ℕ → ℕ → Method GoalTables GoalError GoalEvaluation
record_evaluation goal_id [] findings intervention detail now t = (err value_error, t)
record_evaluation goal_id (e ∷ es) findings intervention detail now t =
    write_and_events (evaluation_write goal_id (e ∷ es) findings intervention detail now)
      (λ result. write_event now (evaluation_recorded result.id goal_id intervention)) t

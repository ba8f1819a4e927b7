-- ===== src/GoalManagement/Proposals.antt =====
-- goal_management/repository.py: proposals to change a goal, and what their acceptance does.
use ai_coach_keyholder.Prelude.{
  ℕ, suc, ⊤, Bool, true, Option, none, some, List, ◌∷◌, ok, err, not, ◌==◌, if◌then◌else◌,
}
use ai_coach_keyholder.Prelude.Lists.{exists, find, update_where}
use ai_coach_keyholder.Infrastructure.Transaction.{
  Method, gets, modify, pure, raise_if, ◌>>=◌, ◌>>◌, ◌then_do◌, write_and_events,
}
use ai_coach_keyholder.GoalManagement.Models.{
  abandoned, replaced, coach_proposed_user_approved, GoalVersion, Goal, GoalInterventionType,
  adapt_target, increase_support, no_change, propose_replacement, propose_abandonment,
  GoalEvaluation, GoalProposalStatus, pending, accepted, declined, GoalChangeProposal,
  GoalChangeProposalContent, goal_created, goal_abandoned, goal_adapted, goal_replaced,
  proposal_created, proposal_resolved, GoalTables, GoalError, goal_not_found, proposal_not_found,
  invalid_goal_transition, invalid_proposal_state, integrity_error, type_error, GoalAction, new_id,
  write_event, has_goal_id, has_version_id, has_proposal_id, is_content_of, is_live, is_active,
  is_pending,
}
use ai_coach_keyholder.GoalManagement.Lifecycle.{
  new_goal, first_version, insert_goal, with_status, change_goal,
}

abbrev pub is_evaluation : Option ℕ → List GoalEvaluation → Bool
is_evaluation none es = true
is_evaluation (some id) es = exists (λ e. e.id == id) es

abbrev pub new_proposal : ℕ → Option ℕ → ℕ → GoalInterventionType → ℕ → ℕ → GoalChangeProposal
new_proposal id evaluation_id goal_id change expires_at now = record {
  id = id;
  evaluation_id = evaluation_id;
  goal_group_id = goal_id;
  proposed_change = change;
  proposal_expires_at = expires_at;
  status = pending;
  created_at = now;
  resolved_at = none;
}

-- The columns evaluation_id, if it is set, and goal_group_id are references.
unfoldable pub proposal_write :
    ℕ
    → GoalInterventionType
    → ℕ
    → ℕ
    → Option ℕ
    → Option ℕ
    → Option ℕ
    → Option ℕ
    → ℕ
    → GoalAction GoalChangeProposal
proposal_write goal_id change reason expires_at evaluation_id title target replacement now = do
  id ← new_id
  content_id ← new_id
  evaluation ← gets (λ t. is_evaluation evaluation_id t.goal_evaluations)
  raise_if (not evaluation) integrity_error
  goal ← gets (λ t. exists (has_goal_id goal_id) t.goals)
  raise_if (not goal) integrity_error
  let proposal = new_proposal id evaluation_id goal_id change expires_at now
  let content : GoalChangeProposalContent = record {
    id = content_id;
    proposal_id = id;
    proposed_title = title;
    proposed_target_description = target;
    proposed_replacement_goal_group_id = replacement;
    reason = reason;
  }
  modify λ t. record t {
    goal_change_proposals = proposal ∷ t.goal_change_proposals;
    goal_change_proposal_contents = content ∷ t.goal_change_proposal_contents;
  }
  pure proposal

unfoldable pub create_change_proposal :
    ℕ
    → GoalInterventionType
    → ℕ
    → ℕ
    → Option ℕ
    → Option ℕ
    → Option ℕ
    → Option ℕ
    → ℕ
    → Method GoalTables GoalError GoalChangeProposal
create_change_proposal goal_id change reason expires_at evaluation_id title target replacement now =
    write_and_events
      (proposal_write goal_id change reason expires_at evaluation_id title target replacement now)
      (λ result. write_event now (proposal_created result.id goal_id change))

abbrev pub resolve : GoalProposalStatus → ℕ → GoalChangeProposal → GoalChangeProposal
resolve new_status now p = record p { status = new_status; resolved_at = some now }

-- The read of a proposal, the test that it is PENDING, and the update of its row.
unfoldable pub resolve_pending : ℕ → GoalProposalStatus → ℕ → GoalAction GoalChangeProposal
resolve_pending proposal_id new_status now t =
    elim (find (has_proposal_id proposal_id) t.goal_change_proposals) [
      | none ↦ err (proposal_not_found proposal_id)
      | some row ↦
          if not (is_pending row.status)
          then err (invalid_proposal_state proposal_id row.status)
          else ok (
            row,
            record t {
              goal_change_proposals =
                  update_where (has_proposal_id proposal_id) (resolve new_status now)
                    t.goal_change_proposals;
            },
          )
    ]

-- `_apply_abandonment_in_transaction`
unfoldable pub apply_abandonment : ℕ → ℕ → GoalAction ⊤
apply_abandonment goal_group_id now = do
  change_goal goal_group_id is_live (with_status abandoned now)
  write_event now (goal_abandoned goal_group_id)

abbrev pub set_version : ℕ → Goal → Goal
set_version version_id g = record g { current_version_id = version_id }

-- `_resolve_proposal_without_effect`
unfoldable pub resolve_without_effect : ℕ → GoalProposalStatus → ℕ → Method GoalTables GoalError ⊤
resolve_without_effect proposal_id new_status now =
    (write_and_events (resolve_pending proposal_id new_status now)
      (λ row. write_event now (proposal_resolved proposal_id row.goal_group_id new_status)))
    then_do λ _ t. (ok tt, t)

unfoldable pub decline_proposal : ℕ → ℕ → Method GoalTables GoalError ⊤
decline_proposal proposal_id = resolve_without_effect proposal_id declined

-- `is_empty` is the test of a text that a number stands for.
module _ (is_empty : ℕ → Bool) where
  -- `proposed or current`
  abbrev pub text_or : Option ℕ → ℕ → ℕ
  text_or none current = current
  text_or (some proposed) current = if is_empty proposed then current else proposed

  abbrev pub adapted_version : ℕ → ℕ → GoalVersion → GoalChangeProposalContent → ℕ → GoalVersion
  adapted_version id goal_group_id current content now = record {
    id = id;
    goal_group_id = goal_group_id;
    version = suc current.version;
    title = text_or content.proposed_title current.title;
    target_description = text_or content.proposed_target_description current.target_description;
    trust_domain = current.trust_domain;
    created_at = now;
    created_via = coach_proposed_user_approved;
    adaptation_reason = some content.reason;
    supersedes_id = some current.id;
  }

  -- The rows of an adaptation, for the version and the content that were read.
  unfoldable pub adapt_row : ℕ → GoalVersion → GoalChangeProposalContent → ℕ → GoalAction ⊤
  adapt_row goal_group_id current content now = do
    id ← new_id
    modify λ t. record t {
      goal_versions = adapted_version id goal_group_id current content now ∷ t.goal_versions;
      goals = update_where (has_goal_id goal_group_id) (set_version id) t.goals;
    }
    write_event now (goal_adapted goal_group_id id content.reason)

  -- `_apply_adaptation_in_transaction`
  unfoldable pub apply_adaptation : ℕ → Option GoalChangeProposalContent → ℕ → GoalAction ⊤
  apply_adaptation goal_group_id content now t = elim (find (has_goal_id goal_group_id) t.goals) [
    | none ↦ err (goal_not_found goal_group_id)
    | some goal ↦
        if not (is_active goal.status)
        then err (invalid_goal_transition goal_group_id goal.status)
        else elim (find (has_version_id goal.current_version_id) t.goal_versions) [
          | none ↦ err type_error
          | some current ↦ elim content [
            | none ↦ err type_error
            | some c ↦ adapt_row goal_group_id current c now t
          ]
        ]
  ]

  -- The rows of a replacement.
  unfoldable pub replace_row : ℕ → GoalVersion → GoalChangeProposalContent → ℕ → GoalAction ⊤
  replace_row goal_group_id current content now = do
    version_id ← new_id
    goal_id ← new_id
    modify λ t.
        insert_goal (new_goal goal_id version_id (some goal_group_id) now)
          (first_version version_id goal_id (text_or content.proposed_title current.title)
            (text_or content.proposed_target_description current.target_description)
            current.trust_domain coach_proposed_user_approved now)
          (record t {
            goals = update_where (has_goal_id goal_group_id) (with_status replaced now) t.goals;
          })
    write_event now (goal_replaced goal_group_id goal_id)
    write_event now (goal_created goal_id version_id current.trust_domain)

  -- `_apply_replacement_in_transaction`
  unfoldable pub apply_replacement : ℕ → Option GoalChangeProposalContent → ℕ → GoalAction ⊤
  apply_replacement goal_group_id content now t = elim (find (has_goal_id goal_group_id) t.goals) [
    | none ↦ err (goal_not_found goal_group_id)
    | some goal ↦
        if not (is_live goal.status)
        then err (invalid_goal_transition goal_group_id goal.status)
        else elim (find (has_version_id goal.current_version_id) t.goal_versions) [
          | none ↦ err type_error
          | some current ↦ elim content [
            | none ↦ err type_error
            | some c ↦ replace_row goal_group_id current c now t
          ]
        ]
  ]

  unfoldable pub apply_change :
      GoalInterventionType → ℕ → Option GoalChangeProposalContent → ℕ → GoalAction ⊤
  apply_change adapt_target goal_id content now = apply_adaptation goal_id content now
  apply_change propose_replacement goal_id content now = apply_replacement goal_id content now
  apply_change propose_abandonment goal_id content now = apply_abandonment goal_id now
  apply_change increase_support goal_id content now = pure tt
  apply_change no_change goal_id content now = pure tt

  unfoldable pub accept_write : ℕ → ℕ → GoalAction GoalChangeProposal
  accept_write proposal_id now = do
    row ← resolve_pending proposal_id accepted now
    content ← gets (λ t. find (is_content_of proposal_id) t.goal_change_proposal_contents)
    apply_change row.proposed_change row.goal_group_id content now
    pure row

  unfoldable pub accept_proposal : ℕ → ℕ → Method GoalTables GoalError ⊤
  accept_proposal proposal_id now =
      (write_and_events (accept_write proposal_id now)
        (λ row. write_event now (proposal_resolved proposal_id row.goal_group_id accepted)))
      then_do λ _ t. (ok tt, t)

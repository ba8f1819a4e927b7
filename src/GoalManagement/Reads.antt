-- ===== src/GoalManagement/Reads.antt =====
-- goal_management/repository.py: the reads, and the expiry of proposals at startup.
use ai_coach_keyholder.Prelude.{ℕ, ⊤, Bool, Option, List, [], ◌∷◌, map, ok, ◌&&◌}
use ai_coach_keyholder.Prelude.Lists.{find, select}
use ai_coach_keyholder.Infrastructure.TimeFormat.{iso_leb}
use ai_coach_keyholder.Infrastructure.Transaction.{Method, ◌then_do◌}
use ai_coach_keyholder.GoalManagement.Models.{
  Goal, GoalVersion, GoalChangeProposal, GoalChangeProposalContent, expired, GoalTables, GoalError,
  has_goal_id, has_version_id, has_proposal_id, is_content_of, is_pending,
}
use ai_coach_keyholder.GoalManagement.Proposals.{resolve_without_effect}

unfoldable pub get_goal : ℕ → GoalTables → Option Goal
get_goal goal_group_id t = find (has_goal_id goal_group_id) t.goals

unfoldable pub get_goal_version : ℕ → GoalTables → Option GoalVersion
get_goal_version version_id t = find (has_version_id version_id) t.goal_versions

unfoldable pub get_change_proposal : ℕ → GoalTables → Option GoalChangeProposal
get_change_proposal proposal_id t = find (has_proposal_id proposal_id) t.goal_change_proposals

unfoldable pub get_change_proposal_content : ℕ → GoalTables → Option GoalChangeProposalContent
get_change_proposal_content proposal_id t =
    find (is_content_of proposal_id) t.goal_change_proposal_contents

-- status = 'pending' AND proposal_expires_at <= ?
abbrev pub is_overdue : ℕ → GoalChangeProposal → Bool
is_overdue now p = is_pending p.status && iso_leb p.proposal_expires_at now

abbrev pub proposal_ids : List GoalChangeProposal → List ℕ
proposal_ids ps = map (λ p. p.id) ps

-- `for row in pending`, each in a transaction of its own.
unfoldable pub expire_each : List ℕ → ℕ → Method GoalTables GoalError ⊤
expire_each [] now t = (ok tt, t)
expire_each (id ∷ ids) now t =
    (resolve_without_effect id expired now then_do λ _. expire_each ids now) t

unfoldable pub recover_goal_management_state : ℕ → Method GoalTables GoalError (List ℕ)
recover_goal_management_state now t =
    let overdue = proposal_ids (select (is_overdue now) t.goal_change_proposals) in
    (expire_each overdue now then_do λ _ t'. (ok overdue, t')) t

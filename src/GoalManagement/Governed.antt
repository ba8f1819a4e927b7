-- ===== src/GoalManagement/Governed.antt =====
-- The invariant of the tables of goal_management/: a goal has a version beyond the first, is replaced
-- or is abandoned only by a proposal that was accepted, and only a goal that has ended is archived.
pub mod Changes
pub mod Accepting
pub mod Applying
pub mod Methods
pub mod Adding
pub mod Resolving
pub mod Runs
use ai_coach_keyholder.Prelude.{
  ℕ, suc, ◌+◌, ◌<◌, ◌≡◌, Bool, true, false, Option, none, some, List, ◌==◌, ◌&&◌, if◌then◌else◌,
}
use ai_coach_keyholder.Prelude.Lists.{All, count_where, find}
use ai_coach_keyholder.Prelude.Rows.{Distinct}
use ai_coach_keyholder.GoalManagement.Models.{
  GoalLifecycleStatus, active, paused, completed, abandoned, replaced, GoalVersion, Goal,
  GoalInterventionType, adapt_target, increase_support, no_change, propose_replacement,
  propose_abandonment, GoalProposalStatus, pending, accepted, declined, expired, GoalChangeProposal,
  GoalTables, has_version_id, is_live,
}

abbrev pub is_adapt : GoalInterventionType → Bool
is_adapt adapt_target = true
is_adapt increase_support = false
is_adapt no_change = false
is_adapt propose_replacement = false
is_adapt propose_abandonment = false

abbrev pub is_replacement : GoalInterventionType → Bool
is_replacement adapt_target = false
is_replacement increase_support = false
is_replacement no_change = false
is_replacement propose_replacement = true
is_replacement propose_abandonment = false

abbrev pub is_abandonment : GoalInterventionType → Bool
is_abandonment adapt_target = false
is_abandonment increase_support = false
is_abandonment no_change = false
is_abandonment propose_replacement = false
is_abandonment propose_abandonment = true

abbrev pub is_accepted : GoalProposalStatus → Bool
is_accepted pending = false
is_accepted accepted = true
is_accepted declined = false
is_accepted expired = false

-- An accepted proposal of a kind for a goal.
abbrev pub granted : (GoalInterventionType → Bool) → ℕ → GoalChangeProposal → Bool
granted kind goal_id p =
    p.goal_group_id == goal_id && (is_accepted p.status && kind p.proposed_change)

abbrev pub is_replaced : GoalLifecycleStatus → Bool
is_replaced active = false
is_replaced paused = false
is_replaced completed = false
is_replaced abandoned = false
is_replaced replaced = true

abbrev pub is_abandoned : GoalLifecycleStatus → Bool
is_abandoned active = false
is_abandoned paused = false
is_abandoned completed = false
is_abandoned abandoned = true
is_abandoned replaced = false

abbrev pub is_archived : Option ℕ → Bool
is_archived none = false
is_archived (some t) = true

-- The current version is there, and its number is that of the accepted adaptations and one.
abbrev pub HasVersion : List GoalVersion → List GoalChangeProposal → Goal → Type 0
HasVersion versions proposals g =
    (v : GoalVersion) × (find (has_version_id g.current_version_id) versions ≡ some v)
    × (v.goal_group_id ≡ g.goal_group_id)
    × (v.version ≡ suc (count_where (granted is_adapt g.goal_group_id) proposals))

abbrev pub EndsGranted : List GoalChangeProposal → Goal → Type 0
EndsGranted proposals g =
    (count_where (granted is_replacement g.goal_group_id) proposals
      ≡ (if is_replaced g.status then 1 else 0))
    × (count_where (granted is_abandonment g.goal_group_id) proposals
        ≡ (if is_abandoned g.status then 1 else 0))
    × (is_archived g.archived_at ≡ true → is_live g.status ≡ false)

abbrev pub IsGranted : List GoalVersion → List GoalChangeProposal → Goal → Type 0
IsGranted versions proposals g = HasVersion versions proposals g × EndsGranted proposals g

pub record Governed (goals : List Goal) (versions : List GoalVersion)
    (proposals : List GoalChangeProposal) (next : ℕ) : Type 0 where
  pub goals_below : All (λ g. g.goal_group_id < next) goals
  pub versions_below : All (λ v. v.id < next) versions
  pub proposals_below : All (λ p. (p.id < next) × (p.goal_group_id < next)) proposals
  pub goal_ids : Distinct (λ g. g.goal_group_id) goals
  pub proposal_ids : Distinct (λ p. p.id) proposals
  pub granted_goals : All (IsGranted versions proposals) goals

abbrev pub IsGoverned : GoalTables → Type 0
IsGoverned t = Governed t.goals t.goal_versions t.goal_change_proposals t.next_id

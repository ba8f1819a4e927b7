-- ===== src/GoalManagement/Models.antt =====
-- goal_management/models.py, and the tables that goal_management/repository.py writes
-- (database/migrations/010). A table is the list of its rows, the newest first. A text is a number.
use ai_coach_keyholder.Prelude.{ℕ, suc, ⊤, Bool, true, false, Option, List, ◌∷◌, ok, ◌==◌}
use ai_coach_keyholder.Infrastructure.Transaction.{Tx, modify}

pub data GoalLifecycleStatus : Type 0 where
  active paused completed abandoned replaced : GoalLifecycleStatus

pub data CreatedVia : Type 0 where
  user_proposed coach_proposed_user_approved coach_initial_setup : CreatedVia

pub record GoalVersion : Type 0 where
  pub id : ℕ
  pub goal_group_id : ℕ
  pub version : ℕ
  pub title : ℕ
  pub target_description : ℕ
  pub trust_domain : ℕ
  pub created_at : ℕ
  pub created_via : CreatedVia
  pub adaptation_reason : Option ℕ
  pub supersedes_id : Option ℕ

pub record Goal : Type 0 where
  pub goal_group_id : ℕ
  pub current_version_id : ℕ
  pub status : GoalLifecycleStatus
  pub created_at : ℕ
  pub status_changed_at : ℕ
  pub replaces_goal_group_id : Option ℕ
  pub archived_at : Option ℕ

pub data GoalOutcome : Type 0 where
  met partially_met missed : GoalOutcome

pub record GoalEvidence : Type 0 where
  pub id : ℕ
  pub goal_group_id : ℕ
  pub goal_version_id : ℕ
  pub period_start : ℕ
  pub period_end : ℕ
  pub outcome : GoalOutcome
  pub observed_progress : ℕ
  pub source : ℕ
  pub created_at : ℕ

pub data GoalInterventionType : Type 0 where
  adapt_target increase_support no_change propose_replacement propose_abandonment :
      GoalInterventionType

pub record GoalEvaluation : Type 0 where
  pub id : ℕ
  pub goal_group_id : ℕ
  pub created_at : ℕ
  pub triggering_evidence_ids : List ℕ
  pub findings : ℕ
  pub proposed_intervention : GoalInterventionType
  pub proposed_intervention_detail : ℕ

pub data GoalProposalStatus : Type 0 where
  pending accepted declined expired : GoalProposalStatus

pub record GoalChangeProposal : Type 0 where
  pub id : ℕ
  pub evaluation_id : Option ℕ
  pub goal_group_id : ℕ
  pub proposed_change : GoalInterventionType
  pub proposal_expires_at : ℕ
  pub status : GoalProposalStatus
  pub created_at : ℕ
  pub resolved_at : Option ℕ

pub record GoalChangeProposalContent : Type 0 where
  pub id : ℕ
  pub proposal_id : ℕ
  pub proposed_title : Option ℕ
  pub proposed_target_description : Option ℕ
  pub proposed_replacement_goal_group_id : Option ℕ
  pub reason : ℕ

-- The event types of the module with their payloads, in the order of the payload's keys.
pub data GoalEvent : Type 0 where
  goal_created : ℕ → ℕ → ℕ → GoalEvent
  goal_paused goal_completed : ℕ → ℕ → GoalEvent
  goal_resumed goal_archived goal_abandoned : ℕ → GoalEvent
  goal_adapted : ℕ → ℕ → ℕ → GoalEvent
  goal_replaced : ℕ → ℕ → GoalEvent
  evidence_recorded : ℕ → ℕ → GoalOutcome → GoalEvent
  evaluation_recorded : ℕ → ℕ → GoalInterventionType → GoalEvent
  proposal_created : ℕ → ℕ → GoalInterventionType → GoalEvent
  proposal_resolved : ℕ → ℕ → GoalProposalStatus → GoalEvent

pub record GoalEventRow : Type 0 where
  pub payload : GoalEvent
  pub occurred_at : ℕ

pub record GoalTables : Type 0 where
  pub goals : List Goal
  pub goal_versions : List GoalVersion
  pub goal_evidence : List GoalEvidence
  pub goal_evaluations : List GoalEvaluation
  pub goal_change_proposals : List GoalChangeProposal
  pub goal_change_proposal_contents : List GoalChangeProposalContent
  pub goal_events : List GoalEventRow
  pub next_id : ℕ

-- A field of a row that is not there is a TypeError.
pub data GoalError : Type 0 where
  goal_not_found proposal_not_found : ℕ → GoalError
  invalid_goal_transition : ℕ → GoalLifecycleStatus → GoalError
  invalid_proposal_state : ℕ → GoalProposalStatus → GoalError
  value_error integrity_error type_error : GoalError

abbrev pub GoalAction : Type 0 → Type 0
GoalAction = Tx GoalTables GoalError

abbrev pub new_id : GoalAction ℕ
new_id t = ok (t.next_id, record t { next_id = suc t.next_id })

-- `write_event`
abbrev pub write_event : ℕ → GoalEvent → GoalAction ⊤
write_event now payload =
    modify λ t. record t {
      goal_events = record { payload = payload; occurred_at = now } ∷ t.goal_events;
    }

abbrev pub has_goal_id : ℕ → Goal → Bool
has_goal_id id g = g.goal_group_id == id

abbrev pub has_version_id : ℕ → GoalVersion → Bool
has_version_id id v = v.id == id

abbrev pub has_proposal_id : ℕ → GoalChangeProposal → Bool
has_proposal_id id p = p.id == id

abbrev pub is_content_of : ℕ → GoalChangeProposalContent → Bool
is_content_of proposal_id c = c.proposal_id == proposal_id

-- The statuses ACTIVE and PAUSED, from which a goal can still go on.
abbrev pub is_live : GoalLifecycleStatus → Bool
is_live active = true
is_live paused = true
is_live completed = false
is_live abandoned = false
is_live replaced = false

abbrev pub is_active : GoalLifecycleStatus → Bool
is_active active = true
is_active paused = false
is_active completed = false
is_active abandoned = false
is_active replaced = false

abbrev pub is_paused : GoalLifecycleStatus → Bool
is_paused active = false
is_paused paused = true
is_paused completed = false
is_paused abandoned = false
is_paused replaced = false

abbrev pub is_pending : GoalProposalStatus → Bool
is_pending pending = true
is_pending accepted = false
is_pending declined = false
is_pending expired = false

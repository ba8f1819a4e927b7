-- ===== src/TrustManager/Store.antt =====
-- The tables that trust_manager/repository.py writes (database/migrations/003 and 004), with the
-- types of trust_manager/models.py that are their rows. Explanations are left out, and other texts are
-- numbers.
use ai_coach_keyholder.Prelude.{ℕ, suc, ⊤, Bool, Option, List, ◌∷◌, ok}
use ai_coach_keyholder.Prelude.Int.{ℤ}
use ai_coach_keyholder.Infrastructure.Transaction.{Tx, modify}
use ai_coach_keyholder.PenaltyEngine.Models.{SeverityTier, CooperationAssessment}
use ai_coach_keyholder.TrustManager.Severity.{IncidentEvidence}

pub record TrustDomain : Type 0 where
  pub domain_id : ℕ
  pub display_name : ℕ
  pub description : ℕ
  pub created_at : ℕ
  pub created_via_consent_id : ℕ
  pub is_active : Bool
  pub deactivated_at : Option ℕ
  pub deactivated_via_consent_id : Option ℕ
  pub initial_score_override : Option ℤ
  pub initial_confidence_override : Option ℤ

pub data Trend : Type 0 where
  improving declining stable : Trend

pub record TrustDomainState : Type 0 where
  pub domain_id : ℕ
  pub score : ℤ
  pub confidence : ℤ
  pub trend : Trend
  pub last_recalculated_at : ℕ
  pub last_relevant_event_at : Option ℕ

pub data EvidenceType : Type 0 where
  incident_impact recovery_progress sustained_period manual_review goal_progress goal_setback :
      EvidenceType

pub record TrustEvidence : Type 0 where
  pub id : ℕ
  pub domain_id : ℕ
  pub created_at : ℕ
  pub evidence_type : EvidenceType
  pub source_entity_type : ℕ
  pub source_entity_id : ℕ
  pub raw_weight : ℤ
  pub evidence_confidence : ℕ

pub data IncidentConfirmation : Type 0 where
  unconfirmed provisional confirmed : IncidentConfirmation

pub data ConfirmationSource : Type 0 where
  system_verified user_acknowledged keyholder_review : ConfirmationSource

pub record ConfirmationRecord : Type 0 where
  pub id : ℕ
  pub incident_id : ℕ
  pub created_at : ℕ
  pub previous_confirmation : IncidentConfirmation
  pub new_confirmation : IncidentConfirmation
  pub source : ConfirmationSource
  pub evidence_description : ℕ

-- The columns of an assessment; the confirmation and the evidence are those of the incident's row.
pub record IncidentAssessment : Type 0 where
  pub intrinsic_severity : SeverityTier
  pub cooperation : CooperationAssessment

pub record Incident : Type 0 where
  pub id : ℕ
  pub created_at : ℕ
  pub rule_group_id : ℕ
  pub trust_domain : ℕ
  pub description : ℕ
  pub evidence : IncidentEvidence
  pub confirmation : IncidentConfirmation
  pub assessment : Option IncidentAssessment

pub record TrustRecalculation : Type 0 where
  pub id : ℕ
  pub domain_id : ℕ
  pub created_at : ℕ
  pub previous_score : ℤ
  pub new_score : ℤ
  pub previous_confidence : ℤ
  pub new_confidence : ℤ
  pub triggered_by : ℕ

-- A row of trust_recalculation_evidence, whose evidence_id is unique.
pub record AppliedEvidence : Type 0 where
  pub recalculation_id : ℕ
  pub evidence_id : ℕ
  pub effective_weight : ℤ
  pub created_at : ℕ

pub data TrustEvent : Type 0 where
  domain_created domain_deactivated : ℕ → TrustEvent
  domain_reactivated : ℕ → ℕ → TrustEvent
  domain_recalculated : TrustRecalculation → TrustEvent
  incident_reported evidence_recorded : ℕ → ℕ → TrustEvent
  confirmation_changed :
      ℕ
      → ℕ
      → ℕ
      → IncidentConfirmation
      → IncidentConfirmation
      → Option IncidentAssessment
      → TrustEvent

pub record OutboxEvent : Type 0 where
  pub event : TrustEvent
  pub occurred_at : ℕ

pub record TrustTables : Type 0 where
  pub trust_domains : List TrustDomain
  pub trust_domain_state : List TrustDomainState
  pub incidents : List Incident
  pub confirmation_records : List ConfirmationRecord
  pub trust_evidence : List TrustEvidence
  pub trust_recalculations : List TrustRecalculation
  pub trust_recalculation_evidence : List AppliedEvidence
  pub outbox : List OutboxEvent
  pub next_id : ℕ

-- A field of a row that is not there is a TypeError, and a severity that is not set a ValueError.
pub data TrustError : Type 0 where
  incident_not_found : ℕ → TrustError
  constraint_failed missing_row missing_severity : TrustError

abbrev pub TrustAction : Type 0 → Type 0
TrustAction = Tx TrustTables TrustError

abbrev pub fresh_id : TrustAction ℕ
fresh_id t = ok (t.next_id, record t { next_id = suc t.next_id })

abbrev pub emit : ℕ → TrustEvent → TrustAction ⊤
emit now event =
    modify λ t. record t { outbox = record { event = event; occurred_at = now } ∷ t.outbox }

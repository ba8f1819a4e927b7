-- ===== src/TrustManager/Incidents.antt =====
-- trust_manager/repository.py: reports and confirmations of incidents, what other modules read of
-- them, and the repair at startup.
pub mod Confirmed
use ai_coach_keyholder.Prelude.{
  ℕ, suc, ◌+◌, ⊤, Bool, true, false, Option, none, some, List, [], ◌∷◌, ok, err, Result, ◌==◌, ◌&&◌,
  not,
}
use ai_coach_keyholder.Prelude.Int.{ℤ}
use ai_coach_keyholder.Prelude.Lists.{exists, select, find, update_where}
use ai_coach_keyholder.Infrastructure.TimeFormat.{iso_leb}
use ai_coach_keyholder.Infrastructure.Transaction.{
  Method, gets, modify, pure, raise_if, when, ◌>>=◌, ◌>>◌, ◌then_do◌, write_and_events,
  apply_transition,
}
use ai_coach_keyholder.PenaltyEngine.Models.{CooperationAssessment}
use ai_coach_keyholder.PenaltyEngine.Reads.{ConfirmedIncidentSummary}
use ai_coach_keyholder.TrustManager.Severity.{
  IncidentEvidence, EvidenceConfidenceLevel, low_confidence, medium_confidence, high_confidence,
  assess_severity, raw_weight_for_incident,
}
use ai_coach_keyholder.TrustManager.Store.{
  TrustEvidence, EvidenceType, incident_impact, recovery_progress, sustained_period, manual_review,
  goal_progress, goal_setback, IncidentConfirmation, unconfirmed, provisional, confirmed,
  ConfirmationSource, ConfirmationRecord, IncidentAssessment, Incident, TrustTables, TrustError,
  incident_not_found, constraint_failed, missing_severity, TrustAction, fresh_id, emit,
  incident_reported, evidence_recorded, confirmation_changed, domain_recalculated,
}
use ai_coach_keyholder.TrustManager.Domains.{is_domain, recalculate_in_transaction}

abbrev pub has_incident_id : ℕ → Incident → Bool
has_incident_id id i = i.id == id

-- The texts 'incident' and 'incident' of a recalculation's trigger.
abbrev pub incident_entity : ℕ
incident_entity = 0

abbrev pub incident_trigger : ℕ
incident_trigger = 0

abbrev pub is_impact : EvidenceType → Bool
is_impact incident_impact = true
is_impact _ = false

-- The unique key of trust_evidence, for the evidence of an incident's impact.
abbrev pub is_impact_of : ℕ → TrustEvidence → Bool
is_impact_of incident_id e =
    e.source_entity_type == incident_entity
    && e.source_entity_id == incident_id
    && is_impact e.evidence_type

unfoldable pub register_incident_report :
    ℕ → ℕ → ℕ → IncidentEvidence → ℕ → Method TrustTables TrustError Incident
register_incident_report rule_group_id trust_domain description evidence now =
    write_and_events
      (do
        id ← fresh_id
        let incident : Incident = record {
          id = id;
          created_at = now;
          rule_group_id = rule_group_id;
          trust_domain = trust_domain;
          description = description;
          evidence = evidence;
          confirmation = unconfirmed;
          assessment = none;
        }
        known ← gets (λ t. exists (is_domain trust_domain) t.trust_domains)
        raise_if (not known) constraint_failed
        modify λ t. record t { incidents = incident ∷ t.incidents }
        pure incident)
      (λ incident. emit now (incident_reported incident.id incident.trust_domain))

-- 0.3, 0.65 and 0.9
abbrev pub confidence_numeric : EvidenceConfidenceLevel → ℕ
confidence_numeric low_confidence = 30
confidence_numeric medium_confidence = 65
confidence_numeric high_confidence = 90

-- `_insert_trust_evidence_for_incident`
unfoldable pub insert_trust_evidence : Incident → IncidentAssessment → ℕ → TrustAction TrustEvidence
insert_trust_evidence incident assessment now = do
  id ← fresh_id
  let row : TrustEvidence = record {
    id = id;
    domain_id = incident.trust_domain;
    created_at = now;
    evidence_type = incident_impact;
    source_entity_type = incident_entity;
    source_entity_id = incident.id;
    raw_weight = raw_weight_for_incident assessment.intrinsic_severity assessment.cooperation;
    evidence_confidence = confidence_numeric incident.evidence.evidence_confidence;
  }
  clash ← gets (λ t. exists (is_impact_of incident.id) t.trust_evidence)
  raise_if clash constraint_failed
  modify λ t. record t { trust_evidence = row ∷ t.trust_evidence }
  pure row

-- `_update_incident_assessment`
unfoldable pub update_assessment : ℕ → IncidentAssessment → TrustAction ⊤
update_assessment incident_id assessment = modify λ t. record t {
  incidents =
      update_where (has_incident_id incident_id) (λ i. record i { assessment = some assessment })
        t.incidents;
}

abbrev pub is_confirmed : IncidentConfirmation → Bool
is_confirmed unconfirmed = false
is_confirmed provisional = false
is_confirmed confirmed = true

abbrev pub assess : Incident → CooperationAssessment → IncidentAssessment
assess incident cooperation = record {
  intrinsic_severity = assess_severity incident.evidence;
  cooperation = cooperation;
}

-- The arguments of a confirmation. `cooperation` is given: the source takes the empty one for none.
pub record Confirmation : Type 0 where
  pub new_confirmation : IncidentConfirmation
  pub source : ConfirmationSource
  pub evidence_description : ℕ
  pub cooperation : CooperationAssessment

-- The assessment that the event carries: the new one, or the one that the incident has.
abbrev pub event_assessment : Incident → Confirmation → Option IncidentAssessment
event_assessment incident c = elim c.new_confirmation [
  | unconfirmed ↦ incident.assessment
  | provisional ↦ incident.assessment
  | confirmed ↦ some (assess incident c.cooperation)
]

-- `_load_incident`
unfoldable pub load_incident : ℕ → TrustAction Incident
load_incident incident_id t = elim (find (has_incident_id incident_id) t.incidents) [
  | none ↦ err (incident_not_found incident_id)
  | some incident ↦ ok (incident, t)
]

module _ (compute_confidence : ℕ → ℤ) where
  -- The branch of `write` for a new confirmation that is CONFIRMED.
  unfoldable pub confirmed_write : Incident → CooperationAssessment → ℕ → TrustAction ⊤
  confirmed_write incident cooperation now = do
    update_assessment incident.id (assess incident cooperation)
    row ← insert_trust_evidence incident (assess incident cooperation) now
    emit now (evidence_recorded row.id row.domain_id)
    recalculation ←
        recalculate_in_transaction compute_confidence incident.trust_domain incident_trigger now
    emit now (domain_recalculated recalculation)

  unfoldable pub confirm_write : Incident → Confirmation → ℕ → TrustAction ConfirmationRecord
  confirm_write incident c now = do
    id ← fresh_id
    let row : ConfirmationRecord = record {
      id = id;
      incident_id = incident.id;
      created_at = now;
      previous_confirmation = incident.confirmation;
      new_confirmation = c.new_confirmation;
      source = c.source;
      evidence_description = c.evidence_description;
    }
    modify λ t. record t {
      confirmation_records = row ∷ t.confirmation_records;
      incidents =
          update_where (has_incident_id incident.id)
            (λ i. record i { confirmation = c.new_confirmation }) t.incidents;
    }
    when (is_confirmed c.new_confirmation) (confirmed_write incident c.cooperation now)
    pure row

  -- `load` and `write`, in the order in which `apply_transition` runs them.
  unfoldable pub confirm_in_transaction :
      ℕ → Confirmation → ℕ → TrustAction (Incident × ConfirmationRecord)
  confirm_in_transaction incident_id c now = do
    incident ← load_incident incident_id
    row ← confirm_write incident c now
    pure (incident, row)

  unfoldable pub confirm_events :
      ℕ → Confirmation → ℕ → Incident × ConfirmationRecord → TrustAction ⊤
  confirm_events incident_id c now (incident, row) = emit now (
      confirmation_changed incident_id incident.trust_domain incident.rule_group_id
        row.previous_confirmation row.new_confirmation (event_assessment incident c))

  unfoldable pub confirm_incident : ℕ → Confirmation → ℕ → Method TrustTables TrustError ⊤
  confirm_incident incident_id c now =
      write_and_events (confirm_in_transaction incident_id c now) (confirm_events incident_id c now)
      then_do (λ _ t. (ok tt, t))

-- `get_incident_assessment`; a confirmed incident without an assessment is an error.
unfoldable pub get_incident_assessment :
    ℕ → TrustTables → Result TrustError (Option IncidentAssessment)
get_incident_assessment incident_id t = elim (find (has_incident_id incident_id) t.incidents) [
  | none ↦ ok none
  | some i ↦ elim i.confirmation [
    | unconfirmed ↦ ok none
    | provisional ↦ ok none
    | confirmed ↦ elim i.assessment [ none ↦ err missing_severity | some a ↦ ok (some a) ]
  ]
]

abbrev pub summary : Incident → ConfirmedIncidentSummary
summary i = record {
  id = i.id;
  trust_domain = i.trust_domain;
  rule_group_id = i.rule_group_id;
  created_at = i.created_at;
}

abbrev pub summaries : List Incident → List ConfirmedIncidentSummary
summaries [] = []
summaries (i ∷ is) = summary i ∷ summaries is

unfoldable pub get_confirmed_incidents_since : ℕ → TrustTables → List ConfirmedIncidentSummary
get_confirmed_incidents_since since t =
    summaries (select (λ i. is_confirmed i.confirmation && iso_leb since i.created_at) t.incidents)

abbrev pub lacks_assessment : Incident → Bool
lacks_assessment i =
    is_confirmed i.confirmation && elim i.assessment [ none ↦ true | some a ↦ false ]

unfoldable pub get_confirmed_incidents_with_null_assessment : TrustTables → List Incident
get_confirmed_incidents_with_null_assessment t = select lacks_assessment t.incidents

abbrev pub no_cooperation : CooperationAssessment
no_cooperation = record { self_disclosed = false; active_cooperation_in_resolution = false }

-- `for incident in ...`, each in a transaction of its own.
unfoldable pub repair_each : ℕ → List Incident → Method TrustTables TrustError ℕ
repair_each now [] = λ t. (ok 0, t)
repair_each now (i ∷ is) =
    write_and_events
      (do
        update_assessment i.id (assess i no_cooperation)
        insert_trust_evidence i (assess i no_cooperation) now)
      (λ row. emit now (evidence_recorded row.id row.domain_id))
    then_do (λ _. repair_each now is)
    then_do (λ repaired t. (ok (suc repaired), t))

unfoldable pub recover_trust_manager_state : ℕ → Method TrustTables TrustError ℕ
recover_trust_manager_state now t =
    repair_each now (get_confirmed_incidents_with_null_assessment t) t

-- ===== src/TrustManager/Severity.antt =====
-- trust_manager/severity.py, with the evidence types of trust_manager/models.py.
-- A weight is a whole number of hundredths, in which all constants of the source are exact.
pub mod Rubric
use ai_coach_keyholder.Prelude.{ℕ, zero, suc, ◌+◌, ◌/◌, min, Bool, List, leb, if◌then◌else◌}
use ai_coach_keyholder.Prelude.Int.{ℤ, pos, negsuc, ◌+ℤ◌, min_ℤ}
use ai_coach_keyholder.PenaltyEngine.Models.{
  SeverityTier, minor, moderate, major, critical, CooperationAssessment,
}

pub data ImpactLevel : Type 0 where
  low medium high : ImpactLevel

pub data IntentAssessment : Type 0 where
  unintentional unclear deliberate : IntentAssessment

pub data BreachDirectness : Type 0 where
  indirect partial direct : BreachDirectness

pub data EvidenceConfidenceLevel : Type 0 where
  low_confidence medium_confidence high_confidence : EvidenceConfidenceLevel

pub record RepetitionEvidence : Type 0 where
  pub same_rule_confirmed_count : ℕ
  pub evaluation_window_days : ℕ
  pub source_incident_ids : List ℕ

pub record IncidentEvidence : Type 0 where
  pub actual_or_potential_impact : ImpactLevel
  pub rule_breach_directness : BreachDirectness
  pub repetition : RepetitionEvidence
  pub evidence_confidence : EvidenceConfidenceLevel
  pub intentionality : IntentAssessment

abbrev pub impact_points : ImpactLevel → ℕ
impact_points low = 0
impact_points medium = 1
impact_points high = 2

abbrev pub intentionality_points : IntentAssessment → ℕ
intentionality_points unintentional = 0
intentionality_points unclear = 0
intentionality_points deliberate = 1

abbrev pub breach_directness_points : BreachDirectness → ℕ
breach_directness_points indirect = 0
breach_directness_points partial = 1
breach_directness_points direct = 2

abbrev pub repetition_contribution : RepetitionEvidence → ℕ
repetition_contribution rep =
    if leb rep.same_rule_confirmed_count 1
    then 0
    else if leb rep.same_rule_confirmed_count 3
    then 1
    else 2

-- The element of `_SEVERITY_TIERS` at an index, which is at most 3.
abbrev pub severity_tiers : ℕ → SeverityTier
severity_tiers zero = minor
severity_tiers (suc zero) = moderate
severity_tiers (suc (suc zero)) = major
severity_tiers (suc (suc (suc n))) = critical

unfoldable pub score : IncidentEvidence → ℕ
score evidence =
    impact_points evidence.actual_or_potential_impact
    + intentionality_points evidence.intentionality
    + breach_directness_points evidence.rule_breach_directness
    + repetition_contribution evidence.repetition

unfoldable pub assess_severity : IncidentEvidence → SeverityTier
assess_severity evidence = severity_tiers (min (score evidence / 2) 3)

abbrev pub cooperation_self_disclosure_offset : ℕ
cooperation_self_disclosure_offset = 2

abbrev pub cooperation_active_resolution_offset : ℕ
cooperation_active_resolution_offset = 2

-- -5, -10, -20 and -35.
abbrev pub severity_base_weight : SeverityTier → ℤ
severity_base_weight minor = negsuc 4
severity_base_weight moderate = negsuc 9
severity_base_weight major = negsuc 19
severity_base_weight critical = negsuc 34

abbrev pub min_incident_raw_weight : ℤ
min_incident_raw_weight = negsuc 0

unfoldable pub cooperation_trust_offset : CooperationAssessment → ℕ
cooperation_trust_offset c =
    (if c.self_disclosed then cooperation_self_disclosure_offset else 0)
    + (if c.active_cooperation_in_resolution then cooperation_active_resolution_offset else 0)

unfoldable pub raw_weight_for_incident : SeverityTier → CooperationAssessment → ℤ
raw_weight_for_incident severity c =
    min_ℤ (severity_base_weight severity +ℤ pos (cooperation_trust_offset c))
      min_incident_raw_weight

-- ===== src/TrustManager/Severity/Rubric.antt =====
-- trust_manager/severity.py: what the rubric promises of its factors and of cooperation.
use ai_coach_keyholder.Prelude.{
  refl, ◌≢◌, ◌⊎◌, ◌↔◌, ◌+◌, leb, if◌then◌else◌, ℕ, ◌/◌, ◌≤◌, ◌≡◌, min, arith,
}
use ai_coach_keyholder.Prelude.Int.{pos, negsuc, ◌≤ℤ◌, ◌+ℤ◌, min_ℤ}
use ai_coach_keyholder.PenaltyEngine.Models.{
  SeverityTier, minor, moderate, major, critical, CooperationAssessment,
}
use ai_coach_keyholder.TrustManager.Severity.{
  ImpactLevel, low, medium, high, IntentAssessment, unintentional, unclear, deliberate,
  BreachDirectness, indirect, partial, direct, IncidentEvidence, impact_points,
  intentionality_points, breach_directness_points, repetition_contribution, severity_tiers, score,
  assess_severity, raw_weight_for_incident, cooperation_trust_offset, severity_base_weight,
}

abbrev pub rank : SeverityTier → ℕ
rank minor = 0
rank moderate = 1
rank major = 2
rank critical = 3

rank-severity_tiers : (n : ℕ) → rank (severity_tiers n) ≡ min n 3
rank-severity_tiers n = ground arith

assess_severity-rank : (e : IncidentEvidence) → rank (assess_severity e) ≡ min (score e / 2) 3
unfolding assess_severity
assess_severity-rank e = ground (arith, rank-severity_tiers (min (score e / 2) 3))

-- The order of the levels of a factor, from the least.
abbrev pub impact_rank : ImpactLevel → ℕ
impact_rank low = 0
impact_rank medium = 1
impact_rank high = 2

abbrev pub intent_rank : IntentAssessment → ℕ
intent_rank unintentional = 0
intent_rank unclear = 1
intent_rank deliberate = 2

abbrev pub directness_rank : BreachDirectness → ℕ
directness_rank indirect = 0
directness_rank partial = 1
directness_rank direct = 2

-- An incident whose impact is no lower, whose breach is no less direct, whose intent is no further
-- from deliberate, and which was repeated no less often is at least as severe.
pub assess_severity_mono :
    (e f : IncidentEvidence)
    → impact_rank e.actual_or_potential_impact ≤ impact_rank f.actual_or_potential_impact
    → intent_rank e.intentionality ≤ intent_rank f.intentionality
    → directness_rank e.rule_breach_directness ≤ directness_rank f.rule_breach_directness
    → e.repetition.same_rule_confirmed_count ≤ f.repetition.same_rule_confirmed_count
    → rank (assess_severity e) ≤ rank (assess_severity f)
unfolding score
assess_severity_mono e f i n d r = ground (arith, assess_severity-rank e, assess_severity-rank f)

abbrev pub IsCritical : ImpactLevel → IntentAssessment → BreachDirectness → ℕ → Type 0
IsCritical i n d count =
    ((i ≡ high) × (d ≡ direct) × (4 ≤ count))
    ⊎ ((n ≡ deliberate) × (d ≡ direct) × (i ≡ high) × (2 ≤ count))
    ⊎ ((n ≡ deliberate) × (d ≡ direct) × (i ≡ medium) × (4 ≤ count))
    ⊎ ((n ≡ deliberate) × (d ≡ partial) × (i ≡ high) × (4 ≤ count))

abbrev pub IsMinor : ImpactLevel → IntentAssessment → BreachDirectness → ℕ → Type 0
IsMinor i n d count =
    ((i ≡ low) × (d ≡ indirect) × (count ≤ 1))
    ⊎ ((n ≢ deliberate) × (d ≡ indirect) × (i ≡ medium) × (count ≤ 1))
    ⊎ ((n ≢ deliberate) × (d ≡ partial) × (i ≡ low) × (count ≤ 1))
    ⊎ ((n ≢ deliberate) × (d ≡ indirect) × (i ≡ low) × (count ≤ 3))

module _ (i : ImpactLevel) (n : IntentAssessment) (d : BreachDirectness) (count points : ℕ)
    (h : points ≡ (if leb count 1 then 0 else if leb count 3 then 1 else 2)) where
  score-IsCritical :
      (6 ≤ impact_points i + intentionality_points n + breach_directness_points d + points)
      ↔ IsCritical i n d count
  score-IsCritical = ground arith

  score-IsMinor :
      (impact_points i + intentionality_points n + breach_directness_points d + points ≤ 1)
      ↔ IsMinor i n d count
  score-IsMinor = ground arith

rank_critical : (s : SeverityTier) → (s ≡ critical) ↔ (3 ≤ rank s)
rank_critical s = ground arith

rank_minor : (s : SeverityTier) → (s ≡ minor) ↔ (rank s ≤ 0)
rank_minor s = ground arith

-- Repetition has three levels: at most 1, 2 or 3, and 4 or more confirmed incidents of the rule. An
-- incident is CRITICAL exactly when impact, directness and repetition are all at the highest level,
-- or it is deliberate and one of the three is one level lower; it is MINOR exactly when all three
-- are at the lowest level, or it is not deliberate and one of the three is one level higher.
pub assess_severity_ends :
    (e : IncidentEvidence)
    → ((assess_severity e ≡ critical)
        ↔ IsCritical e.actual_or_potential_impact e.intentionality e.rule_breach_directness
            e.repetition.same_rule_confirmed_count)
      × ((assess_severity e ≡ minor)
          ↔ IsMinor e.actual_or_potential_impact e.intentionality e.rule_breach_directness
              e.repetition.same_rule_confirmed_count)
unfolding score
assess_severity_ends e =
    let count = e.repetition.same_rule_confirmed_count in
    let worst =
      score-IsCritical e.actual_or_potential_impact e.intentionality e.rule_breach_directness count
        (repetition_contribution e.repetition) refl in
    let least =
      score-IsMinor e.actual_or_potential_impact e.intentionality e.rule_breach_directness count
        (repetition_contribution e.repetition) refl in
    let r : rank (assess_severity e) ≡ min (score e / 2) 3 = assess_severity-rank e in
    (
      (
        (λ h. worst.0 (omega (arith, (rank_critical (assess_severity e)).0 h, r))),
        (λ h. (rank_critical (assess_severity e)).1 (omega (arith, worst.1 h, r))),
      ),
      (
        (λ h. least.0 (omega (arith, (rank_minor (assess_severity e)).0 h, r))),
        (λ h. (rank_minor (assess_severity e)).1 (omega (arith, least.1 h, r))),
      ),
    )

-- Cooperation never turns a confirmed incident into evidence that is not negative: its weight is at
-- most a hundredth below zero. It is never below the base weight of the severity either, and with
-- both kinds of cooperation at most 4 hundredths above it.
pub raw_weight_for_incident_bounds :
    (severity : SeverityTier) (c : CooperationAssessment)
    → (raw_weight_for_incident severity c ≤ℤ negsuc 0)
      × (severity_base_weight severity ≤ℤ raw_weight_for_incident severity c)
      × (raw_weight_for_incident severity c ≤ℤ severity_base_weight severity +ℤ pos 4)
unfolding raw_weight_for_incident cooperation_trust_offset min_ℤ ◌+ℤ◌
raw_weight_for_incident_bounds minor c = ground arith
raw_weight_for_incident_bounds moderate c = ground arith
raw_weight_for_incident_bounds major c = ground arith
raw_weight_for_incident_bounds critical c = ground arith

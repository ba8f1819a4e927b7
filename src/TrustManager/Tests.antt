-- ===== src/TrustManager/Tests.antt =====
-- Runs of trust_manager/, and its properties at them.
use ai_coach_keyholder.Prelude.{◌↔◌, ℕ, ◌*◌, ◌≤◌, ◌≡◌, refl, true, none, ok, err, [], ◌∷◌, arith}
use ai_coach_keyholder.Prelude.Int.{ℤ, pos, negsuc, ◌≤ℤ◌, ◌+ℤ◌, min_ℤ, max_ℤ}
use ai_coach_keyholder.Prelude.Lists.{All}
use ai_coach_keyholder.Infrastructure.TimeFormat.{iso_key, iso_leb}
use ai_coach_keyholder.Infrastructure.Transaction.{apply_transition}
use ai_coach_keyholder.PenaltyEngine.Models.{minor, critical, major, CooperationAssessment}
use ai_coach_keyholder.TrustManager.Severity.{
  IncidentEvidence, medium, high, partial, direct, unclear, deliberate, high_confidence,
  assess_severity, raw_weight_for_incident, severity_base_weight,
}
use ai_coach_keyholder.TrustManager.Severity.Rubric.{
  rank, assess_severity_mono, IsCritical, IsMinor, assess_severity_ends,
  raw_weight_for_incident_bounds,
}
use ai_coach_keyholder.TrustManager.Recalculation.{
  one, effective_weight, apply_recalculation, bounded_delta, scale,
}
use ai_coach_keyholder.TrustManager.Recalculation.Bounds.{apply_recalculation_bounds}
use ai_coach_keyholder.TrustManager.Store.{
  TrustDomain, TrustDomainState, stable, TrustEvidence, incident_impact, Incident, provisional,
  confirmed, keyholder_review, TrustTables, TrustError,
}
use ai_coach_keyholder.TrustManager.Domains.{
  get_domain_state, select_unconsumed_evidence, apply_each, applied_in_window, recalculate_state,
  recalculate_in_transaction, recalculate_domain_trust,
}
use ai_coach_keyholder.TrustManager.Domains.Scores.{IsUnitScore}
use ai_coach_keyholder.TrustManager.Domains.Once.{recalculate_domain_trust-IsUsedUp}
use ai_coach_keyholder.TrustManager.Incidents.{
  Confirmation, load_incident, insert_trust_evidence, update_assessment, confirmed_write,
  confirm_write, confirm_in_transaction, confirm_events, confirm_incident,
}
use ai_coach_keyholder.TrustManager.Incidents.Confirmed.{
  confirm_incident_again, confirm_incident-IsUnitScore,
}

abbrev lesser : IncidentEvidence
lesser = record {
  actual_or_potential_impact = medium;
  rule_breach_directness = partial;
  repetition = record {
    same_rule_confirmed_count = 1;
    evaluation_window_days = 30;
    source_incident_ids = [];
  };
  evidence_confidence = high_confidence;
  intentionality = unclear;
}

abbrev worse : IncidentEvidence
worse = record {
  actual_or_potential_impact = high;
  rule_breach_directness = direct;
  repetition = record {
    same_rule_confirmed_count = 4;
    evaluation_window_days = 30;
    source_incident_ids = [];
  };
  evidence_confidence = high_confidence;
  intentionality = deliberate;
}

assess_severity_mono_example : rank (assess_severity lesser) ≤ rank (assess_severity worse)
assess_severity_mono_example =
    assess_severity_mono lesser worse (omega arith) (omega arith) (omega arith) (omega arith)

assess_severity_ends_example :
    ((assess_severity worse ≡ critical) ↔ IsCritical high deliberate direct 4)
    × ((assess_severity worse ≡ minor) ↔ IsMinor high deliberate direct 4)
assess_severity_ends_example = assess_severity_ends worse

abbrev cooperative : CooperationAssessment
cooperative = record { self_disclosed = true; active_cooperation_in_resolution = true }

raw_weight_for_incident_bounds_example :
    (raw_weight_for_incident major cooperative ≤ℤ negsuc 0)
    × (severity_base_weight major ≤ℤ raw_weight_for_incident major cooperative)
    × (raw_weight_for_incident major cooperative ≤ℤ severity_base_weight major +ℤ pos 4)
raw_weight_for_incident_bounds_example = raw_weight_for_incident_bounds major cooperative

apply_recalculation_bounds_example :
    (pos 0 ≤ℤ apply_recalculation (pos 5_000) (negsuc 3_149))
    × (apply_recalculation (pos 5_000) (negsuc 3_149) ≤ℤ one)
    × (apply_recalculation (pos 5_000) (negsuc 3_149) ≤ℤ pos 5_000 +ℤ pos 1_500)
    × (pos 5_000 ≤ℤ apply_recalculation (pos 5_000) (negsuc 3_149) +ℤ pos 1_500)
apply_recalculation_bounds_example =
    apply_recalculation_bounds (pos 5_000) (negsuc 3_149) (omega arith) (omega arith)

abbrev domain : TrustDomain
domain = record {
  domain_id = 1;
  display_name = 2;
  description = 3;
  created_at = 0;
  created_via_consent_id = 4;
  is_active = true;
  deactivated_at = none;
  deactivated_via_consent_id = none;
  initial_score_override = none;
  initial_confidence_override = none;
}

abbrev state : TrustDomainState
state = record {
  domain_id = 1;
  score = pos 6_000;
  confidence = pos 1_500;
  trend = stable;
  last_recalculated_at = 0;
  last_relevant_event_at = none;
}

abbrev incident : Incident
incident = record {
  id = 0;
  created_at = 5;
  rule_group_id = 2;
  trust_domain = 1;
  description = 3;
  evidence = worse;
  confirmation = provisional;
  assessment = none;
}

abbrev tables : TrustTables
tables = record {
  trust_domains = domain ∷ [];
  trust_domain_state = state ∷ [];
  incidents = incident ∷ [];
  confirmation_records = [];
  trust_evidence = [];
  trust_recalculations = [];
  trust_recalculation_evidence = [];
  outbox = [];
  next_id = 1;
}

abbrev reviewed : Confirmation
reviewed = record {
  new_confirmation = confirmed;
  source = keyholder_review;
  evidence_description = 6;
  cooperation = cooperative;
}

-- Ten-thousandths of a confidence that grows by a tenth with each row.
abbrev confidence : ℕ → ℤ
confidence n = pos (1_000 * n)

confirmed_test : (confirm_incident confidence 0 reviewed 9 tables).0 ≡ ok tt
unfolding confirm_incident apply_transition confirm_in_transaction confirm_events load_incident
    confirm_write confirmed_write update_assessment insert_trust_evidence recalculate_in_transaction
    recalculate_state get_domain_state select_unconsumed_evidence apply_each iso_key
confirmed_test = refl

confirm_incident_again_example :
    (e : TrustError) × (confirm_incident confidence 0 reviewed 20
        (confirm_incident confidence 0 reviewed 9 tables).1
      ≡ (err e, (confirm_incident confidence 0 reviewed 9 tables).1))
confirm_incident_again_example =
    confirm_incident_again confidence 0 reviewed reviewed 9 20 tables
      ((omega arith, omega arith), tt) refl refl confirmed_test

confirm_incident-IsUnitScore_example :
    All IsUnitScore (confirm_incident confidence 0 reviewed 9 tables).1.trust_domain_state
confirm_incident-IsUnitScore_example =
    confirm_incident-IsUnitScore confidence 0 reviewed 9 tables ((omega arith, omega arith), tt)

abbrev evidence : TrustEvidence
evidence = record {
  id = 1;
  domain_id = 1;
  created_at = 1_000_007;
  evidence_type = incident_impact;
  source_entity_type = 0;
  source_entity_id = 0;
  raw_weight = negsuc 19;
  evidence_confidence = 90;
}

abbrev with_evidence : TrustTables
with_evidence = record tables { trust_evidence = evidence ∷ []; next_id = 2 }

recalculated_test :
    (recalculate_domain_trust confidence 1 8 2_000_009 with_evidence).0
    ≡ ok (record {
      id = 2;
      domain_id = 1;
      created_at = 2_000_009;
      previous_score = pos 6_000;
      new_score = pos 4_500;
      previous_confidence = pos 1_500;
      new_confidence = pos 1_000;
      triggered_by = 8;
    })
unfolding recalculate_domain_trust apply_transition recalculate_in_transaction recalculate_state
    get_domain_state select_unconsumed_evidence apply_each applied_in_window iso_leb iso_key
    apply_recalculation bounded_delta effective_weight scale ◌+ℤ◌ min_ℤ max_ℤ
recalculated_test = refl

recalculate_domain_trust-IsUsedUp_example :
    select_unconsumed_evidence 1 (recalculate_domain_trust confidence 1 8 2_000_009 with_evidence).1
    ≡ []
recalculate_domain_trust-IsUsedUp_example =
    recalculate_domain_trust-IsUsedUp confidence 1 8 2_000_009 with_evidence
      (record {
        id = 2;
        domain_id = 1;
        created_at = 2_000_009;
        previous_score = pos 6_000;
        new_score = pos 4_500;
        previous_confidence = pos 1_500;
        new_confidence = pos 1_000;
        triggered_by = 8;
      })
      recalculated_test

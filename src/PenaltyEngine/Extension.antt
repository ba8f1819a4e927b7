-- ===== src/PenaltyEngine/Extension.antt =====
-- penalty_engine/extension.py: the four stages of `should_extend`.
-- Base and mitigated magnitudes are never negative and stand in ℕ; the capacity is a parameter of
-- any sign. The fractions of the source are tenths.
pub mod Floor
use ai_coach_keyholder.Prelude.{
  ℕ, ◌+◌, ◌-◌, ◌*◌, ◌/◌, min, max, Bool, true, false, ◌&&◌, not, Option, none, some, ltb,
  if◌then◌else◌,
}
use ai_coach_keyholder.Prelude.Int.{ℤ, pos, min_ℤ, ltb_ℤ}
use ai_coach_keyholder.PenaltyEngine.Models.{
  Hours, hour, SeverityTier, minor, moderate, major, critical, CooperationAssessment,
}

pub data ExtensionEligibilityReason : Type 0 where
  eligible_by_severity eligible_by_repetition eligible_by_low_cooperation
        ineligible_isolated_low_severity :
      ExtensionEligibilityReason

pub record ExtensionContext : Type 0 where
  pub intrinsic_severity : SeverityTier
  pub cooperation : CooperationAssessment
  pub same_rule_confirmed_incident_count_in_current_window : ℕ
  pub remaining_active_hour_capacity : Hours
  pub occurred_during_recovery_task : Bool

-- Without `id`, `created_at`, the ids of the incident and the window, which the caller's row holds,
-- and the explanation text.
pub record ExtensionDecision : Type 0 where
  pub eligible : Bool
  pub eligibility_reason : ExtensionEligibilityReason
  pub base_hours : Option ℕ
  pub mitigation_hours : ℕ
  pub uncapped_hours : Option ℕ
  pub assigned_hours : Hours
  pub capacity_limited : Bool

unfoldable pub is_high_cooperation : CooperationAssessment → Bool
is_high_cooperation c = c.self_disclosed && c.active_cooperation_in_resolution

abbrev pub is_severe : SeverityTier → Bool
is_severe minor = false
is_severe moderate = false
is_severe major = true
is_severe critical = true

unfoldable pub determine_extension_eligibility :
    ExtensionContext → Bool × ExtensionEligibilityReason
unfolding is_high_cooperation
determine_extension_eligibility context =
    if is_severe context.intrinsic_severity
    then (true, eligible_by_severity)
    else if ltb 1 context.same_rule_confirmed_incident_count_in_current_window
    then (true, eligible_by_repetition)
    else if not (is_high_cooperation context.cooperation)
    then (true, eligible_by_low_cooperation)
    else (false, ineligible_isolated_low_severity)

abbrev pub base_hours_by_severity : SeverityTier → ℕ
base_hours_by_severity minor = 4 * hour
base_hours_by_severity moderate = 12 * hour
base_hours_by_severity major = 24 * hour
base_hours_by_severity critical = 48 * hour

abbrev pub repetition_increment_hours : ℕ
repetition_increment_hours = 6 * hour

unfoldable pub calculate_base_magnitude : SeverityTier → ℕ → ℕ
calculate_base_magnitude severity count =
    if ltb 1 count
    then base_hours_by_severity severity + repetition_increment_hours * (count - 1)
    else base_hours_by_severity severity

-- In tenths, and `none` where the table of the source has no entry.
abbrev pub minimum_retained_fraction : SeverityTier → Option ℕ
minimum_retained_fraction minor = none
minimum_retained_fraction moderate = none
minimum_retained_fraction major = some 5
minimum_retained_fraction critical = some 7

abbrev pub self_disclosed_mitigation : ℕ
self_disclosed_mitigation = 3

abbrev pub active_cooperation_mitigation : ℕ
active_cooperation_mitigation = 3

abbrev pub recovery_task_mitigation : ℕ
recovery_task_mitigation = 2

unfoldable pub mitigation_fraction : CooperationAssessment → Bool → ℕ
mitigation_fraction c occurred_during_recovery_task =
    min
      ((if c.self_disclosed then self_disclosed_mitigation else 0)
        + (if c.active_cooperation_in_resolution then active_cooperation_mitigation else 0)
        + (if occurred_during_recovery_task then recovery_task_mitigation else 0))
      10

unfoldable pub apply_mitigation : ℕ → SeverityTier → CooperationAssessment → Bool → ℕ
unfolding mitigation_fraction
apply_mitigation base_hours severity c occurred_during_recovery_task =
    let mitigated = base_hours * (10 - mitigation_fraction c occurred_during_recovery_task) / 10 in
    elim (minimum_retained_fraction severity) [
      | none ↦ mitigated
      | some floor_fraction ↦ max mitigated (base_hours * floor_fraction / 10)
    ]

unfoldable pub apply_capacity_cap : Hours → Hours → Hours × Bool
apply_capacity_cap uncapped_hours remaining_active_hour_capacity =
    let assigned = min_ℤ uncapped_hours remaining_active_hour_capacity in
    (assigned, ltb_ℤ assigned uncapped_hours)

abbrev pub context_base : ExtensionContext → ℕ
context_base context =
    calculate_base_magnitude context.intrinsic_severity
      context.same_rule_confirmed_incident_count_in_current_window

abbrev pub context_uncapped : ExtensionContext → ℕ
context_uncapped context =
    apply_mitigation (context_base context) context.intrinsic_severity context.cooperation
      context.occurred_during_recovery_task

unfoldable pub should_extend : ExtensionContext → ExtensionDecision
should_extend context =
    let (eligible, reason) = determine_extension_eligibility context in
    if not eligible
    then record {
      eligible = false;
      eligibility_reason = reason;
      base_hours = none;
      mitigation_hours = 0;
      uncapped_hours = none;
      assigned_hours = pos 0;
      capacity_limited = false;
    }
    else let base = context_base context in
      let uncapped = context_uncapped context in
      let (assigned, capacity_limited) =
        apply_capacity_cap (pos uncapped) context.remaining_active_hour_capacity in
      record {
        eligible = true;
        eligibility_reason = reason;
        base_hours = some base;
        mitigation_hours = base - uncapped;
        uncapped_hours = some uncapped;
        assigned_hours = assigned;
        capacity_limited = capacity_limited;
      }

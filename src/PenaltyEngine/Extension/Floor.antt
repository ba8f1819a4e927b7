-- ===== src/PenaltyEngine/Extension/Floor.antt =====
-- penalty_engine/extension.py: what an extension is worth at the least and at the most.
use ai_coach_keyholder.Prelude.{
  ◌+◌, none, sym, ℕ, ◌*◌, ◌/◌, ◌≤◌, ◌≡◌, ◌↔◌, ◌⊎◌, refl, Bool, true, false, some, arith, Bool-cases,
  inl, inr, ◌∙◌,
}
use ai_coach_keyholder.Prelude.Int.{pos, ◌≤ℤ◌, ◌<ℤ◌, min_ℤ}
use ai_coach_keyholder.PenaltyEngine.Models.{hour, SeverityTier, minor, CooperationAssessment}
use ai_coach_keyholder.PenaltyEngine.Extension.{
  ExtensionContext, is_severe, determine_extension_eligibility, calculate_base_magnitude,
  minimum_retained_fraction, apply_mitigation, apply_capacity_cap, should_extend, context_base,
  context_uncapped,
}

-- Mitigation never raises a magnitude, and takes at most 8 tenths of it.
pub apply_mitigation_bounds :
    (base : ℕ) (severity : SeverityTier) (c : CooperationAssessment) (during : Bool)
    → (apply_mitigation base severity c during ≤ base)
      × (base * 2 / 10 ≤ apply_mitigation base severity c during)
unfolding apply_mitigation
apply_mitigation_bounds base severity c during = ground arith

-- A MAJOR incident keeps at least 5 tenths of its base magnitude, and a CRITICAL one 7 tenths,
-- whatever the cooperation and the circumstances.
pub apply_mitigation_floor :
    (base : ℕ) (severity : SeverityTier) (c : CooperationAssessment) (during : Bool) {fraction : ℕ}
    → minimum_retained_fraction severity ≡ some fraction
    → base * fraction / 10 ≤ apply_mitigation base severity c during
unfolding apply_mitigation
apply_mitigation_floor base severity c during h = ground arith

-- An incident is ineligible exactly when it is neither MAJOR nor CRITICAL, the only one of its rule
-- in the window, and met with both kinds of cooperation.
pub determine_extension_eligibility_lem :
    (x : ExtensionContext)
    → ((determine_extension_eligibility x).0 ≡ false) ↔ (
        (is_severe x.intrinsic_severity ≡ false)
        × (x.same_rule_confirmed_incident_count_in_current_window ≤ 1)
        × (x.cooperation.self_disclosed ≡ true)
        × (x.cooperation.active_cooperation_in_resolution ≡ true))
unfolding determine_extension_eligibility
determine_extension_eligibility_lem x = ground arith

pub calculate_base_magnitude_lower :
    (severity : SeverityTier) (count : ℕ) → 4 * hour ≤ calculate_base_magnitude severity count
unfolding calculate_base_magnitude
calculate_base_magnitude_lower minor count = ground arith
calculate_base_magnitude_lower _ count = ground arith

branches :
    (x : ExtensionContext)
    → (((should_extend x).eligible ≡ false)
        × ((should_extend x).assigned_hours ≡ pos 0)
        × ((should_extend x).capacity_limited ≡ false))
      ⊎ (((should_extend x).eligible ≡ true)
          × ((should_extend x).assigned_hours
              ≡ min_ℤ (pos (context_uncapped x)) x.remaining_active_hour_capacity)
          × (((should_extend x).capacity_limited ≡ true)
              ↔ ((should_extend x).assigned_hours <ℤ pos (context_uncapped x))))
unfolding should_extend apply_capacity_cap
branches x = elim (Bool-cases (determine_extension_eligibility x).0) [
  | inl eligible ↦ rw eligible (inr (refl, refl, ground arith))
  | inr ineligible ↦ rw ineligible (inl (refl, refl, refl))
]

-- What is assigned is never negative and never more than the capacity, if that is not negative.
pub should_extend_bounds :
    (x : ExtensionContext)
    → pos 0 ≤ℤ x.remaining_active_hour_capacity
    → (pos 0 ≤ℤ (should_extend x).assigned_hours)
      × ((should_extend x).assigned_hours ≤ℤ x.remaining_active_hour_capacity)
unfolding min_ℤ
should_extend_bounds x h = elim (branches x) [
  | inl (e, none_assigned, l) ↦ rw none_assigned (omega arith, h)
  | inr (e, capped, l) ↦ rw capped (ground arith)
]

should_extend-eligible :
    (x : ExtensionContext) → (should_extend x).eligible ≡ (determine_extension_eligibility x).0
unfolding should_extend
should_extend-eligible x = elim (Bool-cases (determine_extension_eligibility x).0) [
  | inl eligible ↦ rw eligible
  | inr ineligible ↦ rw ineligible
]

-- Neither MAJOR nor CRITICAL, the only incident of its rule in the window, and met with both kinds of
-- cooperation.
abbrev pub IsIsolatedAndCooperative : ExtensionContext → Type 0
IsIsolatedAndCooperative x =
    (is_severe x.intrinsic_severity ≡ false)
    × (x.same_rule_confirmed_incident_count_in_current_window ≤ 1)
    × (x.cooperation.self_disclosed ≡ true)
    × (x.cooperation.active_cooperation_in_resolution ≡ true)

-- An incident that is neither MAJOR nor CRITICAL, the only one of its rule in the window, and met
-- with both kinds of cooperation gets no hours. Any other incident is eligible, keeps between 2
-- tenths and all of its base magnitude after mitigation, and is assigned what it keeps, or the
-- capacity where that is less, which is flagged.
pub should_extend_assigned :
    (x : ExtensionContext)
    → (IsIsolatedAndCooperative x
        × ((should_extend x).eligible ≡ false)
        × ((should_extend x).base_hours ≡ none)
        × ((should_extend x).assigned_hours ≡ pos 0)
        × ((should_extend x).capacity_limited ≡ false))
      ⊎ ((¬ IsIsolatedAndCooperative x)
          × ((should_extend x).eligible ≡ true)
          × (kept : ℕ) × ((should_extend x).uncapped_hours ≡ some kept)
          × (context_base x * 2 / 10 ≤ kept)
          × (kept + (should_extend x).mitigation_hours ≡ context_base x)
          × ((should_extend x).assigned_hours ≡ min_ℤ (pos kept) x.remaining_active_hour_capacity)
          × (((should_extend x).capacity_limited ≡ true)
              ↔ (x.remaining_active_hour_capacity <ℤ pos kept)))
unfolding should_extend apply_capacity_cap min_ℤ
should_extend_assigned x = elim (Bool-cases (determine_extension_eligibility x).0) [
  | inl eligible ↦
      let (most, least) =
        apply_mitigation_bounds (context_base x) x.intrinsic_severity x.cooperation
          x.occurred_during_recovery_task in
      rw eligible (
        inr (
          (λ h. cc (sym eligible ∙ (determine_extension_eligibility_lem x).1 h)),
          refl,
          context_uncapped x,
          refl,
          least,
          omega (arith, most),
          refl,
          ground arith,
        ))
  | inr ineligible ↦
      rw ineligible
        (inl ((determine_extension_eligibility_lem x).0 ineligible, refl, refl, refl, refl))
]

retained-is_severe :
    (severity : SeverityTier) {fraction : ℕ}
    → minimum_retained_fraction severity ≡ some fraction
    → is_severe severity ≡ true
retained-is_severe severity h = ground arith

determine_extension_eligibility_severe :
    (x : ExtensionContext)
    → is_severe x.intrinsic_severity ≡ true
    → (determine_extension_eligibility x).0 ≡ true
unfolding determine_extension_eligibility
determine_extension_eligibility_severe x h = ground arith

-- Cooperation cannot erase the consequence of a MAJOR or CRITICAL incident: it is eligible, and
-- unless the capacity is short it is assigned at least its retained fraction of the base magnitude.
pub should_extend_severe :
    (x : ExtensionContext) {fraction : ℕ}
    → minimum_retained_fraction x.intrinsic_severity ≡ some fraction
    → ((should_extend x).eligible ≡ true)
      × ((pos (context_base x * fraction / 10) ≤ℤ (should_extend x).assigned_hours)
          ⊎ ((should_extend x).assigned_hours ≡ x.remaining_active_hour_capacity))
unfolding min_ℤ
should_extend_severe x {fraction} h =
    let eligible : (should_extend x).eligible ≡ true =
      should_extend-eligible x
      ∙ determine_extension_eligibility_severe x (retained-is_severe x.intrinsic_severity h) in
    elim (branches x) [
      | inl (e, unassigned, l) ↦ cc
      | inr (e, capped, l) ↦ (
        eligible,
        rw capped (
            ground (
              arith,
              apply_mitigation_floor (context_base x) x.intrinsic_severity x.cooperation
                  x.occurred_during_recovery_task h,
            )),
      )
    ]

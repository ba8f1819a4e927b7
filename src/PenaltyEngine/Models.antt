-- ===== src/PenaltyEngine/Models.antt =====
-- penalty_engine/models.py, and the types of trust_manager/models.py that the engine takes.
-- A text id is a number, since the engine only compares ids. An amount of hours is a whole number of
-- units of half a microsecond, so that an hour, its tenths and a half of a duration in microseconds
-- are exact; the rounding of floats is not modelled.
use ai_coach_keyholder.Prelude.{ℕ, ◌+◌, ◌*◌, ◌≡◌, Bool, Option, arith}
use ai_coach_keyholder.Prelude.Int.{ℤ, sub_ℕ, pos_part, neg_part, int_laws}

abbrev pub Hours : Type 0
Hours = ℤ

abbrev pub hour : ℕ
hour = 7_200_000_000

-- `(now - started).total_seconds() / 3600.0`, of two instants in microseconds.
unfoldable pub hours_between : ℕ → ℕ → Hours
hours_between started now = sub_ℕ (2 * now) (2 * started)

pub hours_between_parts :
    (started now : ℕ)
    → pos_part (hours_between started now) + 2 * started
      ≡ neg_part (hours_between started now) + 2 * now
unfolding hours_between
hours_between_parts started now = ground arith

pub ruleset hours_laws = (int_laws, hours_between_parts)

pub data PenaltyWindowStatus : Type 0 where
  active frozen completed : PenaltyWindowStatus

pub data ResolutionMethod : Type 0 where
  countdown_complete : ResolutionMethod

pub data FreezeReason : Type 0 where
  temporary_wear_exemption emergency_override partnered_intimacy_authorization : FreezeReason

pub data FreezeEndReason : Type 0 where
  resumed_normally expired : FreezeEndReason

pub data AuthorizationFreezeState : Type 0 where
  not_found is_open is_closed is_expired : AuthorizationFreezeState

pub record PenaltyWindow : Type 0 where
  pub id : ℕ
  pub created_at : ℕ
  pub status : PenaltyWindowStatus
  pub closed_at : Option ℕ
  pub resolution_method : Option ResolutionMethod
  pub base_duration_hours : Hours
  pub extensions_hours : Hours
  pub accumulated_active_hours : Hours
  pub active_period_started_at : Option ℕ
  pub recovery_credits_earned_hours : Hours

pub record FreezePeriod : Type 0 where
  pub id : ℕ
  pub penalty_window_id : ℕ
  pub started_at : ℕ
  pub ended_at : Option ℕ
  pub reason : FreezeReason
  pub exemption_id : Option ℕ
  pub authorization_decision_id : Option ℕ
  pub expires_at : Option ℕ
  pub end_reason : Option FreezeEndReason

pub record RecoveryCreditDecision : Type 0 where
  pub id : ℕ
  pub created_at : ℕ
  pub completion_id : ℕ
  pub penalty_window_id : ℕ
  pub proposed_hours : Hours
  pub credited_hours : Hours
  pub capacity_limited : Bool

pub data SeverityTier : Type 0 where
  minor moderate major critical : SeverityTier

-- `notes` is never read by the code that is modelled.
pub record CooperationAssessment : Type 0 where
  pub self_disclosed : Bool
  pub active_cooperation_in_resolution : Bool

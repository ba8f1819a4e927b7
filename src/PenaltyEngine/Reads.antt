-- ===== src/PenaltyEngine/Reads.antt =====
-- penalty_engine/repository.py: the reads for other modules, and the start of a window from the
-- incidents that the trust manager has confirmed.
use ai_coach_keyholder.Prelude.{
  ℕ, ◌*◌, Bool, false, Option, none, some, List, [], ◌∷◌, Result, ok, err, not, ◌==◌, if◌then◌else◌,
}
use ai_coach_keyholder.Prelude.Lists.{exists, select, latest}
use ai_coach_keyholder.Infrastructure.TimeFormat.{iso_key, second}
use ai_coach_keyholder.Infrastructure.Transaction.{Method}
use ai_coach_keyholder.PenaltyEngine.Models.{
  Hours, PenaltyWindow, active, frozen, completed, FreezePeriod, expired, resumed_normally,
  AuthorizationFreezeState, not_found, is_open, is_closed, is_expired, SeverityTier,
  CooperationAssessment,
}
use ai_coach_keyholder.PenaltyEngine.Store.{
  Tables, EngineError, penalty_window_not_found, IncidentConsumption, find_window,
}
use ai_coach_keyholder.PenaltyEngine.Consume.{is_incident, consume_confirmed_incident}

abbrev pub is_authorized_by : ℕ → FreezePeriod → Bool
is_authorized_by id f = elim f.authorization_decision_id [ none ↦ false | some a ↦ a == id ]

abbrev pub state_of_freeze : FreezePeriod → AuthorizationFreezeState
state_of_freeze f = elim f.ended_at [
  | none ↦ is_open
  | some t ↦ elim f.end_reason [
    | none ↦ is_closed
    | some reason ↦ elim reason [ expired ↦ is_expired | resumed_normally ↦ is_closed ]
  ]
]

unfoldable pub get_authorization_freeze_state : ℕ → Tables → AuthorizationFreezeState
get_authorization_freeze_state id t =
    elim (latest (λ f. iso_key f.started_at) (select (is_authorized_by id) t.freeze_periods)) [
      | none ↦ not_found
      | some f ↦ state_of_freeze f
    ]

-- A Python set of numbers: the elements, each once.
abbrev pub add_once : ℕ → List ℕ → List ℕ
add_once x xs = if exists (λ y. y == x) xs then xs else x ∷ xs

abbrev pub domains_of : ℕ → List IncidentConsumption → List ℕ
domains_of window_id [] = []
domains_of window_id (c ∷ cs) =
    let rest = domains_of window_id cs in
    if c.penalty_window_id == window_id then add_once c.trust_domain rest else rest

unfoldable pub get_penalty_window_relevant_domains : ℕ → Tables → Result EngineError (List ℕ)
get_penalty_window_relevant_domains window_id t = elim (find_window window_id t.penalty_windows) [
  | none ↦ err (penalty_window_not_found window_id)
  | some w ↦ ok (domains_of window_id t.incident_consumption)
]

-- The instant that Python writes `datetime(1970, 1, 1)`; instants count from the year 1.
abbrev pub unix_epoch : ℕ
unix_epoch = 62_135_596_800 * second

abbrev pub closed_windows : List PenaltyWindow → List ℕ
closed_windows [] = []
closed_windows (w ∷ ws) =
    let rest = closed_windows ws in
    elim w.status [
      | active ↦ rest
      | frozen ↦ rest
      | completed ↦ elim w.closed_at [ none ↦ rest | some t ↦ t ∷ rest ]
    ]

-- `_last_window_closed_at`
unfoldable pub last_window_closed_at : Tables → ℕ
last_window_closed_at t = elim (latest iso_key (closed_windows t.penalty_windows)) [
  | none ↦ unix_epoch
  | some closed_at ↦ closed_at
]

pub record ConfirmedIncidentSummary : Type 0 where
  pub id : ℕ
  pub trust_domain : ℕ
  pub rule_group_id : ℕ
  pub created_at : ℕ

-- The two reads that the engine makes of the trust manager.
pub record TrustReads : Type 0 where
  pub get_confirmed_incidents_since : ℕ → List ConfirmedIncidentSummary
  pub get_incident_assessment : ℕ → Option (SeverityTier × CooperationAssessment)

module _ (trust : TrustReads) (now : ℕ) (base_duration_hours : Hours) where
  -- `for candidate in unconsumed`, on the window so far.
  unfoldable pub consume_candidates :
      List ConfirmedIncidentSummary
      → Option PenaltyWindow
      → Method Tables EngineError (Option PenaltyWindow)
  consume_candidates [] window t = (ok window, t)
  consume_candidates (c ∷ cs) window t = elim (trust.get_incident_assessment c.id) [
    | none ↦ consume_candidates cs window t
    | some (severity, cooperation) ↦
        let (r, t') =
          consume_confirmed_incident c.id c.trust_domain c.rule_group_id severity cooperation now
            base_duration_hours t in
        elim r [ ok w ↦ consume_candidates cs w t' | err e ↦ (err e, t') ]
  ]

  unfoldable pub start_window_if_eligible : Method Tables EngineError (Option PenaltyWindow)
  unfolding consume_candidates
  start_window_if_eligible t =
      let candidates = trust.get_confirmed_incidents_since (last_window_closed_at t) in
      consume_candidates
        (select (λ c. not (exists (is_incident c.id) t.incident_consumption)) candidates) none t

-- ===== src/PenaltyEngine/Store.antt =====
-- The tables that penalty_engine/repository.py writes (database/migrations/005, 007 and 009), and
-- the rows that it adds to the outbox. A table is the list of its rows, the newest first.
pub mod Events
use ai_coach_keyholder.Prelude.{ok, ℕ, suc, ⊤, Bool, Option, List, [], ◌∷◌, ◌==◌}
use ai_coach_keyholder.Prelude.Lists.{select, latest, find, update_where}
use ai_coach_keyholder.Infrastructure.TimeFormat.{iso_key}
use ai_coach_keyholder.Infrastructure.Transaction.{Tx, modify}
use ai_coach_keyholder.PenaltyEngine.Models.{
  Hours, PenaltyWindow, active, frozen, completed, FreezePeriod, FreezeReason, FreezeEndReason,
  ResolutionMethod, RecoveryCreditDecision,
}
use ai_coach_keyholder.PenaltyEngine.Extension.{ExtensionDecision, ExtensionEligibilityReason}

pub record IncidentConsumption : Type 0 where
  pub incident_id : ℕ
  pub penalty_window_id : ℕ
  pub trust_domain : ℕ
  pub rule_group_id : ℕ
  pub consumed_at : ℕ

-- A row of extension_decisions: the decision with its id, its instant and what it is about.
pub record ExtensionDecisionRow : Type 0 where
  pub id : ℕ
  pub created_at : ℕ
  pub incident_id : ℕ
  pub penalty_window_id : ℕ
  pub decision : ExtensionDecision

pub record RecoveryCreditEntry : Type 0 where
  pub id : ℕ
  pub penalty_window_id : ℕ
  pub credited_hours : Hours
  pub source_completion_id : ℕ
  pub created_at : ℕ

-- The event types of the engine with their payloads, in the order of the payload's keys.
pub data EventPayload : Type 0 where
  penalty_window_started : ℕ → Hours → ℕ → EventPayload
  extension_decision_recorded :
      ℕ → ℕ → ℕ → Bool → ExtensionEligibilityReason → Hours → Bool → EventPayload
  penalty_window_extended : ℕ → Hours → EventPayload
  target_duration_changed : ℕ → Hours → EventPayload
  recovery_credit_recorded : ℕ → ℕ → ℕ → Hours → Bool → EventPayload
  freeze_periods_opened : ℕ → ℕ → FreezeReason → EventPayload
  penalty_window_frozen : ℕ → FreezeReason → EventPayload
  emergency_override_triggered : ℕ → ℕ → EventPayload
  freeze_periods_closed : ℕ → ℕ → FreezeReason → FreezeEndReason → EventPayload
  freeze_expired : ℕ → ℕ → FreezeReason → EventPayload
  penalty_window_resumed : ℕ → EventPayload
  penalty_window_completed : ℕ → ResolutionMethod → EventPayload

pub record DomainEvent : Type 0 where
  pub payload : EventPayload
  pub occurred_at : ℕ

pub record Tables : Type 0 where
  pub penalty_windows : List PenaltyWindow
  pub freeze_periods : List FreezePeriod
  pub incident_consumption : List IncidentConsumption
  pub extension_decisions : List ExtensionDecisionRow
  pub recovery_credit_decisions : List RecoveryCreditDecision
  pub recovery_credit_ledger : List RecoveryCreditEntry
  pub domain_events : List DomainEvent
  -- `uuid4` gives a text that no row has; here the next number.
  pub next_id : ℕ

abbrev pub empty : Tables
empty = record {
  penalty_windows = [];
  freeze_periods = [];
  incident_consumption = [];
  extension_decisions = [];
  recovery_credit_decisions = [];
  recovery_credit_ledger = [];
  domain_events = [];
  next_id = 0;
}

-- The exceptions that the engine's methods let through.
pub data EngineError : Type 0 where
  penalty_window_not_found : ℕ → EngineError
  integrity_error value_error attribute_error : EngineError

abbrev pub Action : Type 0 → Type 0
Action = Tx Tables EngineError

abbrev pub new_id : Action ℕ
new_id t = ok (t.next_id, record t { next_id = suc t.next_id })

-- `write_event`
abbrev pub write_event : ℕ → EventPayload → Action ⊤
write_event now payload = modify λ t. record t {
  domain_events = record { payload = payload; occurred_at = now } ∷ t.domain_events;
}

-- status IN ('active', 'frozen')
abbrev pub is_open : PenaltyWindow → Bool
is_open w = elim w.status [ active ↦ Bool.true | frozen ↦ Bool.true | completed ↦ Bool.false ]

abbrev pub has_id : ℕ → PenaltyWindow → Bool
has_id id w = w.id == id

-- `get_active_or_frozen_penalty_window_in_transaction`
unfoldable pub find_open_window : List PenaltyWindow → Option PenaltyWindow
find_open_window windows = latest (λ w. iso_key w.created_at) (select is_open windows)

-- SELECT * FROM penalty_windows WHERE id = ?
abbrev pub find_window : ℕ → List PenaltyWindow → Option PenaltyWindow
find_window id = find (has_id id)

abbrev pub update_window : ℕ → (PenaltyWindow → PenaltyWindow) → Action ⊤
update_window id f =
    modify λ t. record t { penalty_windows = update_where (has_id id) f t.penalty_windows }

-- ===== src/PenaltyEngine/FreezeSet.antt =====
-- The invariant of penalty_engine/repository.py: a window is frozen exactly while a reason for it is
-- open, and at most one window is not completed.
pub mod Freezing
pub mod Closing
pub mod Expiring
pub mod Completing
pub mod Consuming
pub mod Crediting
pub mod Runs
pub mod Override
use ai_coach_keyholder.Prelude.{
  ⊤, ℕ, ◌≤◌, ◌<◌, ◌≡◌, Bool, true, Option, none, some, List, [], ◌∷◌, arith,
}
use ai_coach_keyholder.Prelude.Lists.{All, count_where}
use ai_coach_keyholder.Prelude.Rows.{Distinct}
use ai_coach_keyholder.PenaltyEngine.Models.{
  PenaltyWindow, PenaltyWindowStatus, active, frozen, completed, FreezePeriod,
  RecoveryCreditDecision,
}
use ai_coach_keyholder.PenaltyEngine.Store.{
  Tables, Action, DomainEvent, IncidentConsumption, ExtensionDecisionRow, RecoveryCreditEntry,
  empty, is_open,
}
use ai_coach_keyholder.PenaltyEngine.Store.Events.{Emits}
use ai_coach_keyholder.Infrastructure.Transaction.Keeps.{Leaves}
use ai_coach_keyholder.PenaltyEngine.Freeze.{is_some, is_open_at}

abbrev pub window_key : PenaltyWindow → ℕ
window_key w = w.id

abbrev pub freeze_key : FreezePeriod → ℕ
freeze_key f = f.id

abbrev pub open_freezes : ℕ → List FreezePeriod → ℕ
open_freezes window_id fs = count_where (is_open_at window_id) fs

-- What a status says of the number of open reasons and of the running countdown.
abbrev pub StatusAgrees : PenaltyWindowStatus → ℕ → Option ℕ → Type 0
StatusAgrees active n started = (n ≡ 0) × (is_some started ≡ true)
StatusAgrees frozen n started = (0 < n) × (started ≡ none)
StatusAgrees completed n started = (n ≡ 0) × (0 ≤ n)

abbrev pub Agrees : List FreezePeriod → PenaltyWindow → Type 0
Agrees fs w = StatusAgrees w.status (open_freezes w.id fs) w.active_period_started_at

abbrev pub IsBelow : ℕ → FreezePeriod → Type 0
IsBelow n f = (f.id < n) × (f.penalty_window_id < n)

pub record IsFreezeSet (t : Tables) : Type 0 where
  pub window_ids : Distinct window_key t.penalty_windows
  pub windows_fresh : All (λ w. w.id < t.next_id) t.penalty_windows
  pub freeze_ids : Distinct freeze_key t.freeze_periods
  pub freezes_fresh : All (IsBelow t.next_id) t.freeze_periods
  pub one_open : count_where is_open t.penalty_windows ≤ 1
  pub agrees : All (Agrees t.freeze_periods) t.penalty_windows

pub empty-IsFreezeSet : IsFreezeSet empty
empty-IsFreezeSet = record {
  window_ids = tt;
  windows_fresh = tt;
  freeze_ids = tt;
  freezes_fresh = tt;
  one_open = omega arith;
  agrees = tt;
}

-- The other tables are no part of the invariant.
pub frame-IsFreezeSet :
    (t : Tables) (cs : List IncidentConsumption) (ds : List ExtensionDecisionRow)
    (rs : List RecoveryCreditDecision) (ls : List RecoveryCreditEntry) (es : List DomainEvent)
    → IsFreezeSet t
    → IsFreezeSet (record t {
      incident_consumption = cs;
      extension_decisions = ds;
      recovery_credit_decisions = rs;
      recovery_credit_ledger = ls;
      domain_events = es;
    })
frame-IsFreezeSet t cs ds rs ls es inv = record {
  window_ids = inv.window_ids;
  windows_fresh = inv.windows_fresh;
  freeze_ids = inv.freeze_ids;
  freezes_fresh = inv.freezes_fresh;
  one_open = inv.one_open;
  agrees = inv.agrees;
}

pub Emits-IsFreezeSet :
    (m : Action ⊤) (t : Tables) → Emits m → IsFreezeSet t → Leaves IsFreezeSet (m t)
Emits-IsFreezeSet m t emits inv =
    let (es, e) = emits t in
    rw e (
      frame-IsFreezeSet t t.incident_consumption t.extension_decisions t.recovery_credit_decisions
        t.recovery_credit_ledger es inv)

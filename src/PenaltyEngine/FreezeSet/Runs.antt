-- ===== src/PenaltyEngine/FreezeSet/Runs.antt =====
-- Any sequence of the engine's operations, in which no completed window is frozen.
use ai_coach_keyholder.Prelude.{ℕ, ◌≤◌, ◌<◌, ◌≡◌, ◌≢◌, ◌↔◌, Bool, some, arith}
use ai_coach_keyholder.Prelude.Lists.{count_where}
use ai_coach_keyholder.Prelude.Rows.{All-find}
use ai_coach_keyholder.PenaltyEngine.Models.{
  Hours, PenaltyWindow, frozen, completed, FreezeReason, SeverityTier, CooperationAssessment,
}
use ai_coach_keyholder.PenaltyEngine.Store.{Tables, empty, has_id, is_open, find_window}
use ai_coach_keyholder.PenaltyEngine.Freeze.{FreezeRequest, freeze_in_transaction, resume}
use ai_coach_keyholder.PenaltyEngine.Consume.{consume_confirmed_incident}
use ai_coach_keyholder.PenaltyEngine.Credit.{RecoveryReads, record_recovery_credit}
use ai_coach_keyholder.PenaltyEngine.Reconcile.{ensure_current_state}
use ai_coach_keyholder.PenaltyEngine.FreezeSet.{
  Agrees, open_freezes, IsFreezeSet, empty-IsFreezeSet,
}
use ai_coach_keyholder.PenaltyEngine.FreezeSet.Freezing.{freeze_in_transaction-IsFreezeSet}
use ai_coach_keyholder.PenaltyEngine.FreezeSet.Closing.{resume-IsFreezeSet}
use ai_coach_keyholder.PenaltyEngine.FreezeSet.Completing.{ensure_current_state-IsFreezeSet}
use ai_coach_keyholder.PenaltyEngine.FreezeSet.Consuming.{consume_confirmed_incident-IsFreezeSet}
use ai_coach_keyholder.PenaltyEngine.FreezeSet.Crediting.{record_recovery_credit-IsFreezeSet}

-- One call of a public method that writes, whether it returns or raises.
pub data Step : Tables → Tables → Type 0 where
  consumes :
      (t : Tables) (incident_id trust_domain rule_group_id : ℕ) (severity : SeverityTier)
      (c : CooperationAssessment) (now : ℕ) (base : Hours)
      → Step t
          (consume_confirmed_incident incident_id trust_domain rule_group_id severity c now base
            t).1
  freezes :
      (t : Tables) (window_id now : ℕ) (r : FreezeRequest) (emergency : Bool)
      → ((w : PenaltyWindow)
          → find_window window_id t.penalty_windows ≡ some w
          → w.status ≢ completed)
      → Step t (freeze_in_transaction window_id now r emergency t).1
  resumes :
      (t : Tables) (window_id : ℕ) (reason : FreezeReason) (now : ℕ)
      → Step t (resume window_id reason now t).1
  credits :
      (t : Tables) (reads : RecoveryReads) (completion_id now : ℕ)
      → Step t (record_recovery_credit reads completion_id now t).1
  reconciles : (t : Tables) (now : ℕ) → Step t (ensure_current_state now t).1

pub data Reach (s : Tables) : Tables → Type 0 where
  here : Reach s s
  next : {t u : Tables} → Reach s t → Step t u → Reach s u

Step-IsFreezeSet : {t u : Tables} → Step t u → IsFreezeSet t → IsFreezeSet u
Step-IsFreezeSet (consumes t i d g s c now base) inv =
    consume_confirmed_incident-IsFreezeSet t i d g s c now base inv
Step-IsFreezeSet (freezes t w now r e h) inv = freeze_in_transaction-IsFreezeSet t w now r e inv h
Step-IsFreezeSet (resumes t w reason now) inv = resume-IsFreezeSet t w reason now inv
Step-IsFreezeSet (credits t reads c now) inv = record_recovery_credit-IsFreezeSet t reads c now inv
Step-IsFreezeSet (reconciles t now) inv = ensure_current_state-IsFreezeSet t now inv

pub Reach-IsFreezeSet : {t : Tables} → Reach empty t → IsFreezeSet t
Reach-IsFreezeSet here = empty-IsFreezeSet
Reach-IsFreezeSet (next r s) = Step-IsFreezeSet s (Reach-IsFreezeSet r)

frozen_iff :
    (t : Tables) (w : PenaltyWindow)
    → Agrees t.freeze_periods w
    → (w.status ≡ frozen) ↔ (0 < open_freezes w.id t.freeze_periods)
frozen_iff t w a = ground arith

-- In every state that the operations reach from empty tables, where no freeze was asked for a
-- completed window: at most one window is not completed, and a window is frozen exactly while at
-- least one reason to freeze it is open.
pub frozen_iff_open_reason :
    {t : Tables} (id : ℕ) (w : PenaltyWindow)
    → Reach empty t
    → find_window id t.penalty_windows ≡ some w
    → (count_where is_open t.penalty_windows ≤ 1)
      × ((w.status ≡ frozen) ↔ (0 < open_freezes w.id t.freeze_periods))
frozen_iff_open_reason {t} id w r found =
    let inv = Reach-IsFreezeSet r in
    (
      inv.one_open,
      frozen_iff t w
          (All-find (Agrees t.freeze_periods) (has_id id) t.penalty_windows w inv.agrees found).0,
    )

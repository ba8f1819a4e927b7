-- ===== src/PenaltyEngine/FreezeSet/Crediting.antt =====
-- The credit of a completed recovery task keeps the invariant.
use ai_coach_keyholder.Prelude.{ℕ, suc, refl, ◌∷◌, Bool-cases, inl, inr}
use ai_coach_keyholder.Prelude.Int.{pos, ltb_ℤ}
use ai_coach_keyholder.Prelude.Lists.{exists}
use ai_coach_keyholder.Infrastructure.Transaction.Keeps.{Leaves, Leaves-bind}
use ai_coach_keyholder.PenaltyEngine.Models.{Hours, PenaltyWindow, RecoveryCreditDecision}
use ai_coach_keyholder.PenaltyEngine.Store.{Tables, RecoveryCreditEntry, has_id}
use ai_coach_keyholder.PenaltyEngine.Credit.{
  is_credit_of, credit_for, add_credit, book_credit, credit_window, RecoveryReads,
  record_recovery_credit,
}
use ai_coach_keyholder.PenaltyEngine.Credit.Keeps.{record_recovery_credit_keeps}
use ai_coach_keyholder.PenaltyEngine.FreezeSet.{IsFreezeSet, frame-IsFreezeSet}
use ai_coach_keyholder.PenaltyEngine.FreezeSet.Consuming.{
  next_id-IsFreezeSet, same_state-IsFreezeSet,
}

-- The state behind the insertion of a ledger row, which takes a new id.
entered : Tables → RecoveryCreditEntry → Tables
entered t row = record t {
  recovery_credit_ledger = row ∷ t.recovery_credit_ledger;
  next_id = suc t.next_id;
}

entered-IsFreezeSet :
    (t : Tables) (row : RecoveryCreditEntry) → IsFreezeSet t → IsFreezeSet (entered t row)
unfolding entered
entered-IsFreezeSet t row inv =
    frame-IsFreezeSet (record t { next_id = suc t.next_id }) t.incident_consumption
      t.extension_decisions t.recovery_credit_decisions (row ∷ t.recovery_credit_ledger)
      t.domain_events (next_id-IsFreezeSet t inv)

book_credit-IsFreezeSet :
    (t : Tables) (now completion_id window_id : ℕ) (credited : Hours)
    → IsFreezeSet t
    → Leaves IsFreezeSet (book_credit now completion_id window_id credited t)
unfolding book_credit entered
book_credit-IsFreezeSet t now completion_id window_id credited inv =
    let row : RecoveryCreditEntry = record {
      id = t.next_id;
      penalty_window_id = window_id;
      credited_hours = credited;
      source_completion_id = completion_id;
      created_at = now;
    } in
    elim (Bool-cases (exists (is_credit_of completion_id) t.recovery_credit_ledger)) [
      | inl clash ↦ rw clash tt
      | inr free ↦ rw free (
          same_state-IsFreezeSet (entered t row) (entered-IsFreezeSet t row inv) (has_id window_id)
            (add_credit credited) (λ w. refl) (λ w. refl) (λ w a. a))
    ]

decided : Tables → RecoveryCreditDecision → Tables
decided t row = record t {
  recovery_credit_decisions = row ∷ t.recovery_credit_decisions;
  next_id = suc t.next_id;
}

decided-IsFreezeSet :
    (t : Tables) (row : RecoveryCreditDecision) → IsFreezeSet t → IsFreezeSet (decided t row)
unfolding decided
decided-IsFreezeSet t row inv =
    frame-IsFreezeSet (record t { next_id = suc t.next_id }) t.incident_consumption
      t.extension_decisions (row ∷ t.recovery_credit_decisions) t.recovery_credit_ledger
      t.domain_events (next_id-IsFreezeSet t inv)

credit_window-IsFreezeSet :
    (t : Tables) (window : PenaltyWindow) (completion_id window_id : ℕ) (hours : Hours) (now : ℕ)
    → IsFreezeSet t
    → Leaves IsFreezeSet (credit_window window completion_id window_id hours now t)
unfolding credit_window decided
credit_window-IsFreezeSet t window completion_id window_id hours now inv =
    let credited = credit_for window hours in
    let row : RecoveryCreditDecision = record {
      id = t.next_id;
      created_at = now;
      completion_id = completion_id;
      penalty_window_id = window_id;
      proposed_hours = hours;
      credited_hours = credited;
      capacity_limited = ltb_ℤ credited hours;
    } in
    elim (Bool-cases (ltb_ℤ (pos 0) credited)) [
      | inl credits ↦ rw credits (
          Leaves-bind IsFreezeSet (book_credit now completion_id window_id credited) _
            (decided t row)
            (book_credit-IsFreezeSet (decided t row) now completion_id window_id credited
              (decided-IsFreezeSet t row inv))
            (λ _ _ h. h))
      | inr credits_nothing ↦ rw credits_nothing (decided-IsFreezeSet t row inv)
    ]

-- Recording the credit of a completion keeps the invariant, on each of its error paths too.
pub record_recovery_credit-IsFreezeSet :
    (t : Tables) (reads : RecoveryReads) (completion_id now : ℕ)
    → IsFreezeSet t
    → IsFreezeSet (record_recovery_credit reads completion_id now t).1
record_recovery_credit-IsFreezeSet =
    record_recovery_credit_keeps IsFreezeSet
      (λ t es h.
        frame-IsFreezeSet t t.incident_consumption t.extension_decisions t.recovery_credit_decisions
          t.recovery_credit_ledger es h)
      (λ t w completion_id window_id hours now found h.
        credit_window-IsFreezeSet t w completion_id window_id hours now h)

-- ===== src/PenaltyEngine/Credit/Balance.antt =====
-- penalty_engine/repository.py: a window's recovery credit is the sum of its ledger rows, and at most
-- half of its target.
use ai_coach_keyholder.Prelude.{
  ℕ, ◌≡◌, refl, sym, subst, true, List, [], ◌∷◌, some, arith, ◌==◌, ==_iff, ==_self, Bool-cases,
  inl, inr, if◌then◌else◌,
}
use ai_coach_keyholder.Prelude.Int.{pos, ◌≤ℤ◌, ◌+ℤ◌, min_ℤ, max_ℤ, half, ltb_ℤ, int_laws}
use ai_coach_keyholder.Prelude.Lists.{All, exists, update_where}
use ai_coach_keyholder.Prelude.Rows.{
  All-both, All-update_where, Distinct, Distinct-update_where, found_rows,
}
use ai_coach_keyholder.Infrastructure.Transaction.Keeps.{Leaves, Leaves-bind}
use ai_coach_keyholder.PenaltyEngine.Models.{Hours, PenaltyWindow, RecoveryCreditDecision}
use ai_coach_keyholder.PenaltyEngine.Window.{target_active_hours}
use ai_coach_keyholder.PenaltyEngine.Store.{Tables, RecoveryCreditEntry, has_id, find_window}
use ai_coach_keyholder.PenaltyEngine.Credit.{
  is_credit_of, remaining_credit, credit_for, add_credit, book_credit, credit_window, RecoveryReads,
  record_recovery_credit,
}
use ai_coach_keyholder.PenaltyEngine.Credit.Keeps.{record_recovery_credit_keeps}
use ai_coach_keyholder.PenaltyEngine.FreezeSet.{window_key}

-- SUM(credited_hours) of a window
abbrev pub ledger_sum : ℕ → List RecoveryCreditEntry → Hours
ledger_sum window_id [] = pos 0
ledger_sum window_id (e ∷ es) =
    let rest = ledger_sum window_id es in
    if e.penalty_window_id == window_id then rest +ℤ e.credited_hours else rest

abbrev pub IsCredited : List RecoveryCreditEntry → PenaltyWindow → Type 0
IsCredited ledger w =
    (w.recovery_credits_earned_hours ≡ ledger_sum w.id ledger)
    × (w.recovery_credits_earned_hours ≤ℤ half (target_active_hours w))

abbrev pub IsBalanced : Tables → Type 0
IsBalanced t =
    Distinct window_key t.penalty_windows
    × All (IsCredited t.recovery_credit_ledger) t.penalty_windows

-- A positive credit leaves the window within its half.
credited_within :
    (w : PenaltyWindow) (hours : Hours)
    → ltb_ℤ (pos 0) (credit_for w hours) ≡ true
    → w.recovery_credits_earned_hours +ℤ credit_for w hours ≤ℤ half (target_active_hours w)
unfolding credit_for remaining_credit min_ℤ max_ℤ
credited_within w hours h = grind int_laws

module _ (t : Tables) (window : PenaltyWindow) (completion_id window_id : ℕ) (hours : Hours)
    (now : ℕ) (found : find_window window_id t.penalty_windows ≡ some window)
    (inv : IsBalanced t) where
  entered :
      (e : RecoveryCreditEntry)
      → e.penalty_window_id ≡ window_id
      → e.credited_hours ≡ credit_for window hours
      → ltb_ℤ (pos 0) (credit_for window hours) ≡ true
      → window.id ≡ window_id
      → IsCredited t.recovery_credit_ledger window
      → IsCredited (e ∷ t.recovery_credit_ledger) (add_credit (credit_for window hours) window)
  unfolding target_active_hours
  entered e same credit positive id earned = (
    rw (same, id, ==_self window_id, credit, sym id, earned.0) refl,
    unfold target_active_hours in credited_within window hours positive,
  )

  booked :
      (e : RecoveryCreditEntry)
      → e.penalty_window_id ≡ window_id
      → e.credited_hours ≡ credit_for window hours
      → ltb_ℤ (pos 0) (credit_for window hours) ≡ true
      → All
          (IsCredited (e ∷ t.recovery_credit_ledger))
          (update_where (has_id window_id) (add_credit (credit_for window hours)) t.penalty_windows)
  unfolding target_active_hours
  booked e same credit positive =
      All-update_where
        {P = λ v. IsCredited t.recovery_credit_ledger v × (has_id window_id v ≡ true → v ≡ window)}
        {Q = IsCredited (e ∷ t.recovery_credit_ledger)} (has_id window_id)
        (add_credit (credit_for window hours)) t.penalty_windows
        (λ v p hit.
          subst
            (λ u.
              IsCredited (e ∷ t.recovery_credit_ledger) (add_credit (credit_for window hours) u))
            (sym (p.1 hit))
            (entered e same credit positive
              (subst (λ u. u.id ≡ window_id) (p.1 hit) ((==_iff v.id window_id).0 hit))
              (subst (IsCredited t.recovery_credit_ledger) (p.1 hit) p.0)))
        (λ v p miss. (ground (arith, same, miss, p.0), p.0.1))
        (All-both {P = IsCredited t.recovery_credit_ledger} t.penalty_windows (λ v a b. (a, b))
          inv.1 (found_rows window_key window_id window t.penalty_windows inv.0 found))

  book_credit-IsBalanced :
      (rows : List RecoveryCreditDecision) (n : ℕ)
      → ltb_ℤ (pos 0) (credit_for window hours) ≡ true
      → Leaves IsBalanced (
          book_credit now completion_id window_id
            (credit_for window hours)
            (record t { recovery_credit_decisions = rows; next_id = n }))
  unfolding book_credit
  book_credit-IsBalanced rows n positive =
      elim (Bool-cases (exists (is_credit_of completion_id) t.recovery_credit_ledger)) [
        | inl clash ↦ rw clash tt
        | inr free ↦ rw free (
          Distinct-update_where window_key (has_id window_id) (add_credit (credit_for window hours))
              t.penalty_windows (λ w. refl) inv.0,
          booked
              (record {
                id = n;
                penalty_window_id = window_id;
                credited_hours = credit_for window hours;
                source_completion_id = completion_id;
                created_at = now;
              })
              refl refl positive,
        )
      ]

  credit_window-IsBalanced :
      Leaves IsBalanced (credit_window window completion_id window_id hours now t)
  unfolding credit_window
  credit_window-IsBalanced = elim (Bool-cases (ltb_ℤ (pos 0) (credit_for window hours))) [
    | inr none_credited ↦ rw none_credited inv
    | inl positive ↦ rw positive (
        Leaves-bind IsBalanced (book_credit now completion_id window_id (credit_for window hours)) _
          _ (book_credit-IsBalanced _ _ positive) (λ _ _ h. h))
  ]

-- Where the windows have distinct ids and each window's earned credit is the sum of its ledger rows
-- and at most half of its target, so it is behind the credit of any completion, whatever the plan
-- proposed, and whether the call returns or raises.
pub record_recovery_credit-IsBalanced :
    (t : Tables) (reads : RecoveryReads) (completion_id now : ℕ)
    → IsBalanced t
    → IsBalanced (record_recovery_credit reads completion_id now t).1
record_recovery_credit-IsBalanced =
    record_recovery_credit_keeps IsBalanced (λ t es h. h)
      (λ t w completion_id window_id hours now found h.
        credit_window-IsBalanced t w completion_id window_id hours now found h)

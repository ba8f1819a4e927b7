-- ===== src/TrustManager/Domains/Scores.antt =====
-- trust_manager/repository.py: a recalculation keeps every score between 0 and 1, and changes neither
-- evidence nor incidents.
use ai_coach_keyholder.Prelude.{ℕ, ◌≡◌, refl, List, [], ◌∷◌, Bool-cases, Option-cases, inl, inr}
use ai_coach_keyholder.Prelude.Int.{ℤ, pos, ◌≤ℤ◌}
use ai_coach_keyholder.Prelude.Lists.{All, exists}
use ai_coach_keyholder.Prelude.Rows.{All-find, All-update_where}
use ai_coach_keyholder.Infrastructure.Transaction.Keeps.{Leaves, Leaves-bind}
use ai_coach_keyholder.TrustManager.Recalculation.{one}
use ai_coach_keyholder.TrustManager.Recalculation.Bounds.{apply_recalculation_bounds}
use ai_coach_keyholder.TrustManager.Store.{TrustDomainState, TrustEvidence, TrustTables}
use ai_coach_keyholder.TrustManager.Domains.{
  is_state_of, get_domain_state, applies, select_unconsumed_evidence, sum_weights, apply_each,
  recalculate_state, recalculate_in_transaction,
}

abbrev pub IsUnitScore : TrustDomainState → Type 0
IsUnitScore s = (pos 0 ≤ℤ s.score) × (s.score ≤ℤ one)

-- The evidence and the incidents are those of other tables.
abbrev pub SameFacts : TrustTables → TrustTables → Type 0
SameFacts t s = (s.trust_evidence ≡ t.trust_evidence) × (s.incidents ≡ t.incidents)

abbrev pub HasUnitScores : TrustTables → TrustTables → Type 0
HasUnitScores t s = SameFacts t s × All IsUnitScore s.trust_domain_state

apply_each-HasUnitScores :
    (t : TrustTables) (id now : ℕ) (es : List TrustEvidence) (s : TrustTables)
    → HasUnitScores t s
    → Leaves (HasUnitScores t) (apply_each id now es s)
unfolding apply_each
apply_each-HasUnitScores t id now [] s h = h
apply_each-HasUnitScores t id now (e ∷ es) s h =
    elim (Bool-cases (exists (applies e.id) s.trust_recalculation_evidence)) [
      | inl clash ↦ rw (clash, apply_each) tt
      | inr free ↦ rw (free, apply_each) (apply_each-HasUnitScores t id now es _ h)
    ]

module _ (compute_confidence : ℕ → ℤ) (domain_id triggered_by now : ℕ) (t : TrustTables) where
  recalculate_state-HasUnitScores :
      (state : TrustDomainState)
      → IsUnitScore state
      → All IsUnitScore t.trust_domain_state
      → Leaves (HasUnitScores t) (recalculate_state compute_confidence state triggered_by now t)
  unfolding recalculate_state
  recalculate_state-HasUnitScores state unit units =
      Leaves-bind (HasUnitScores t)
        (apply_each t.next_id now (select_unconsumed_evidence state.domain_id t)) _ _
        (apply_each-HasUnitScores t t.next_id now (select_unconsumed_evidence state.domain_id t) _
          ((refl, refl), units))
        (λ _ s h. (
          h.0,
          All-update_where {P = IsUnitScore} {Q = IsUnitScore} (is_state_of state.domain_id) _
              s.trust_domain_state
              (λ x u hit.
                let b =
                  apply_recalculation_bounds state.score
                    (sum_weights (select_unconsumed_evidence state.domain_id t)) unit.0 unit.1 in
                (b.0, b.1))
              (λ x u miss. u) h.1,
        ))

  pub recalculate_in_transaction-HasUnitScores :
      All IsUnitScore t.trust_domain_state
      → Leaves
          (HasUnitScores t)
          (recalculate_in_transaction compute_confidence domain_id triggered_by now t)
  unfolding recalculate_in_transaction
  recalculate_in_transaction-HasUnitScores units =
      elim (Option-cases (get_domain_state domain_id t)) [
        | inl missing ↦ rw (missing, recalculate_in_transaction) tt
        | inr (state, found) ↦
            rw (found, recalculate_in_transaction)
              (recalculate_state-HasUnitScores state
                (All-find IsUnitScore (is_state_of domain_id) t.trust_domain_state state units
                  (unfold get_domain_state in found)).0
                units)
      ]

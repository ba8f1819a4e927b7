-- ===== src/TrustManager/Domains/Once.antt =====
-- trust_manager/repository.py: a recalculation leaves no evidence of its domain to be used again.
use ai_coach_keyholder.Prelude.{
  ℕ, ◌≡◌, refl, subst, true, List, [], ◌∷◌, ok, arith, ◌==◌, ◌&&◌, not, ⊤, ==_iff, ==_self,
  Bool-cases, Option-cases, inl, inr,
}
use ai_coach_keyholder.Prelude.Int.{ℤ}
use ai_coach_keyholder.Prelude.Lists.{All, exists, find}
use ai_coach_keyholder.Prelude.Rows.{
  All-map, All-find, All-all, All-of_select, All-of_order_by, select_none,
}
use ai_coach_keyholder.Infrastructure.TimeFormat.{iso_key}
use ai_coach_keyholder.Infrastructure.Transaction.Keeps.{
  Leaves, Leaves-bind, Leaves-map, write_and_events_returned,
}
use ai_coach_keyholder.TrustManager.Store.{
  TrustDomainState, TrustEvidence, TrustTables, TrustRecalculation, emit, domain_recalculated,
}
use ai_coach_keyholder.TrustManager.Domains.{
  weight_of, is_state_of, get_domain_state, applies, is_consumed, select_unconsumed_evidence,
  apply_each, recalculate_state, recalculate_in_transaction, recalculate_domain_trust,
}

-- Behind the loop the evidence is the same, what was consumed is consumed, and so are the given rows.
abbrev Consumes : TrustTables → List TrustEvidence → TrustTables → Type 0
Consumes s es s' =
    (s'.trust_evidence ≡ s.trust_evidence)
    × ((e : TrustEvidence)
        → is_consumed s.trust_recalculation_evidence e ≡ true
        → is_consumed s'.trust_recalculation_evidence e ≡ true)
    × All (λ e. is_consumed s'.trust_recalculation_evidence e ≡ true) es

abbrev applied : TrustTables → ℕ → ℕ → TrustEvidence → TrustTables
applied s id now e = record s {
  trust_recalculation_evidence =
      record {
        recalculation_id = id;
        evidence_id = e.id;
        effective_weight = weight_of e;
        created_at = now;
      }
      ∷ s.trust_recalculation_evidence;
}

apply_each-Consumes :
    (id now : ℕ) (es : List TrustEvidence) (s : TrustTables)
    → Leaves (Consumes s es) (apply_each id now es s)
unfolding apply_each
apply_each-Consumes id now [] s = (refl, (λ e h. h), tt)
apply_each-Consumes id now (e ∷ es) s =
    elim (Bool-cases (exists (applies e.id) s.trust_recalculation_evidence)) [
      | inl clash ↦ rw (clash, apply_each) tt
      | inr free ↦
          rw (free, apply_each)
            (Leaves-map (Consumes (applied s id now e) es) (Consumes s (e ∷ es))
              (apply_each id now es (applied s id now e))
              (λ s' h. (
                h.0,
                (λ x was. h.1 x (ground (arith, was))),
                (h.1 e (ground (arith, ==_self e.id)), h.2),
              ))
              (apply_each-Consumes id now es (applied s id now e)))
    ]

-- No evidence of a domain is left to be consumed.
abbrev IsUsedUp : ℕ → TrustTables → Type 0
IsUsedUp domain_id t = select_unconsumed_evidence domain_id t ≡ []

Consumes-IsUsedUp :
    (domain_id : ℕ) (s s' : TrustTables)
    → Consumes s (select_unconsumed_evidence domain_id s) s'
    → IsUsedUp domain_id s'
unfolding select_unconsumed_evidence
Consumes-IsUsedUp domain_id s s' h =
    rw
      (
        h.0,
        select_none
            (λ e. e.domain_id == domain_id && not (is_consumed s'.trust_recalculation_evidence e))
            s.trust_evidence
            (All-map s.trust_evidence (λ e hit. ground (arith, hit, h.1 e))
              (All-of_select (λ e. is_consumed s'.trust_recalculation_evidence e ≡ true)
                (λ e.
                  e.domain_id == domain_id && not (is_consumed s.trust_recalculation_evidence e))
                s.trust_evidence
                (All-of_order_by (λ e. is_consumed s'.trust_recalculation_evidence e ≡ true)
                  (λ e. iso_key e.created_at) _ h.2))),
      )
      refl

module _ (compute_confidence : ℕ → ℤ) where
  recalculate_state-IsUsedUp :
      (state : TrustDomainState) (triggered_by now : ℕ) (t : TrustTables)
      → Leaves
          (IsUsedUp state.domain_id)
          (recalculate_state compute_confidence state triggered_by now t)
  unfolding recalculate_state
  recalculate_state-IsUsedUp state triggered_by now t =
      Leaves-bind (IsUsedUp state.domain_id)
        (apply_each t.next_id now (select_unconsumed_evidence state.domain_id t)) _ _
        (Leaves-map (Consumes t (select_unconsumed_evidence state.domain_id t))
          (IsUsedUp state.domain_id)
          (apply_each t.next_id now (select_unconsumed_evidence state.domain_id t) _)
          (λ s' h. Consumes-IsUsedUp state.domain_id t s' h)
          (apply_each-Consumes t.next_id now (select_unconsumed_evidence state.domain_id t) _))
        (λ _ s' h. unfold select_unconsumed_evidence in h)

  recalculate_in_transaction-IsUsedUp :
      (domain_id triggered_by now : ℕ) (t : TrustTables)
      → Leaves
          (IsUsedUp domain_id)
          (recalculate_in_transaction compute_confidence domain_id triggered_by now t)
  unfolding recalculate_in_transaction get_domain_state
  recalculate_in_transaction-IsUsedUp domain_id triggered_by now t =
      elim (Option-cases (find (is_state_of domain_id) t.trust_domain_state)) [
        | inl missing ↦ rw (missing, recalculate_in_transaction, get_domain_state) tt
        | inr (state, found) ↦
            rw (found, recalculate_in_transaction, get_domain_state)
              (subst
                (λ id.
                  Leaves (IsUsedUp id)
                    (recalculate_state compute_confidence state triggered_by now t))
                ((==_iff state.domain_id domain_id).0
                  (All-find (λ _. ⊤) (is_state_of domain_id) t.trust_domain_state state
                    (All-all t.trust_domain_state (λ _. tt)) found).1)
                (recalculate_state-IsUsedUp state triggered_by now t))
      ]

  -- Behind a recalculation that returned, no evidence of its domain is left for a later one: each
  -- piece of evidence moves the score once.
  pub recalculate_domain_trust-IsUsedUp :
      (domain_id triggered_by now : ℕ) (t : TrustTables) (r : TrustRecalculation)
      → (recalculate_domain_trust compute_confidence domain_id triggered_by now t).0 ≡ ok r
      → select_unconsumed_evidence domain_id
          (recalculate_domain_trust compute_confidence domain_id triggered_by now t).1
        ≡ []
  unfolding recalculate_domain_trust
  recalculate_domain_trust-IsUsedUp domain_id triggered_by now t r returned =
      write_and_events_returned (IsUsedUp domain_id)
        (recalculate_in_transaction compute_confidence domain_id triggered_by now)
        (λ r. emit now (domain_recalculated r)) t
        (recalculate_in_transaction-IsUsedUp domain_id triggered_by now t)
        (λ _ s h. unfold select_unconsumed_evidence in h) returned

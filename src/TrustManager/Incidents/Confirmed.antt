-- ===== src/TrustManager/Incidents/Confirmed.antt =====
-- trust_manager/repository.py: the confirmation of an incident has its effect on trust once.
use ai_coach_keyholder.Prelude.{
  ℕ, ◌≡◌, refl, sym, subst, ⊤, Bool, true, ok, err, arith, ==_self, ==_iff, Bool-cases,
  Option-cases, inl, inr,
}
use ai_coach_keyholder.Prelude.Int.{ℤ}
use ai_coach_keyholder.Prelude.Lists.{All, exists, find}
use ai_coach_keyholder.Prelude.Rows.{All-find, All-all}
use ai_coach_keyholder.Infrastructure.Transaction.{◌>>=◌, write_and_events}
use ai_coach_keyholder.Infrastructure.Transaction.Keeps.{
  Leaves, Leaves-bind, Leaves-map, write_and_events_keeps, write_and_events_returned, then_do_keeps,
}
use ai_coach_keyholder.Infrastructure.Transaction.Returns.{
  bind_err, then_do_err, then_do_returned, write_and_events_err,
}
use ai_coach_keyholder.PenaltyEngine.Models.{CooperationAssessment}
use ai_coach_keyholder.TrustManager.Store.{
  IncidentAssessment, Incident, TrustTables, TrustError, incident_not_found, constraint_failed,
}
use ai_coach_keyholder.TrustManager.Domains.{recalculate_in_transaction}
use ai_coach_keyholder.TrustManager.Domains.Scores.{
  IsUnitScore, HasUnitScores, recalculate_in_transaction-HasUnitScores,
}
use ai_coach_keyholder.TrustManager.Incidents.{
  has_incident_id, is_impact_of, incident_trigger, insert_trust_evidence, update_assessment,
  is_confirmed, assess, Confirmation, confirmed_write, confirm_write, load_incident,
  confirm_in_transaction, confirm_events, confirm_incident,
}

-- The scores are between 0 and 1, and where a test holds there is evidence of an incident's impact.
abbrev HasUnits : TrustTables → Type 0
HasUnits s = All IsUnitScore s.trust_domain_state

abbrev Holds : Bool → ℕ → TrustTables → Type 0
Holds test incident_id s =
    All IsUnitScore s.trust_domain_state
    × (test ≡ true → exists (is_impact_of incident_id) s.trust_evidence ≡ true)

insert_trust_evidence-Holds :
    (incident : Incident) (assessment : IncidentAssessment) (now : ℕ) (s : TrustTables)
    → All IsUnitScore s.trust_domain_state
    → Leaves (Holds true incident.id) (insert_trust_evidence incident assessment now s)
unfolding insert_trust_evidence
insert_trust_evidence-Holds incident assessment now s units =
    elim (Bool-cases (exists (is_impact_of incident.id) s.trust_evidence)) [
      | inl clash ↦ rw (clash, insert_trust_evidence) tt
      | inr free ↦ rw (free, insert_trust_evidence) (units, λ _. rw (==_self incident.id) refl)
    ]

module _ (compute_confidence : ℕ → ℤ) where
  recalculate_in_transaction-Holds :
      (test : Bool) (incident_id domain_id triggered_by now : ℕ) (s : TrustTables)
      → Holds test incident_id s
      → Leaves
          (Holds test incident_id)
          (recalculate_in_transaction compute_confidence domain_id triggered_by now s)
  recalculate_in_transaction-Holds test incident_id domain_id triggered_by now s h =
      Leaves-map (HasUnitScores s) (Holds test incident_id)
        (recalculate_in_transaction compute_confidence domain_id triggered_by now s)
        (λ s' u. (u.1, λ hit. rw u.0.0 (h.1 hit)))
        (recalculate_in_transaction-HasUnitScores compute_confidence domain_id triggered_by now s
          h.0)

  confirmed_write-Holds :
      (incident : Incident) (cooperation : CooperationAssessment) (now : ℕ) (s : TrustTables)
      → All IsUnitScore s.trust_domain_state
      → Leaves
          (Holds true incident.id)
          (confirmed_write compute_confidence incident cooperation now s)
  unfolding confirmed_write update_assessment
  confirmed_write-Holds incident cooperation now s units =
      Leaves-bind (Holds true incident.id)
        (insert_trust_evidence incident (assess incident cooperation) now) _ _
        (insert_trust_evidence-Holds incident (assess incident cooperation) now _ units)
        (λ row s' h.
          Leaves-bind (Holds true incident.id)
            (recalculate_in_transaction compute_confidence incident.trust_domain incident_trigger
              now)
            _ _
            (recalculate_in_transaction-Holds true incident.id incident.trust_domain
              incident_trigger now _ h)
            (λ _ s'' k. k))

  confirm_write-Holds :
      (incident : Incident) (c : Confirmation) (now : ℕ) (s : TrustTables)
      → All IsUnitScore s.trust_domain_state
      → Leaves
          (Holds (is_confirmed c.new_confirmation) incident.id)
          (confirm_write compute_confidence incident c now s)
  unfolding confirm_write
  confirm_write-Holds incident c now s units = elim (Bool-cases (is_confirmed c.new_confirmation)) [
    | inl reached ↦
        rw (reached, confirm_write)
          (Leaves-bind (Holds true incident.id)
            (confirmed_write compute_confidence incident c.cooperation now) _ _
            (confirmed_write-Holds incident c.cooperation now _ units) (λ _ s' h. h))
    | inr short ↦ rw (short, confirm_write) (units, λ impossible. cc)
  ]

  confirm_in_transaction-Holds :
      (incident_id : ℕ) (c : Confirmation) (now : ℕ) (s : TrustTables)
      → All IsUnitScore s.trust_domain_state
      → Leaves
          (Holds (is_confirmed c.new_confirmation) incident_id)
          (confirm_in_transaction compute_confidence incident_id c now s)
  unfolding confirm_in_transaction load_incident
  confirm_in_transaction-Holds incident_id c now s units =
      elim (Option-cases (find (has_incident_id incident_id) s.incidents)) [
        | inl missing ↦ rw (missing, load_incident, ◌>>=◌) tt
        | inr (incident, found) ↦
            rw (found, load_incident, ◌>>=◌)
              (Leaves-bind (Holds (is_confirmed c.new_confirmation) incident_id)
                (confirm_write compute_confidence incident c now) _ _
                (subst
                  (λ id.
                    Leaves (Holds (is_confirmed c.new_confirmation) id)
                      (confirm_write compute_confidence incident c now s))
                  ((==_iff incident.id incident_id).0
                    (All-find (λ _. ⊤) (has_incident_id incident_id) s.incidents incident
                      (All-all s.incidents (λ _. tt)) found).1)
                  (confirm_write-Holds incident c now s units))
                (λ _ s' h. h))
      ]

  -- However a confirmation ends, the scores of all domains are between 0 and 1 where they were before.
  pub confirm_incident-IsUnitScore :
      (incident_id : ℕ) (c : Confirmation) (now : ℕ) (t : TrustTables)
      → All IsUnitScore t.trust_domain_state
      → All IsUnitScore
          (confirm_incident compute_confidence incident_id c now t).1.trust_domain_state
  unfolding confirm_incident confirm_events
  confirm_incident-IsUnitScore incident_id c now t units =
      then_do_keeps HasUnits
        (write_and_events (confirm_in_transaction compute_confidence incident_id c now)
          (confirm_events compute_confidence incident_id c now))
        (λ _ s. (ok tt, s)) t
        (write_and_events_keeps HasUnits
          (confirm_in_transaction compute_confidence incident_id c now)
          (confirm_events compute_confidence incident_id c now) t units
          (Leaves-map (Holds (is_confirmed c.new_confirmation) incident_id) HasUnits
            (confirm_in_transaction compute_confidence incident_id c now t) (λ s h. h.0)
            (confirm_in_transaction-Holds incident_id c now t units))
          (λ _ s h. h))
        (λ _ s h. h)

  confirmed_evidence :
      (incident_id : ℕ) (c : Confirmation) (now : ℕ) (t : TrustTables)
      → All IsUnitScore t.trust_domain_state
      → is_confirmed c.new_confirmation ≡ true
      → (confirm_incident compute_confidence incident_id c now t).0 ≡ ok tt
      → exists
          (is_impact_of incident_id)
          (confirm_incident compute_confidence incident_id c now t).1.trust_evidence
        ≡ true
  unfolding confirm_incident confirm_events
  confirmed_evidence incident_id c now t units reached returned =
      let method =
        write_and_events (confirm_in_transaction compute_confidence incident_id c now)
          (confirm_events compute_confidence incident_id c now) in
      let (r, first, whole) = then_do_returned method (λ _ s. (ok tt, s)) t returned in
      rw whole (
        (write_and_events_returned (Holds (is_confirmed c.new_confirmation) incident_id)
            (confirm_in_transaction compute_confidence incident_id c now)
            (confirm_events compute_confidence incident_id c now) t
            (confirm_in_transaction-Holds incident_id c now t units) (λ _ s h. h) first).1
          reached)

  clash_confirmed :
      (incident : Incident) (cooperation : CooperationAssessment) (now : ℕ) (s : TrustTables)
      → exists (is_impact_of incident.id) s.trust_evidence ≡ true
      → confirmed_write compute_confidence incident cooperation now s ≡ err constraint_failed
  unfolding confirmed_write update_assessment insert_trust_evidence
  clash_confirmed incident cooperation now s clash = ground (arith, clash)

  clash_write :
      (incident : Incident) (c : Confirmation) (now : ℕ) (s : TrustTables)
      → is_confirmed c.new_confirmation ≡ true
      → exists (is_impact_of incident.id) s.trust_evidence ≡ true
      → confirm_write compute_confidence incident c now s ≡ err constraint_failed
  unfolding confirm_write
  clash_write incident c now s reached clash = rw reached (
      bind_err (confirmed_write compute_confidence incident c.cooperation now) _
        (clash_confirmed incident c.cooperation now _ clash))

  refused :
      (incident_id : ℕ) (c : Confirmation) (now : ℕ) (s : TrustTables)
      → is_confirmed c.new_confirmation ≡ true
      → exists (is_impact_of incident_id) s.trust_evidence ≡ true
      → (e : TrustError) × (confirm_in_transaction compute_confidence incident_id c now s ≡ err e)
  unfolding confirm_in_transaction load_incident
  refused incident_id c now s reached clash =
      elim (Option-cases (find (has_incident_id incident_id) s.incidents)) [
        | inl missing ↦ (incident_not_found incident_id, rw (missing, load_incident, ◌>>=◌) refl)
        | inr (incident, found) ↦ (
          constraint_failed,
          rw (found, load_incident, ◌>>=◌)
              (bind_err (confirm_write compute_confidence incident c now) _ (
                clash_write incident c now s reached (
                  subst (λ id. exists (is_impact_of id) s.trust_evidence ≡ true)
                    (sym (
                      (==_iff incident.id incident_id).0
                        (All-find (λ _. ⊤) (has_incident_id incident_id) s.incidents incident
                          (All-all s.incidents (λ _. tt)) found).1))
                    clash))),
        )
      ]

  -- Where all scores are between 0 and 1, and an incident was confirmed as CONFIRMED by a call that
  -- returned, a second such confirmation raises and changes nothing: the incident counts against the
  -- trust in its domain once.
  pub confirm_incident_again :
      (incident_id : ℕ) (c c' : Confirmation) (now now' : ℕ) (t : TrustTables)
      → All IsUnitScore t.trust_domain_state
      → is_confirmed c.new_confirmation ≡ true
      → is_confirmed c'.new_confirmation ≡ true
      → (confirm_incident compute_confidence incident_id c now t).0 ≡ ok tt
      → (e : TrustError) × (confirm_incident compute_confidence incident_id c' now'
            (confirm_incident compute_confidence incident_id c now t).1
          ≡ (err e, (confirm_incident compute_confidence incident_id c now t).1))
  unfolding confirm_incident
  confirm_incident_again incident_id c c' now now' t units reached reached' returned =
      let after = (confirm_incident compute_confidence incident_id c now t).1 in
      let (e, raises) =
        refused incident_id c' now' after reached'
          (confirmed_evidence incident_id c now t units reached returned) in
      (
        e,
        then_do_err
            (write_and_events (confirm_in_transaction compute_confidence incident_id c' now')
              (confirm_events compute_confidence incident_id c' now'))
            (λ _ s. (ok tt, s))
            (write_and_events_err (confirm_in_transaction compute_confidence incident_id c' now')
              (confirm_events compute_confidence incident_id c' now') raises),
      )

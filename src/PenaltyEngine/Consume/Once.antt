-- ===== src/PenaltyEngine/Consume/Once.antt =====
-- penalty_engine/repository.py: an incident is consumed once, however often it is delivered.
use ai_coach_keyholder.Prelude.{
  ℕ, suc, ◌≡◌, refl, Bool, true, false, none, some, List, ◌∷◌, ok, arith, ==_self, Bool-cases,
  Option-cases, inl, inr, if◌then◌else◌,
}
use ai_coach_keyholder.Prelude.Int.{pos, ltb_ℤ}
use ai_coach_keyholder.Prelude.Lists.{exists, count_where, update_where}
use ai_coach_keyholder.Infrastructure.Transaction.{pure, write_and_events}
use ai_coach_keyholder.Infrastructure.Transaction.Returns.{bind_ok, then_do_ok, write_and_events_ok}
use ai_coach_keyholder.PenaltyEngine.Models.{
  Hours, PenaltyWindow, SeverityTier, CooperationAssessment,
}
use ai_coach_keyholder.PenaltyEngine.Extension.{should_extend, ExtensionDecision}
use ai_coach_keyholder.PenaltyEngine.Store.Events.{Emits, emits_rules}
use ai_coach_keyholder.PenaltyEngine.Store.{
  Tables, DomainEvent, IncidentConsumption, ExtensionDecisionRow, has_id, find_open_window,
}
use ai_coach_keyholder.PenaltyEngine.Consume.{
  add_extension, is_incident, is_same_rule, new_window, window_for_incident, extension_context,
  record_extension, consume_new_incident, consume_in_transaction, emit_consumption_events,
  emit_if_consumed, consume_confirmed_incident, Consumption, consumed_window,
}

Emits-emit_consumption_events : (now : ℕ) (r : Consumption) → Emits (emit_consumption_events now r)
unfolding emit_consumption_events
Emits-emit_consumption_events now r = search emits_rules

module _ (incident_id trust_domain rule_group_id : ℕ) (severity : SeverityTier)
    (c : CooperationAssessment) (now : ℕ) (base : Hours) (t : Tables) where
  pub again :
      exists (is_incident incident_id) t.incident_consumption ≡ true
      → consume_confirmed_incident incident_id trust_domain rule_group_id severity c now base t
        ≡ (ok none, t)
  unfolding consume_confirmed_incident consume_in_transaction
  again h =
      then_do_ok
        (write_and_events
          (consume_in_transaction incident_id trust_domain rule_group_id severity c now base)
          (emit_if_consumed now))
        (λ result t. (ok (consumed_window result), t))
        (write_and_events_ok
          (consume_in_transaction incident_id trust_domain rule_group_id severity c now base)
          (emit_if_consumed now) {s' = t} {a = none} (rw h refl) refl)

  -- The whole transition, from what its first part did.
  pub transition :
      (r : Consumption) (u : Tables)
      → exists (is_incident incident_id) t.incident_consumption ≡ false
      → consume_new_incident incident_id trust_domain rule_group_id severity c now base t
        ≡ ok (r, u)
      → (es : List DomainEvent) × (consume_confirmed_incident incident_id trust_domain rule_group_id
            severity c now base t
          ≡ (ok (some r.0), record u { domain_events = es }))
  unfolding consume_confirmed_incident consume_in_transaction
  transition r u h e =
      let (es, emitted) = Emits-emit_consumption_events now r u in
      (
        es,
        then_do_ok
            (write_and_events
              (consume_in_transaction incident_id trust_domain rule_group_id severity c now base)
              (emit_if_consumed now))
            (λ result t. (ok (consumed_window result), t))
            (write_and_events_ok
              (consume_in_transaction incident_id trust_domain rule_group_id severity c now base)
              (emit_if_consumed now) {s' = u} {a = some r}
              (rw h (
                bind_ok
                  (consume_new_incident incident_id trust_domain rule_group_id severity c now base)
                  (λ c. pure (some c)) e))
              emitted),
      )

  -- The consumption of a new incident, into a window that is open or was just started.
  module _ (window : PenaltyWindow) (started : Bool) (opened : Tables)
      (into : window_for_incident now base t ≡ ok ((window, started), opened)) where
    unfoldable pub consumption : IncidentConsumption
    consumption = record {
      incident_id = incident_id;
      penalty_window_id = window.id;
      trust_domain = trust_domain;
      rule_group_id = rule_group_id;
      consumed_at = now;
    }

    unfoldable pub decision : ExtensionDecision
    decision = should_extend (
        extension_context window severity c (
          count_where (is_same_rule window.id rule_group_id)
            (consumption ∷ opened.incident_consumption)))

    unfoldable pub decision_row : ExtensionDecisionRow
    decision_row = record {
      id = opened.next_id;
      created_at = now;
      incident_id = incident_id;
      penalty_window_id = window.id;
      decision = decision;
    }

    unfoldable pub consumed_tables : Tables
    consumed_tables = record opened {
      incident_consumption = consumption ∷ opened.incident_consumption;
      extension_decisions = decision_row ∷ opened.extension_decisions;
      next_id = suc opened.next_id;
    }

    extended :
        ltb_ℤ (pos 0) decision.assigned_hours ≡ true
        → consume_new_incident incident_id trust_domain rule_group_id severity c now base t
          ≡ ok (
            (add_extension decision.assigned_hours window, decision_row, started),
            record consumed_tables {
              penalty_windows =
                  update_where
                    (has_id window.id)
                    (add_extension decision.assigned_hours)
                    opened.penalty_windows;
            },
          )
    unfolding consume_new_incident record_extension consumption decision decision_row
        consumed_tables
    extended h = ground (arith, into, h)

    unextended :
        ltb_ℤ (pos 0) decision.assigned_hours ≡ false
        → consume_new_incident incident_id trust_domain rule_group_id severity c now base t
          ≡ ok ((window, decision_row, started), consumed_tables)
    unfolding consume_new_incident record_extension consumption decision decision_row
        consumed_tables
    unextended h = ground (arith, into, h)

    -- A new incident gets one row of incident_consumption and one decision, and its window is extended
    -- by what the decision assigns.
    pub consume_new_incident-ok :
        (extended_window : PenaltyWindow) × (windows : List PenaltyWindow) × (consume_new_incident
            incident_id trust_domain rule_group_id severity c now base t
          ≡ ok (
            (extended_window, decision_row, started),
            record consumed_tables { penalty_windows = windows },
          ))
        × (windows ≡ (
            if ltb_ℤ (pos 0) decision.assigned_hours
            then update_where
                (has_id window.id)
                (add_extension decision.assigned_hours)
                opened.penalty_windows
            else opened.penalty_windows))
    unfolding consumed_tables
    consume_new_incident-ok = elim (Bool-cases (ltb_ℤ (pos 0) decision.assigned_hours)) [
      | inl h ↦ (
        add_extension decision.assigned_hours window,
        update_where (has_id window.id) (add_extension decision.assigned_hours)
            opened.penalty_windows,
        extended h,
        rw h refl,
      )
      | inr h ↦ (window, opened.penalty_windows, unextended h, rw h refl)
    ]

  window_for_incident-ok :
      (window : PenaltyWindow) × (started : Bool) × (opened : Tables) × (window_for_incident now
          base t
        ≡ ok ((window, started), opened))
      × (opened.incident_consumption ≡ t.incident_consumption)
  unfolding window_for_incident
  window_for_incident-ok = elim (Option-cases (find_open_window t.penalty_windows)) [
    | inl e ↦ (
      new_window t.next_id now base,
      true,
      record t {
        penalty_windows = new_window t.next_id now base ∷ t.penalty_windows;
        next_id = suc t.next_id;
      },
      ground (arith, e),
      refl,
    )
    | inr (w, e) ↦ (w, false, t, ground (arith, e), refl)
  ]

  -- Behind a consumption, whatever it did, the incident is recorded as consumed.
  pub consume_confirmed_incident-exists :
      exists
        (is_incident incident_id)
        (consume_confirmed_incident incident_id trust_domain rule_group_id severity c now base
          t).1.incident_consumption
      ≡ true
  unfolding consumed_tables consumption
  consume_confirmed_incident-exists =
      elim (Bool-cases (exists (is_incident incident_id) t.incident_consumption)) [
        | inl h ↦ rw (again h) h
        | inr h ↦
            let (window, started, opened, into, same) = window_for_incident-ok in
            let (w, windows, e, f) = consume_new_incident-ok window started opened into in
            let (es, whole) = transition _ _ h e in rw whole (rw (==_self incident_id) refl)
      ]

-- A second delivery of an incident does nothing: it returns no window, and every table, the outbox
-- included, is as the first delivery left it, whatever the second says of the incident.
pub consume_confirmed_incident_again :
    (incident_id domain rule domain' rule' now now' : ℕ) (severity severity' : SeverityTier)
    (c c' : CooperationAssessment) (base base' : Hours) (t : Tables)
    → consume_confirmed_incident incident_id domain' rule' severity' c' now' base'
        (consume_confirmed_incident incident_id domain rule severity c now base t).1
      ≡ (ok none, (consume_confirmed_incident incident_id domain rule severity c now base t).1)
consume_confirmed_incident_again i domain rule domain' rule' now now' severity severity' c c' base
      base' t =
    again i domain' rule' severity' c' now' base'
      (consume_confirmed_incident i domain rule severity c now base t).1
      (consume_confirmed_incident-exists i domain rule severity c now base t)

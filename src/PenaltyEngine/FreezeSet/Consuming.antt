-- ===== src/PenaltyEngine/FreezeSet/Consuming.antt =====
-- The consumption of an incident and the credit of a completion keep the invariant.
use ai_coach_keyholder.Prelude.{
  ℕ, suc, ◌<◌, ◌≡◌, refl, Bool, Option, none, some, List, ◌∷◌, ok, arith, Bool-cases, Option-cases,
  inl, inr,
}
use ai_coach_keyholder.Prelude.Int.{pos, ltb_ℤ}
use ai_coach_keyholder.Prelude.Lists.{All, exists, count_where, update_where, select}
use ai_coach_keyholder.Prelude.Rows.{
  All-map, All-all, All-update_where, count_where-update_where, Distinct-update_where, exists_fresh,
  latest-none, select-nil, count_where_none,
}
use ai_coach_keyholder.Infrastructure.TimeFormat.{iso_key}
use ai_coach_keyholder.Infrastructure.Transaction.{write_and_events}
use ai_coach_keyholder.Infrastructure.Transaction.Keeps.{
  Leaves, Leaves-bind, write_and_events_keeps, then_do_keeps,
}
use ai_coach_keyholder.PenaltyEngine.Models.{
  Hours, PenaltyWindow, SeverityTier, CooperationAssessment,
}
use ai_coach_keyholder.PenaltyEngine.Extension.{ExtensionDecision}
use ai_coach_keyholder.PenaltyEngine.Store.{
  Tables, ExtensionDecisionRow, has_id, is_open, find_open_window,
}
use ai_coach_keyholder.PenaltyEngine.Store.Events.{Emits, Emits-pure, emits_rules}
use ai_coach_keyholder.PenaltyEngine.Freeze.{is_open_at}
use ai_coach_keyholder.PenaltyEngine.Consume.{
  Consumption, new_window, window_for_incident, add_extension, record_extension,
  consume_new_incident, consume_in_transaction, emit_consumption_events, emit_if_consumed,
  consumed_window, is_incident, consume_confirmed_incident,
}
use ai_coach_keyholder.PenaltyEngine.FreezeSet.{
  window_key, open_freezes, Agrees, IsBelow, IsFreezeSet, frame-IsFreezeSet, Emits-IsFreezeSet,
}
use ai_coach_keyholder.PenaltyEngine.FreezeSet.Freezing.{fresh-update_where}

-- Where no open window is found there is none.
pub none_open : (ws : List PenaltyWindow) → find_open_window ws ≡ none → count_where is_open ws ≡ 0
unfolding find_open_window
none_open ws h =
    select-nil is_open ws (latest-none (λ w. iso_key w.created_at) (select is_open ws) h)

module _ (t : Tables) (inv : IsFreezeSet t) where
  windows_below : All (λ w. w.id < suc t.next_id) t.penalty_windows
  windows_below =
      All-map {P = λ w. w.id < t.next_id} t.penalty_windows (λ w h. omega arith) inv.windows_fresh

  freezes-IsBelow : All (IsBelow (suc t.next_id)) t.freeze_periods
  freezes-IsBelow =
      All-map {P = IsBelow t.next_id} t.freeze_periods (λ f h. omega arith) inv.freezes_fresh

  -- A new id changes nothing that the invariant says.
  pub next_id-IsFreezeSet : IsFreezeSet (record t { next_id = suc t.next_id })
  next_id-IsFreezeSet = record {
    window_ids = inv.window_ids;
    windows_fresh = windows_below;
    freeze_ids = inv.freeze_ids;
    freezes_fresh = freezes-IsBelow;
    one_open = inv.one_open;
    agrees = inv.agrees;
  }

  no_freezes : open_freezes t.next_id t.freeze_periods ≡ 0
  no_freezes =
      count_where_none (is_open_at t.next_id) t.freeze_periods
        (All-map {P = IsBelow t.next_id} t.freeze_periods (λ f h. ground arith) inv.freezes_fresh)

  new_window-IsFreezeSet :
      (now : ℕ) (base : Hours)
      → find_open_window t.penalty_windows ≡ none
      → IsFreezeSet (record t {
        penalty_windows = new_window t.next_id now base ∷ t.penalty_windows;
        next_id = suc t.next_id;
      })
  new_window-IsFreezeSet now base h = record {
    window_ids =
        (exists_fresh window_key t.next_id t.penalty_windows inv.windows_fresh, inv.window_ids);
    windows_fresh = (omega arith, windows_below);
    freeze_ids = inv.freeze_ids;
    freezes_fresh = freezes-IsBelow;
    one_open = omega (arith, none_open t.penalty_windows h);
    agrees = ((no_freezes, refl), inv.agrees);
  }

  -- An update that changes neither the id nor the state of a window.
  pub same_state-IsFreezeSet :
      (q : PenaltyWindow → Bool) (f : PenaltyWindow → PenaltyWindow)
      → ((w : PenaltyWindow) → (f w).id ≡ w.id)
      → ((w : PenaltyWindow) → is_open (f w) ≡ is_open w)
      → ((w : PenaltyWindow) → Agrees t.freeze_periods w → Agrees t.freeze_periods (f w))
      → IsFreezeSet (record t { penalty_windows = update_where q f t.penalty_windows })
  same_state-IsFreezeSet q f same_id same_open same = record {
    window_ids = Distinct-update_where window_key q f t.penalty_windows same_id inv.window_ids;
    windows_fresh =
        fresh-update_where t.next_id t.next_id q f t.penalty_windows (omega arith) same_id
          inv.windows_fresh;
    freeze_ids = inv.freeze_ids;
    freezes_fresh = inv.freezes_fresh;
    one_open =
        rw
          (count_where-update_where is_open q f t.penalty_windows
            (All-all t.penalty_windows (λ w _. same_open w)))
          inv.one_open;
    agrees =
        All-update_where {P = Agrees t.freeze_periods} q f t.penalty_windows (λ w a _. same w a)
          (λ w a _. a) inv.agrees;
  }

window_for_incident-IsFreezeSet :
    (t : Tables) (now : ℕ) (base : Hours)
    → IsFreezeSet t
    → Leaves IsFreezeSet (window_for_incident now base t)
unfolding window_for_incident
window_for_incident-IsFreezeSet t now base inv =
    elim (Option-cases (find_open_window t.penalty_windows)) [
      | inl missing ↦
          rw (missing, window_for_incident) (new_window-IsFreezeSet t inv now base missing)
      | inr (w, found) ↦ rw (found, window_for_incident) inv
    ]

-- The state behind the insertion of a decision, which takes a new id.
decided : Tables → ExtensionDecisionRow → Tables
decided t row = record t {
  extension_decisions = row ∷ t.extension_decisions;
  next_id = suc t.next_id;
}

decided-IsFreezeSet :
    (t : Tables) (row : ExtensionDecisionRow) → IsFreezeSet t → IsFreezeSet (decided t row)
unfolding decided
decided-IsFreezeSet t row inv =
    frame-IsFreezeSet (record t { next_id = suc t.next_id }) t.incident_consumption
      (row ∷ t.extension_decisions) t.recovery_credit_decisions t.recovery_credit_ledger
      t.domain_events (next_id-IsFreezeSet t inv)

record_extension-IsFreezeSet :
    (t : Tables) (now incident_id : ℕ) (window : PenaltyWindow) (decision : ExtensionDecision)
    → IsFreezeSet t
    → Leaves IsFreezeSet (record_extension now incident_id window decision t)
unfolding record_extension decided
record_extension-IsFreezeSet t now incident_id window decision inv =
    let row : ExtensionDecisionRow = record {
      id = t.next_id;
      created_at = now;
      incident_id = incident_id;
      penalty_window_id = window.id;
      decision = decision;
    } in
    elim (Bool-cases (ltb_ℤ (pos 0) decision.assigned_hours)) [
      | inl extends ↦ rw extends (
          same_state-IsFreezeSet (decided t row) (decided-IsFreezeSet t row inv) (has_id window.id)
            (add_extension decision.assigned_hours) (λ w. refl) (λ w. refl) (λ w a. a))
      | inr not_extends ↦ rw not_extends (decided-IsFreezeSet t row inv)
    ]

consume_new_incident-IsFreezeSet :
    (t : Tables) (incident_id trust_domain rule_group_id : ℕ) (severity : SeverityTier)
    (c : CooperationAssessment) (now : ℕ) (base : Hours)
    → IsFreezeSet t
    → Leaves IsFreezeSet
        (consume_new_incident incident_id trust_domain rule_group_id severity c now base t)
unfolding consume_new_incident
consume_new_incident-IsFreezeSet t incident_id trust_domain rule_group_id severity c now base inv =
    Leaves-bind IsFreezeSet (window_for_incident now base) _ t
      (window_for_incident-IsFreezeSet t now base inv)
      (λ a s h.
        Leaves-bind IsFreezeSet (record_extension now incident_id a.0 _) _ _
          (record_extension-IsFreezeSet _ now incident_id a.0 _ (
            frame-IsFreezeSet s _ s.extension_decisions s.recovery_credit_decisions
              s.recovery_credit_ledger s.domain_events h))
          (λ _ _ k. k))

consume_in_transaction-IsFreezeSet :
    (t : Tables) (incident_id trust_domain rule_group_id : ℕ) (severity : SeverityTier)
    (c : CooperationAssessment) (now : ℕ) (base : Hours)
    → IsFreezeSet t
    → Leaves IsFreezeSet
        (consume_in_transaction incident_id trust_domain rule_group_id severity c now base t)
unfolding consume_in_transaction
consume_in_transaction-IsFreezeSet t incident_id trust_domain rule_group_id severity c now base
      inv =
    elim (Bool-cases (exists (is_incident incident_id) t.incident_consumption)) [
      | inl already ↦ rw already inv
      | inr unseen ↦ rw unseen (
          Leaves-bind IsFreezeSet
            (consume_new_incident incident_id trust_domain rule_group_id severity c now base) _ t
            (consume_new_incident-IsFreezeSet t incident_id trust_domain rule_group_id severity c
              now base inv)
            (λ _ _ k. k))
    ]

Emits-emit_if_consumed : (now : ℕ) (r : Option Consumption) → Emits (emit_if_consumed now r)
Emits-emit_if_consumed now none = Emits-pure
Emits-emit_if_consumed now (some (w, row, started)) =
    unfold emit_consumption_events in search emits_rules

-- The consumption of a confirmed incident keeps the invariant, whether it starts a window, extends
-- the open one or was consumed before.
pub consume_confirmed_incident-IsFreezeSet :
    (t : Tables) (incident_id trust_domain rule_group_id : ℕ) (severity : SeverityTier)
    (c : CooperationAssessment) (now : ℕ) (base : Hours)
    → IsFreezeSet t
    → IsFreezeSet
        (consume_confirmed_incident incident_id trust_domain rule_group_id severity c now base t).1
unfolding consume_confirmed_incident
consume_confirmed_incident-IsFreezeSet t incident_id trust_domain rule_group_id severity c now base
      inv =
    then_do_keeps IsFreezeSet
      (write_and_events
        (consume_in_transaction incident_id trust_domain rule_group_id severity c now base)
        (emit_if_consumed now))
      (λ r s. (ok (consumed_window r), s)) t
      (write_and_events_keeps IsFreezeSet
        (consume_in_transaction incident_id trust_domain rule_group_id severity c now base)
        (emit_if_consumed now) t inv
        (consume_in_transaction-IsFreezeSet t incident_id trust_domain rule_group_id severity c now
          base inv)
        (λ r s h. Emits-IsFreezeSet (emit_if_consumed now r) s (Emits-emit_if_consumed now r) h))
      (λ _ s h. h)

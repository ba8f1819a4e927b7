-- ===== src/PenaltyEngine/Tests.antt =====
-- Runs of penalty_engine/ on small tables, and its properties at them.
use ai_coach_keyholder.Prelude.{
  ℕ, Option, ◌+◌, ◌*◌, ◌/◌, ◌≤◌, ◌<◌, ◌≡◌, ◌↔◌, ◌⊎◌, refl, sym, ap, ◌∙◌, true, false, none, some,
  [], ◌∷◌, ok, arith,
}
use ai_coach_keyholder.Prelude.Int.{pos, ◌+ℤ◌, ◌≤ℤ◌, ◌<ℤ◌, ◌-ℤ◌, min_ℤ, max_ℤ, half}
use ai_coach_keyholder.Prelude.Lists.{All, count_where}
use ai_coach_keyholder.Infrastructure.Transaction.{apply_transition}
use ai_coach_keyholder.Infrastructure.TimeFormat.{iso_key}
use ai_coach_keyholder.PenaltyEngine.Models.{
  hour, hours_between, PenaltyWindow, active, frozen, completed, countdown_complete, FreezePeriod,
  minor, major, critical, CooperationAssessment, emergency_override,
}
use ai_coach_keyholder.PenaltyEngine.Window.{
  active_hours_elapsed, is_complete, remaining_active_hours, target_active_hours,
}
use ai_coach_keyholder.PenaltyEngine.Extension.{
  ExtensionContext, should_extend, context_base, determine_extension_eligibility,
  is_high_cooperation, calculate_base_magnitude, apply_mitigation, mitigation_fraction,
  apply_capacity_cap,
}
use ai_coach_keyholder.PenaltyEngine.Extension.Floor.{
  IsIsolatedAndCooperative, should_extend_severe, should_extend_assigned,
}
use ai_coach_keyholder.PenaltyEngine.Store.{Tables, empty, is_open, find_window, find_open_window}
use ai_coach_keyholder.PenaltyEngine.Consume.{
  consume_confirmed_incident, consume_in_transaction, consume_new_incident, window_for_incident,
  record_extension, emit_consumption_events, extension_context, remaining_capacity,
}
use ai_coach_keyholder.PenaltyEngine.Consume.Once.{consume_confirmed_incident_again}
use ai_coach_keyholder.PenaltyEngine.Consume.Cap.{IsCapped, consume_confirmed_incident-IsCapped}
use ai_coach_keyholder.PenaltyEngine.Credit.{RecoveryReads, record_recovery_credit}
use ai_coach_keyholder.PenaltyEngine.Credit.Balance.{IsBalanced, record_recovery_credit-IsBalanced}
use ai_coach_keyholder.PenaltyEngine.Freeze.{
  emergency, freeze_in_transaction, emergency_freeze, resume, freeze_write, open_freeze,
  meets_check, clashes, freeze_events, new_freeze,
}
use ai_coach_keyholder.PenaltyEngine.Window.Countdown.{remaining_active_hours_lem}
use ai_coach_keyholder.PenaltyEngine.Reconcile.{
  ensure_current_state, close_expired_freezes, close_all, settle,
}
use ai_coach_keyholder.PenaltyEngine.Reconcile.Settled.{IsSettled, ensure_current_state-IsSettled}
use ai_coach_keyholder.PenaltyEngine.Reconcile.Expired.{is_overdue}
use ai_coach_keyholder.PenaltyEngine.FreezeSet.{IsFreezeSet, open_freezes}
use ai_coach_keyholder.PenaltyEngine.FreezeSet.Runs.{
  Reach, here, next, consumes, freezes, frozen_iff_open_reason,
}
use ai_coach_keyholder.PenaltyEngine.FreezeSet.Override.{
  emergency_freeze-resume_clock, emergency_freeze-resume_completed,
}

abbrev uncooperative : CooperationAssessment
uncooperative = record { self_disclosed = false; active_cooperation_in_resolution = false }

abbrev running : PenaltyWindow
running = record {
  id = 0;
  created_at = 0;
  status = active;
  closed_at = none;
  resolution_method = none;
  base_duration_hours = pos (24 * hour);
  extensions_hours = pos 0;
  accumulated_active_hours = pos 0;
  active_period_started_at = some 0;
  recovery_credits_earned_hours = pos 0;
}

abbrev closed : PenaltyWindow
closed = record running {
  status = completed;
  closed_at = some 9;
  resolution_method = some countdown_complete;
  active_period_started_at = none;
}

abbrev with_window : PenaltyWindow → Tables
with_window w = record empty { penalty_windows = w ∷ []; next_id = 1 }

with_window-IsFreezeSet : IsFreezeSet (with_window running)
with_window-IsFreezeSet = record {
  window_ids = (refl, tt);
  windows_fresh = (omega arith, tt);
  freeze_ids = tt;
  freezes_fresh = tt;
  one_open = omega arith;
  agrees = ((refl, refl), tt);
}

running-IsCapped : All IsCapped (with_window running).penalty_windows
unfolding ◌+ℤ◌
running-IsCapped = ((omega arith, omega arith), tt)

running-IsBalanced : IsBalanced (with_window running)
unfolding target_active_hours min_ℤ ◌+ℤ◌ half
running-IsBalanced = ((refl, tt), ((refl, omega arith), tt))

settled_test : (ensure_current_state 60 (with_window running)).0 ≡ ok (some running)
unfolding ensure_current_state find_open_window close_expired_freezes close_all settle is_complete
    target_active_hours active_hours_elapsed hours_between min_ℤ ◌+ℤ◌ iso_key
settled_test = refl

due_test : is_complete running 86_400_000_000 ≡ true
unfolding is_complete target_active_hours active_hours_elapsed hours_between min_ℤ ◌+ℤ◌
due_test = refl

-- A first incident starts a window, which is then frozen.
abbrev started : Tables
started = (consume_confirmed_incident 7 1 2 minor uncooperative 50 (pos (24 * hour)) empty).1

abbrev run : Tables
run = (freeze_in_transaction 0 100 emergency true started).1

abbrev run_window : PenaltyWindow
run_window = record running {
  created_at = 50;
  status = frozen;
  extensions_hours = pos (4 * hour);
  accumulated_active_hours = pos 100;
  active_period_started_at = none;
}

started_test :
    find_window 0 started.penalty_windows
    ≡ some (record running {
      created_at = 50;
      extensions_hours = pos (4 * hour);
      active_period_started_at = some 50;
    })
unfolding consume_confirmed_incident apply_transition consume_in_transaction consume_new_incident
    window_for_incident record_extension emit_consumption_events find_open_window should_extend
    determine_extension_eligibility is_high_cooperation calculate_base_magnitude apply_mitigation
    mitigation_fraction apply_capacity_cap extension_context remaining_capacity ◌+ℤ◌ ◌-ℤ◌ min_ℤ
    max_ℤ iso_key
started_test = refl

run_test : find_window 0 run.penalty_windows ≡ some run_window
unfolding freeze_in_transaction freeze_write open_freeze meets_check clashes freeze_events
    active_hours_elapsed hours_between consume_confirmed_incident apply_transition
    consume_in_transaction consume_new_incident window_for_incident record_extension
    emit_consumption_events find_open_window should_extend determine_extension_eligibility
    is_high_cooperation calculate_base_magnitude apply_mitigation mitigation_fraction
    apply_capacity_cap extension_context remaining_capacity ◌+ℤ◌ ◌-ℤ◌ min_ℤ max_ℤ iso_key
run_test = refl

reached : Reach empty run
reached = next (next here (consumes empty 7 1 2 minor uncooperative 50 (pos (24 * hour)))) (
    freezes started 0 100 emergency true (λ w found done. cc (
      sym done
      ∙ ap (λ o. elim o [ none ↦ completed | some v ↦ v.status ]) (sym found ∙ started_test))))

frozen_iff_open_reason_example :
    (count_where is_open run.penalty_windows ≤ 1)
    × ((run_window.status ≡ frozen) ↔ (0 < open_freezes 0 run.freeze_periods))
frozen_iff_open_reason_example = frozen_iff_open_reason 0 run_window reached run_test

consume_confirmed_incident_again_example :
    consume_confirmed_incident 7 3 4 major uncooperative 60 (pos hour) started ≡ (ok none, started)
consume_confirmed_incident_again_example =
    consume_confirmed_incident_again 7 1 2 3 4 50 60 minor major uncooperative uncooperative
      (pos (24 * hour)) (pos hour) empty

consume_confirmed_incident-IsCapped_example :
    All IsCapped
      (consume_confirmed_incident 8 1 2 critical uncooperative 60
        (pos (24 * hour))
        (with_window running)).1.penalty_windows
consume_confirmed_incident-IsCapped_example =
    consume_confirmed_incident-IsCapped 8 1 2 critical uncooperative 60 (pos (24 * hour))
      (with_window running) with_window-IsFreezeSet (omega arith) running-IsCapped

abbrev reads : RecoveryReads
reads = record {
  get_recovery_task_completion = λ c. some (c, 5);
  credit_hours_of_task = λ task. some (pos hour);
  window_of_plan = λ plan. some 0;
}

record_recovery_credit-IsBalanced_example :
    IsBalanced (record_recovery_credit reads 3 70 (with_window running)).1
record_recovery_credit-IsBalanced_example =
    record_recovery_credit-IsBalanced (with_window running) reads 3 70 running-IsBalanced

abbrev stopped : PenaltyWindow
stopped = record running { status = frozen; active_period_started_at = none }

-- A window with a freeze that expires at 1,500,000, and another without an end.
abbrev freeze_of : ℕ → Option ℕ → FreezePeriod
freeze_of id expires_at = record {
  id = id;
  penalty_window_id = 0;
  started_at = 50;
  ended_at = none;
  reason = emergency_override;
  exemption_id = none;
  authorization_decision_id = none;
  expires_at = expires_at;
  end_reason = none;
}

abbrev frozen_twice : Tables
frozen_twice = record empty {
  penalty_windows = stopped ∷ [];
  freeze_periods = freeze_of 1 (some 1_500_000) ∷ freeze_of 2 none ∷ [];
  next_id = 3;
}

frozen_twice-IsFreezeSet : IsFreezeSet frozen_twice
frozen_twice-IsFreezeSet = record {
  window_ids = (refl, tt);
  windows_fresh = (omega arith, tt);
  freeze_ids = (refl, (refl, tt));
  freezes_fresh = ((omega arith, omega arith), ((omega arith, omega arith), tt));
  one_open = omega arith;
  agrees = ((omega arith, refl), tt);
}

found_stopped : find_open_window frozen_twice.penalty_windows ≡ some stopped
unfolding find_open_window
found_stopped = refl

ensure_current_state-IsSettled_example :
    (r : Option PenaltyWindow) × ((ensure_current_state 2_500_000 frozen_twice).0 ≡ ok r)
    × IsSettled 2_500_000 r (ensure_current_state 2_500_000 frozen_twice).1
    × All
        (λ f. is_overdue 0 2_500_000 f ≡ false)
        (ensure_current_state 2_500_000 frozen_twice).1.freeze_periods
ensure_current_state-IsSettled_example =
    ensure_current_state-IsSettled 2_500_000 frozen_twice stopped frozen_twice-IsFreezeSet
      found_stopped

emergency_freeze-resume_clock_example :
    (v : PenaltyWindow) × (find_window 0
        (resume 0 emergency_override 90
          (emergency_freeze 0 40 (with_window running)).1).1.penalty_windows
      ≡ some v)
    × (v.status ≡ active)
    × (open_freezes 0
          (resume 0 emergency_override 90
            (emergency_freeze 0 40 (with_window running)).1).1.freeze_periods
        ≡ 0)
    × (active_hours_elapsed v 100 ≡ active_hours_elapsed running 40 +ℤ hours_between 90 100)
emergency_freeze-resume_clock_example =
    emergency_freeze-resume_clock (with_window running) 0 40 90 running refl refl 100 refl

emergency_freeze-resume_completed_example :
    find_window 0
      (resume 0 emergency_override 90
        (emergency_freeze 0 40 (with_window closed)).1).1.penalty_windows
    ≡ some (record closed { status = active; active_period_started_at = some 90 })
emergency_freeze-resume_completed_example =
    emergency_freeze-resume_completed (with_window closed) 0 40 90 closed refl refl refl

abbrev second_critical : ExtensionContext
second_critical = record {
  intrinsic_severity = critical;
  cooperation = record { self_disclosed = true; active_cooperation_in_resolution = true };
  same_rule_confirmed_incident_count_in_current_window = 2;
  remaining_active_hour_capacity = pos (20 * hour);
  occurred_during_recovery_task = true;
}

should_extend_severe_example :
    ((should_extend second_critical).eligible ≡ true)
    × ((pos (context_base second_critical * 7 / 10)
          ≤ℤ (should_extend second_critical).assigned_hours)
        ⊎ ((should_extend second_critical).assigned_hours ≡ pos (20 * hour)))
should_extend_severe_example = should_extend_severe second_critical refl

should_extend_assigned_example :
    (IsIsolatedAndCooperative second_critical
      × ((should_extend second_critical).eligible ≡ false)
      × ((should_extend second_critical).base_hours ≡ none)
      × ((should_extend second_critical).assigned_hours ≡ pos 0)
      × ((should_extend second_critical).capacity_limited ≡ false))
    ⊎ ((¬ IsIsolatedAndCooperative second_critical)
        × ((should_extend second_critical).eligible ≡ true)
        × (kept : ℕ) × ((should_extend second_critical).uncapped_hours ≡ some kept)
        × (context_base second_critical * 2 / 10 ≤ kept)
        × (kept + (should_extend second_critical).mitigation_hours ≡ context_base second_critical)
        × ((should_extend second_critical).assigned_hours ≡ min_ℤ (pos kept) (pos (20 * hour)))
        × (((should_extend second_critical).capacity_limited ≡ true)
            ↔ (pos (20 * hour) <ℤ pos kept)))
should_extend_assigned_example = should_extend_assigned second_critical

remaining_active_hours_lem_example :
    ((is_complete running 60 ≡ true) ↔ (remaining_active_hours running 60 ≡ pos 0))
    × (pos 0 ≤ℤ remaining_active_hours running 60)
remaining_active_hours_lem_example = remaining_active_hours_lem running 60

open_override : FreezePeriod
open_override = new_freeze 1 0 40 emergency

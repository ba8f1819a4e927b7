-- ===== src/PenaltyEngine/FreezeSet/Override.antt =====
-- An emergency freeze and the resume from it, of a window that no other reason freezes.
use ai_coach_keyholder.Prelude.{
  ℕ, ◌≡◌, refl, ◌∙◌, ap, true, false, some, none, List, [], ◌∷◌, ok, arith, ==_self, Bool-cases,
  inl, inr, if◌then◌else◌,
}
use ai_coach_keyholder.Prelude.Lists.{select, update_where}
use ai_coach_keyholder.Prelude.Rows.{All-all, count_where-update_where_le, find-update_where}
use ai_coach_keyholder.Prelude.Int.{◌+ℤ◌}
use ai_coach_keyholder.Infrastructure.Transaction.{apply_transition, write_and_events}
use ai_coach_keyholder.Infrastructure.Transaction.Returns.{then_do_ok, write_and_events_ok}
use ai_coach_keyholder.PenaltyEngine.Models.{
  hours_between, PenaltyWindow, PenaltyWindowStatus, active, frozen, completed, FreezePeriod,
  emergency_override, resumed_normally,
}
use ai_coach_keyholder.PenaltyEngine.Window.{active_hours_elapsed}
use ai_coach_keyholder.PenaltyEngine.Store.{
  penalty_window_resumed, freeze_periods_closed, Tables, has_id, find_window,
}
use ai_coach_keyholder.PenaltyEngine.Freeze.{
  is_active, meets_check, clashes, emergency, new_freeze, stop_countdown, restart_countdown,
  open_freeze, freeze_write, freeze_events, freeze_in_transaction, emergency_freeze, is_open_for,
  is_open_at, has_freeze_id, close_each, close_freeze, rows_to_close, close_rows, close_write,
  close_events, close_freeze_periods, resume,
}
use ai_coach_keyholder.PenaltyEngine.FreezeSet.{open_freezes, window_key}

module _ (t : Tables) (id now later : ℕ) (w : PenaltyWindow)
    (found : find_window id t.penalty_windows ≡ some w)
    (unfrozen : open_freezes id t.freeze_periods ≡ 0) where
  abbrev stopped_windows : List PenaltyWindow
  stopped_windows =
      if is_active w
      then update_where (has_id id) (stop_countdown (active_hours_elapsed w now)) t.penalty_windows
      else t.penalty_windows

  frozen_tables : Tables
  frozen_tables = (emergency_freeze id now t).1

  frozen_lem :
      (frozen_tables.penalty_windows ≡ stopped_windows)
      × (frozen_tables.freeze_periods ≡ new_freeze t.next_id id now emergency ∷ t.freeze_periods)
  unfolding frozen_tables emergency_freeze freeze_in_transaction apply_transition freeze_write
      open_freeze meets_check clashes freeze_events
  frozen_lem = elim (Bool-cases (is_active w)) [
    | inl running ↦ ground arith
    | inr halted ↦ ground arith
  ]

  abbrev new_row : FreezePeriod
  new_row = new_freeze t.next_id id now emergency

  none_for_override :
      (fs : List FreezePeriod)
      → open_freezes id fs ≡ 0
      → select (is_open_for id emergency_override) fs ≡ []
  none_for_override [] h = refl
  none_for_override (f ∷ fs) h = ground (arith, none_for_override fs)

  override_rows :
      rows_to_close id emergency_override none (new_row ∷ t.freeze_periods) ≡ new_row ∷ []
  unfolding rows_to_close
  override_rows = rw (==_self id, none_for_override t.freeze_periods unfrozen)

  none_left :
      open_freezes id
        (close_each later resumed_normally (t.next_id ∷ []) (new_row ∷ t.freeze_periods))
      ≡ 0
  unfolding close_each
  none_left = rw (==_self t.next_id) (
      ground (
        arith,
        unfrozen,
        count_where-update_where_le (is_open_at id) (has_freeze_id t.next_id)
            (close_freeze later resumed_normally) t.freeze_periods
            (All-all t.freeze_periods (λ f e. ground arith)),
      ))

  closed_rows : List FreezePeriod
  closed_rows = close_each later resumed_normally (t.next_id ∷ []) (new_row ∷ t.freeze_periods)

  close_write_lem :
      (u : Tables)
      → u.freeze_periods ≡ new_row ∷ t.freeze_periods
      → close_write id emergency_override later resumed_normally none u
        ≡ ok (
          (t.next_id ∷ [], true),
          record u {
            freeze_periods = closed_rows;
            penalty_windows = update_where (has_id id) (restart_countdown later) u.penalty_windows;
          },
        )
  unfolding close_write close_rows closed_rows
  close_write_lem u e = rw (e, override_rows, none_left) refl

  resumed : Tables → Tables
  resumed u = (resume id emergency_override later u).1

  behind : Tables → Tables
  behind u = record u {
    freeze_periods = closed_rows;
    penalty_windows = update_where (has_id id) (restart_countdown later) u.penalty_windows;
    domain_events =
        record { payload = penalty_window_resumed id; occurred_at = later }
        ∷ record {
          payload = freeze_periods_closed t.next_id id emergency_override resumed_normally;
          occurred_at = later;
        }
        ∷ u.domain_events;
  }

  resume_lem :
      (u : Tables)
      → u.freeze_periods ≡ new_row ∷ t.freeze_periods
      → resume id emergency_override later u ≡ (ok tt, behind u)
  unfolding behind resume close_freeze_periods close_events closed_rows
  resume_lem u e =
      then_do_ok
        (write_and_events (close_write id emergency_override later resumed_normally none)
          (close_events id emergency_override later resumed_normally))
        (λ _ t. (ok tt, t))
        (write_and_events_ok (close_write id emergency_override later resumed_normally none)
          (close_events id emergency_override later resumed_normally) (close_write_lem u e) refl)

  outcome : PenaltyWindow
  outcome =
      restart_countdown later
        (if is_active w then stop_countdown (active_hours_elapsed w now) w else w)

  find_self_update :
      (f : PenaltyWindow → PenaltyWindow) (ws : List PenaltyWindow) (v : PenaltyWindow)
      → ((x : PenaltyWindow) → (f x).id ≡ x.id)
      → find_window id ws ≡ some v
      → find_window id (update_where (has_id id) f ws) ≡ some (f v)
  find_self_update f ws v keeps e =
      rw (find-update_where window_key f id id ws keeps, ==_self id, e) refl

  stopped :
      find_window id stopped_windows
      ≡ some (if is_active w then stop_countdown (active_hours_elapsed w now) w else w)
  stopped = elim (Bool-cases (is_active w)) [
    | inl running ↦ rw running (
        find_self_update (stop_countdown (active_hours_elapsed w now)) t.penalty_windows w
          (λ x. refl) found)
    | inr halted ↦ rw halted found
  ]

  -- The tables behind both calls.
  after : Tables
  after = (resume id emergency_override later (emergency_freeze id now t).1).1

  after_lem :
      (find_window id after.penalty_windows ≡ some outcome)
      × (open_freezes id after.freeze_periods ≡ 0)
  unfolding after outcome frozen_tables behind closed_rows
  after_lem =
      rw (after, resume_lem frozen_tables frozen_lem.1)
        (
          find_self_update (restart_countdown later) frozen_tables.penalty_windows
              (if is_active w then stop_countdown (active_hours_elapsed w now) w else w) (λ x. refl)
              (ap (find_window id) frozen_lem.0 ∙ stopped),
          none_left,
        )

  is_active_of :
      (s : PenaltyWindowStatus)
      → w.status ≡ s
      → is_active w ≡ elim s [ active ↦ true | frozen ↦ false | completed ↦ false ]
  is_active_of s e = rw e refl

  -- Of an active window with no open reason, an emergency freeze at `now` that is resumed at `later`
  -- takes the time between the two out of the countdown: from `later` on, the hours elapsed are those
  -- at `now` and the time since `later`; the window is active again, with no open reason.
  pub emergency_freeze-resume_clock :
      (end : ℕ)
      → w.status ≡ active
      → (v : PenaltyWindow) × (find_window id
            (resume id emergency_override later (emergency_freeze id now t).1).1.penalty_windows
          ≡ some v)
        × (v.status ≡ active)
        × (open_freezes id
              (resume id emergency_override later (emergency_freeze id now t).1).1.freeze_periods
            ≡ 0)
        × (active_hours_elapsed v end ≡ active_hours_elapsed w now +ℤ hours_between later end)
  unfolding after outcome active_hours_elapsed
  emergency_freeze-resume_clock end running = (
    outcome,
    after_lem.0,
    refl,
    after_lem.1,
    ap
        (λ b.
          (if b then stop_countdown (active_hours_elapsed w now) w else w).accumulated_active_hours
          +ℤ hours_between later end)
        (is_active_of active running),
  )

  -- A completed window with no open reason takes an emergency freeze all the same, and the resume from
  -- it sets the window active again and restarts its countdown, with `closed_at` still set.
  pub emergency_freeze-resume_completed :
      w.status ≡ completed
      → find_window id
          (resume id emergency_override later (emergency_freeze id now t).1).1.penalty_windows
        ≡ some (record w { status = active; active_period_started_at = some later })
  unfolding after outcome
  emergency_freeze-resume_completed done =
      after_lem.0
      ∙ ap
          (λ b. some (
            restart_countdown later
              (if b then stop_countdown (active_hours_elapsed w now) w else w)))
          (is_active_of completed done)

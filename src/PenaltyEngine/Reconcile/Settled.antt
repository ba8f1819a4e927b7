-- ===== src/PenaltyEngine/Reconcile/Settled.antt =====
-- penalty_engine/repository.py: `ensure_current_state` leaves nothing for its instant undone.
use ai_coach_keyholder.Prelude.{
  Result, subst, ℕ, ◌≤◌, ◌≡◌, sym, ap, ◌∙◌, Bool, true, false, Option, none, some, List, [], ◌∷◌,
  ok, arith, ◌&&◌, if◌then◌else◌, Bool-cases, Option-cases, inl, inr, refl, ==_self,
}
use ai_coach_keyholder.Prelude.Lists.{All, count_where, select, update_where, latest}
use ai_coach_keyholder.Prelude.Rows.{All-update_where, All-of_select, select_none}
use ai_coach_keyholder.Infrastructure.TimeFormat.{iso_key}
use ai_coach_keyholder.Infrastructure.Transaction.{◌then_do◌, apply_transition}
use ai_coach_keyholder.Infrastructure.Transaction.Returns.{then_do_ok}
use ai_coach_keyholder.PenaltyEngine.Models.{PenaltyWindow, countdown_complete}
use ai_coach_keyholder.PenaltyEngine.Window.{is_complete}
use ai_coach_keyholder.PenaltyEngine.Store.{
  Tables, EngineError, has_id, is_open, find_open_window, penalty_window_completed,
}
use ai_coach_keyholder.PenaltyEngine.Freeze.{is_active}
use ai_coach_keyholder.PenaltyEngine.Reconcile.{
  close_window, complete_window, settle, close_expired_freezes, ensure_current_state,
}
use ai_coach_keyholder.PenaltyEngine.Reconcile.Expired.{
  is_overdue, close_expired_freezes-none_overdue,
}
use ai_coach_keyholder.PenaltyEngine.FreezeSet.{IsFreezeSet}
use ai_coach_keyholder.PenaltyEngine.FreezeSet.Expiring.{close_expired_freezes-IsFreezeSet}

-- What is returned is the open window of the tables, if they have one; and it is not active with
-- its countdown run out.
abbrev pub IsSettled : ℕ → Option PenaltyWindow → Tables → Type 0
IsSettled now none t = find_open_window t.penalty_windows ≡ none
IsSettled now (some w) t =
    (find_open_window t.penalty_windows ≡ some w) × ((is_active w && is_complete w now) ≡ false)

module _ {ℓ} {A : Type ℓ} (p : A → Bool) (key : A → ℕ) (y : A) where
  select_zero : (xs : List A) → count_where p xs ≤ 0 → select p xs ≡ []
  select_zero [] h = refl
  select_zero (x ∷ xs) h = ground (arith, select_zero xs)

  -- Where one row at most meets the test, it is the latest of those that do.
  only_one :
      (xs : List A)
      → count_where p xs ≤ 1
      → latest key (select p xs) ≡ some y
      → All (λ z. z ≡ y) (select p xs)
  only_one [] h e = tt
  only_one (x ∷ xs) h e = elim (Bool-cases (p x)) [
    | inl hit ↦
        let alone : select p (x ∷ xs) ≡ x ∷ [] =
          rw (hit, select_zero xs (ground (arith, hit, h))) refl in
        subst (λ l. All (λ z. z ≡ y) l) (sym alone)
          (ground (arith, sym (ap (latest key) alone) ∙ e), tt)
    | inr miss ↦
        let others : select p (x ∷ xs) ≡ select p xs = rw miss refl in
        subst (λ l. All (λ z. z ≡ y) l) (sym others)
          (only_one xs (ground (arith, miss, h)) (sym (ap (latest key) others) ∙ e))
  ]

-- With one open window at most, completing it leaves none open.
completed_none :
    (now : ℕ) (ws : List PenaltyWindow) (w : PenaltyWindow)
    → count_where is_open ws ≤ 1
    → find_open_window ws ≡ some w
    → find_open_window (update_where (has_id w.id) (close_window now) ws) ≡ none
unfolding find_open_window
completed_none now ws w h e =
    let none_left : All (λ z. is_open z ≡ false)
        (update_where (has_id w.id) (close_window now) ws) =
      All-update_where {P = λ z. is_open z ≡ true → z ≡ w} (has_id w.id) (close_window now) ws
        (λ z only hit. refl)
        (λ z only miss. elim (Bool-cases (is_open z)) [
          | inl o ↦ cc (sym miss ∙ ap (λ x. has_id w.id x) (only o) ∙ ==_self w.id)
          | inr c ↦ c
        ])
        (All-of_select (λ z. z ≡ w) is_open ws
          (only_one is_open (λ x. iso_key x.created_at) w ws h e)) in
    ap (latest (λ x. iso_key x.created_at))
      (select_none is_open (update_where (has_id w.id) (close_window now) ws) none_left)

module _ (now : ℕ) (t : Tables) where
  settle_no_window : find_open_window t.penalty_windows ≡ none → settle now t ≡ (ok none, t)
  unfolding settle
  settle_no_window e = ground (arith, e)

  abbrev after_settle : PenaltyWindow → Result EngineError (Option PenaltyWindow) × Tables
  after_settle window =
      if is_active window && is_complete window now
      then (complete_window window.id now then_do λ _ t'. (ok none, t')) t
      else (ok (some window), t)

  settle_window :
      (v : PenaltyWindow)
      → find_open_window t.penalty_windows ≡ some v
      → settle now t ≡ after_settle v
  unfolding settle
  settle_window v e = ap (λ o. elim o [ none ↦ (ok none, t) | some window ↦ after_settle window ]) e

  abbrev completed_tables : ℕ → Tables
  completed_tables id = record t {
    penalty_windows = update_where (has_id id) (close_window now) t.penalty_windows;
    domain_events =
        record { payload = penalty_window_completed id countdown_complete; occurred_at = now }
        ∷ t.domain_events;
  }

  complete_window_lem : (id : ℕ) → complete_window id now t ≡ (ok tt, completed_tables id)
  unfolding complete_window apply_transition
  complete_window_lem id = refl

  settle_due :
      (v : PenaltyWindow)
      → (is_active v && is_complete v now) ≡ true
      → after_settle v ≡ (ok none, completed_tables v.id)
  settle_due v due =
      rw due
        (then_do_ok (complete_window v.id now) (λ _ t'. (ok none, t')) (complete_window_lem v.id))

  settle_not_due :
      (v : PenaltyWindow)
      → (is_active v && is_complete v now) ≡ false
      → after_settle v ≡ (ok (some v), t)
  settle_not_due v not_due = rw not_due refl

  settle-IsSettled :
      IsFreezeSet t
      → (r : Option PenaltyWindow) × ((settle now t).0 ≡ ok r)
        × IsSettled now r (settle now t).1
        × ((settle now t).1.freeze_periods ≡ t.freeze_periods)
  settle-IsSettled inv = elim (Option-cases (find_open_window t.penalty_windows)) [
    | inl e ↦ rw (settle_no_window e) (none, refl, e, refl)
    | inr (v, e) ↦ elim (Bool-cases (is_active v && is_complete v now)) [
      | inl due ↦
          let same : settle now t ≡ (ok none, completed_tables v.id) =
            settle_window v e ∙ settle_due v due in
          rw same (none, refl, completed_none now t.penalty_windows v inv.one_open e, refl)
      | inr not_due ↦
          let same : settle now t ≡ (ok (some v), t) =
            settle_window v e ∙ settle_not_due v not_due in
          rw same (some v, refl, (e, not_due), refl)
    ]
  ]

reconcile_window :
    (now : ℕ) (t : Tables) (v : PenaltyWindow)
    → find_open_window t.penalty_windows ≡ some v
    → ensure_current_state now t ≡ (close_expired_freezes v.id now then_do λ _. settle now) t
unfolding ensure_current_state
reconcile_window now t v e =
    ap
      (λ o. elim o [
        | none ↦ (ok none, t)
        | some window ↦ (close_expired_freezes window.id now then_do λ _. settle now) t
      ])
      e

-- In tables where ids are distinct and below the next one, at most one window is open and a window is
-- frozen exactly while a reason is open: with a window open, `ensure_current_state` returns. Behind
-- it, every freeze period of that window that has expired by the instant, as the table compares
-- instants, is closed; and what it returns is the open window as the tables then are, which is not
-- active with its countdown run out, or nothing where no window is open any more.
pub ensure_current_state-IsSettled :
    (now : ℕ) (t : Tables) (v : PenaltyWindow)
    → IsFreezeSet t
    → find_open_window t.penalty_windows ≡ some v
    → (r : Option PenaltyWindow) × ((ensure_current_state now t).0 ≡ ok r)
      × IsSettled now r (ensure_current_state now t).1
      × All (λ f. is_overdue v.id now f ≡ false) (ensure_current_state now t).1.freeze_periods
ensure_current_state-IsSettled now t v inv e =
    let (returned, none_due) = close_expired_freezes-none_overdue v.id now t inv in
    let s = (close_expired_freezes v.id now t).1 in
    let (r, settled, state, kept) =
      settle-IsSettled now s (close_expired_freezes-IsFreezeSet t v.id now inv) in
    rw
      (reconcile_window now t v e
        ∙ then_do_ok (close_expired_freezes v.id now) (λ _. settle now) (ap (λ x. (x, s)) returned))
      (r, settled, state, rw kept none_due)

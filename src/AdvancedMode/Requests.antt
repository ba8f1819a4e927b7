-- ===== src/AdvancedMode/Requests.antt =====
-- advanced_mode/repository.py: the steps of a request, and what a confirmation does.
use ai_coach_keyholder.Prelude.{
  ok, ℕ, ◌≡◌, refl, Bool, true, false, some, err, arith, Bool-cases, Option-cases, inl, inr, ◌⊎◌,
}
use ai_coach_keyholder.AdvancedMode.Models.{
  ModeTransitionRequest, ModeTransitionStatus, blocked_by_penalty_window, waiting,
  paused_by_penalty_window, awaiting_confirmation, cancelled, completed, invalidated,
  compute_next_state, OperatingMode, standard, advanced, ModeTables, ModeError, is_confirmable,
  empty_consent, no_active_transition, not_confirmable, source_mode_mismatch,
  interrupted_by_penalty_window,
}
use ai_coach_keyholder.AdvancedMode.{
  status_value, is_awaiting, eq_mode, has_request_id, confirm_row, confirm_write,
  confirm_transition,
}
use ai_coach_keyholder.Prelude.Lists.{find}
use ai_coach_keyholder.Infrastructure.Transaction.{apply_transition}

status_cases :
    (r : ModeTransitionRequest) (pw : Bool) (now : ℕ) (s : ModeTransitionStatus)
    → r.status ≡ s
    → compute_next_state (compute_next_state r pw now) pw now ≡ compute_next_state r pw now
unfolding compute_next_state
status_cases r false now blocked_by_penalty_window e = ground (arith, e)
status_cases r true now blocked_by_penalty_window e = ground (arith, e)
status_cases r false now waiting e = elim (Bool-cases (is_confirmable r.confirmable_at now)) [
  | inl over ↦ ground (arith, e, over)
  | inr early ↦ ground (arith, e, early)
]
status_cases r true now waiting e = ground (arith, e)
status_cases r false now paused_by_penalty_window e = ground (arith, e)
status_cases r true now paused_by_penalty_window e = ground (arith, e)
status_cases r false now awaiting_confirmation e = ground (arith, e)
status_cases r true now awaiting_confirmation e = ground (arith, e)
status_cases r pw now cancelled e = ground (arith, e)
status_cases r pw now completed e = ground (arith, e)
status_cases r pw now invalidated e = ground (arith, e)

same_status :
    (r : ModeTransitionRequest) (pw : Bool) (now : ℕ) (s : ModeTransitionStatus)
    → r.status ≡ s
    → status_value (compute_next_state r pw now).status ≡ status_value r.status
    → compute_next_state r pw now ≡ r
unfolding compute_next_state
same_status r false now blocked_by_penalty_window e h = ground (arith, e, h)
same_status r true now blocked_by_penalty_window e h = ground (arith, e, h)
same_status r false now waiting e h = ground (arith, e, h)
same_status r true now waiting e h = ground (arith, e, h)
same_status r false now paused_by_penalty_window e h = ground (arith, e, h)
same_status r true now paused_by_penalty_window e h = ground (arith, e, h)
same_status r false now awaiting_confirmation e h = ground (arith, e, h)
same_status r true now awaiting_confirmation e h = ground (arith, e, h)
same_status r pw now cancelled e h = ground (arith, e)
same_status r pw now completed e h = ground (arith, e)
same_status r pw now invalidated e h = ground (arith, e)

-- A second step at the same instant, with the same answer on a window, changes nothing. A step that
-- keeps the status changes nothing at all.
pub compute_next_state_again :
    (r : ModeTransitionRequest) (pw : Bool) (now : ℕ)
    → (compute_next_state (compute_next_state r pw now) pw now ≡ compute_next_state r pw now)
      × (status_value (compute_next_state r pw now).status ≡ status_value r.status
          → compute_next_state r pw now ≡ r)
compute_next_state_again r pw now =
    (status_cases r pw now r.status refl, same_status r pw now r.status refl)

eq_mode_lem : (a b : OperatingMode) → eq_mode a b ≡ true → a ≡ b
eq_mode_lem standard standard h = refl
eq_mode_lem standard advanced h = cc
eq_mode_lem advanced standard h = cc
eq_mode_lem advanced advanced h = refl

is_awaiting_lem : (s : ModeTransitionStatus) → is_awaiting s ≡ true → s ≡ awaiting_confirmation
is_awaiting_lem awaiting_confirmation h = refl
is_awaiting_lem blocked_by_penalty_window h = cc
is_awaiting_lem waiting h = cc
is_awaiting_lem paused_by_penalty_window h = cc
is_awaiting_lem cancelled h = cc
is_awaiting_lem completed h = cc
is_awaiting_lem invalidated h = cc

module _ (is_blank : ℕ → Bool) (request_id : ℕ) (pw : Bool) (consent_id now : ℕ)
    (t : ModeTables) where
  abbrev pub Refuses : ModeError → Type 0
  Refuses e =
      ((confirm_transition is_blank request_id pw consent_id now t).0 ≡ err e)
      × ((confirm_transition is_blank request_id pw consent_id now t).1.mode_state ≡ t.mode_state)

  abbrev pub Confirms : ModeTransitionRequest → Type 0
  Confirms r =
      (find (has_request_id request_id) t.requests ≡ some r)
      × (r.status ≡ awaiting_confirmation)
      × (t.mode_state.current_mode ≡ r.source_mode)
      × (pw ≡ false)
      × ((confirm_transition is_blank request_id pw consent_id now t).0
          ≡ ok (record r {
            status = completed;
            confirmed_at = some now;
            confirmed_via_consent_id = some consent_id;
            resolved_at = some now;
          }))
      × ((confirm_transition is_blank request_id pw consent_id now t).1.mode_state
          ≡ record { current_mode = r.target_mode; mode_activated_at = now })

  confirm_found :
      (r : ModeTransitionRequest)
      → is_blank consent_id ≡ false
      → find (has_request_id request_id) t.requests ≡ some r
      → ((e : ModeError) × Refuses e) ⊎ Confirms r
  unfolding confirm_transition apply_transition confirm_write confirm_row
  confirm_found r given found = elim (Bool-cases (is_awaiting r.status)) [
    | inr other ↦ inl (
      not_confirmable,
      (ground (arith, given, found, other), ground (arith, given, found, other)),
    )
    | inl awaits ↦ elim (Bool-cases (eq_mode t.mode_state.current_mode r.source_mode)) [
      | inr differs ↦ inl (
        source_mode_mismatch,
        (
          ground (arith, given, found, awaits, differs),
          ground (arith, given, found, awaits, differs),
        ),
      )
      | inl same ↦ elim (Bool-cases pw) [
        | inl window ↦ inl (
          interrupted_by_penalty_window,
          (
            ground (arith, given, found, awaits, same, window),
            ground (arith, given, found, awaits, same, window),
          ),
        )
        | inr free ↦ inr (
          found,
          is_awaiting_lem r.status awaits,
          eq_mode_lem t.mode_state.current_mode r.source_mode same,
          free,
          ground (arith, given, found, awaits, same, free),
          ground (arith, given, found, awaits, same, free),
        )
      ]
    ]
  ]

  -- Either a confirmation raises and leaves the operating mode as it was, or the request that its id
  -- finds awaits confirmation, it is from the current mode, no window is active or frozen, the
  -- completed request is returned, and the mode is the one it asks for, from this instant.
  pub confirm_transition-mode :
      ((e : ModeError) × Refuses e) ⊎ ((r : ModeTransitionRequest) × Confirms r)
  unfolding confirm_transition apply_transition confirm_write
  confirm_transition-mode = elim (Bool-cases (is_blank consent_id)) [
    | inl blank ↦ inl (empty_consent, (rw blank refl, rw blank refl))
    | inr given ↦ elim (Option-cases (find (has_request_id request_id) t.requests)) [
      | inl missing ↦
          inl
            (no_active_transition, (ground (arith, given, missing), ground (arith, given, missing)))
      | inr (r, found) ↦ elim (confirm_found r given found) [
        | inl refused ↦ inl refused
        | inr done ↦ inr (r, done)
      ]
    ]
  ]

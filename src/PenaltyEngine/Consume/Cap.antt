-- ===== src/PenaltyEngine/Consume/Cap.antt =====
-- penalty_engine/repository.py: extensions never take a window past the cap on its target.
use ai_coach_keyholder.Prelude.{
  ℕ, suc, ◌≡◌, refl, subst, sym, Bool, true, false, some, List, ◌∷◌, ok, arith, ==_self, Bool-cases,
  Option-cases, inl, inr,
}
use ai_coach_keyholder.Prelude.Int.{pos, ◌≤ℤ◌, ◌+ℤ◌, max_ℤ, int_laws, ltb_ℤ}
use ai_coach_keyholder.Prelude.Lists.{All, exists, find, update_where}
use ai_coach_keyholder.Prelude.Rows.{All-both, All-update_where, Distinct, found_rows, exists_fresh}
use ai_coach_keyholder.PenaltyEngine.Models.{
  Hours, PenaltyWindow, SeverityTier, CooperationAssessment,
}
use ai_coach_keyholder.PenaltyEngine.Window.{max_target_active_hours}
use ai_coach_keyholder.PenaltyEngine.Extension.{should_extend}
use ai_coach_keyholder.PenaltyEngine.Extension.Floor.{should_extend_bounds}
use ai_coach_keyholder.PenaltyEngine.Store.{Tables, has_id, find_open_window}
use ai_coach_keyholder.PenaltyEngine.Consume.{
  is_incident, new_window, window_for_incident, remaining_capacity, extension_context,
  add_extension, consume_confirmed_incident,
}
use ai_coach_keyholder.PenaltyEngine.Consume.Once.{
  again, transition, decision, consumed_tables, consume_new_incident-ok,
}
use ai_coach_keyholder.PenaltyEngine.FreezeSet.{window_key, IsFreezeSet}
use ai_coach_keyholder.PenaltyEngine.FreezeSet.Completing.{find_open_window-find}

-- The extensions of a window are not negative, and with its base they are within the cap.
abbrev pub IsCapped : PenaltyWindow → Type 0
IsCapped w =
    (pos 0 ≤ℤ w.extensions_hours)
    × (w.base_duration_hours +ℤ w.extensions_hours ≤ℤ max_target_active_hours)

remaining_capacity_nonneg : (w : PenaltyWindow) → pos 0 ≤ℤ remaining_capacity w
unfolding remaining_capacity max_ℤ
remaining_capacity_nonneg w = grind int_laws

add_extension-IsCapped :
    (w : PenaltyWindow) (hours : Hours)
    → IsCapped w
    → pos 0 ≤ℤ hours
    → hours ≤ℤ remaining_capacity w
    → IsCapped (add_extension hours w)
unfolding remaining_capacity max_ℤ
add_extension-IsCapped w hours capped h k = grind int_laws

update_where-IsCapped :
    (w : PenaltyWindow) (hours : Hours) (ws : List PenaltyWindow)
    → Distinct window_key ws
    → find (has_id w.id) ws ≡ some w
    → pos 0 ≤ℤ hours
    → hours ≤ℤ remaining_capacity w
    → All IsCapped ws
    → All IsCapped (update_where (has_id w.id) (add_extension hours) ws)
update_where-IsCapped w hours ws d found h k capped =
    All-update_where {P = λ v. IsCapped v × (has_id w.id v ≡ true → v ≡ w)} {Q = IsCapped}
      (has_id w.id) (add_extension hours) ws
      (λ v p hit.
        subst (λ u. IsCapped (add_extension hours u)) (sym (p.1 hit))
          (add_extension-IsCapped w hours (subst IsCapped (p.1 hit) p.0) h k))
      (λ v p miss. p.0)
      (All-both {P = IsCapped} ws (λ v a b. (a, b)) capped
        (found_rows window_key w.id w ws d found))

decided_bounds :
    (w : PenaltyWindow) (severity : SeverityTier) (c : CooperationAssessment) (count : ℕ)
    → (pos 0 ≤ℤ (should_extend (extension_context w severity c count)).assigned_hours)
      × ((should_extend (extension_context w severity c count)).assigned_hours
          ≤ℤ remaining_capacity w)
unfolding extension_context
decided_bounds w severity c count =
    should_extend_bounds (extension_context w severity c count) (remaining_capacity_nonneg w)

module _ (incident_id trust_domain rule_group_id : ℕ) (severity : SeverityTier)
    (c : CooperationAssessment) (now : ℕ) (base : Hours) (t : Tables) (inv : IsFreezeSet t)
    (base_le : base ≤ℤ max_target_active_hours) (capped : All IsCapped t.penalty_windows) where
  -- The windows before the extension: the found one is the one with its id, and all are capped.
  opened_lem :
      (window : PenaltyWindow) × (started : Bool) × (opened : Tables) × (window_for_incident now
          base t
        ≡ ok ((window, started), opened))
      × Distinct window_key opened.penalty_windows
      × (find (has_id window.id) opened.penalty_windows ≡ some window)
      × All IsCapped opened.penalty_windows
  unfolding window_for_incident
  opened_lem = elim (Option-cases (find_open_window t.penalty_windows)) [
    | inl e ↦ (
      new_window t.next_id now base,
      true,
      record t {
        penalty_windows = new_window t.next_id now base ∷ t.penalty_windows;
        next_id = suc t.next_id;
      },
      ground (arith, e),
      (exists_fresh window_key t.next_id t.penalty_windows inv.windows_fresh, inv.window_ids),
      rw (==_self t.next_id) refl,
      ((omega arith, grind (int_laws, base_le)), capped),
    )
    | inr (w, e) ↦ (
      w,
      false,
      t,
      ground (arith, e),
      inv.window_ids,
      find_open_window-find t.penalty_windows w inv.window_ids e,
      capped,
    )
  ]

  -- In tables where the ids are distinct, at most one window is open and a window is frozen exactly
  -- while a reason is open, and with a base duration within the cap for a window that is started: if
  -- no window's extensions are negative or take it past 336 hours, then so it is behind the
  -- consumption of an incident, whatever the incident and however many were consumed.
  pub consume_confirmed_incident-IsCapped :
      All IsCapped
        (consume_confirmed_incident incident_id trust_domain rule_group_id severity c now base
          t).1.penalty_windows
  unfolding consumed_tables decision
  consume_confirmed_incident-IsCapped =
      elim (Bool-cases (exists (is_incident incident_id) t.incident_consumption)) [
        | inl h ↦ rw (again incident_id trust_domain rule_group_id severity c now base t h) capped
        | inr h ↦
            let (window, started, opened, into, distinct, found, all) = opened_lem in
            let (w, windows, e, f) =
              consume_new_incident-ok incident_id trust_domain rule_group_id severity c now base t
                window started opened into in
            let (es, whole) =
              transition incident_id trust_domain rule_group_id severity c now base t _ _ h e in
            rw (whole, f)
              (elim (Bool-cases (
                ltb_ℤ (pos 0)
                  (decision incident_id trust_domain rule_group_id severity c now base t window
                    started opened into).assigned_hours)) [
                      | inl longer ↦ rw longer (
                          update_where-IsCapped window _ opened.penalty_windows distinct found
                            (decided_bounds window severity c _).0
                            (decided_bounds window severity c _).1 all)
                      | inr same ↦ rw same all
                    ])
      ]

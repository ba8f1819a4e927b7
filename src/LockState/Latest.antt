-- ===== src/LockState/Latest.antt =====
-- lock_state/repository.py: the state that is read is the one that was reported last.
use ai_coach_keyholder.Prelude.{
  ℕ, ◌+◌, ◌<◌, suc, Option-cases, ◌≡◌, sym, subst, refl, Bool, false, some, List, [], ◌∷◌, ok, err,
  ◌==◌, ◌||◌, ==_self, Bool-cases, inl, inr, arith, ap, ◌⊎◌, ◌∙◌,
}
use ai_coach_keyholder.Prelude.Lists.{All, exists, select, latest}
use ai_coach_keyholder.Prelude.Rows.{All-map, All-latest}
use ai_coach_keyholder.Infrastructure.Transaction.{apply_transition}
use ai_coach_keyholder.LockState.{
  LockReport, LockReportStatus, LockTables, value_error, integrity_error, is_report_of,
  max_sequence, get_current_report, report_write, report_status,
}

latest_first :
    {A : Type 0} (key : A → ℕ) (x : A) (xs : List A)
    → All (λ y. key y < key x) xs
    → latest key (x ∷ xs) ≡ some x
latest_first key x xs a = elim (Option-cases (latest key xs)) [
  | inl e ↦ ground (arith, e)
  | inr (y, e) ↦ ground (arith, e, All-latest (λ y. key y < key x) key xs y a e)
]

below_max : (rs : List LockReport) → All (λ r. r.sequence_number < max_sequence rs + 1) rs
below_max [] = tt
below_max (r ∷ rs) = (ground arith, All-map rs (λ q h. ground (arith, h)) (below_max rs))

module _ (is_blank : ℕ → Bool) (user_id : ℕ) (status : LockReportStatus) (consent_id now : ℕ)
    (t : LockTables) where
  new_report : LockReport
  new_report = record {
    id = t.next_id;
    user_id = user_id;
    status = status;
    sequence_number = max_sequence (select (is_report_of user_id) t.lock_reports) + 1;
    reported_at = now;
    reported_via_consent_id = consent_id;
  }

  behind : LockTables
  behind = record t { lock_reports = new_report ∷ t.lock_reports; next_id = suc t.next_id }

  report_status-cases :
      (((report_status is_blank user_id status consent_id now t).0 ≡ err value_error)
        ⊎ ((report_status is_blank user_id status consent_id now t).0 ≡ err integrity_error))
      ⊎ ((report_status is_blank user_id status consent_id now t ≡ (ok new_report, behind))
          × (is_blank user_id ≡ false))
  unfolding report_status apply_transition report_write new_report behind
  report_status-cases = elim (Bool-cases (is_blank user_id || is_blank consent_id)) [
    | inl blank ↦ rw blank (inl (inl refl))
    | inr named ↦ elim (Bool-cases (exists (λ account. account == user_id) t.user_accounts)) [
      | inl known ↦ rw named (inr (ground (arith, known), ground (arith, named)))
      | inr missing ↦ rw named (inl (inr (ground (arith, missing))))
    ]
  ]

  abbrev pub Reported : LockReport → LockTables → ℕ → Type 0
  Reported r after other =
      (after.lock_reports ≡ r ∷ t.lock_reports)
      × (r.status ≡ status)
      × (get_current_report is_blank user_id after ≡ ok (some r))
      × (get_current_report is_blank other after ≡ get_current_report is_blank other t)
      × All (λ q. q.sequence_number < r.sequence_number)
          (select (is_report_of user_id) t.lock_reports)

  behind_lem :
      (other : ℕ)
      → is_blank user_id ≡ false
      → (other == user_id) ≡ false
      → Reported new_report behind other
  unfolding new_report behind get_current_report
  behind_lem other named differs =
      let below = below_max (select (is_report_of user_id) t.lock_reports) in
      (
        refl,
        refl,
        rw (named, ==_self user_id)
            (ap ok (
              latest_first (λ r. r.sequence_number) new_report
                (select (is_report_of user_id) t.lock_reports) below)),
        ground (arith, differs),
        below,
      )

  -- A report that is accepted adds its row before the others, which all stay. Behind it the state
  -- that is read of the user is the reported one, that of any other user is what it was, and the row's
  -- number is above every earlier one of the user.
  pub report_status-latest :
      (r : LockReport) (other : ℕ)
      → (report_status is_blank user_id status consent_id now t).0 ≡ ok r
      → (other == user_id) ≡ false
      → Reported r (report_status is_blank user_id status consent_id now t).1 other
  report_status-latest r other h differs = elim report_status-cases [
    | inl (inl e) ↦ cc
    | inl (inr e) ↦ cc
    | inr (e, named) ↦
        subst (λ q. Reported q (report_status is_blank user_id status consent_id now t).1 other)
          (ap (λ x. elim x [ ok q ↦ q | err e ↦ new_report ]) (sym (ap (λ p. p.0) e) ∙ h))
          (rw e (behind_lem other named differs))
  ]

-- ===== src/LockState/Tests.antt =====
-- A run of lock_state/, and its property at it.
use ai_coach_keyholder.Prelude.{ℕ, ◌≡◌, refl, Bool, [], ◌∷◌, ok, ◌==◌}
use ai_coach_keyholder.Infrastructure.Transaction.{apply_transition}
use ai_coach_keyholder.LockState.{
  LockReport, LockTables, locked_user_reported, unlocked_user_reported, report_status, report_write,
}
use ai_coach_keyholder.LockState.Latest.{Reported, report_status-latest}

-- The number 0 stands for the empty text.
abbrev is_zero : ℕ → Bool
is_zero n = n == 0

abbrev earlier : LockReport
earlier = record {
  id = 0;
  user_id = 1;
  status = unlocked_user_reported;
  sequence_number = 1;
  reported_at = 5;
  reported_via_consent_id = 3;
}

abbrev reports : LockTables
reports = record { lock_reports = earlier ∷ []; user_accounts = 1 ∷ 2 ∷ []; next_id = 1 }

abbrev later : LockReport
later = record {
  id = 1;
  user_id = 1;
  status = locked_user_reported;
  sequence_number = 2;
  reported_at = 9;
  reported_via_consent_id = 4;
}

reported_test : (report_status is_zero 1 locked_user_reported 4 9 reports).0 ≡ ok later
unfolding report_status report_write apply_transition
reported_test = refl

report_status-latest_example :
    Reported is_zero 1 locked_user_reported 4 9 reports later
      (report_status is_zero 1 locked_user_reported 4 9 reports).1
      2
report_status-latest_example =
    report_status-latest is_zero 1 locked_user_reported 4 9 reports later 2 reported_test refl

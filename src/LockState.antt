-- ===== src/LockState.antt =====
-- lock_state/models.py and lock_state/repository.py: what the user reported of the lock.

pub mod Latest
mod Tests
use ai_coach_keyholder.Prelude.{
  ℕ, suc, ◌+◌, max, ⊤, Bool, Option, none, some, List, [], ◌∷◌, Result, ok, err, ◌==◌, ◌||◌,
  if◌then◌else◌, not,
}
use ai_coach_keyholder.Prelude.Lists.{exists, select, latest}
use ai_coach_keyholder.Infrastructure.Transaction.{
  Tx, Method, gets, modify, pure, raise_if, ◌>>=◌, ◌>>◌, apply_transition,
}

pub data LockReportStatus : Type 0 where
  locked_user_reported unlocked_user_reported : LockReportStatus

pub data LockKnowledgeState : Type 0 where
  locked_reported unlocked_reported unknown : LockKnowledgeState

pub record LockReport : Type 0 where
  pub id : ℕ
  pub user_id : ℕ
  pub status : LockReportStatus
  pub sequence_number : ℕ
  pub reported_at : ℕ
  pub reported_via_consent_id : ℕ

-- The table lock_reports, the newest row first, and the next id.
pub record LockTables : Type 0 where
  pub lock_reports : List LockReport
  pub user_accounts : List ℕ
  pub next_id : ℕ

pub data LockError : Type 0 where
  value_error integrity_error : LockError

abbrev pub is_report_of : ℕ → LockReport → Bool
is_report_of user_id r = r.user_id == user_id

-- COALESCE(MAX(sequence_number), 0)
abbrev pub max_sequence : List LockReport → ℕ
max_sequence [] = 0
max_sequence (r ∷ rs) = max r.sequence_number (max_sequence rs)

-- `is_blank` is the test `not text or not text.strip()` of a text that a number stands for.
module _ (is_blank : ℕ → Bool) where
  unfoldable pub get_current_report : ℕ → LockTables → Result LockError (Option LockReport)
  get_current_report user_id t =
      if is_blank user_id
      then err value_error
      else ok (latest (λ r. r.sequence_number) (select (is_report_of user_id) t.lock_reports))

  abbrev pub knowledge_of : LockReportStatus → LockKnowledgeState
  knowledge_of locked_user_reported = locked_reported
  knowledge_of unlocked_user_reported = unlocked_reported

  abbrev pub knowledge_of_report : Option LockReport → LockKnowledgeState
  knowledge_of_report none = unknown
  knowledge_of_report (some r) = knowledge_of r.status

  unfoldable pub get_current_knowledge_state : ℕ → LockTables → Result LockError LockKnowledgeState
  get_current_knowledge_state user_id t = elim (get_current_report user_id t) [
    | err e ↦ err e
    | ok report ↦ ok (knowledge_of_report report)
  ]

  -- The column user_id refers to user_accounts.
  unfoldable pub report_write : ℕ → LockReportStatus → ℕ → ℕ → Tx LockTables LockError LockReport
  report_write user_id status consent_id now = do
    existing_max ← gets (λ t. max_sequence (select (is_report_of user_id) t.lock_reports))
    id ← gets (λ t. t.next_id)
    let report : LockReport = record {
      id = id;
      user_id = user_id;
      status = status;
      sequence_number = existing_max + 1;
      reported_at = now;
      reported_via_consent_id = consent_id;
    }
    known ← gets (λ t. exists (λ account. account == user_id) t.user_accounts)
    raise_if (not known) integrity_error
    modify λ t. record t { lock_reports = report ∷ t.lock_reports; next_id = suc id }
    pure report

  unfoldable pub report_status :
      ℕ → LockReportStatus → ℕ → ℕ → Method LockTables LockError LockReport
  report_status user_id status consent_id now t =
      if is_blank user_id || is_blank consent_id
      then (err value_error, t)
      else apply_transition {L = ⊤} none none (λ _. report_write user_id status consent_id now) none
          t

-- ===== src/GoalManagement/Governed/Resolving.antt =====
-- goal_management/repository.py: the end of a proposal, by the user or by its time, keeps the invariant.
use ai_coach_keyholder.Prelude.{
  ℕ, ◌≡◌, refl, sym, subst, ◌⊎◌, Bool, true, false, some, List, [], ◌∷◌, ok, err, Bool-cases,
  Option-cases, inl, inr,
}
use ai_coach_keyholder.Prelude.Lists.{find, select, update_where}
use ai_coach_keyholder.Infrastructure.Transaction.{write_and_events, gets, pure, ◌>>=◌, ◌>>◌}
use ai_coach_keyholder.Infrastructure.Transaction.Returns.{bind_ok, bind_err}
use ai_coach_keyholder.Infrastructure.Transaction.Keeps.{
  Leaves, Leaves-bind, write_and_events_keeps, then_do_keeps,
}
use ai_coach_keyholder.GoalManagement.Models.{
  GoalError, GoalProposalStatus, accepted, declined, expired, GoalChangeProposal, GoalTables,
  GoalAction, proposal_resolved, proposal_not_found, invalid_proposal_state, write_event,
  has_proposal_id, is_content_of, is_pending,
}
use ai_coach_keyholder.GoalManagement.Proposals.{
  resolve, resolve_pending, resolve_without_effect, decline_proposal, apply_change, accept_write,
  accept_proposal,
}
use ai_coach_keyholder.GoalManagement.Reads.{
  is_overdue, proposal_ids, expire_each, recover_goal_management_state,
}
use ai_coach_keyholder.GoalManagement.Governed.{is_accepted, IsGoverned}
use ai_coach_keyholder.GoalManagement.Governed.Accepting.{nothing_granted}
use ai_coach_keyholder.GoalManagement.Governed.Applying.{apply_change-IsGoverned}

module _ (proposal_id : ℕ) (target : GoalProposalStatus) (now : ℕ) (t : GoalTables) where
  -- What `resolve_pending` did where it returned.
  resolve_pending-cases :
      ((e : GoalError) × (resolve_pending proposal_id target now t ≡ err e))
      ⊎ ((row : GoalChangeProposal) × (find (has_proposal_id proposal_id) t.goal_change_proposals
            ≡ some row)
          × (is_pending row.status ≡ true)
          × (resolve_pending proposal_id target now t
              ≡ ok (
                row,
                record t {
                  goal_change_proposals =
                      update_where
                        (has_proposal_id proposal_id)
                        (resolve target now)
                        t.goal_change_proposals;
                },
              )))
  unfolding resolve_pending
  resolve_pending-cases =
      elim (Option-cases (find (has_proposal_id proposal_id) t.goal_change_proposals)) [
        | inl missing ↦ inl (proposal_not_found proposal_id, rw (missing, resolve_pending) refl)
        | inr (row, found) ↦ elim (Bool-cases (is_pending row.status)) [
          | inr refused ↦ inl (
            invalid_proposal_state proposal_id row.status,
            rw (found, resolve_pending) (rw refused refl),
          )
          | inl waits ↦ inr (row, found, waits, rw (found, resolve_pending) (rw waits refl))
        ]
      ]

module _ (t : GoalTables) (v : IsGoverned t) where
  resolve_without_effect-IsGoverned :
      (proposal_id : ℕ) (target : GoalProposalStatus) (now : ℕ)
      → is_accepted target ≡ false
      → IsGoverned (resolve_without_effect proposal_id target now t).1
  unfolding resolve_without_effect
  resolve_without_effect-IsGoverned proposal_id target now idle =
      then_do_keeps IsGoverned
        (write_and_events (resolve_pending proposal_id target now)
          (λ row. write_event now (proposal_resolved proposal_id row.goal_group_id target)))
        (λ _ s. (ok tt, s)) t
        (write_and_events_keeps IsGoverned (resolve_pending proposal_id target now)
          (λ row. write_event now (proposal_resolved proposal_id row.goal_group_id target)) t v
          (elim (resolve_pending-cases proposal_id target now t) [
            | inl (e, raised) ↦ subst (Leaves IsGoverned) (sym raised) tt
            | inr (row, found, waits, done) ↦ subst (Leaves IsGoverned) (sym done) (
                nothing_granted t v proposal_id now row found waits target (rw idle refl)
                  (rw idle refl) (rw idle refl))
          ])
          (λ r s p. p))
        (λ _ s p. p)

  pub decline_proposal-IsGoverned :
      (proposal_id now : ℕ) → IsGoverned (decline_proposal proposal_id now t).1
  unfolding decline_proposal
  decline_proposal-IsGoverned proposal_id now =
      resolve_without_effect-IsGoverned proposal_id declined now refl

expire_each-IsGoverned :
    (ids : List ℕ) (now : ℕ) (t : GoalTables) → IsGoverned t → IsGoverned (expire_each ids now t).1
unfolding expire_each
expire_each-IsGoverned [] now t v = v
expire_each-IsGoverned (id ∷ ids) now t v =
    then_do_keeps IsGoverned (resolve_without_effect id expired now) (λ _. expire_each ids now) t
      (resolve_without_effect-IsGoverned t v id expired now refl)
      (λ _ s p. expire_each-IsGoverned ids now s p)

pub recover_goal_management_state-IsGoverned :
    (now : ℕ) (t : GoalTables) → IsGoverned t → IsGoverned (recover_goal_management_state now t).1
unfolding recover_goal_management_state
recover_goal_management_state-IsGoverned now t v =
    let overdue = proposal_ids (select (is_overdue now) t.goal_change_proposals) in
    then_do_keeps IsGoverned (expire_each overdue now) (λ _ s. (ok overdue, s)) t
      (expire_each-IsGoverned overdue now t v) (λ _ s p. p)

module _ (is_empty : ℕ → Bool) (t : GoalTables) (v : IsGoverned t) where
  -- What follows the resolution in `accept_write`.
  abbrev accept_rest : ℕ → ℕ → GoalChangeProposal → GoalAction GoalChangeProposal
  accept_rest proposal_id now row = do
    content ← gets (λ t. find (is_content_of proposal_id) t.goal_change_proposal_contents)
    apply_change is_empty row.proposed_change row.goal_group_id content now
    pure row

  accept_write-IsGoverned :
      (proposal_id now : ℕ) → Leaves IsGoverned (accept_write is_empty proposal_id now t)
  unfolding accept_write
  accept_write-IsGoverned proposal_id now =
      elim (resolve_pending-cases proposal_id accepted now t) [
        | inl (e, raised) ↦
            subst (Leaves IsGoverned)
              (sym (
                bind_err (resolve_pending proposal_id accepted now) (accept_rest proposal_id now)
                  raised))
              tt
        | inr (row, found, waits, done) ↦
            let content = find (is_content_of proposal_id) t.goal_change_proposal_contents in
            subst (Leaves IsGoverned)
              (sym (
                bind_ok (resolve_pending proposal_id accepted now) (accept_rest proposal_id now)
                  done))
              (Leaves-bind IsGoverned
                (apply_change is_empty row.proposed_change row.goal_group_id content now)
                (λ _. pure row)
                (record t {
                  goal_change_proposals =
                      update_where (has_proposal_id proposal_id) (resolve accepted now)
                        t.goal_change_proposals;
                })
                (apply_change-IsGoverned is_empty t v proposal_id now row found waits content
                  row.proposed_change refl)
                (λ _ s p. p))
      ]

  pub accept_proposal-IsGoverned :
      (proposal_id now : ℕ) → IsGoverned (accept_proposal is_empty proposal_id now t).1
  unfolding accept_proposal
  accept_proposal-IsGoverned proposal_id now =
      then_do_keeps IsGoverned
        (write_and_events (accept_write is_empty proposal_id now)
          (λ row. write_event now (proposal_resolved proposal_id row.goal_group_id accepted)))
        (λ _ s. (ok tt, s)) t
        (write_and_events_keeps IsGoverned (accept_write is_empty proposal_id now)
          (λ row. write_event now (proposal_resolved proposal_id row.goal_group_id accepted)) t v
          (accept_write-IsGoverned proposal_id now) (λ r s p. p))
        (λ _ s p. p)

-- ===== src/GoalManagement/Governed/Applying.antt =====
-- goal_management/repository.py: what the acceptance of a proposal does to its goal keeps the invariant.
use ai_coach_keyholder.Prelude.{
  ℕ, suc, ◌≡◌, refl, Bool, true, Option, some, Bool-cases, Option-cases, inl, inr,
}
use ai_coach_keyholder.Prelude.Lists.{find, update_where}
use ai_coach_keyholder.Infrastructure.Transaction.Keeps.{Leaves, Leaves-bind}
use ai_coach_keyholder.GoalManagement.Models.{
  coach_proposed_user_approved, abandoned, goal_abandoned, write_event, replaced, GoalError,
  GoalInterventionType, adapt_target, increase_support, no_change, propose_replacement,
  propose_abandonment, accepted, GoalChangeProposal, GoalChangeProposalContent, GoalTables,
  has_goal_id, has_version_id, has_proposal_id, is_live, is_active, is_pending,
}
use ai_coach_keyholder.GoalManagement.Lifecycle.{change_goal, with_status, new_goal, first_version}
use ai_coach_keyholder.GoalManagement.Proposals.{
  apply_change, apply_adaptation, apply_replacement, apply_abandonment, adapt_row, replace_row,
  adapted_version, text_or,
}
use ai_coach_keyholder.GoalManagement.Governed.{IsGoverned}
use ai_coach_keyholder.GoalManagement.Governed.Changes.{goal_added}
use ai_coach_keyholder.GoalManagement.Governed.Accepting.{resolved, nothing_granted, adapted, ended}

module _ (is_empty : ℕ → Bool) (t : GoalTables) (v : IsGoverned t) (proposal_id now : ℕ)
    (row : GoalChangeProposal)
    (found : find (has_proposal_id proposal_id) t.goal_change_proposals ≡ some row)
    (waits : is_pending row.status ≡ true) (content : Option GoalChangeProposalContent) where
  abbrev resolved_tables : GoalTables
  resolved_tables = record t {
    goal_change_proposals = resolved t v proposal_id now row found waits accepted;
  }

  apply_adaptation-IsGoverned :
      row.proposed_change ≡ adapt_target
      → Leaves {E = GoalError} IsGoverned
          (apply_adaptation is_empty row.goal_group_id content now resolved_tables)
  unfolding apply_adaptation adapt_row
  apply_adaptation-IsGoverned kind =
      elim (Option-cases (find (has_goal_id row.goal_group_id) t.goals)) [
        | inl missing ↦ rw (missing, apply_adaptation) tt
        | inr (g, gf) ↦ elim (Bool-cases (is_active g.status)) [
          | inr refused ↦ rw (gf, apply_adaptation) (rw refused tt)
          | inl fine ↦
              elim (Option-cases (find (has_version_id g.current_version_id) t.goal_versions)) [
                | inl missing ↦ rw (gf, apply_adaptation) (rw fine (rw missing tt))
                | inr (current, cf) ↦ elim (Option-cases content) [
                  | inl missing ↦ rw (gf, apply_adaptation) (rw fine (rw cf (rw missing tt)))
                  | inr (c, found_content) ↦
                      rw (gf, apply_adaptation)
                        (rw fine (
                          rw cf (
                            rw found_content (
                              adapted t v proposal_id now row found waits g gf
                                (adapted_version is_empty t.next_id row.goal_group_id current c now)
                                current kind cf refl refl refl))))
                ]
              ]
        ]
      ]

  apply_replacement-IsGoverned :
      row.proposed_change ≡ propose_replacement
      → Leaves {E = GoalError} IsGoverned
          (apply_replacement is_empty row.goal_group_id content now resolved_tables)
  unfolding apply_replacement replace_row
  apply_replacement-IsGoverned kind =
      elim (Option-cases (find (has_goal_id row.goal_group_id) t.goals)) [
        | inl missing ↦ rw (missing, apply_replacement) tt
        | inr (g, gf) ↦ elim (Bool-cases (is_live g.status)) [
          | inr refused ↦ rw (gf, apply_replacement) (rw refused tt)
          | inl fine ↦
              elim (Option-cases (find (has_version_id g.current_version_id) t.goal_versions)) [
                | inl missing ↦ rw (gf, apply_replacement) (rw fine (rw missing tt))
                | inr (current, cf) ↦ elim (Option-cases content) [
                  | inl missing ↦ rw (gf, apply_replacement) (rw fine (rw cf (rw missing tt)))
                  | inr (c, found_content) ↦
                      rw (gf, apply_replacement)
                        (rw fine (
                          rw cf (
                            rw found_content (
                              goal_added
                                (record resolved_tables {
                                  goals =
                                      update_where (has_goal_id row.goal_group_id)
                                        (with_status replaced now) t.goals;
                                })
                                (ended t v proposal_id now row found waits g gf replaced now fine
                                  refl (rw kind refl) (rw kind refl) (rw kind refl))
                                (new_goal (suc t.next_id) t.next_id (some row.goal_group_id) now)
                                (first_version t.next_id (suc t.next_id)
                                  (text_or is_empty c.proposed_title current.title)
                                  (text_or is_empty c.proposed_target_description
                                    current.target_description)
                                  current.trust_domain coach_proposed_user_approved now)
                                refl refl refl refl refl refl refl))))
                ]
              ]
        ]
      ]

  abandon_row-IsGoverned :
      row.proposed_change ≡ propose_abandonment
      → Leaves {E = GoalError} IsGoverned
          (change_goal row.goal_group_id is_live (with_status abandoned now) resolved_tables)
  unfolding change_goal
  abandon_row-IsGoverned kind = elim (Option-cases (find (has_goal_id row.goal_group_id) t.goals)) [
    | inl missing ↦ rw (missing, change_goal) tt
    | inr (g, gf) ↦ elim (Bool-cases (is_live g.status)) [
      | inr refused ↦ rw (gf, change_goal) (rw refused tt)
      | inl fine ↦
          rw (gf, change_goal)
            (rw fine (
              ended t v proposal_id now row found waits g gf abandoned now fine refl (rw kind refl)
                (rw kind refl) (rw kind refl)))
    ]
  ]

  apply_abandonment-IsGoverned :
      row.proposed_change ≡ propose_abandonment
      → Leaves {E = GoalError} IsGoverned (apply_abandonment row.goal_group_id now resolved_tables)
  unfolding apply_abandonment
  apply_abandonment-IsGoverned kind =
      Leaves-bind IsGoverned (change_goal row.goal_group_id is_live (with_status abandoned now))
        (λ _. write_event now (goal_abandoned row.goal_group_id)) resolved_tables
        (abandon_row-IsGoverned kind) (λ _ s p. p)

  pub apply_change-IsGoverned :
      (kind : GoalInterventionType)
      → row.proposed_change ≡ kind
      → Leaves {E = GoalError} IsGoverned
          (apply_change is_empty kind row.goal_group_id content now resolved_tables)
  unfolding apply_change
  apply_change-IsGoverned adapt_target e = apply_adaptation-IsGoverned e
  apply_change-IsGoverned propose_replacement e = apply_replacement-IsGoverned e
  apply_change-IsGoverned propose_abandonment e = apply_abandonment-IsGoverned e
  apply_change-IsGoverned increase_support e =
      nothing_granted t v proposal_id now row found waits accepted (rw e refl) (rw e refl)
        (rw e refl)
  apply_change-IsGoverned no_change e =
      nothing_granted t v proposal_id now row found waits accepted (rw e refl) (rw e refl)
        (rw e refl)

-- ===== src/GoalManagement/Governed/Adding.antt =====
-- goal_management/repository.py: the methods that only add rows to a goal keep the invariant.
use ai_coach_keyholder.Prelude.{
  ℕ, suc, ◌<◌, ◌≡◌, refl, Option, List, [], ◌∷◌, arith, Bool-cases, inl, inr,
}
use ai_coach_keyholder.Prelude.Lists.{exists}
use ai_coach_keyholder.Prelude.Rows.{All-map, exists_fresh, exists_below}
use ai_coach_keyholder.Infrastructure.Transaction.Keeps.{Leaves, write_and_events_keeps}
use ai_coach_keyholder.GoalManagement.Models.{
  GoalOutcome, GoalInterventionType, pending, GoalChangeProposal, GoalTables, proposal_created,
  evidence_recorded, evaluation_recorded, write_event, has_goal_id, has_version_id,
}
use ai_coach_keyholder.GoalManagement.Observations.{
  evidence_write, record_evidence, evaluation_write, record_evaluation,
}
use ai_coach_keyholder.GoalManagement.Proposals.{
  is_evaluation, new_proposal, proposal_write, create_change_proposal,
}
use ai_coach_keyholder.GoalManagement.Governed.{Governed, IsGoverned}
use ai_coach_keyholder.GoalManagement.Governed.Changes.{IsGranted-same}

module _ (t : GoalTables) (v : IsGoverned t) where
  proposal_added :
      (p : GoalChangeProposal)
      → p.id ≡ t.next_id
      → p.goal_group_id < t.next_id
      → p.status ≡ pending
      → Governed t.goals t.goal_versions (p ∷ t.goal_change_proposals) (suc (suc t.next_id))
  proposal_added p new below waits = record {
    goals_below = All-map t.goals (λ g h. omega arith) v.goals_below;
    versions_below = All-map t.goal_versions (λ x h. omega arith) v.versions_below;
    proposals_below = (
      (omega (arith, new), omega (arith, below)),
      All-map t.goal_change_proposals (λ q h. (omega (arith, h.0), omega (arith, h.1)))
          v.proposals_below,
    );
    goal_ids = v.goal_ids;
    proposal_ids = (
      exists_fresh (λ q. q.id) p.id t.goal_change_proposals
          (All-map t.goal_change_proposals (λ q h. omega (arith, new, h.0)) v.proposals_below),
      v.proposal_ids,
    );
    granted_goals =
        All-map t.goals
          (λ g.
            IsGranted-same t.goal_versions t.goal_versions t.goal_change_proposals
              (p ∷ t.goal_change_proposals) g (λ x f. f)
              (rw waits (ground arith), rw waits (ground arith), rw waits (ground arith)))
          v.granted_goals;
  }

  proposal_write-IsGoverned :
      (goal_id : ℕ) (change : GoalInterventionType) (reason expires_at : ℕ)
      (evaluation_id title target replacement : Option ℕ) (now : ℕ)
      → Leaves IsGoverned (
          proposal_write goal_id change reason expires_at evaluation_id title target replacement now
            t)
  unfolding proposal_write
  proposal_write-IsGoverned goal_id change reason expires_at evaluation_id title target replacement
        now =
      elim (Bool-cases (is_evaluation evaluation_id t.goal_evaluations)) [
        | inr unknown ↦ rw (unknown, proposal_write) tt
        | inl known ↦ elim (Bool-cases (exists (has_goal_id goal_id) t.goals)) [
          | inr missing ↦ rw (known, proposal_write) (rw missing tt)
          | inl there ↦
              rw (known, proposal_write)
                (rw there (
                  proposal_added
                    (new_proposal t.next_id evaluation_id goal_id change expires_at now) refl
                    (exists_below (λ g. g.goal_group_id) goal_id t.next_id t.goals v.goals_below
                      there)
                    refl))
        ]
      ]

  pub create_change_proposal-IsGoverned :
      (goal_id : ℕ) (change : GoalInterventionType) (reason expires_at : ℕ)
      (evaluation_id title target replacement : Option ℕ) (now : ℕ)
      → IsGoverned
          (create_change_proposal goal_id change reason expires_at evaluation_id title target
            replacement now t).1
  unfolding create_change_proposal
  create_change_proposal-IsGoverned goal_id change reason expires_at evaluation_id title target
        replacement now =
      write_and_events_keeps IsGoverned
        (proposal_write goal_id change reason expires_at evaluation_id title target replacement now)
        (λ result. write_event now (proposal_created result.id goal_id change)) t v
        (proposal_write-IsGoverned goal_id change reason expires_at evaluation_id title target
          replacement now)
        (λ r s p. p)

  -- Rows that the invariant does not read are added behind a new id.
  id_taken : IsGoverned (record t { next_id = suc t.next_id })
  id_taken = record {
    goals_below = All-map t.goals (λ g h. omega arith) v.goals_below;
    versions_below = All-map t.goal_versions (λ x h. omega arith) v.versions_below;
    proposals_below =
        All-map t.goal_change_proposals (λ q h. (omega (arith, h.0), omega (arith, h.1)))
          v.proposals_below;
    goal_ids = v.goal_ids;
    proposal_ids = v.proposal_ids;
    granted_goals = v.granted_goals;
  }

  evidence_write-IsGoverned :
      (goal_id version_id from until : ℕ) (outcome : GoalOutcome) (progress source now : ℕ)
      → Leaves IsGoverned
          (evidence_write goal_id version_id from until outcome progress source now t)
  unfolding evidence_write
  evidence_write-IsGoverned goal_id version_id from until outcome progress source now =
      elim (Bool-cases (exists (has_goal_id goal_id) t.goals)) [
        | inr missing ↦ rw (missing, evidence_write) tt
        | inl there ↦ elim (Bool-cases (exists (has_version_id version_id) t.goal_versions)) [
          | inr missing ↦ rw (there, evidence_write) (rw missing tt)
          | inl known ↦ rw (there, evidence_write) (rw known id_taken)
        ]
      ]

  pub record_evidence-IsGoverned :
      (goal_id version_id from until : ℕ) (outcome : GoalOutcome) (progress source now : ℕ)
      → IsGoverned (record_evidence goal_id version_id from until outcome progress source now t).1
  unfolding record_evidence
  record_evidence-IsGoverned goal_id version_id from until outcome progress source now =
      write_and_events_keeps IsGoverned
        (evidence_write goal_id version_id from until outcome progress source now)
        (λ result. write_event now (evidence_recorded result.id goal_id outcome)) t v
        (evidence_write-IsGoverned goal_id version_id from until outcome progress source now)
        (λ r s p. p)

  evaluation_write-IsGoverned :
      (goal_id : ℕ) (evidence : List ℕ) (findings : ℕ) (intervention : GoalInterventionType)
      (detail now : ℕ)
      → Leaves IsGoverned (evaluation_write goal_id evidence findings intervention detail now t)
  unfolding evaluation_write
  evaluation_write-IsGoverned goal_id evidence findings intervention detail now =
      elim (Bool-cases (exists (has_goal_id goal_id) t.goals)) [
        | inr missing ↦ rw (missing, evaluation_write) tt
        | inl there ↦ rw (there, evaluation_write) id_taken
      ]

  pub record_evaluation-IsGoverned :
      (goal_id : ℕ) (evidence : List ℕ) (findings : ℕ) (intervention : GoalInterventionType)
      (detail now : ℕ)
      → IsGoverned (record_evaluation goal_id evidence findings intervention detail now t).1
  unfolding record_evaluation
  record_evaluation-IsGoverned goal_id [] findings intervention detail now = v
  record_evaluation-IsGoverned goal_id (e ∷ es) findings intervention detail now =
      write_and_events_keeps IsGoverned
        (evaluation_write goal_id (e ∷ es) findings intervention detail now)
        (λ result. write_event now (evaluation_recorded result.id goal_id intervention)) t v
        (evaluation_write-IsGoverned goal_id (e ∷ es) findings intervention detail now) (λ r s p. p)

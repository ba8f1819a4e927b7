-- ===== src/GoalManagement/Governed/Accepting.antt =====
-- goal_management/repository.py: the resolution of a proposal keeps the invariant.
use ai_coach_keyholder.Prelude.{
  ℕ, suc, ◌<◌, ◌≡◌, refl, sym, ap, ◌∙◌, Bool, true, false, some, List, ◌∷◌, arith, ◌==◌, ◌&&◌,
  ==_iff, ==_self, Bool-cases, inl, inr, if◌then◌else◌,
}
use ai_coach_keyholder.Prelude.Lists.{All, count_where, find, update_where}
use ai_coach_keyholder.Prelude.Rows.{
  All-map, All-update_where, All-find, Distinct, Distinct-update_where,
}
use ai_coach_keyholder.GoalManagement.Models.{
  GoalLifecycleStatus, active, paused, completed, abandoned, replaced, GoalVersion, Goal,
  GoalInterventionType, adapt_target, GoalProposalStatus, accepted, GoalChangeProposal, GoalTables,
  has_goal_id, has_version_id, has_proposal_id, is_live, is_pending,
}
use ai_coach_keyholder.GoalManagement.Lifecycle.{with_status}
use ai_coach_keyholder.GoalManagement.Proposals.{resolve, set_version}
use ai_coach_keyholder.GoalManagement.Governed.{
  is_adapt, is_replacement, is_abandonment, is_accepted, granted, is_replaced, is_abandoned,
  IsGranted, Governed, IsGoverned,
}
use ai_coach_keyholder.GoalManagement.Governed.Changes.{
  goals_changed, resolved_count, SameCounts, IsGranted-same, found_behind,
}

-- A goal that can go on was neither replaced nor abandoned.
pub live_goal_on :
    (s : GoalLifecycleStatus)
    → is_live s ≡ true
    → (is_replaced s ≡ false) × (is_abandoned s ≡ false)
live_goal_on active h = (refl, refl)
live_goal_on paused h = (refl, refl)
live_goal_on completed h = cc
live_goal_on abandoned h = cc
live_goal_on replaced h = cc

module _ (t : GoalTables) (v : IsGoverned t) (proposal_id now : ℕ) (row : GoalChangeProposal)
    (found : find (has_proposal_id proposal_id) t.goal_change_proposals ≡ some row)
    (waits : is_pending row.status ≡ true) where
  -- The proposals behind the resolution.
  abbrev pub resolved : GoalProposalStatus → List GoalChangeProposal
  resolved target =
      update_where (has_proposal_id proposal_id) (resolve target now) t.goal_change_proposals

  resolved_below :
      (target : GoalProposalStatus)
      → All (λ p. (p.id < t.next_id) × (p.goal_group_id < t.next_id)) (resolved target)
  resolved_below target =
      All-update_where (has_proposal_id proposal_id) (resolve target now) t.goal_change_proposals
        (λ p h _. h) (λ p h _. h) v.proposals_below

  resolved_ids : (target : GoalProposalStatus) → Distinct (λ p. p.id) (resolved target)
  resolved_ids target =
      Distinct-update_where (λ p. p.id) (has_proposal_id proposal_id) (resolve target now)
        t.goal_change_proposals (λ p. refl) v.proposal_ids

  same_count :
      (kind : GoalInterventionType → Bool) (goal_id : ℕ) (target : GoalProposalStatus)
      → granted kind goal_id (resolve target now row) ≡ false
      → count_where (granted kind goal_id) (resolved target)
        ≡ count_where (granted kind goal_id) t.goal_change_proposals
  same_count kind goal_id target h =
      resolved_count t v kind goal_id proposal_id now target row found waits ∙ rw h (omega arith)

  one_more :
      (kind : GoalInterventionType → Bool) (goal_id : ℕ)
      → row.goal_group_id ≡ goal_id
      → kind row.proposed_change ≡ true
      → count_where (granted kind goal_id) (resolved accepted)
        ≡ suc (count_where (granted kind goal_id) t.goal_change_proposals)
  one_more kind goal_id same h =
      resolved_count t v kind goal_id proposal_id now accepted row found waits
      ∙ rw (same, h, ==_self goal_id) (omega arith)

  same_counts :
      (goal_id : ℕ) (target : GoalProposalStatus)
      → granted is_adapt goal_id (resolve target now row) ≡ false
      → granted is_replacement goal_id (resolve target now row) ≡ false
      → granted is_abandonment goal_id (resolve target now row) ≡ false
      → SameCounts t.goal_change_proposals (resolved target) goal_id
  same_counts goal_id target a r b = (
    same_count is_adapt goal_id target a,
    same_count is_replacement goal_id target r,
    same_count is_abandonment goal_id target b,
  )

  -- Another goal than the proposal's is as it was.
  others_kept :
      (target : GoalProposalStatus) (versions : List GoalVersion) (g : Goal)
      → ((x : GoalVersion)
          → find (has_version_id g.current_version_id) t.goal_versions ≡ some x
          → find (has_version_id g.current_version_id) versions ≡ some x)
      → (g.goal_group_id == row.goal_group_id) ≡ false
      → IsGranted t.goal_versions t.goal_change_proposals g
      → IsGranted versions (resolved target) g
  others_kept target versions g stays other =
      IsGranted-same t.goal_versions versions t.goal_change_proposals (resolved target) g stays (
        same_counts g.goal_group_id target (ground (arith, other)) (ground (arith, other))
          (ground (arith, other)))

  -- A resolution that grants nothing.
  pub nothing_granted :
      (target : GoalProposalStatus)
      → (is_accepted target && is_adapt row.proposed_change) ≡ false
      → (is_accepted target && is_replacement row.proposed_change) ≡ false
      → (is_accepted target && is_abandonment row.proposed_change) ≡ false
      → IsGoverned (record t { goal_change_proposals = resolved target })
  nothing_granted target a r b = record {
    goals_below = v.goals_below;
    versions_below = v.versions_below;
    proposals_below = resolved_below target;
    goal_ids = v.goal_ids;
    proposal_ids = resolved_ids target;
    granted_goals =
        All-map t.goals
          (λ g.
            IsGranted-same t.goal_versions t.goal_versions t.goal_change_proposals (resolved target)
              g (λ x f. f)
              (same_counts g.goal_group_id target (ground (arith, a)) (ground (arith, r))
                (ground (arith, b))))
          v.granted_goals;
  }

  module _ (g : Goal) (goal_found : find (has_goal_id row.goal_group_id) t.goals ≡ some g) where
    goal_id_same : row.goal_group_id ≡ g.goal_group_id
    goal_id_same = sym (
        (==_iff g.goal_group_id row.goal_group_id).0
          (All-find (λ x. x.goal_group_id < t.next_id) (has_goal_id row.goal_group_id) t.goals g
            v.goals_below goal_found).1)

    some_same :
        (x y : GoalVersion)
        → find (has_version_id g.current_version_id) t.goal_versions ≡ some x
        → find (has_version_id g.current_version_id) t.goal_versions ≡ some y
        → x ≡ y
    some_same x y a b = cc

    pub adapted :
        (version : GoalVersion) (current : GoalVersion)
        → row.proposed_change ≡ adapt_target
        → find (has_version_id g.current_version_id) t.goal_versions ≡ some current
        → version.id ≡ t.next_id
        → version.goal_group_id ≡ row.goal_group_id
        → version.version ≡ suc current.version
        → Governed
            (update_where (has_goal_id row.goal_group_id) (set_version t.next_id) t.goals)
            (version ∷ t.goal_versions)
            (resolved accepted)
            (suc t.next_id)
    adapted version current kind cf new of number =
        goals_changed t v row.goal_group_id g (set_version t.next_id) (version ∷ t.goal_versions)
          (resolved accepted) (suc t.next_id) goal_found (λ x. refl) (omega arith)
          (omega (arith, new), All-map t.goal_versions (λ x h. omega arith) v.versions_below)
          (All-map (resolved accepted) (λ p h. (omega (arith, h.0), omega (arith, h.1)))
            (resolved_below accepted))
          (resolved_ids accepted)
          (λ ((x, xf, xof, xnumber), (n, m, l)). (
            (
              version,
              ground (arith, new, ==_self t.next_id),
              of ∙ goal_id_same,
              number
                  ∙ ap suc (
                      ap (λ y. y.version) (some_same current x cf xf)
                      ∙ xnumber
                      ∙ sym (one_more is_adapt g.goal_group_id goal_id_same (rw kind refl))),
            ),
            (
              same_count is_replacement g.goal_group_id accepted (rw kind (ground arith)) ∙ n,
              same_count is_abandonment g.goal_group_id accepted (rw kind (ground arith)) ∙ m,
              l,
            ),
          ))
          (λ x less other.
            others_kept accepted (version ∷ t.goal_versions) x
              (λ y. found_behind t v version y x.current_version_id new) other)

    counted_end :
        (kind : GoalInterventionType → Bool) (was is : Bool)
        → was ≡ false
        → kind row.proposed_change ≡ is
        → count_where (granted kind g.goal_group_id) t.goal_change_proposals
          ≡ (if was then 1 else 0)
        → count_where (granted kind g.goal_group_id) (resolved accepted) ≡ (if is then 1 else 0)
    counted_end kind was is off h before = elim (Bool-cases is) [
      | inl one ↦
          one_more kind g.goal_group_id goal_id_same (h ∙ one) ∙ rw (before, off, one) (omega arith)
      | inr none_of ↦
          same_count kind g.goal_group_id accepted (rw (h, none_of) (ground arith))
          ∙ before
          ∙ rw (off, none_of) refl
    ]

    -- The proposal's goal ends with it, with the proposals of that kind counted.
    pub ended :
        (target : GoalLifecycleStatus) (at : ℕ)
        → is_live g.status ≡ true
        → is_live target ≡ false
        → (is_accepted accepted && is_adapt row.proposed_change) ≡ false
        → is_replacement row.proposed_change ≡ is_replaced target
        → is_abandonment row.proposed_change ≡ is_abandoned target
        → Governed
            (update_where (has_goal_id row.goal_group_id) (with_status target at) t.goals)
            t.goal_versions
            (resolved accepted)
            t.next_id
    ended target at live end no_adapt rep ab =
        goals_changed t v row.goal_group_id g (with_status target at) t.goal_versions
          (resolved accepted) t.next_id goal_found (λ x. refl) (omega arith) v.versions_below
          (resolved_below accepted) (resolved_ids accepted)
          (λ ((x, xf, xof, xnumber), (n, m, l)). (
            (
              x,
              xf,
              xof,
              xnumber
                  ∙ ap suc (
                      sym
                        (same_count is_adapt g.goal_group_id accepted (ground (arith, no_adapt)))),
            ),
            (
              counted_end is_replacement (is_replaced g.status) (is_replaced target)
                  (live_goal_on g.status live).0 rep n,
              counted_end is_abandonment (is_abandoned g.status) (is_abandoned target)
                  (live_goal_on g.status live).1 ab m,
              (λ _. end),
            ),
          ))
          (λ x less other. others_kept accepted t.goal_versions x (λ y f. f) other)

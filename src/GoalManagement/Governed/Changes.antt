-- ===== src/GoalManagement/Governed/Changes.antt =====
-- goal_management/repository.py: what a change of rows leaves of the invariant.
use ai_coach_keyholder.Prelude.{
  ℕ, suc, ◌+◌, ◌≤◌, ◌<◌, ◌≡◌, refl, sym, ap, ◌∙◌, subst, Bool, true, false, none, some, List, ◌∷◌,
  arith, ◌==◌, Bool-cases, Option-cases, inl, inr, if◌then◌else◌,
}
use ai_coach_keyholder.Prelude.Lists.{All, count_where, find, update_where}
use ai_coach_keyholder.Prelude.Rows.{
  All-map, All-both, All-update_where, All-find, Distinct, Distinct-update_where, found_rows,
  find_behind, exists_fresh, count_where-update_one, count_where_none,
}
use ai_coach_keyholder.GoalManagement.Models.{
  GoalLifecycleStatus, active, GoalError, GoalVersion, Goal, GoalInterventionType,
  GoalProposalStatus, GoalChangeProposal, GoalTables, has_goal_id, has_version_id, has_proposal_id,
  is_pending,
}
use ai_coach_keyholder.GoalManagement.Lifecycle.{change_goal}
use ai_coach_keyholder.GoalManagement.Proposals.{resolve}
use ai_coach_keyholder.Infrastructure.Transaction.Keeps.{Leaves}
use ai_coach_keyholder.GoalManagement.Governed.{
  is_adapt, is_replacement, is_abandonment, granted, IsGranted, Governed, IsGoverned,
}

module _ (t : GoalTables) (v : IsGoverned t) where
  -- An update of the rows with a goal's id, over other versions and proposals.
  pub goals_changed :
      (goal_id : ℕ) (row : Goal) (f : Goal → Goal) (versions : List GoalVersion)
      (proposals : List GoalChangeProposal) (next : ℕ)
      → find (has_goal_id goal_id) t.goals ≡ some row
      → ((g : Goal) → (f g).goal_group_id ≡ g.goal_group_id)
      → t.next_id ≤ next
      → All (λ x. x.id < next) versions
      → All (λ p. (p.id < next) × (p.goal_group_id < next)) proposals
      → Distinct (λ p. p.id) proposals
      → (IsGranted t.goal_versions t.goal_change_proposals row
          → IsGranted versions proposals (f row))
      → ((g : Goal)
          → g.goal_group_id < t.next_id
          → (g.goal_group_id == goal_id) ≡ false
          → IsGranted t.goal_versions t.goal_change_proposals g
          → IsGranted versions proposals g)
      → Governed (update_where (has_goal_id goal_id) f t.goals) versions proposals next
  goals_changed goal_id row f versions proposals next found keeps up vb pb pd hit miss = record {
    goals_below =
        All-update_where (has_goal_id goal_id) f t.goals (λ g h _. omega (arith, keeps g))
          (λ g h _. omega arith) v.goals_below;
    versions_below = vb;
    proposals_below = pb;
    goal_ids =
        Distinct-update_where (λ g. g.goal_group_id) (has_goal_id goal_id) f t.goals keeps
          v.goal_ids;
    proposal_ids = pd;
    granted_goals =
        All-update_where (has_goal_id goal_id) f t.goals
          (λ g h is_row.
            subst (λ x. IsGranted versions proposals (f x)) (sym (h.0.1 is_row))
              (hit (subst (IsGranted t.goal_versions t.goal_change_proposals) (h.0.1 is_row) h.1)))
          (λ g h other. miss g h.0.0 other h.1)
          (All-both
            {R = λ g.
              ((g.goal_group_id < t.next_id) × (has_goal_id goal_id g ≡ true → g ≡ row))
              × IsGranted t.goal_versions t.goal_change_proposals g}
            t.goals (λ g a b. (a, b))
            (All-both
              {R = λ g. (g.goal_group_id < t.next_id) × (has_goal_id goal_id g ≡ true → g ≡ row)}
              t.goals (λ g a b. (a, b)) v.goals_below
              (found_rows (λ g. g.goal_group_id) goal_id row t.goals v.goal_ids found))
            v.granted_goals);
  }

  -- How the accepted proposals of a kind are counted behind the resolution of a pending one.
  pub resolved_count :
      (kind : GoalInterventionType → Bool) (goal_id proposal_id now : ℕ)
      (target : GoalProposalStatus) (row : GoalChangeProposal)
      → find (has_proposal_id proposal_id) t.goal_change_proposals ≡ some row
      → is_pending row.status ≡ true
      → count_where
          (granted kind goal_id)
          (update_where (has_proposal_id proposal_id) (resolve target now) t.goal_change_proposals)
        ≡ (if granted kind goal_id (resolve target now row) then 1 else 0)
          + count_where (granted kind goal_id) t.goal_change_proposals
  resolved_count kind goal_id proposal_id now target row found waits =
      count_where-update_one (λ p. p.id) (granted kind goal_id) (resolve target now) proposal_id row
        t.goal_change_proposals v.proposal_ids found (ground (arith, waits))

-- The accepted proposals for a goal, of each kind that changes it.
abbrev pub SameCounts : List GoalChangeProposal → List GoalChangeProposal → ℕ → Type 0
SameCounts before after goal_id =
    (count_where (granted is_adapt goal_id) after ≡ count_where (granted is_adapt goal_id) before)
    × (count_where (granted is_replacement goal_id) after
        ≡ count_where (granted is_replacement goal_id) before)
    × (count_where (granted is_abandonment goal_id) after
        ≡ count_where (granted is_abandonment goal_id) before)

-- What a goal keeps where its version is still found and its proposals are counted as before.
pub IsGranted-same :
    (versions versions' : List GoalVersion) (before after : List GoalChangeProposal) (g : Goal)
    → ((x : GoalVersion)
        → find (has_version_id g.current_version_id) versions ≡ some x
        → find (has_version_id g.current_version_id) versions' ≡ some x)
    → SameCounts before after g.goal_group_id
    → IsGranted versions before g
    → IsGranted versions' after g
IsGranted-same versions versions' before after g stays (a, r, b)
      ((x, found, of, number), (n, m, l)) =
    ((x, stays x found, of, number ∙ ap suc (sym a)), (r ∙ n, b ∙ m, l))

module _ (t : GoalTables) (v : IsGoverned t) where
  -- A version with a new id does not hide another.
  pub found_behind :
      (fresh : GoalVersion) (x : GoalVersion) (id : ℕ)
      → fresh.id ≡ t.next_id
      → find (has_version_id id) t.goal_versions ≡ some x
      → find (has_version_id id) (fresh ∷ t.goal_versions) ≡ some x
  found_behind fresh x id new found =
      let (less, hit) =
        All-find (λ y. y.id < t.next_id) (has_version_id id) t.goal_versions x v.versions_below
          found in
      find_behind (λ y. y.id) fresh id t.next_id t.goal_versions new (ground (arith, less, hit))
      ∙ found

  -- A new goal with its first version.
  pub goal_added :
      (goal : Goal) (version : GoalVersion)
      → version.id ≡ t.next_id
      → goal.goal_group_id ≡ suc t.next_id
      → goal.current_version_id ≡ t.next_id
      → version.goal_group_id ≡ goal.goal_group_id
      → version.version ≡ 1
      → goal.status ≡ active
      → goal.archived_at ≡ none
      → IsGoverned (record t {
        goals = goal ∷ t.goals;
        goal_versions = version ∷ t.goal_versions;
        next_id = suc (suc t.next_id);
      })
  goal_added goal version vid gid cur of one live kept =
      let nothing : (kind : GoalInterventionType → Bool)
          → count_where (granted kind goal.goal_group_id) t.goal_change_proposals ≡ 0 =
        λ kind.
          count_where_none (granted kind goal.goal_group_id) t.goal_change_proposals
            (All-map t.goal_change_proposals (λ p h. ground (arith, h.1, gid)) v.proposals_below) in
      record {
        goals_below = (omega (arith, gid), All-map t.goals (λ g h. omega arith) v.goals_below);
        versions_below =
            (omega (arith, vid), All-map t.goal_versions (λ x h. omega arith) v.versions_below);
        proposals_below =
            All-map t.goal_change_proposals (λ p h. (omega (arith, h.0), omega (arith, h.1)))
              v.proposals_below;
        goal_ids = (
          exists_fresh (λ g. g.goal_group_id) goal.goal_group_id t.goals
              (All-map t.goals (λ g h. omega (arith, gid)) v.goals_below),
          v.goal_ids,
        );
        proposal_ids = v.proposal_ids;
        granted_goals = (
          (
            (version, ground (arith, vid, cur), of, one ∙ ap suc (sym (nothing is_adapt))),
            (
              nothing is_replacement ∙ rw live refl,
              nothing is_abandonment ∙ rw live refl,
              rw kept (λ h. cc),
            ),
          ),
          All-map t.goals
              (λ g h.
                IsGranted-same t.goal_versions (version ∷ t.goal_versions) t.goal_change_proposals
                  t.goal_change_proposals g
                  (λ x found. found_behind version x g.current_version_id vid found)
                  (refl, refl, refl) h)
              v.granted_goals,
        );
      }

  -- The change of a goal whose status allows it.
  pub change_goal-IsGoverned :
      (goal_id : ℕ) (allowed : GoalLifecycleStatus → Bool) (f : Goal → Goal)
      → ((g : Goal) → (f g).goal_group_id ≡ g.goal_group_id)
      → ((g : Goal)
          → allowed g.status ≡ true
          → IsGranted t.goal_versions t.goal_change_proposals g
          → IsGranted t.goal_versions t.goal_change_proposals (f g))
      → Leaves {E = GoalError} IsGoverned (change_goal goal_id allowed f t)
  unfolding change_goal
  change_goal-IsGoverned goal_id allowed f keeps hit =
      elim (Option-cases (find (has_goal_id goal_id) t.goals)) [
        | inl missing ↦ rw (missing, change_goal) tt
        | inr (row, found) ↦ elim (Bool-cases (allowed row.status)) [
          | inr refused ↦ rw (found, change_goal) (rw refused tt)
          | inl fine ↦
              rw (found, change_goal)
                (rw fine (
                  goals_changed t v goal_id row f t.goal_versions t.goal_change_proposals t.next_id
                    found keeps (omega arith) v.versions_below v.proposals_below v.proposal_ids
                    (hit row fine) (λ g less other h. h)))
        ]
      ]

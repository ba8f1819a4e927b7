-- ===== src/GoalManagement/Governed/Methods.antt =====
-- goal_management/repository.py: each method keeps the invariant, whether it returns or raises.
use ai_coach_keyholder.Prelude.{ℕ, suc, ◌≡◌, refl, sym, ◌∙◌, Bool, true, false, none, arith}
use ai_coach_keyholder.Infrastructure.Transaction.Keeps.{write_and_events_keeps}
use ai_coach_keyholder.GoalManagement.Models.{
  GoalLifecycleStatus, active, paused, completed, abandoned, replaced, CreatedVia, GoalTables,
  GoalEvent, goal_created, goal_paused, goal_completed, goal_resumed, goal_archived, write_event,
  is_live, is_active, is_paused,
}
use ai_coach_keyholder.GoalManagement.Lifecycle.{
  change_goal, with_status, new_goal, first_version, create_write, create_goal, transition_goal,
  pause_goal, resume_goal, complete_goal, archive, is_terminal, archive_goal,
}
use ai_coach_keyholder.GoalManagement.Governed.{is_replaced, is_abandoned, IsGoverned}
use ai_coach_keyholder.GoalManagement.Governed.Changes.{change_goal-IsGoverned, goal_added}
use ai_coach_keyholder.GoalManagement.Governed.Accepting.{live_goal_on}

active_is_live : (s : GoalLifecycleStatus) → is_active s ≡ true → is_live s ≡ true
active_is_live active h = refl
active_is_live paused h = refl
active_is_live completed h = cc
active_is_live abandoned h = cc
active_is_live replaced h = cc

paused_is_live : (s : GoalLifecycleStatus) → is_paused s ≡ true → is_live s ≡ true
paused_is_live active h = refl
paused_is_live paused h = refl
paused_is_live completed h = cc
paused_is_live abandoned h = cc
paused_is_live replaced h = cc

module _ (t : GoalTables) (v : IsGoverned t) where
  pub create_goal-IsGoverned :
      (title target domain : ℕ) (via : CreatedVia) (now : ℕ)
      → IsGoverned (create_goal title target domain via now t).1
  unfolding create_goal create_write
  create_goal-IsGoverned title target domain via now =
      write_and_events_keeps IsGoverned (create_write title target domain via now)
        (λ result.
          write_event now (goal_created result.goal_group_id result.current_version_id domain))
        t v
        (goal_added t v (new_goal (suc t.next_id) t.next_id none now)
          (first_version t.next_id (suc t.next_id) title target domain via now) refl refl refl refl
          refl refl refl)
        (λ r s p. p)

  -- A goal that can go on gets a status that no proposal grants.
  transition_goal-IsGoverned :
      (goal_id : ℕ) (target : GoalLifecycleStatus) (allowed : GoalLifecycleStatus → Bool)
      (event : GoalEvent) (now : ℕ)
      → ((s : GoalLifecycleStatus) → allowed s ≡ true → is_live s ≡ true)
      → is_replaced target ≡ false
      → is_abandoned target ≡ false
      → IsGoverned (transition_goal goal_id target allowed event now t).1
  unfolding transition_goal
  transition_goal-IsGoverned goal_id target allowed event now live no_rep no_ab =
      write_and_events_keeps IsGoverned (change_goal goal_id allowed (with_status target now))
        (λ _. write_event now event) t v
        (change_goal-IsGoverned t v goal_id allowed (with_status target now) (λ g. refl)
          (λ g fine (version, (r, b, a)).
            let (r0, b0) = live_goal_on g.status (live g.status fine) in
            (
              version,
              (
                r ∙ rw (r0, no_rep) refl,
                b ∙ rw (b0, no_ab) refl,
                λ kept. cc (sym (live g.status fine) ∙ a kept),
              ),
            )))
        (λ r s p. p)

  pub pause_goal-IsGoverned :
      (goal_id reason now : ℕ) → IsGoverned (pause_goal goal_id reason now t).1
  unfolding pause_goal
  pause_goal-IsGoverned goal_id reason now =
      transition_goal-IsGoverned goal_id paused is_active (goal_paused goal_id reason) now
        active_is_live refl refl

  pub resume_goal-IsGoverned : (goal_id now : ℕ) → IsGoverned (resume_goal goal_id now t).1
  unfolding resume_goal
  resume_goal-IsGoverned goal_id now =
      transition_goal-IsGoverned goal_id active is_paused (goal_resumed goal_id) now paused_is_live
        refl refl

  pub complete_goal-IsGoverned :
      (goal_id reason now : ℕ) → IsGoverned (complete_goal goal_id reason now t).1
  unfolding complete_goal
  complete_goal-IsGoverned goal_id reason now =
      transition_goal-IsGoverned goal_id completed is_live (goal_completed goal_id reason) now
        (λ s h. h) refl refl

  pub archive_goal-IsGoverned : (goal_id now : ℕ) → IsGoverned (archive_goal goal_id now t).1
  unfolding archive_goal
  archive_goal-IsGoverned goal_id now =
      write_and_events_keeps IsGoverned (change_goal goal_id is_terminal (archive now))
        (λ _. write_event now (goal_archived goal_id)) t v
        (change_goal-IsGoverned t v goal_id is_terminal (archive now) (λ g. refl)
          (λ g fine (version, (r, b, a)). (version, (r, b, λ kept. ground arith))))
        (λ r s p. p)

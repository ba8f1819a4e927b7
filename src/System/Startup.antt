-- ===== src/System/Startup.antt =====
-- system/startup.py: the recovery of all modules under the startup lease.
use ai_coach_keyholder.Prelude.{
  ℕ, ⊤, ◌≡◌, ◌⊎◌, refl, ap, ◌∙◌, true, false, Option, none, some, List, ok, err, Result, Bool-cases,
  inl, inr, ==_self, ◌+◌,
}
use ai_coach_keyholder.Infrastructure.Transaction.{Method, commit, ◌then_do◌}
use ai_coach_keyholder.Infrastructure.Transaction.Keeps.{then_do_keeps}
use ai_coach_keyholder.Infrastructure.StartupLease.{
  Lease, is_live, acquire_system_startup_lease, release_system_startup_lease,
}
use ai_coach_keyholder.PenaltyEngine.Store.{EngineError}
use ai_coach_keyholder.PenaltyEngine.Reconcile.{recover_penalty_window_state}
use ai_coach_keyholder.TrustManager.Store.{TrustError}
use ai_coach_keyholder.TrustManager.Incidents.{recover_trust_manager_state}
use ai_coach_keyholder.GoalManagement.Models.{GoalTables, GoalError}
use ai_coach_keyholder.GoalManagement.Reads.{recover_goal_management_state}
use ai_coach_keyholder.RecoveryPlan.Reads.{recover_recovery_plan_state}
use ai_coach_keyholder.System.{SystemTables, SystemError}

pub record StartupTables : Type 0 where
  pub system : SystemTables
  pub goals : GoalTables
  pub lease : Option Lease

pub data StartupError : Type 0 where
  startup_lease_not_acquired : StartupError
  trust_failed : TrustError → StartupError
  engine_failed : EngineError → StartupError
  goals_failed : GoalError → StartupError
  publisher_failed : SystemError → StartupError

-- 5 minutes, in microseconds.
abbrev pub startup_lease_duration : ℕ
startup_lease_duration = 300000000

abbrev pub StartupStep : Type 0 → Type 0
StartupStep = Method StartupTables StartupError

-- A method of a module, on the tables of all modules.
abbrev pub in_module :
    {S E A : Type 0}
    → (StartupTables → S)
    → (S → StartupTables → StartupTables)
    → (E → StartupError)
    → Method S E A
    → StartupStep A
in_module get set failed m s =
    let (r, part) = m (get s) in (elim r [ ok a ↦ ok a | err e ↦ err (failed e) ], set part s)

abbrev pub recover_trust : ℕ → StartupStep ℕ
recover_trust now =
    in_module (λ s. s.system.trust) (λ p s. record s { system = record s.system { trust = p } })
      trust_failed (recover_trust_manager_state now)

abbrev pub recover_engine : ℕ → StartupStep ⊤
recover_engine now =
    in_module (λ s. s.system.engine) (λ p s. record s { system = record s.system { engine = p } })
      engine_failed (recover_penalty_window_state now)

abbrev pub recover_goals : ℕ → StartupStep (List ℕ)
recover_goals now =
    in_module (λ s. s.goals) (λ p s. record s { goals = p }) goals_failed
      (recover_goal_management_state now)

-- The check only reports, and the report is not used.
abbrev pub check_plans : StartupStep (List ℕ)
check_plans s = (
  ok (
      recover_recovery_plan_state
        (record s.system.plans { penalty_windows = s.system.engine.penalty_windows })),
  s,
)

-- `publish` is `process_pending_events` with the handlers of `build_consumer_registry`.
module _ (publish : ℕ → Method SystemTables SystemError ℕ) where
  abbrev pub publish_events : ℕ → StartupStep ℕ
  publish_events now =
      in_module (λ s. s.system) (λ p s. record s { system = p }) publisher_failed (publish now)

  -- The body of the `try`.
  unfoldable pub recover_all : ℕ → StartupStep ℕ
  recover_all now = recover_trust now then_do λ _.
      (recover_engine now then_do λ _.
      (recover_goals now then_do λ _. (check_plans then_do λ _. publish_events now)))

  -- `finally`: the lease is released and the outcome of the body is kept.
  abbrev pub with_release : {A : Type 0} → Lease → StartupStep A → StartupStep A
  with_release lease body s =
      let (r, s') = body s in
      (r, record s' { lease = (release_system_startup_lease {E = StartupError} lease s'.lease).1 })

  -- What follows the attempt to acquire the lease: its outcome, and the row of the lease.
  abbrev attempted :
      ℕ
      → StartupTables
      → Result StartupError (Option Lease) × Option Lease
      → Result StartupError ⊤ × StartupTables
  attempted now s (r, row) =
      let u = record s { lease = row } in
      elim r [
        | err e ↦ (err e, u)
        | ok acquired ↦ elim acquired [
          | none ↦ (err startup_lease_not_acquired, u)
          | some lease ↦ (with_release lease (recover_all now) then_do λ _ s'. (ok tt, s')) u
        ]
      ]

  unfoldable pub on_system_startup : ℕ → ℕ → StartupStep ⊤
  on_system_startup process_id now s =
      attempted now s (acquire_system_startup_lease process_id now startup_lease_duration s.lease)

  -- No step of the recovery touches the lease.
  recover_all-lease : (now : ℕ) (s : StartupTables) → (recover_all now s).1.lease ≡ s.lease
  unfolding recover_all
  recover_all-lease now s =
      let P : StartupTables → Type 0 = λ u. u.lease ≡ s.lease in
      then_do_keeps P (recover_trust now)
        (λ _. recover_engine now then_do λ _.
          (recover_goals now then_do λ _. (check_plans then_do λ _. publish_events now)))
        s refl
        (λ _ s1 p1.
          then_do_keeps P (recover_engine now)
            (λ _. recover_goals now then_do λ _. (check_plans then_do λ _. publish_events now)) s1
            p1
            (λ _ s2 p2.
              then_do_keeps P (recover_goals now) (λ _. check_plans then_do λ _. publish_events now)
                s2 p2
                (λ _ s3 p3.
                  then_do_keeps P check_plans (λ _. publish_events now) s3 p3 (λ _ s4 p4. p4))))

  abbrev pub acquired_lease : ℕ → ℕ → Lease
  acquired_lease process_id now = record {
    held_by = process_id;
    acquired_at = now;
    expires_at = now + startup_lease_duration;
  }

  abbrev pub outcome : Result StartupError ℕ → Result StartupError ⊤
  outcome (ok n) = ok tt
  outcome (err e) = err e

  refused :
      (process_id now : ℕ) (row : Option Lease)
      → is_live now row ≡ true
      → acquire_system_startup_lease {E = StartupError} process_id now startup_lease_duration row
        ≡ (ok none, row)
  unfolding acquire_system_startup_lease
  refused process_id now row live = rw (live, acquire_system_startup_lease, commit) refl

  acquired :
      (process_id now : ℕ) (row : Option Lease)
      → is_live now row ≡ false
      → acquire_system_startup_lease {E = StartupError} process_id now startup_lease_duration row
        ≡ (ok (some (acquired_lease process_id now)), some (acquired_lease process_id now))
  unfolding acquire_system_startup_lease
  acquired process_id now row free = rw (free, acquire_system_startup_lease, commit) refl

  freed :
      (process_id now : ℕ) (row : Option Lease)
      → row ≡ some (acquired_lease process_id now)
      → (release_system_startup_lease {E = StartupError} (acquired_lease process_id now) row).1
        ≡ none
  unfolding release_system_startup_lease
  freed process_id now row held = rw (held, ==_self process_id) refl

  finished :
      (r : Result StartupError ℕ) (row : Option Lease) (u : StartupTables)
      → row ≡ none
      → ((λ v. (r, record v { lease = row })) then_do λ _ v. (ok tt, v)) u
        ≡ (outcome r, record u { lease = none })
  finished (ok n) row u h = ap (λ x. (ok tt, record u { lease = x })) h
  finished (err e) row u h = ap (λ x. (err e, record u { lease = x })) h

  released :
      (process_id now : ℕ) (u : StartupTables)
      → u.lease ≡ some (acquired_lease process_id now)
      → (with_release (acquired_lease process_id now) (recover_all now) then_do λ _ s'. (ok tt, s'))
          u
        ≡ (let body = recover_all now u in (outcome body.0, record body.1 { lease = none }))
  released process_id now u held =
      let (r, u') = recover_all now u in
      finished r
        (release_system_startup_lease {E = StartupError} (acquired_lease process_id now) u'.lease).1
        u' (freed process_id now u'.lease (recover_all-lease now u ∙ held))

  -- While another process holds the lease, a startup raises and changes nothing. Else it does what the
  -- recovery does, keeps its outcome, and leaves the lease free, also where a step of it raises.
  pub on_system_startup-lease :
      (process_id now : ℕ) (s : StartupTables)
      → ((is_live now s.lease ≡ true)
          × (on_system_startup process_id now s ≡ (err startup_lease_not_acquired, s)))
        ⊎ ((is_live now s.lease ≡ false)
            × (on_system_startup process_id now s ≡ (
                let body =
                  recover_all now (record s { lease = some (acquired_lease process_id now) }) in
                (outcome body.0, record body.1 { lease = none }))))
  unfolding on_system_startup
  on_system_startup-lease process_id now s = elim (Bool-cases (is_live now s.lease)) [
    | inl live ↦ inl (live, ap (attempted now s) (refused process_id now s.lease live))
    | inr free ↦ inr (
      free,
      ap (attempted now s) (acquired process_id now s.lease free)
          ∙ released process_id now (record s { lease = some (acquired_lease process_id now) })
              refl,
    )
  ]

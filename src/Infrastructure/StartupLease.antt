-- ===== src/Infrastructure/StartupLease.antt =====
-- infrastructure/startup_lease.py: at most one process holds the startup lease.
use ai_coach_keyholder.Prelude.{
  ℕ, ◌+◌, ◌<◌, ◌≡◌, ◌↔◌, ⊤, Bool, false, Option, none, some, ok, ◌==◌, ltb, if◌then◌else◌, arith,
}
use ai_coach_keyholder.Infrastructure.Transaction.{Tx, Method, commit}

-- The row of system_startup_lease, whose columns are set and cleared together.
pub record Lease : Type 0 where
  pub held_by : ℕ
  pub acquired_at : ℕ
  pub expires_at : ℕ

abbrev pub is_live : ℕ → Option Lease → Bool
is_live now none = false
is_live now (some row) = ltb now row.expires_at

abbrev cleared : ℕ → Option Lease → Option Lease
cleared held_by none = none
cleared held_by (some row) = if row.held_by == held_by then none else some row

module _ {E : Type 0} where
  abbrev acquire_write : ℕ → ℕ → ℕ → Tx (Option Lease) E (Option Lease)
  acquire_write process_id now duration row =
      let lease : Lease = record {
        held_by = process_id;
        acquired_at = now;
        expires_at = now + duration;
      } in
      if is_live now row then ok (none, row) else ok (some lease, some lease)

  unfoldable pub acquire_system_startup_lease : ℕ → ℕ → ℕ → Method (Option Lease) E (Option Lease)
  acquire_system_startup_lease process_id now duration =
      commit (acquire_write process_id now duration)

  unfoldable pub release_system_startup_lease : Lease → Method (Option Lease) E ⊤
  release_system_startup_lease lease = commit (λ row. ok (tt, cleared lease.held_by row))

  -- Once a process has acquired the lease, nobody acquires it until it has expired, also where
  -- another process releases a lease that it had held before; and once it has expired, it is free.
  pub acquire_system_startup_lease-exclusive :
      (row : Option Lease) (lease old : Lease)
      (process_id now duration other later other_duration : ℕ)
      → (acquire_system_startup_lease process_id now duration row).0 ≡ ok (some lease)
      → (old.held_by == process_id) ≡ false
      → ((acquire_system_startup_lease other later other_duration
            (release_system_startup_lease old
              (acquire_system_startup_lease process_id now duration row).1).1).0
          ≡ ok none)
        ↔ (later < lease.expires_at)
  unfolding acquire_system_startup_lease release_system_startup_lease
  acquire_system_startup_lease-exclusive row lease old process_id now duration other later
        other_duration got differs =
      ground (arith, got, differs)

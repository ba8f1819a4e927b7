-- ===== src/Infrastructure/Outbox/Drained.antt =====
-- infrastructure/consumer_registry.py: `process_pending_events` drains a cascade of events.
use mathlib.Core.List.{append_assoc}
use ai_coach_keyholder.Prelude.{
  ℕ, zero, suc, ◌+◌, ◌≤◌, ◌<◌, ◌≡◌, refl, sym, ap, ◌∙◌, subst, List, [], ◌∷◌, ◌++◌, ok, arith,
  Bool-cases, inl, inr,
}
use ai_coach_keyholder.Prelude.Lists.{length, count_where, select, order_by, insert_by}
use ai_coach_keyholder.Prelude.Rows.{select-nil}
use ai_coach_keyholder.Infrastructure.TimeFormat.{iso_key}
use ai_coach_keyholder.Infrastructure.Transaction.{Method, ◌then_do◌, apply_transition}
use ai_coach_keyholder.Infrastructure.Transaction.Keeps.{then_do_keeps}
use ai_coach_keyholder.Infrastructure.Transaction.Returns.{then_do_ok}
use ai_coach_keyholder.Infrastructure.Outbox.{
  EventRow, Outbox, is_pending, update_each, take, event_ids, claim_row, publish_row, claimable,
  ConsumerRegistry, claim_pending_events, mark_published, dispatch, dispatch_all,
  process_pending_events,
}
use ai_coach_keyholder.Infrastructure.Outbox.Weights.{sum_by, sum_by-append, pending, round_weight}

insert_by-not_nil {ℓ} :
    {C : Type ℓ} (key : EventRow → ℕ) (e : EventRow) (es : List EventRow)
    → insert_by key e es ≡ []
    → C
insert_by-not_nil key e [] h = cc
insert_by-not_nil key e (f ∷ es) h = ground arith

order_by-nil : (key : EventRow → ℕ) (es : List EventRow) → order_by key es ≡ [] → es ≡ []
order_by-nil key [] h = refl
order_by-nil key (e ∷ es) h = insert_by-not_nil key e (order_by key es) h

take-nil : (n : ℕ) (es : List EventRow) → take (suc n) es ≡ [] → es ≡ []
take-nil n [] h = refl
take-nil n (e ∷ es) h = cc

-- Nothing is claimed only where nothing is pending.
claimable-nil :
    (n now : ℕ) (es : List EventRow)
    → claimable (suc n) now es ≡ []
    → count_where (is_pending now) es ≡ 0
unfolding claimable
claimable-nil n now es h =
    let key : EventRow → ℕ = λ e. iso_key e.created_at in
    let waiting = select (is_pending now) es in
    select-nil (is_pending now) es (order_by-nil key waiting (take-nil n (order_by key waiting) h))

module _ {B E : Type 0} (integrity_error : E) (registry : ConsumerRegistry B E)
    (weight : EventRow → ℕ) (now : ℕ) where
  -- The handlers of an event add events alone, which weigh less than it in all.
  abbrev pub Cascades : Type 0
  Cascades =
      (e : EventRow) (s : Outbox B)
      → (new : List EventRow) × ((dispatch integrity_error registry e now s).1.domain_events
          ≡ new ++ s.domain_events)
        × (sum_by weight new < weight e)

  weightless :
      (es : List EventRow)
      → ((e : EventRow) → 1 ≤ weight e)
      → sum_by (pending weight now) es ≤ 0
      → count_where (is_pending now) es ≡ 0
  weightless [] h z = refl
  weightless (e ∷ es) h z = elim (Bool-cases (is_pending now e)) [
    | inl p ↦ ground (arith, h e, z, p)
    | inr p ↦ ground (arith, p, weightless es h (ground (arith, z, p)))
  ]

  dispatch_all-adds :
      Cascades
      → (es : List EventRow) (s : Outbox B)
      → (new : List EventRow) × ((dispatch_all integrity_error registry es now s).1.domain_events
          ≡ new ++ s.domain_events)
        × (sum_by weight new + length es ≤ sum_by weight es)
  unfolding dispatch_all
  dispatch_all-adds h [] s = ([], refl, omega arith)
  dispatch_all-adds h (e ∷ es) s =
      let (new, added, less) = h e s in
      let (more, then_added, lighter) =
        dispatch_all-adds h es (dispatch integrity_error registry e now s).1 in
      (
        more ++ new,
        then_added ∙ ap (λ x. more ++ x) added ∙ sym (append_assoc more new s.domain_events),
        omega (arith, sum_by-append weight more new, less, lighter),
      )

  abbrev behind_publication : List EventRow → Outbox B → Outbox B
  behind_publication rows s = record s {
    domain_events = update_each (publish_row now) (event_ids rows) s.domain_events;
  }

  published_tables :
      (rows : List EventRow) (s : Outbox B)
      → mark_published integrity_error (event_ids rows) now s ≡ (ok tt, behind_publication rows s)
  unfolding mark_published apply_transition
  published_tables rows s = refl

  module _ (batch_size lease_duration : ℕ) where
    -- What is done with the events of a claim, in the rounds that are left.
    abbrev after_claim : ℕ → List EventRow → Method (Outbox B) E ℕ
    after_claim rounds rows s = elim rows [
      | [] ↦ (ok 0, s)
      | ◌∷◌ e es ↦
          let (ran, s') = dispatch_all integrity_error registry (e ∷ es) now s in
          (mark_published integrity_error (event_ids (e ∷ es)) now then_do λ _.
          process_pending_events integrity_error registry now batch_size lease_duration rounds
          then_do λ rest u. (ok (ran + rest), u))
            s'
    ]

    abbrev behind_claim : List EventRow → Outbox B → Outbox B
    behind_claim rows s = record s {
      domain_events = update_each (claim_row now lease_duration) (event_ids rows) s.domain_events;
    }

    round-claims :
        (rounds : ℕ) (s : Outbox B)
        → process_pending_events integrity_error registry now batch_size lease_duration
            (suc rounds)
            s
          ≡ (let rows = claimable batch_size now s.domain_events in
              after_claim rounds rows (behind_claim rows s))
    unfolding process_pending_events claim_pending_events apply_transition
    round-claims rounds s = refl

  module _ (cascades : Cascades) (n lease_duration : ℕ) where
    -- The bound of the rounds is enough for the tables behind the next one.
    lighter_round :
        (rounds : ℕ) (s : Outbox B) (e : EventRow) (es : List EventRow)
        → claimable (suc n) now s.domain_events ≡ e ∷ es
        → sum_by (pending weight now) s.domain_events ≤ suc rounds
        → let s' =
            (dispatch_all integrity_error registry
              (e ∷ es)
              now
              (behind_claim (suc n) lease_duration (e ∷ es) s)).1 in
          sum_by (pending weight now) (behind_publication (e ∷ es) s').domain_events ≤ rounds
    lighter_round rounds s e es rows enough =
        let (new, added, less) =
          dispatch_all-adds cascades (e ∷ es) (behind_claim (suc n) lease_duration (e ∷ es) s) in
        let light =
          subst
            (λ rs.
              sum_by (pending weight now) (
                  update_each (publish_row now) (event_ids rs) (
                    new
                    ++ update_each (claim_row now lease_duration) (event_ids rs) s.domain_events))
                + sum_by weight rs
              ≤ sum_by weight new + sum_by (pending weight now) s.domain_events)
            rows (round_weight weight now (suc n) lease_duration now s.domain_events new) in
        subst
          (λ xs.
            sum_by (pending weight now) (update_each (publish_row now) (event_ids (e ∷ es)) xs)
            ≤ rounds)
          (sym added) (omega (arith, light, less, enough))

    -- A round leaves no pending event, where the rounds that are left do so from lighter tables.
    drained_rows :
        (rounds : ℕ) (s : Outbox B) (rows : List EventRow)
        → claimable (suc n) now s.domain_events ≡ rows
        → sum_by (pending weight now) s.domain_events ≤ suc rounds
        → ((u : Outbox B)
            → sum_by (pending weight now) u.domain_events ≤ rounds
            → count_where
                (is_pending now)
                (process_pending_events integrity_error registry now
                  (suc n)
                  lease_duration
                  rounds
                  u).1.domain_events
              ≡ 0)
        → count_where
            (is_pending now)
            (after_claim
              (suc n)
              lease_duration
              rounds
              rows
              (behind_claim (suc n) lease_duration rows s)).1.domain_events
          ≡ 0
    drained_rows rounds s [] rows enough rest = claimable-nil n now s.domain_events rows
    drained_rows rounds s (e ∷ es) rows enough rest =
        let P : Outbox B → Type 0 = λ u. count_where (is_pending now) u.domain_events ≡ 0 in
        let (ran, s') =
          dispatch_all integrity_error registry (e ∷ es) now
            (behind_claim (suc n) lease_duration (e ∷ es) s) in
        let u = behind_publication (e ∷ es) s' in
        let go_on =
          process_pending_events integrity_error registry now (suc n) lease_duration rounds in
        subst (λ r. P r.1)
          (sym (
            then_do_ok (mark_published integrity_error (event_ids (e ∷ es)) now)
              (λ _. go_on then_do λ more w. (ok (ran + more), w)) (published_tables (e ∷ es) s')))
          (then_do_keeps P go_on (λ more w. (ok (ran + more), w)) u
            (rest u (lighter_round rounds s e es rows enough)) (λ _ w p. p))

    drained_from :
        (rounds : ℕ) (s : Outbox B)
        → sum_by (pending weight now) s.domain_events ≤ rounds
        → count_where
            (is_pending now)
            (process_pending_events integrity_error registry now
              (suc n)
              lease_duration
              rounds
              s).1.domain_events
          ≡ 0
    unfolding process_pending_events
    drained_from zero s enough =
        weightless s.domain_events
          (λ e. let (new, added, less) = cascades e s in omega (arith, less)) enough
    drained_from (suc rounds) s enough =
        subst (λ r. count_where (is_pending now) r.1.domain_events ≡ 0)
          (sym (round-claims (suc n) lease_duration rounds s))
          (drained_rows rounds s (claimable (suc n) now s.domain_events) refl enough
            (drained_from rounds))

-- A weight of events, such that the handlers of an event add events alone, which weigh less than it in
-- all, bounds the rounds: where the pending events weigh no more than the bound of the rounds, and a
-- batch is of one event at least, no event is pending behind process_pending_events, neither one that
-- was there nor one of the cascade.
pub process_pending_events-drains :
    {B E : Type 0} (integrity_error : E) (registry : ConsumerRegistry B E) (weight : EventRow → ℕ)
    (now batch_size lease_duration max_cascade_rounds : ℕ) (s : Outbox B)
    → Cascades integrity_error registry weight now
    → 1 ≤ batch_size
    → sum_by (pending weight now) s.domain_events ≤ max_cascade_rounds
    → count_where
        (is_pending now)
        (process_pending_events integrity_error registry now batch_size lease_duration
          max_cascade_rounds s).1.domain_events
      ≡ 0
process_pending_events-drains integrity_error registry weight now zero lease_duration rounds s
      cascades some_batch enough =
    omega (arith, some_batch)
process_pending_events-drains integrity_error registry weight now (suc n) lease_duration rounds s
      cascades some_batch enough =
    drained_from integrity_error registry weight now cascades n lease_duration rounds s enough

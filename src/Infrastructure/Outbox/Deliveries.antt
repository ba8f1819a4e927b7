-- ===== src/Infrastructure/Outbox/Deliveries.antt =====
-- infrastructure/outbox.py and infrastructure/consumer_registry.py: deliveries at least once have
-- their effect once.
use ai_coach_keyholder.Prelude.{
  ⊤, ℕ, suc, ◌⊎◌, ◌++◌, ◌+◌, ◌≤◌, ◌≡◌, refl, Bool, true, false, List, [], ◌∷◌, Result, ok, err,
  arith, ◌==◌, ◌&&◌, Bool-cases, Result-cases, inl, inr, if◌then◌else◌, ap,
}
use ai_coach_keyholder.Prelude.Lists.{All}
use ai_coach_keyholder.Infrastructure.Transaction.{Tx, apply_transition}
use ai_coach_keyholder.Infrastructure.Outbox.{
  EventRow, Outbox, Handler, Registration, has_been_processed, mark_processed, consume_event,
  dispatch_to,
}

-- A delivery of an event to a registration, at an instant.
pub record Delivery (B E : Type 0) : Type 0 where
  pub event : EventRow
  pub registration : Registration B E
  pub now : ℕ

abbrev ran : {E : Type 0} → Result E Bool → ℕ
ran (ok true) = 1
ran (ok false) = 0
ran (err e) = 0

module _ {B E : Type 0} (integrity_error : E) where
  module _ (event : EventRow) (consumer_name : ℕ) (handler : Handler B E) (now : ℕ)
      (s : Outbox B) where
    outcome : Result E Bool × Outbox B
    outcome = consume_event integrity_error event consumer_name handler now s

    processed : Bool
    processed = has_been_processed integrity_error event.id consumer_name s

    absorbed : processed ≡ true → outcome ≡ (ok false, s)
    unfolding outcome processed consume_event apply_transition
    absorbed h = ground (arith, h)

    refused : {e : E} → processed ≡ false → handler event s ≡ err e → outcome ≡ (err e, s)
    unfolding outcome processed consume_event apply_transition
    refused h k = ground (arith, h, k)

    clashed :
        {s' : Outbox B}
        → processed ≡ false
        → handler event s ≡ ok (tt, s')
        → has_been_processed integrity_error event.id consumer_name s' ≡ true
        → outcome ≡ (err integrity_error, s)
    unfolding outcome processed consume_event apply_transition mark_processed
    clashed h k c = ground (arith, h, k, c)

    marked :
        {s' : Outbox B}
        → processed ≡ false
        → handler event s ≡ ok (tt, s')
        → has_been_processed integrity_error event.id consumer_name s' ≡ false
        → outcome ≡ (
          ok true,
          record s' {
            domain_event_consumers =
                record { event_id = event.id; consumer_name = consumer_name; processed_at = now }
                ∷ s'.domain_event_consumers;
          },
        )
    unfolding outcome processed consume_event apply_transition mark_processed
    marked h k c = ground (arith, h, k, c)

    -- Whatever the consumption did: it raised and left all as it was, or it absorbed a redelivery, or
    -- the handler ran, and then the pair was not yet processed and now is.
    outcome-cases :
        ((e : E) × (outcome ≡ (err e, s)))
        ⊎ ((outcome ≡ (ok false, s)) × (processed ≡ true))
        ⊎ ((s' : Outbox B) × (handler event s ≡ ok (tt, s'))
            × (processed ≡ false)
            × (outcome ≡ (
              ok true,
              record s' {
                domain_event_consumers =
                    record {
                      event_id = event.id;
                      consumer_name = consumer_name;
                      processed_at = now;
                    }
                    ∷ s'.domain_event_consumers;
              },
            )))
    outcome-cases = elim (Bool-cases processed) [
      | inl h ↦ inr (inl (absorbed h, h))
      | inr h ↦ elim (Result-cases (handler event s)) [
        | inr (e, k) ↦ inl (e, refused h k)
        | inl ((u, s'), k) ↦
            elim (Bool-cases (has_been_processed integrity_error event.id consumer_name s')) [
              | inl clash ↦ inl (integrity_error, clashed h k clash)
              | inr fresh ↦ inr (inr (s', k, h, marked h k fresh))
            ]
      ]
    ]

  abbrev deliver : Delivery B E → Outbox B → Result E Bool × Outbox B
  deliver d =
      consume_event integrity_error d.event d.registration.consumer_name d.registration.handler
        d.now

  -- How often deliveries, one after another, run the handler of a consumer for an event.
  unfoldable pub times_run : ℕ → ℕ → List (Delivery B E) → Outbox B → ℕ
  times_run event_id consumer_name [] s = 0
  times_run event_id consumer_name (d ∷ ds) s =
      let (r, s') = deliver d s in
      let rest = times_run event_id consumer_name ds s' in
      if d.event.id == event_id && d.registration.consumer_name == consumer_name
      then ran r + rest
      else rest

  -- A handler that takes no row out of domain_event_consumers.
  abbrev pub KeepsProcessed : Handler B E → Type 0
  KeepsProcessed handler =
      (event : EventRow) (s s' : Outbox B) (event_id consumer_name : ℕ)
      → handler event s ≡ ok (tt, s')
      → has_been_processed integrity_error event_id consumer_name s ≡ true
      → has_been_processed integrity_error event_id consumer_name s' ≡ true

  -- A handler that works on what the modules keep, and on nothing of the outbox.
  abbrev pub on_business : (EventRow → Tx B E ⊤) → Handler B E
  on_business handler event s = elim (handler event s.business) [
    | ok p ↦ ok (tt, record s { business = p.1 })
    | err e ↦ err e
  ]

  pub on_business-KeepsProcessed :
      (handler : EventRow → Tx B E ⊤) → KeepsProcessed (on_business handler)
  on_business-KeepsProcessed handler event s s' event_id consumer_name returns h =
      elim (Result-cases (handler event s.business)) [
        | inl (p, e) ↦ ground (arith, e, returns, h)
        | inr (x, e) ↦ ground (arith, e, returns, h)
      ]

  deliver_keeps :
      (d : Delivery B E) (s : Outbox B) (event_id consumer_name : ℕ)
      → KeepsProcessed d.registration.handler
      → has_been_processed integrity_error event_id consumer_name s ≡ true
      → has_been_processed integrity_error event_id consumer_name (deliver d s).1 ≡ true
  unfolding outcome processed
  deliver_keeps d s event_id consumer_name keeps h =
      elim (outcome-cases d.event d.registration.consumer_name d.registration.handler d.now s) [
        | inl (e, o) ↦ rw o h
        | inr (inl (o, p)) ↦ rw o h
        | inr (inr (s', k, p, o)) ↦
            rw o (ground (arith, keeps d.event s s' event_id consumer_name k h))
      ]

  -- A delivery runs no handler, or the pair was not processed and now is.
  deliver_runs :
      (d : Delivery B E) (s : Outbox B)
      → (ran (deliver d s).0 ≡ 0)
        ⊎ ((ran (deliver d s).0 ≡ 1)
            × (has_been_processed integrity_error d.event.id d.registration.consumer_name s ≡ false)
            × (has_been_processed integrity_error d.event.id d.registration.consumer_name
                  (deliver d s).1
                ≡ true))
  unfolding outcome processed
  deliver_runs d s =
      elim (outcome-cases d.event d.registration.consumer_name d.registration.handler d.now s) [
        | inl (e, o) ↦ rw o (inl refl)
        | inr (inl (o, p)) ↦ rw o (inl refl)
        | inr (inr (s', k, p, o)) ↦ rw o (inr (refl, p, ground (arith)))
      ]

  processed_runs :
      (ds : List (Delivery B E)) (s : Outbox B) (event_id consumer_name : ℕ)
      → All (λ d. KeepsProcessed d.registration.handler) ds
      → has_been_processed integrity_error event_id consumer_name s ≡ true
      → times_run event_id consumer_name ds s ≡ 0
  unfolding times_run
  processed_runs [] s event_id consumer_name keeps h = refl
  processed_runs (d ∷ ds) s event_id consumer_name keeps h = ground (
    arith,
    deliver_runs d s,
    processed_runs ds (deliver d s).1 event_id consumer_name keeps.1
        (deliver_keeps d s event_id consumer_name keeps.0 h),
  )

  -- Over any sequence of deliveries to handlers that take no row out of domain_event_consumers, of
  -- any events to any consumers, in any order, with redeliveries and with deliveries that raise, the
  -- handler of a consumer is run and committed at most once for an event. A run that raises is rolled
  -- back, and is not counted.
  pub times_run_le :
      (ds : List (Delivery B E)) (s : Outbox B) (event_id consumer_name : ℕ)
      → All (λ d. KeepsProcessed d.registration.handler) ds
      → times_run event_id consumer_name ds s ≤ 1
  unfolding times_run
  times_run_le [] s event_id consumer_name keeps = omega arith
  times_run_le (d ∷ ds) s event_id consumer_name keeps = elim (deliver_runs d s) [
    | inl h ↦ ground (arith, times_run_le ds (deliver d s).1 event_id consumer_name keeps.1)
    | inr (one, before, after) ↦
        let rest = times_run_le ds (deliver d s).1 event_id consumer_name keeps.1 in
        let none_left =
          processed_runs ds (deliver d s).1 d.event.id d.registration.consumer_name keeps.1 after in
        ground (arith, rest, none_left)
  ]

  failing :
      (bad : Registration B E) (event : EventRow) (now : ℕ) (s : Outbox B) (e : E)
      → bad.handler event s ≡ err e
      → (ran (consume_event integrity_error event bad.consumer_name bad.handler now s).0 ≡ 0)
        × ((consume_event integrity_error event bad.consumer_name bad.handler now s).1 ≡ s)
  unfolding outcome processed
  failing bad event now s e fails = elim (outcome-cases event bad.consumer_name bad.handler now s) [
    | inl (e', o) ↦ rw o (refl, refl)
    | inr (inl (o, p)) ↦ rw o (refl, refl)
    | inr (inr (s', k, p, o)) ↦ cc
  ]

  -- A registration whose handler always raises on an event changes nothing of what is done for the
  -- others, before it or after it: the tables and the number of handlers run are as without it.
  pub dispatch_to_failing :
      (before after : List (Registration B E)) (bad : Registration B E) (event : EventRow) (now : ℕ)
      (s : Outbox B) (raises : Outbox B → E)
      → ((s' : Outbox B) → bad.handler event s' ≡ err (raises s'))
      → dispatch_to integrity_error (before ++ bad ∷ after) event now s
        ≡ dispatch_to integrity_error (before ++ after) event now s
  unfolding dispatch_to
  dispatch_to_failing [] after bad event now s raises fails =
      ground (arith, failing bad event now s (raises s) (fails s))
  dispatch_to_failing (reg ∷ before) after bad event now s raises fails =
      ap
        (λ p. (
          elim (consume_event integrity_error event reg.consumer_name reg.handler now s).0 [
            | err e ↦ p.0
            | ok did_run ↦ elim did_run [ true ↦ suc p.0 | false ↦ p.0 ]
          ],
          p.1,
        ))
        (dispatch_to_failing before after bad event now
          (consume_event integrity_error event reg.consumer_name reg.handler now s).1 raises fails)

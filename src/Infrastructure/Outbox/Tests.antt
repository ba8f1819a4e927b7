-- ===== src/Infrastructure/Outbox/Tests.antt =====
-- A cascade of two events through infrastructure/consumer_registry.py, and the property at it.
use ai_coach_keyholder.Prelude.{
  ℕ, ◌≡◌, refl, Bool, true, false, [], ◌∷◌, arith, ◌==◌, if◌then◌else◌, Bool-cases, inl, inr,
}
use ai_coach_keyholder.Prelude.Lists.{count_where}
use ai_coach_keyholder.Infrastructure.Transaction.{pure, ◌>>=◌, apply_transition}
use ai_coach_keyholder.Infrastructure.Outbox.{
  EventRow, Outbox, NewEvent, event_row, is_pending, Handler, Registration, ConsumerRegistry,
  write_event, has_been_processed, mark_processed, consume_event, dispatch_to, dispatch,
  process_pending_events,
}
use ai_coach_keyholder.Infrastructure.Outbox.Drained.{Cascades, process_pending_events-drains}

abbrev started : NewEvent
started = record { event_type = 0; source_module = 2; payload = 3; occurred_at = 8 }

abbrev confirmed : EventRow
confirmed = event_row 0 (record started { event_type = 1 })

abbrev outbox : Outbox ℕ
outbox = record {
  domain_events = confirmed ∷ [];
  domain_event_consumers = [];
  next_event_id = 1;
  business = 0;
}

-- The handler of an event of type 1 writes one of type 0, which has no consumer.
abbrev starts : Handler ℕ ℕ
starts e = write_event 9 started >>= λ _. pure tt

abbrev starter : Registration ℕ ℕ
starter = record { consumer_name = 5; handler = starts }

abbrev registry : ConsumerRegistry ℕ ℕ
registry event_type = if event_type == 1 then starter ∷ [] else []

abbrev depth : EventRow → ℕ
depth e = if e.event_type == 1 then 2 else 1

abbrev is_processed : EventRow → Outbox ℕ → Bool
is_processed e s = has_been_processed {E = ℕ} 9 e.id 5 s

consumed_before :
    (e : EventRow) (s : Outbox ℕ)
    → is_processed e s ≡ true
    → (consume_event 9 e 5 starts 9 s).1.domain_events ≡ s.domain_events
unfolding consume_event apply_transition
consumed_before e s h = ground (arith, h)

consumed_first :
    (e : EventRow) (s : Outbox ℕ)
    → is_processed e s ≡ false
    → (consume_event 9 e 5 starts 9 s).1.domain_events
      ≡ event_row s.next_event_id started ∷ s.domain_events
unfolding consume_event mark_processed write_event apply_transition
consumed_first e s h = ground (arith, h)

registry-Cascades : Cascades 9 registry depth 9
unfolding dispatch dispatch_to
registry-Cascades e s = elim (Bool-cases (e.event_type == 1)) [
  | inr miss ↦ ([], rw miss refl, rw miss (omega arith))
  | inl hit ↦ elim (Bool-cases (is_processed e s)) [
    | inl before ↦ ([], rw hit (consumed_before e s before), rw hit (omega arith))
    | inr first ↦ (
      event_row s.next_event_id started ∷ [],
      rw hit (consumed_first e s first),
      rw hit (omega arith),
    )
  ]
]

process_pending_events-drains_example :
    count_where (is_pending 9) (process_pending_events 9 registry 9 1 300 2 outbox).1.domain_events
    ≡ 0
process_pending_events-drains_example =
    process_pending_events-drains 9 registry depth 9 1 300 2 outbox registry-Cascades (omega arith)
      (omega arith)

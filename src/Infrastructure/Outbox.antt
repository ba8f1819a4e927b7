-- ===== src/Infrastructure/Outbox.antt =====
-- infrastructure/outbox.py and infrastructure/consumer_registry.py: events that wait for delivery, and
-- their delivery to the handlers that are registered for them.

pub mod Deliveries
pub mod Claims
pub mod Weights
pub mod Drained
mod Tests
use ai_coach_keyholder.Prelude.{
  ℕ, zero, suc, ◌+◌, ⊤, Bool, true, false, Option, none, some, List, [], ◌∷◌, map, ok, err, ◌&&◌,
  ◌||◌, ◌==◌, not,
}
use ai_coach_keyholder.Prelude.Lists.{exists, select, order_by, update_where}
use ai_coach_keyholder.Infrastructure.TimeFormat.{iso_key, iso_leb}
use ai_coach_keyholder.Infrastructure.Transaction.{
  Tx, Method, pure, gets, modify, raise_if, when, ◌>>=◌, ◌>>◌, ◌then_do◌, apply_transition,
}

-- A row of domain_events; the payload and the names are texts, which no code here looks into.
pub record EventRow : Type 0 where
  pub id : ℕ
  pub event_type : ℕ
  pub source_module : ℕ
  pub payload : ℕ
  pub occurred_at : ℕ
  pub created_at : ℕ
  pub claimed_at : Option ℕ
  pub claim_expires_at : Option ℕ
  pub published_at : Option ℕ

-- A row of domain_event_consumers.
pub record Processed : Type 0 where
  pub event_id : ℕ
  pub consumer_name : ℕ
  pub processed_at : ℕ

-- The tables: those of the outbox, beside what the handlers' modules keep.
pub record Outbox (B : Type 0) : Type 0 where
  pub domain_events : List EventRow
  pub domain_event_consumers : List Processed
  pub next_event_id : ℕ
  pub business : B

pub record NewEvent : Type 0 where
  pub event_type : ℕ
  pub source_module : ℕ
  pub payload : ℕ
  pub occurred_at : ℕ

abbrev pub event_row : ℕ → NewEvent → EventRow
event_row id e = record {
  id = id;
  event_type = e.event_type;
  source_module = e.source_module;
  payload = e.payload;
  occurred_at = e.occurred_at;
  created_at = e.occurred_at;
  claimed_at = none;
  claim_expires_at = none;
  published_at = none;
}

-- claimed_at IS NULL OR claim_expires_at <= ?
abbrev pub is_free : ℕ → EventRow → Bool
is_free now e = elim e.claimed_at [
  | none ↦ true
  | some t ↦ elim e.claim_expires_at [ none ↦ false | some expiry ↦ iso_leb expiry now ]
]

abbrev pub is_unpublished : EventRow → Bool
is_unpublished e = elim e.published_at [ none ↦ true | some t ↦ false ]

abbrev pub is_pending : ℕ → EventRow → Bool
is_pending now e = is_unpublished e && is_free now e

abbrev pub has_event_id : ℕ → EventRow → Bool
has_event_id id e = e.id == id

-- `executemany`: one UPDATE for each id.
abbrev pub update_each : (EventRow → EventRow) → List ℕ → List EventRow → List EventRow
update_each f [] es = es
update_each f (id ∷ ids) es = update_each f ids (update_where (has_event_id id) f es)

-- LIMIT ?
abbrev pub take {ℓ} : {A : Type ℓ} → ℕ → List A → List A
take zero xs = []
take (suc n) [] = []
take (suc n) (x ∷ xs) = x ∷ take n xs

abbrev pub event_ids : List EventRow → List ℕ
event_ids = map (λ e. e.id)

abbrev pub claim_row : ℕ → ℕ → EventRow → EventRow
claim_row now lease_duration e = record e {
  claimed_at = some now;
  claim_expires_at = some (now + lease_duration);
}

unfoldable pub claimable : ℕ → ℕ → List EventRow → List EventRow
claimable batch_size now es =
    take batch_size (order_by (λ e. iso_key e.created_at) (select (is_pending now) es))

abbrev pub publish_row : ℕ → EventRow → EventRow
publish_row now e = record e { published_at = some now }

abbrev pub is_pair : ℕ → ℕ → Processed → Bool
is_pair event_id consumer_name p = p.event_id == event_id && p.consumer_name == consumer_name

abbrev pub Handler : Type 0 → Type 0 → Type 0
Handler B E = EventRow → Tx (Outbox B) E ⊤

pub record Registration (B E : Type 0) : Type 0 where
  pub consumer_name : ℕ
  pub handler : Handler B E

-- A registry: the registrations of an event type, in the order they were made.
abbrev pub ConsumerRegistry : Type 0 → Type 0 → Type 0
ConsumerRegistry B E = ℕ → List (Registration B E)

-- `integrity_error` is what a clash of a key raises.
module _ {B E : Type 0} (integrity_error : E) where
  -- `write_event`
  unfoldable pub write_event : NewEvent → Tx (Outbox B) E ℕ
  write_event e s = ok (
    s.next_event_id,
    record s {
      domain_events = event_row s.next_event_id e ∷ s.domain_events;
      next_event_id = suc s.next_event_id;
    },
  )

  unfoldable pub claim_pending_events : ℕ → ℕ → ℕ → Method (Outbox B) E (List EventRow)
  claim_pending_events batch_size now lease_duration =
      apply_transition {L = ⊤} none none
        (λ _ s.
          let rows = claimable batch_size now s.domain_events in
          ok (
            rows,
            record s {
              domain_events =
                  update_each (claim_row now lease_duration) (event_ids rows) s.domain_events;
            },
          ))
        none

  -- Of an empty list the source opens no transaction, which changes nothing either.
  unfoldable pub mark_published : List ℕ → ℕ → Method (Outbox B) E ⊤
  mark_published ids now =
      apply_transition {L = ⊤} none none
        (λ _.
          modify
            λ s. record s { domain_events = update_each (publish_row now) ids s.domain_events })
        none

  abbrev pub has_been_processed : ℕ → ℕ → Outbox B → Bool
  has_been_processed event_id consumer_name s =
      exists (is_pair event_id consumer_name) s.domain_event_consumers

  unfoldable pub mark_processed : ℕ → ℕ → ℕ → Tx (Outbox B) E ⊤
  mark_processed event_id consumer_name now = do
    clash ← gets (has_been_processed event_id consumer_name)
    raise_if clash integrity_error
    modify λ s. record s {
      domain_event_consumers =
          record { event_id = event_id; consumer_name = consumer_name; processed_at = now }
          ∷ s.domain_event_consumers;
    }

  abbrev pub consume_write : EventRow → ℕ → Handler B E → ℕ → Option Bool → Tx (Outbox B) E Bool
  consume_write event consumer_name handler now (some true) = pure false
  consume_write event consumer_name handler now _ = do
    handler event
    mark_processed event.id consumer_name now
    pure true

  unfoldable pub consume_event : EventRow → ℕ → Handler B E → ℕ → Method (Outbox B) E Bool
  consume_event event consumer_name handler now =
      apply_transition (some (gets (has_been_processed event.id consumer_name))) none
        (consume_write event consumer_name handler now) none

  -- `for reg in registrations`: an exception is logged, and the next registration is tried.
  unfoldable pub dispatch_to : List (Registration B E) → EventRow → ℕ → Outbox B → ℕ × Outbox B
  dispatch_to [] event now s = (0, s)
  dispatch_to (reg ∷ regs) event now s =
      let (r, s') = consume_event event reg.consumer_name reg.handler now s in
      let (ran, s'') = dispatch_to regs event now s' in
      (elim r [ err e ↦ ran | ok did_run ↦ elim did_run [ true ↦ suc ran | false ↦ ran ] ], s'')

  unfoldable pub dispatch : ConsumerRegistry B E → EventRow → ℕ → Outbox B → ℕ × Outbox B
  dispatch registry event = dispatch_to (registry event.event_type) event

  unfoldable pub dispatch_all : ConsumerRegistry B E → List EventRow → ℕ → Outbox B → ℕ × Outbox B
  dispatch_all registry [] now s = (0, s)
  dispatch_all registry (event ∷ events) now s =
      let (ran, s') = dispatch registry event now s in
      let (rest, s'') = dispatch_all registry events now s' in (ran + rest, s'')

  -- The number of rounds is the bound of the source's `for`.
  unfoldable pub process_pending_events :
      ConsumerRegistry B E → ℕ → ℕ → ℕ → ℕ → Method (Outbox B) E ℕ
  process_pending_events registry now batch_size lease_duration zero s = (ok 0, s)
  process_pending_events registry now batch_size lease_duration (suc rounds) s =
      (claim_pending_events batch_size now lease_duration then_do λ claimed s'. elim claimed [
        | [] ↦ (ok 0, s')
        | ◌∷◌ e es ↦
            let (ran, s'') = dispatch_all registry (e ∷ es) now s' in
            (mark_published (event_ids (e ∷ es)) now then_do λ _.
            process_pending_events registry now batch_size lease_duration rounds then_do λ rest s.
            (ok (ran + rest), s))
              s''
      ])
        s

-- ===== src/PenaltyEngine/Store/Events.antt =====
-- Actions that do nothing but add rows to the outbox.
use ai_coach_keyholder.Prelude.{ℕ, ⊤, ◌≡◌, refl, Bool, true, false, List, ◌∷◌, ok}
use ai_coach_keyholder.Infrastructure.Transaction.{pure, when, ◌>>◌, ◌>>=◌}
use ai_coach_keyholder.PenaltyEngine.Store.{Tables, Action, DomainEvent, EventPayload, write_event}

abbrev pub Emits : Action ⊤ → Type 0
Emits m = (t : Tables) → (es : List DomainEvent) × (m t ≡ ok (tt, record t { domain_events = es }))

pub Emits-pure : Emits (pure tt)
Emits-pure t = (t.domain_events, refl)

pub Emits-write_event : (now : ℕ) (p : EventPayload) → Emits (write_event now p)
Emits-write_event now p t = (record { payload = p; occurred_at = now } ∷ t.domain_events, refl)

pub Emits-when : (c : Bool) (m : Action ⊤) → Emits m → Emits (when c m)
Emits-when true m h = h
Emits-when false m h = Emits-pure

pub Emits-then : (m k : Action ⊤) → Emits m → Emits k → Emits (m >> k)
Emits-then m k hm hk t =
    let (es, e) = hm t in
    let (es', e') = hk (record t { domain_events = es }) in (es', rw (e, ◌>>=◌) e')

pub ruleset emits_rules = (Emits-pure, Emits-write_event, Emits-when, Emits-then)

-- ===== src/Infrastructure/Tests.antt =====
-- Runs of infrastructure/ on small tables, and its properties at them.
use ai_coach_keyholder.Prelude.{
  ℕ, ◌+◌, ◌≤◌, ◌<◌, ◌≡◌, ◌↔◌, refl, ⊤, true, false, Option, none, some, [], ◌∷◌, ok, err, arith,
  leb,
}
use ai_coach_keyholder.Prelude.Lists.{All, length}
use ai_coach_keyholder.Infrastructure.TimeFormat.{second, iso_leb, iso_leb_alike, iso_leb_whole}
use ai_coach_keyholder.Infrastructure.TimeFormat.Texts.{
  DateTime, is_valid, iso, parse_iso, parse_iso-iso,
}
use ai_coach_keyholder.Infrastructure.TimeFormat.Order.{text_leb}
use ai_coach_keyholder.Infrastructure.TimeFormat.Instants.{instant, text_leb-iso}
use ai_coach_keyholder.Infrastructure.Transaction.{
  Tx, apply_transition, transaction, nested_transaction, raise, modify, ◌>>◌,
}
use ai_coach_keyholder.Infrastructure.Outbox.{
  EventRow, Outbox, Handler, Registration, dispatch_to, claim_pending_events, event_ids,
}
use ai_coach_keyholder.Infrastructure.Outbox.Deliveries.{Delivery, dispatch_to_failing}
use ai_coach_keyholder.Infrastructure.Outbox.Claims.{
  contains, returned, claim_pending_events-exclusive,
}
use ai_coach_keyholder.Infrastructure.StartupLease.{
  Lease, acquire_system_startup_lease, release_system_startup_lease,
  acquire_system_startup_lease-exclusive,
}

-- A transition that writes and then raises.
abbrev writes_and_raises : Option ⊤ → Tx ℕ ℕ ⊤
writes_and_raises l = modify (λ s. s + 1) >> raise 7

raised_test : (apply_transition {L = ⊤} none none writes_and_raises none 5).0 ≡ err 7
unfolding apply_transition
raised_test = refl

nested_test :
    (transaction (writes_and_raises none) (record { tables = 5; transaction_open = true })).0
    ≡ err nested_transaction
unfolding transaction
nested_test = refl

live_test : iso_leb (1_500_000 + 300_000_000) 2_500_000 ≡ false
unfolding iso_leb
live_test = refl

-- 2024-02-29T23:59:59.000050Z and 2024-02-29T23:59:59Z.
abbrev leap_evening : DateTime
leap_evening = record {
  year = 2_024;
  month = 2;
  day = 29;
  hour = 23;
  minute = 59;
  second = 59;
  microsecond = 50;
}

abbrev whole_second : DateTime
whole_second = record leap_evening { microsecond = 0 }

leap_evening-is_valid : is_valid leap_evening ≡ true
unfolding is_valid
leap_evening-is_valid = refl

whole_second-is_valid : is_valid whole_second ≡ true
unfolding is_valid
whole_second-is_valid = refl

-- "2024-02-29T23:59:59Z"
whole_text :
    iso whole_second
    ≡ 50 ∷ 48 ∷ 50 ∷ 52 ∷ 45 ∷ 48 ∷ 50 ∷ 45 ∷ 50 ∷ 57 ∷ 84 ∷ 50 ∷ 51 ∷ 58 ∷ 53 ∷ 57 ∷ 58 ∷ 53 ∷ 57
      ∷ 90 ∷ []
unfolding iso
whole_text = refl

-- The whole second follows its fraction.
texts_reversed : text_leb (iso whole_second) (iso leap_evening) ≡ false
unfolding text_leb iso
texts_reversed = refl

parse_iso-iso_example : parse_iso (iso leap_evening) ≡ some leap_evening
parse_iso-iso_example = parse_iso-iso leap_evening leap_evening-is_valid

text_leb-iso_example :
    text_leb (iso leap_evening) (iso whole_second)
    ≡ iso_leb (instant leap_evening) (instant whole_second)
text_leb-iso_example =
    text_leb-iso leap_evening whole_second leap_evening-is_valid whole_second-is_valid

iso_leb_alike_example : iso_leb 1_000_000 2_000_000 ≡ leb 1_000_000 2_000_000
iso_leb_alike_example = iso_leb_alike 1_000_000 2_000_000 refl

-- An expiry on a whole second is not seen as past for the rest of that second.
iso_leb_whole_example : (iso_leb 1_000_000 1_999_999 ≡ true) ↔ (1_000_000 + second ≤ 1_999_999)
iso_leb_whole_example = iso_leb_whole 1_000_000 1_999_999 refl (λ e. ground (arith, e))

abbrev event : EventRow
event = record {
  id = 0;
  event_type = 1;
  source_module = 2;
  payload = 3;
  occurred_at = 4;
  created_at = 4;
  claimed_at = none;
  claim_expires_at = none;
  published_at = none;
}

abbrev outbox : Outbox ℕ
outbox = record {
  domain_events = event ∷ [];
  domain_event_consumers = [];
  next_event_id = 1;
  business = 0;
}

abbrev counts : Handler ℕ ℕ
counts e s = ok (tt, record s { business = s.business + 1 })

abbrev raises : Handler ℕ ℕ
raises e s = err 7

abbrev counter : Registration ℕ ℕ
counter = record { consumer_name = 5; handler = counts }

abbrev failing : Registration ℕ ℕ
failing = record { consumer_name = 6; handler = raises }

abbrev delivery : ℕ → Delivery ℕ ℕ
delivery now = record { event = event; registration = counter; now = now }

dispatch_to_failing_example :
    dispatch_to 9 (counter ∷ failing ∷ []) event 10 outbox
    ≡ dispatch_to 9 (counter ∷ []) event 10 outbox
dispatch_to_failing_example =
    dispatch_to_failing 9 (counter ∷ []) [] failing event 10 outbox (λ s. 7) (λ s. refl)

claim_pending_events-exclusive_example :
    All
      (λ e.
        contains
          (event_ids
            (returned {E = ℕ} (claim_pending_events {E = ℕ} 9 50 1_500_000 300_000_000 outbox).0))
          e.id
        ≡ false)
      (returned {E = ℕ}
        (claim_pending_events {E = ℕ} 9 50 2_500_000 300_000_000
          (claim_pending_events {E = ℕ} 9 50 1_500_000 300_000_000 outbox).1).0)
    × (length (returned {E = ℕ} (claim_pending_events {E = ℕ} 9 50 1_500_000 300_000_000 outbox).0)
        ≤ 50)
claim_pending_events-exclusive_example =
    claim_pending_events-exclusive 1_500_000 300_000_000 2_500_000 live_test 9 50 50 300_000_000
      outbox

abbrev lease : Lease
lease = record { held_by = 1; acquired_at = 10; expires_at = 15 }

abbrev old_lease : Lease
old_lease = record { held_by = 2; acquired_at = 0; expires_at = 5 }

acquired_test : (acquire_system_startup_lease {E = ℕ} 1 10 5 (some old_lease)).0 ≡ ok (some lease)
unfolding acquire_system_startup_lease
acquired_test = refl

acquire_system_startup_lease-exclusive_example :
    ((acquire_system_startup_lease {E = ℕ} 3 12 5
        (release_system_startup_lease {E = ℕ} old_lease
          (acquire_system_startup_lease {E = ℕ} 1 10 5 (some old_lease)).1).1).0
      ≡ ok none)
    ↔ (12 < 15)
acquire_system_startup_lease-exclusive_example =
    acquire_system_startup_lease-exclusive (some old_lease) lease old_lease 1 10 5 3 12 5
      acquired_test refl

-- ===== src/Infrastructure/Outbox/Claims.antt =====
-- infrastructure/outbox.py: a claim is exclusive until its lease has run out.
use ai_coach_keyholder.Prelude.{
  ℕ, zero, suc, ◌+◌, ◌≤◌, ◌≡◌, Bool, true, false, List, [], ◌∷◌, Result, ok, err, arith, ◌==◌, ◌||◌,
}
use ai_coach_keyholder.Prelude.Lists.{All, length, select, order_by, insert_by, update_where}
use ai_coach_keyholder.Prelude.Rows.{All-map, All-select, All-all, All-update_where}
use ai_coach_keyholder.Infrastructure.TimeFormat.{iso_key, iso_leb}
use ai_coach_keyholder.Infrastructure.Transaction.{apply_transition}
use ai_coach_keyholder.Infrastructure.Outbox.{
  EventRow, Outbox, is_pending, has_event_id, update_each, take, event_ids, claim_row, claimable,
  claim_pending_events,
}

abbrev pub contains : List ℕ → ℕ → Bool
contains [] k = false
contains (id ∷ ids) k = k == id || contains ids k

module _ (P : EventRow → Type 0) where
  All-insert_by :
      (key : EventRow → ℕ) (e : EventRow) (es : List EventRow)
      → P e
      → All P es
      → All P (insert_by key e es)
  All-insert_by key e [] h a = (h, tt)
  All-insert_by key e (f ∷ es) h a = ground (arith, All-insert_by key e es h)

  All-order_by : (key : EventRow → ℕ) (es : List EventRow) → All P es → All P (order_by key es)
  All-order_by key [] a = tt
  All-order_by key (e ∷ es) a = All-insert_by key e (order_by key es) a.0 (All-order_by key es a.1)

  All-take : (n : ℕ) (es : List EventRow) → All P es → All P (take n es)
  All-take zero es a = tt
  All-take (suc n) [] a = tt
  All-take (suc n) (e ∷ es) a = (a.0, All-take n es a.1)

  -- What holds of the pending rows holds of the claimable ones.
  All-claimable :
      (batch_size now : ℕ) (es : List EventRow)
      → All (λ e. is_pending now e ≡ true → P e) es
      → All P (claimable batch_size now es)
  unfolding claimable
  All-claimable batch_size now es a =
      All-take batch_size (order_by (λ e. iso_key e.created_at) (select (is_pending now) es)) (
        All-order_by (λ e. iso_key e.created_at) (select (is_pending now) es)
          (All-select P (is_pending now) es a))

length-take : {A : Type 0} (n : ℕ) (xs : List A) → length (take n xs) ≤ n
length-take zero xs = omega arith
length-take (suc n) [] = omega arith
length-take (suc n) (x ∷ xs) = omega (arith, length-take n xs)

length-claimable :
    (batch_size now : ℕ) (es : List EventRow) → length (claimable batch_size now es) ≤ batch_size
unfolding claimable
length-claimable batch_size now es =
    length-take batch_size (order_by (λ e. iso_key e.created_at) (select (is_pending now) es))

-- The events of a claim.
abbrev pub returned : {E : Type 0} → Result E (List EventRow) → List EventRow
returned (ok es) = es
returned (err e) = []

module _ (now lease later : ℕ) (live : iso_leb (now + lease) later ≡ false) where
  -- Behind the updates, no row with one of the ids is pending, and none of the rows that were known
  -- not to be.
  claimed_rows :
      (known : ℕ → Bool) (ids : List ℕ) (es : List EventRow)
      → All (λ e. known e.id ≡ true → is_pending later e ≡ false) es
      → All
          (λ e. (known e.id || contains ids e.id) ≡ true → is_pending later e ≡ false)
          (update_each (claim_row now lease) ids es)
  claimed_rows known [] es a = All-map es (λ e h k. ground (arith, h, k)) a
  claimed_rows known (id ∷ ids) es a =
      All-map
        (update_each (claim_row now lease) ids
          (update_where (has_event_id id) (claim_row now lease) es))
        (λ e h k. ground (arith, h, k))
        (claimed_rows (λ k. known k || (k == id)) ids
          (update_where (has_event_id id) (claim_row now lease) es)
          (All-update_where {P = λ e. known e.id ≡ true → is_pending later e ≡ false}
            {Q = λ e. (known e.id || (e.id == id)) ≡ true → is_pending later e ≡ false}
            (has_event_id id) (claim_row now lease) es (λ e h hit k. ground (arith, live))
            (λ e h miss k. ground (arith, h, miss, k)) a))

  module _ {B E : Type 0} (integrity_error : E) (batch_size later_batch later_lease : ℕ)
      (s : Outbox B) where
    -- Between a claim at `now` and the end of its lease, as the table compares instants, a claim takes
    -- none of the events that the first one took; and the first took at most `batch_size` events.
    pub claim_pending_events-exclusive :
        All
          (λ e.
            contains
              (event_ids (returned (claim_pending_events integrity_error batch_size now lease s).0))
              e.id
            ≡ false)
          (returned
            (claim_pending_events integrity_error later_batch later later_lease
              (claim_pending_events integrity_error batch_size now lease s).1).0)
        × (length (returned (claim_pending_events integrity_error batch_size now lease s).0)
            ≤ batch_size)
    unfolding claim_pending_events apply_transition
    claim_pending_events-exclusive =
        let first = claimable batch_size now s.domain_events in
        let rows = update_each (claim_row now lease) (event_ids first) s.domain_events in
        (
          All-claimable (λ e. contains (event_ids first) e.id ≡ false) later_batch later rows
              (All-map rows (λ e h pending. ground (arith, h, pending))
                (claimed_rows (λ k. false) (event_ids first) s.domain_events
                  (All-all s.domain_events (λ e h. ground arith)))),
          length-claimable batch_size now s.domain_events,
        )

-- ===== src/Infrastructure/Transaction/Returns.antt =====
-- What a transition returns where neither of its callables raises, and a sequence of two methods.
use ai_coach_keyholder.Prelude.{
  ⊤, none, ◌≡◌, Result, Result-cases, inl, inr, sym, refl, ◌∙◌, ap, ok, err,
}
use ai_coach_keyholder.Infrastructure.Transaction.{
  Tx, Method, pure, ◌>>=◌, write_and_events, apply_transition, commit, ◌then_do◌,
}

module _ {S E A B : Type 0} where
  pub then_do_ok :
      (m : Method S E A) (f : A → Method S E B) {s s' : S} {a : A}
      → m s ≡ (ok a, s')
      → (m then_do f) s ≡ f a s'
  then_do_ok m f e = ap (λ r. elim r.0 [ ok a ↦ f a r.1 | err e ↦ (err e, r.1) ]) e

  pub then_do_err :
      (m : Method S E A) (f : A → Method S E B) {s s' : S} {e : E}
      → m s ≡ (err e, s')
      → (m then_do f) s ≡ (err e, s')
  then_do_err m f e = ap (λ r. elim r.0 [ ok a ↦ f a r.1 | err e ↦ (err e, r.1) ]) e

  -- A sequence that returns went through its second method.
  pub then_do_returned :
      (m : Method S E A) (f : A → Method S E B) (s : S) {b : B}
      → ((m then_do f) s).0 ≡ ok b
      → (a : A) × ((m s).0 ≡ ok a) × ((m then_do f) s ≡ f a (m s).1)
  then_do_returned m f s h = elim (Result-cases (m s).0) [
    | inl (a, e) ↦ (a, e, then_do_ok m f (ap (λ r. (r, (m s).1)) e))
    | inr (x, e) ↦
        cc (sym h ∙ ap (λ (r : Result E B × S). r.0) (then_do_err m f (ap (λ r. (r, (m s).1)) e)))
  ]

  pub bind_ok :
      (m : Tx S E A) (k : A → Tx S E B) {s s' : S} {a : A} → m s ≡ ok (a, s') → (m >>= k) s ≡ k a s'
  bind_ok m k e = rw (e, ◌>>=◌) refl

  pub bind_err :
      (m : Tx S E A) (k : A → Tx S E B) {s : S} {e : E} → m s ≡ err e → (m >>= k) s ≡ err e
  bind_err m k e = ap (λ r. elim r [ ok p ↦ k p.0 p.1 | err e ↦ err e ]) e

module _ {S E A : Type 0} where
  -- The outcome of a body, and the tables behind it.
  abbrev committed : S → Result E (A × S) → Result E A × S
  committed s r = elim r [ ok p ↦ (ok p.0, p.1) | err e ↦ (err e, s) ]

  pub write_and_events_ok :
      (write : Tx S E A) (events : A → Tx S E ⊤) {s s' s'' : S} {a : A}
      → write s ≡ ok (a, s')
      → events a s' ≡ ok (tt, s'')
      → write_and_events write events s ≡ (ok a, s'')
  unfolding apply_transition
  write_and_events_ok write events {s} {s'} {s''} {a} w e =
      ap (committed s)
        (bind_ok write (λ r. events r >>= λ _. pure r) w ∙ bind_ok (events a) (λ _. pure a) e)

  pub write_only_ok :
      (write : Tx S E A) {s s' : S} {a : A}
      → write s ≡ ok (a, s')
      → apply_transition {L = ⊤} none none (λ _. write) none s ≡ (ok a, s')
  unfolding apply_transition
  write_only_ok write {s} w = ap (committed s) (bind_ok write pure w)

  pub write_and_events_err :
      (write : Tx S E A) (events : A → Tx S E ⊤) {s : S} {e : E}
      → write s ≡ err e
      → write_and_events write events s ≡ (err e, s)
  unfolding apply_transition
  write_and_events_err write events {s} w =
      ap (λ r. committed s (elim r [ ok p ↦ (events p.0 >>= λ _. pure p.0) p.1 | err e ↦ err e ])) w

  -- The tables behind a transition are those behind its two callables in one transaction.
  pub write_and_events_tables :
      (write : Tx S E A) (events : A → Tx S E ⊤) (s : S)
      → (write_and_events write events s).1 ≡ (commit (write >>= events) s).1
  unfolding apply_transition
  write_and_events_tables write events s =
      let left : Result E (A × S) → S = λ r. (committed s r).1 in
      let right : Result E (⊤ × S) → S =
        λ r. let q : Result E ⊤ × S = elim r [ ok p ↦ (ok p.0, p.1) | err e ↦ (err e, s) ] in q.1 in
      elim (Result-cases (write s)) [
        | inr (e, raised) ↦
            ap left (bind_err write (λ r. events r >>= λ _. pure r) raised)
            ∙ sym (ap right (bind_err write events raised))
        | inl ((a, s'), wrote) ↦ elim (Result-cases (events a s')) [
          | inl (p, done) ↦
              ap left (
                bind_ok write (λ r. events r >>= λ _. pure r) wrote
                ∙ bind_ok (events a) (λ _. pure a) done)
              ∙ sym (ap right (bind_ok write events wrote ∙ done))
          | inr (e, raised) ↦
              ap left (
                bind_ok write (λ r. events r >>= λ _. pure r) wrote
                ∙ bind_err (events a) (λ _. pure a) raised)
              ∙ sym (ap right (bind_ok write events wrote ∙ raised))
        ]
      ]

-- ===== src/Infrastructure/Transaction/Keeps.antt =====
-- What holds of the tables behind a transition, from what holds behind its parts.
use ai_coach_keyholder.Prelude.{⊤, none, Result, ok, err, ◌≡◌}
use ai_coach_keyholder.Infrastructure.Transaction.{
  Tx, Method, pure, ◌>>=◌, write_and_events, apply_transition, ◌then_do◌,
}

module _ {S E : Type 0} where
  -- The tables of a normal end; an exception leaves none.
  abbrev pub Leaves : {A : Type 0} → (S → Type 0) → Result E (A × S) → Type 0
  Leaves P (ok r) = P r.1
  Leaves P (err e) = ⊤

module _ {S E A B : Type 0} (P : S → Type 0) where
  bind_result :
      (r : Result E (A × S)) (k : A → Tx S E B)
      → Leaves P r
      → ((a : A) (s : S) → P s → Leaves P (k a s))
      → Leaves P (elim r as (λ _. Result E (B × S)) [ ok p ↦ k p.0 p.1 | err e ↦ err e ])
  bind_result (ok p) k h hk = hk p.0 p.1 h
  bind_result (err e) k h hk = tt

  pub Leaves-bind :
      (m : Tx S E A) (k : A → Tx S E B) (s : S)
      → Leaves P (m s)
      → ((a : A) (s' : S) → P s' → Leaves P (k a s'))
      → Leaves P ((m >>= k) s)
  Leaves-bind m k s = bind_result (m s) k

module _ {S E A : Type 0} (P : S → Type 0) where
  commit_result :
      (s : S) (r : Result E (A × S))
      → P s
      → Leaves P r
      → P (elim r as (λ _. Result E A × S) [ ok p ↦ (ok p.0, p.1) | err e ↦ (err e, s) ]).1
  commit_result s (ok p) h l = l
  commit_result s (err e) h l = h

  -- With the invariant before, and kept by both callables, it holds behind the transition, also
  -- where one of them raises.
  pub write_and_events_keeps :
      (write : Tx S E A) (events : A → Tx S E ⊤) (s : S)
      → P s
      → Leaves P (write s)
      → ((r : A) (s' : S) → P s' → Leaves P (events r s'))
      → P (write_and_events write events s).1
  unfolding apply_transition
  write_and_events_keeps write events s h w e =
      commit_result s ((write >>= λ r. events r >>= λ _. pure r) s) h (
        Leaves-bind P write (λ r. events r >>= λ _. pure r) s w
          (λ r s' p. Leaves-bind P (events r) (λ _. pure r) s' (e r s' p) (λ _ s'' q. q)))

  -- The same of a transition that has a `write` only.
  pub write_only_keeps :
      (write : Tx S E A) (s : S)
      → P s
      → Leaves P (write s)
      → P (apply_transition {L = ⊤} none none (λ _. write) none s).1
  unfolding apply_transition
  write_only_keeps write s h w =
      commit_result s ((write >>= λ r. pure r) s) h (Leaves-bind P write pure s w (λ r s' p. p))

module _ {S E A B : Type 0} (P : S → Type 0) where
  then_result :
      (r : Result E A) (s : S) (f : A → Method S E B)
      → P s
      → ((a : A) (s' : S) → P s' → P (f a s').1)
      → P (elim r as (λ _. Result E B × S) [ ok a ↦ f a s | err e ↦ (err e, s) ]).1
  then_result (ok a) s f h k = k a s h
  then_result (err e) s f h k = h

  pub then_do_keeps :
      (m : Method S E A) (f : A → Method S E B) (s : S)
      → P (m s).1
      → ((a : A) (s' : S) → P s' → P (f a s').1)
      → P ((m then_do f) s).1
  then_do_keeps m f s = then_result (m s).0 (m s).1 f

module _ {S E A B : Type 0} (P Q : S → Type 0) where
  then_result_gives :
      (r : Result E A) (s : S) (f : A → Method S E B)
      → P s
      → ((s' : S) → P s' → Q s')
      → ((a : A) (s' : S) → P s' → Q (f a s').1)
      → Q (elim r as (λ _. Result E B × S) [ ok a ↦ f a s | err e ↦ (err e, s) ]).1
  then_result_gives (ok a) s f h weaken k = k a s h
  then_result_gives (err e) s f h weaken k = weaken s h

  -- As `then_do_keeps`, where less holds at the end than between the two methods.
  pub then_do_gives :
      (m : Method S E A) (f : A → Method S E B) (s : S)
      → P (m s).1
      → ((s' : S) → P s' → Q s')
      → ((a : A) (s' : S) → P s' → Q (f a s').1)
      → Q ((m then_do f) s).1
  then_do_gives m f s = then_result_gives (m s).0 (m s).1 f

module _ {S E A : Type 0} (P Q : S → Type 0) where
  pub Leaves-map : (r : Result E (A × S)) → ((s : S) → P s → Q s) → Leaves P r → Leaves Q r
  Leaves-map (ok p) h l = h p.1 l
  Leaves-map (err e) h l = tt

module _ {S E A : Type 0} (P : S → Type 0) where
  commit_returned :
      (s : S) (r : Result E (A × S)) {a : A}
      → Leaves P r
      → (elim r as (λ _. Result E A × S) [ ok p ↦ (ok p.0, p.1) | err e ↦ (err e, s) ]).0 ≡ ok a
      → P (elim r as (λ _. Result E A × S) [ ok p ↦ (ok p.0, p.1) | err e ↦ (err e, s) ]).1
  commit_returned s (ok p) l h = l
  commit_returned s (err e) l h = cc

  -- What both callables leave holds behind a transition that returned.
  pub write_and_events_returned :
      (write : Tx S E A) (events : A → Tx S E ⊤) (s : S) {a : A}
      → Leaves P (write s)
      → ((r : A) (s' : S) → P s' → Leaves P (events r s'))
      → (write_and_events write events s).0 ≡ ok a
      → P (write_and_events write events s).1
  unfolding apply_transition
  write_and_events_returned write events s w e =
      commit_returned s ((write >>= λ r. events r >>= λ _. pure r) s) (
        Leaves-bind P write (λ r. events r >>= λ _. pure r) s w
          (λ r s' p. Leaves-bind P (events r) (λ _. pure r) s' (e r s' p) (λ _ s'' q. q)))

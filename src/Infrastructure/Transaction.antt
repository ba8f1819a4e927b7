-- ===== src/Infrastructure/Transaction.antt =====
-- infrastructure/database.py: `Database.transaction` and `apply_transition`.
-- A transaction works on a copy of the tables, which replaces them when the block ends normally.
pub mod Keeps
pub mod Returns
use ai_coach_keyholder.Prelude.{
  ⊤, ◌≡◌, Bool, true, false, Option, none, some, Result, ok, err, if◌then◌else◌,
}

-- What runs against an open `Transaction`: an exception leaves no state to go on from.
abbrev pub Tx : Type 0 → Type 0 → Type 0 → Type 0
Tx S E A = S → Result E (A × S)

module _ {S E : Type 0} where
  abbrev pub pure : {A : Type 0} → A → Tx S E A
  pure a s = ok (a, s)

  abbrev pub raise : {A : Type 0} → E → Tx S E A
  raise e s = err e

  abbrev pub gets : {A : Type 0} → (S → A) → Tx S E A
  gets f s = ok (f s, s)

  abbrev pub modify : (S → S) → Tx S E ⊤
  modify f s = ok (tt, f s)

  infixl 5 ◌>>=◌ ◌>>◌
  abbrev pub ◌>>=◌ : {A B : Type 0} → Tx S E A → (A → Tx S E B) → Tx S E B
  ◌>>=◌ m f s = elim (m s) [ ok r ↦ f r.0 r.1 | err e ↦ err e ]

  abbrev pub ◌>>◌ : {A B : Type 0} → Tx S E A → Tx S E B → Tx S E B
  m >> k = m >>= λ _. k

  abbrev pub raise_if : Bool → E → Tx S E ⊤
  raise_if true e = raise e
  raise_if false e = pure tt

  abbrev pub when : Bool → Tx S E ⊤ → Tx S E ⊤
  when true m = m
  when false m = pure tt

-- A public method: its outcome, and the tables as they are committed after it.
abbrev pub Method : Type 0 → Type 0 → Type 0 → Type 0
Method S E A = S → Result E A × S

module _ {S E : Type 0} where
  -- `with self.transaction()`: commit on normal exit, roll back on an exception.
  abbrev pub commit : {A : Type 0} → Tx S E A → Method S E A
  commit m s = elim (m s) [ ok r ↦ (ok r.0, r.1) | err e ↦ (err e, s) ]

  infixl 5 ◌then_do◌
  -- Methods in sequence: what the first has committed stays committed.
  abbrev pub ◌then_do◌ : {A B : Type 0} → Method S E A → (A → Method S E B) → Method S E B
  ◌then_do◌ m f s = let (r, s') = m s in elim r [ ok a ↦ f a s' | err e ↦ (err e, s') ]

  -- The optional callables of `apply_transition`.
  abbrev optional_load : {L : Type 0} → Option (Tx S E L) → Tx S E (Option L)
  optional_load none = pure none
  optional_load (some load) = load >>= λ l. pure (some l)

  abbrev optional_check : {L : Type 0} → Option (Option L → Result E ⊤) → Option L → Tx S E ⊤
  optional_check none l s = ok (tt, s)
  optional_check (some validate) l s = elim (validate l) [ ok u ↦ ok (u, s) | err e ↦ err e ]

  abbrev optional_events :
      {L R : Type 0} → Option (Option L → R → Tx S E ⊤) → Option L → R → Tx S E ⊤
  optional_events none l r = pure tt
  optional_events (some events) l r = events l r

  -- The body of the `with` block in `apply_transition`.
  abbrev pub transition_body :
      {L R : Type 0}
      → Option (Tx S E L)
      → Option (Option L → Result E ⊤)
      → (Option L → Tx S E R)
      → Option (Option L → R → Tx S E ⊤)
      → Tx S E R
  transition_body load validate write events = do
    state ← optional_load load
    optional_check validate state
    result ← write state
    optional_events events state result
    pure result

  unfoldable pub apply_transition :
      {L R : Type 0}
      → Option (Tx S E L)
      → Option (Option L → Result E ⊤)
      → (Option L → Tx S E R)
      → Option (Option L → R → Tx S E ⊤)
      → Method S E R
  apply_transition load validate write events = commit (transition_body load validate write events)

  -- The calls that give `write` and `events` only.
  abbrev pub write_and_events : {R : Type 0} → Tx S E R → (R → Tx S E ⊤) → Method S E R
  write_and_events write events =
      apply_transition {L = ⊤} none none (λ _. write) (some (λ _ r. events r))

-- A `Database` object: the committed tables, and whether this thread has a transaction open.
pub record Database (S : Type 0) : Type 0 where
  pub tables : S
  pub transaction_open : Bool

-- The exceptions of a block, and the one of the guard.
pub data DatabaseError (E : Type 0) : Type 0 where
  nested_transaction : DatabaseError E
  raised : E → DatabaseError E

unfoldable pub transaction :
    {S E A : Type 0} → Tx S E A → Database S → Result (DatabaseError E) A × Database S
transaction body db =
    if db.transaction_open then (err nested_transaction, db) else elim (body db.tables) [
      | ok r ↦ (ok r.0, record { tables = r.1; transaction_open = false })
      | err e ↦ (err (raised e), record { tables = db.tables; transaction_open = false })
    ]

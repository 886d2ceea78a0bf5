-- ===== src/Store/Driver.antt =====
-- database/sql as the stores of `internal/store` use it: a statement, or a transaction, runs as a
-- whole or not at all. The driver may refuse any of them, for a lock, a cancelled context or a full
-- disk: `refusals` says how each next statement fares.
use simple_ci.Base.{◌≡◌, refl, ◌⊎◌, inl, inr, Option, none, some, List, [], ◌∷◌}
use simple_ci.Base.Errors.{Error, Result, err}
use simple_ci.Base.Exec.{Exec}

pub record Driven (D : Type 0) : Type 0 where
  pub stored : D
  pub refusals : List (Option Error)

module _ {D A : Type 0} where
  abbrev pub answer : Option Error → Exec D A → D → List (Option Error) → Result A × Driven D
  answer (some e) m d rest = (err e, record { stored = d; refusals = rest })
  answer none m d rest = let (r, d') = m d in (r, record { stored = d'; refusals = rest })

  statement_on : List (Option Error) → Exec D A → D → Result A × Driven D
  statement_on [] m d = answer none m d []
  statement_on (q ∷ qs) m d = answer q m d qs

  unfoldable pub statement : Exec D A → Exec (Driven D) A
  unfolding statement_on
  statement m db = statement_on db.refusals m db.stored

  -- A statement is refused and changes nothing, or it runs on the data.
  pub statement_cases {ℓ} :
      (P : Result A × Driven D → Type ℓ) (m : Exec D A) (db : Driven D)
      → ((e : Error) (qs : List (Option Error))
          → P (err e, record { stored = db.stored; refusals = qs }))
      → ((qs : List (Option Error))
          → P ((m db.stored).0, record { stored = (m db.stored).1; refusals = qs }))
      → P (statement m db)
  unfolding statement
  statement_cases P m db refused answered = go db.refusals
    where
      go-answer : (q : Option Error) (qs : List (Option Error)) → P (answer q m db.stored qs)
      go-answer none qs = answered qs
      go-answer (some e) qs = refused e qs

      go : (qs : List (Option Error)) → P (statement_on qs m db.stored)
      go [] = go-answer none []
      go (q ∷ qs) = go-answer q qs

  -- The same as a fact about the result and the data.
  pub statement_outcome :
      (m : Exec D A) (db : Driven D)
      → ((e : Error) × ((statement m db).0 ≡ err e) × ((statement m db).1.stored ≡ db.stored))
        ⊎ (((statement m db).0 ≡ (m db.stored).0) × ((statement m db).1.stored ≡ (m db.stored).1))
  statement_outcome m db =
      statement_cases
        (λ p.
          ((e : Error) × (p.0 ≡ err e) × (p.1.stored ≡ db.stored))
          ⊎ ((p.0 ≡ (m db.stored).0) × (p.1.stored ≡ (m db.stored).1)))
        m db (λ e qs. inl (e, refl, refl)) (λ qs. inr (refl, refl))

-- ===== src/Handlers/Databases.antt =====
-- The configured databases of a dot value at the end of a template: the cleanups of their fields
-- (dot_db_config.go) in a row, as dot.go runs them.
use xtemplate.Prelude.{
  ℕ, Option, sym, ◌∙◌, ◌≡◌, inl, inr, refl, arith, none, some, Option-cases, List, [], ◌∷◌, ◌++◌,
  Text, All,
}
use xtemplate.Prelude.Errors.{Error, as_status, errors_join, join, first_some}
use xtemplate.Db
use xtemplate.Db.{DotDb, Driver}
use xtemplate.Db.Transactions.{commit_error, after_rollback, after_commit, rollback_lem, commit_lem}
use xtemplate.Dot.{DotConfig}
use xtemplate.Dot.Aligned.{clean_pairs}
use xtemplate.Handlers.{Value, db_value, World, db_provider}

-- A configured database, and the field of it that a template leaves.
pub record Used : Type 0 where
  pub name : Text
  pub sql : Driver
  pub field : DotDb

abbrev pub providers : List Used → List (DotConfig World Value)
providers [] = []
providers (u ∷ us) = db_provider u.name u.sql ∷ providers us

abbrev pub fields : List Used → List Value
fields [] = []
fields (u ∷ us) = db_value u.field ∷ fields us

-- The fields after a rollback, or a commit, of each, the last one first.
abbrev pub rolled_back : List Used → List DotDb → List DotDb
rolled_back [] closed = closed
rolled_back (u ∷ us) closed = rolled_back us (after_rollback u.field ∷ closed)

abbrev pub committed : List Used → List DotDb → List DotDb
committed [] closed = closed
committed (u ∷ us) closed = committed us (after_commit u.field ∷ closed)

abbrev status_of : Option Error → Option ℕ
status_of none = none
status_of (some e) = as_status e

-- The status of the first `ErrorStatus` in the errors of the rollbacks.
abbrev pub rollback_status : List Used → Option ℕ
rollback_status [] = none
rollback_status (u ∷ us) = first_some (status_of (Db.rollback u.sql u.field).1) (rollback_status us)

first_some-none : (a : Option ℕ) → first_some a none ≡ a
first_some-none none = refl
first_some-none (some n) = refl

first_some_assoc :
    (a b c : Option ℕ) → first_some (first_some a b) c ≡ first_some a (first_some b c)
first_some_assoc none b c = refl
first_some_assoc (some n) b c = refl

-- After an error the cleanup rolls every database back and commits none; the response is untouched,
-- and what comes out is an error whose status is that of the error before, or else that of the first
-- rollback with a status.
pub databases_failed :
    (us : List Used) (w : World) (e : Error)
    → (f : Error) × (clean_pairs (providers us) (fields us) (w, some e)
        ≡ (record w { closed = rolled_back us w.closed }, some f))
      × (as_status f ≡ first_some (as_status e) (rollback_status us))
unfolding clean_pairs db_provider Db.cleanup errors_join as_status
databases_failed [] w e = (e, refl, sym (first_some-none (as_status e)))
databases_failed (u ∷ us) w e =
    let w' : World = record w { closed = after_rollback u.field ∷ w.closed } in
    elim (Option-cases (Db.rollback u.sql u.field).1) [
      | inl fine ↦
          let (f, ran, status) = databases_failed us w' e in
          (f, rw (fine, rollback_lem u.sql u.field) ran, rw fine status)
      | inr (g, failed) ↦
          let (f, ran, status) = databases_failed us w' (join e g) in
          (
            f,
            rw (failed, rollback_lem u.sql u.field) ran,
            rw failed (status ∙ first_some_assoc (as_status e) (as_status g) (rollback_status us)),
          )
    ]

-- After a template without an error, if every open transaction can be committed, every database is
-- committed, no error comes out, and the response is untouched.
pub databases_succeeded :
    (us : List Used) (w : World)
    → All (λ u. commit_error u.sql u.field.tx ≡ none) us
    → clean_pairs (providers us) (fields us) (w, none)
      ≡ (record w { closed = committed us w.closed }, none)
unfolding clean_pairs db_provider Db.cleanup errors_join
databases_succeeded [] w h = refl
databases_succeeded (u ∷ us) w (fine, h) =
    let ih = databases_succeeded us (record w { closed = after_commit u.field ∷ w.closed }) h in
    let none_here : (Db.commit u.sql u.field).1 ≡ none = ground (arith, fine) in
    rw (none_here, commit_lem u.sql u.field) ih

-- If the commit of a database fails, those before it are committed, and it comes out as an error
-- after which the databases behind it are rolled back.
pub databases_not_atomic :
    (before : List Used) (u : Used) (after : List Used) (w : World) (e : Error)
    → All (λ v. commit_error v.sql v.field.tx ≡ none) before
    → commit_error u.sql u.field.tx ≡ some e
    → (f : Error) × (clean_pairs
          (providers (before ++ u ∷ after))
          (fields (before ++ u ∷ after))
          (w, none)
        ≡ (
          record w {
            closed = rolled_back after (after_commit u.field ∷ committed before w.closed);
          },
          some f,
        ))
unfolding clean_pairs db_provider Db.cleanup errors_join
databases_not_atomic [] u after w e h failed =
    let (f, ran, status) =
      databases_failed after (record w { closed = after_commit u.field ∷ w.closed }) e in
    let here : (Db.commit u.sql u.field).1 ≡ some e = ground (arith, failed) in
    (f, rw (here, commit_lem u.sql u.field) ran)
databases_not_atomic (v ∷ before) u after w e (fine, h) failed =
    let (f, ran) =
      databases_not_atomic before u after (record w { closed = after_commit v.field ∷ w.closed }) e
        h failed in
    let none_here : (Db.commit v.sql v.field).1 ≡ none = ground (arith, fine) in
    (f, rw (none_here, commit_lem v.sql v.field) ran)

-- ===== src/Handlers/Sessions.antt =====
-- What a request does to the databases of an instance, whatever its template calls on them.
use xtemplate.Prelude.{◌≡◌, Option, none, List, [], ◌∷◌, Text}
use xtemplate.Prelude.Errors.{Error}
use xtemplate.Db
use xtemplate.Db.{DotDb, Driver, Call, calls, new_dot_db}
use xtemplate.Db.Transactions.{IsLegal, open_tx}
use xtemplate.Handlers.Databases.{Used}

-- A configured database, and the calls that the template makes on its field, in their order.
pub record Session : Type 0 where
  pub name : Text
  pub sql : Driver
  pub ops : List (Call sql)

unfoldable pub used : Session → Used
used s = record { name = s.name; sql = s.sql; field = calls s.sql s.ops new_dot_db }

-- No transaction is open, and what was asked of the database is legal.
abbrev pub IsDone : DotDb → Type 0
IsDone d = IsLegal d.trail × (open_tx d.trail ≡ none)

-- The field that the cleanup of a database leaves, after the calls of its session; `e` is the error
-- that comes to this cleanup.
abbrev pub Ended : Session → DotDb → Type 0
Ended s d =
    ((e : Option Error) × (d ≡ (Db.cleanup s.sql (calls s.sql s.ops new_dot_db) e).0)) × IsDone d

abbrev pub AllEnded : List Session → List DotDb → Type 0
AllEnded [] [] = Unit
AllEnded (s ∷ ss) (d ∷ ds) = Ended s d × AllEnded ss ds
AllEnded _ _ = ⊥

-- The fields that were cleaned up, the last one first.
abbrev pub closing : List DotDb → List DotDb → List DotDb
closing [] closed = closed
closing (d ∷ ds) closed = closing ds (d ∷ closed)

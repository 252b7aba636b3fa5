-- ===== src/Db/Tests.antt =====
-- Runs of a database field, and the theorems of Db/Transactions and Db/Rows at them.
use xtemplate.Prelude.{zero, suc, ◌≡◌, refl, none, some, List, [], ◌∷◌, codes}
use xtemplate.Prelude.Errors.{external, ok}
use xtemplate.Db.{
  Driver, Cursor, DotDb, new_dot_db, Row, read_rows, query_rows, query_val, cleanup, Call,
  call_exec, call_query_val, call_commit, calls, committed, begun, ran,
}
use xtemplate.Db.Transactions.{open_tx, IsLegal, cleanup-calls}

abbrev one_cell : Cursor
one_cell = record { columns = ok (codes "n" ∷ []); scans = ok (5 ∷ []) ∷ []; final = none }

-- A database that commits the first transaction and no other.
abbrev sqlite : Driver
sqlite = record {
  begin_tx = λ n. none;
  commit = λ n. elim n [ zero ↦ none | suc m ↦ some (external 1) ];
  rollback = λ n. none;
  exec = λ n k q. ok k;
  query = λ n k q. ok one_cell;
}

abbrev script : List (Call sqlite)
script = call_exec (codes "insert") ∷ call_commit ∷ call_query_val (codes "select") ∷ []

script_runs :
    (calls sqlite script new_dot_db).trail
    ≡ ran 1 (codes "select") ∷ begun 1 ∷ committed 0 ∷ ran 0 (codes "insert") ∷ begun 0 ∷ []
unfolding calls query_val xtemplate.Db.commit xtemplate.Db.exec
script_runs = refl

value_runs : (query_val sqlite (codes "select") new_dot_db).1 ≡ ok 5
unfolding query_val
value_runs = refl

cleanup-calls_example :
    IsLegal (cleanup sqlite (calls sqlite script new_dot_db) none).0.trail
    × (open_tx (cleanup sqlite (calls sqlite script new_dot_db) none).0.trail ≡ none)
cleanup-calls_example = cleanup-calls sqlite script none

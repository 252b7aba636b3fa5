-- ===== src/Db.antt =====
-- dot_db.go and the `Cleanup` of dot_db_config.go: the implicit transaction of a database field.
pub mod Transactions
pub mod Rows
mod Tests
use Prim.Native.String.{String}
use xtemplate.Prelude.{
  ℕ, ◌+◌, Bool, true, false, Option, none, some, List, [], ◌∷◌, ◌++◌, Text, codes, text_eq,
  if◌then◌else◌, length, ◌==◌,
}
use xtemplate.Prelude.Errors.{Error, Result, ok, err, errorf, wrapf, int, errors_join}

-- What `tx.Query` returns: the columns, what each `Scan` gives, and `Err` after the last row.
pub record Cursor : Type 0 where
  pub columns : Result (List Text)
  pub scans : List (Result (List ℕ))
  pub final : Option Error

-- database/sql: the n-th transaction of the field, and its statements. A statement's second
-- number tells apart the calls in one transaction.
pub record Driver : Type 0 where
  pub begin_tx : ℕ → Option Error
  pub commit : ℕ → Option Error
  pub rollback : ℕ → Option Error
  pub exec : ℕ → ℕ → Text → Result ℕ
  pub query : ℕ → ℕ → Text → Result Cursor

-- What the field asks of its database, the last call first.
pub data Event : Type 0 where
  begun : ℕ → Event
  ran : ℕ → Text → Event
  committed : ℕ → Event
  rolled_back : ℕ → Event

-- `DotDB`: `tx` is its pointer. `begins` counts the calls of `BeginTx`.
pub record DotDb : Type 0 where
  pub tx : Option ℕ
  pub begins : ℕ
  pub trail : List Event

-- `Value` of dot_db_config.go
abbrev pub new_dot_db : DotDb
new_dot_db = record { tx = none; begins = 0; trail = [] }

abbrev pub Row : Type 0
Row = List (Text × ℕ)

-- `row[c] = v`
pub set_column : Text → ℕ → Row → Row
set_column c v [] = (c, v) ∷ []
set_column c v ((d, w) ∷ row) = if text_eq c d then (c, v) ∷ row else (d, w) ∷ set_column c v row

fill_row : Row → List Text → List ℕ → Row
unfolding set_column
fill_row row (c ∷ cs) (v ∷ vs) = fill_row (set_column c v row) cs vs
fill_row row _ _ = row

-- The loop over `result.Next()`: the rows, and the error that ends the function.
scan_loop : List Text → List Row → List (Result (List ℕ)) → List Row × Option Error
unfolding fill_row
scan_loop columns rows [] = (rows, none)
scan_loop columns rows (err e ∷ scans) = ([], some e)
scan_loop columns rows (ok vs ∷ scans) =
    scan_loop columns (rows ++ fill_row [] columns vs ∷ []) scans

-- `return rows, result.Err()`: the rows are returned beside an error of the last step.
after_scan : Option Error → List Row × Option Error → List Row × Option Error
after_scan final (rows, none) = (rows, final)
after_scan final (rows, some e) = ([], some e)

pub read_rows : Result Cursor → List Row × Option Error
unfolding scan_loop after_scan
read_rows (err e) = ([], some (wrapf "failed to execute query: %w" [] e))
read_rows (ok c) = elim c.columns [
  | err e ↦ ([], some e)
  | ok columns ↦ after_scan c.final (scan_loop columns [] c.scans)
]

-- The one row of `QueryRow`
pub one_row : List Row × Option Error → Result Row
one_row (rows, some e) = err e
one_row (r ∷ [], none) = ok r
one_row (rows, none) =
    err (errorf "query returned %d rows, expected exactly 1 row" (int (length rows) ∷ []))

-- The one value of `QueryVal`; a map of length 1 has a value, so the panic is never reached.
pub one_value : Result Row → Result ℕ
one_value (err e) = err e
one_value (ok ((c, v) ∷ [])) = ok v
one_value (ok row) = err (errorf "query returned %d columns, expected 1" (int (length row) ∷ []))

module _ (sql : Driver) where
  begun_tx : DotDb → Option Error → DotDb × Option Error
  begun_tx d none = (
    record d { tx = some d.begins; begins = d.begins + 1; trail = begun d.begins ∷ d.trail },
    none,
  )
  begun_tx d (some e) = (record d { begins = d.begins + 1 }, some e)

  pub make_tx : DotDb → DotDb × Option Error
  unfolding begun_tx
  make_tx d = elim d.tx [ none ↦ begun_tx d (sql.begin_tx d.begins) | some n ↦ (d, none) ]

  log_ran : Text → DotDb → DotDb
  log_ran q d = elim d.tx [ none ↦ d | some n ↦ record d { trail = ran n q ∷ d.trail } ]

  -- The statement in the open transaction; `make_tx` has left one.
  run_exec : Text → DotDb × Option Error → DotDb × Result ℕ
  unfolding log_ran
  run_exec q (d, some e) = (d, err e)
  run_exec q (d, none) = elim d.tx [
    | none ↦ (d, err (errorf "invalid memory address or nil pointer dereference" []))
    | some n ↦ (log_ran q d, sql.exec n (length d.trail) q)
  ]

  pub exec : Text → DotDb → DotDb × Result ℕ
  unfolding run_exec make_tx
  exec q d = run_exec q (make_tx d)

  run_query : Text → DotDb × Option Error → DotDb × List Row × Option Error
  unfolding log_ran read_rows
  run_query q (d, some e) = (d, [], some e)
  run_query q (d, none) = elim d.tx [
    | none ↦ (d, [], some (errorf "invalid memory address or nil pointer dereference" []))
    | some n ↦
        let result = read_rows (sql.query n (length d.trail) q) in (log_ran q d, result.0, result.1)
  ]

  pub query_rows : Text → DotDb → DotDb × List Row × Option Error
  unfolding run_query make_tx
  query_rows q d = run_query q (make_tx d)

  pub query_row : Text → DotDb → DotDb × Result Row
  unfolding query_rows one_row
  query_row q d = let r = query_rows q d in (r.0, one_row (r.1, r.2))

  pub query_val : Text → DotDb → DotDb × Result ℕ
  unfolding query_row one_value
  query_val q d = let r = query_row q d in (r.0, one_value r.1)

  unfoldable pub commit : DotDb → DotDb × Option Error
  commit d = elim d.tx [
    | none ↦ (d, none)
    | some n ↦ (record d { tx = none; trail = committed n ∷ d.trail }, sql.commit n)
  ]

  unfoldable pub rollback : DotDb → DotDb × Option Error
  rollback d = elim d.tx [
    | none ↦ (d, none)
    | some n ↦ (record d { tx = none; trail = rolled_back n ∷ d.trail }, sql.rollback n)
  ]

  -- `Cleanup`: the error of the template, joined with that of the end of the transaction
  unfoldable pub cleanup : DotDb → Option Error → DotDb × Option Error
  unfolding commit rollback
  cleanup d none = let r = commit d in (r.0, errors_join none r.1)
  cleanup d (some e) = let r = rollback d in (r.0, errors_join (some e) r.1)

  -- What a template may call, in any order.
  pub data Call : Type 0 where
    call_exec call_query_rows call_query_row call_query_val : Text → Call
    call_commit call_rollback : Call

  pub call : Call → DotDb → DotDb
  call (call_exec q) d = (exec q d).0
  call (call_query_rows q) d = (query_rows q d).0
  call (call_query_row q) d = (query_row q d).0
  call (call_query_val q) d = (query_val q d).0
  call call_commit d = (commit d).0
  call call_rollback d = (rollback d).0

  pub calls : List Call → DotDb → DotDb
  unfolding call
  calls [] d = d
  calls (c ∷ cs) d = calls cs (call c d)

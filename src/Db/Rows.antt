-- ===== src/Db/Rows.antt =====
-- What the query methods of dot_db.go return.
use xtemplate.Prelude.{
  ℕ, ◌+◌, ◌≡◌, ◌↔◌, refl, ap, arith, Option, none, some, List, [], ◌∷◌, ◌++◌, Text, length,
  length-append,
}
use xtemplate.Prelude.Errors.{Error, Result, ok, err}
use xtemplate.Db.{
  Driver, Cursor, DotDb, Row, fill_row, scan_loop, after_scan, read_rows, one_row, one_value,
  query_rows, query_val,
}

length-scan_loop :
    (columns : List Text) (rows out : List Row) (scans : List (Result (List ℕ)))
    → scan_loop columns rows scans ≡ (out, none)
    → length out ≡ length rows + length scans
unfolding scan_loop
length-scan_loop columns rows out [] h = let same : rows ≡ out = cc in omega (arith, ap length same)
length-scan_loop columns rows out (err e ∷ scans) h = cc
length-scan_loop columns rows out (ok vs ∷ scans) h =
    let row = fill_row [] columns vs in
    omega (
      arith,
      length-scan_loop columns (rows ++ row ∷ []) out scans h,
      length-append rows (row ∷ []),
    )

one_value-one_row :
    (rows : List Row) (e : Option Error) {v : ℕ}
    → one_value (one_row (rows, e)) ≡ ok v
    → (c : Text) × (rows ≡ ((c, v) ∷ []) ∷ []) × (e ≡ none)
unfolding one_value one_row
one_value-one_row [] none h = cc
one_value-one_row ([] ∷ []) none h = cc
one_value-one_row (((c, w) ∷ []) ∷ []) none h = (c, ground arith, refl)
one_value-one_row ((a ∷ b ∷ r) ∷ []) none h = cc
one_value-one_row (r ∷ s ∷ rows) none h = cc
one_value-one_row [] (some e) h = cc
one_value-one_row (r ∷ rows) (some e) h = cc

after_scan-none :
    (final : Option Error) (r : List Row × Option Error) {rows : List Row}
    → after_scan final r ≡ (rows, none)
    → r ≡ (rows, none)
unfolding after_scan
after_scan-none final (rs, none) h = ground (arith, h)
after_scan-none final (rs, some e) h = absurd (ground (arith, h))

-- Rows that `QueryRows` reads without an error are as many as the result has.
length-read_rows :
    (c : Cursor) (rows : List Row) → read_rows (ok c) ≡ (rows, none) → length rows ≡ length c.scans
unfolding read_rows after_scan
length-read_rows c rows h = go c.columns refl
  where
    go : (r : Result (List Text)) → c.columns ≡ r → length rows ≡ length c.scans
    go (err e) p = absurd (ground (arith, p, h))
    go (ok columns) p =
        let read : after_scan c.final (scan_loop columns [] c.scans) ≡ (rows, none) =
          ground (arith, p, h) in
        omega (
          arith,
          length-scan_loop columns [] rows c.scans
              (after_scan-none c.final (scan_loop columns [] c.scans) read),
        )

-- `QueryVal` returns a value exactly if `QueryRows` on the same field returns one row with one
-- column, which holds the value, and no error.
pub query_val_iff :
    (sql : Driver) (q : Text) (d : DotDb) (v : ℕ)
    → ((query_val sql q d).1 ≡ ok v) ↔ (
        (c : Text) × ((query_rows sql q d).1 ≡ ((c, v) ∷ []) ∷ [])
        × ((query_rows sql q d).2 ≡ none))
unfolding query_val
query_val_iff sql q d v = (
  one_value-one_row (query_rows sql q d).1 (query_rows sql q d).2,
  λ (c, one, fine). rw (one, fine) (unfold one_value one_row in refl),
)

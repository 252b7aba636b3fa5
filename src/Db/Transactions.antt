-- ===== src/Db/Transactions.antt =====
-- The transactions that a template opens through dot_db.go, whatever it calls and however the
-- database answers.
use xtemplate.Prelude.{
  ℕ, ◌≡◌, ◌∙◌, refl, ap, arith, Option, none, some, Option-cases, inl, inr, List, [], ◌∷◌, Text,
}
use xtemplate.Prelude.Errors.{Error, as_status, errors_join}
use xtemplate.Db.{
  Driver, Event, begun, ran, committed, rolled_back, DotDb, new_dot_db, exec, query_rows, query_row,
  query_val, commit, rollback, cleanup, Call, call_exec, call_query_rows, call_query_row,
  call_query_val, call_commit, call_rollback, call, calls,
}

-- The transaction that a trail leaves open.
abbrev pub open_tx : List Event → Option ℕ
open_tx [] = none
open_tx (begun n ∷ t) = some n
open_tx (ran n q ∷ t) = open_tx t
open_tx (committed n ∷ t) = none
open_tx (rolled_back n ∷ t) = none

-- The discipline of database/sql: a transaction begins when none is open, and statements, commits
-- and rollbacks are of the open one.
abbrev pub IsLegal : List Event → Type 0
IsLegal [] = Unit
IsLegal (begun n ∷ t) = (open_tx t ≡ none) × IsLegal t
IsLegal (ran n q ∷ t) = (open_tx t ≡ some n) × IsLegal t
IsLegal (committed n ∷ t) = (open_tx t ≡ some n) × IsLegal t
IsLegal (rolled_back n ∷ t) = (open_tx t ≡ some n) × IsLegal t

abbrev pub with_rollback : Option ℕ → List Event → List Event
with_rollback none t = t
with_rollback (some n) t = rolled_back n ∷ t

abbrev pub with_commit : Option ℕ → List Event → List Event
with_commit none t = t
with_commit (some n) t = committed n ∷ t

-- A field without a transaction, with the event that ended it.
abbrev pub after_rollback : DotDb → DotDb
after_rollback d = record d { tx = none; trail = with_rollback d.tx d.trail }

abbrev pub after_commit : DotDb → DotDb
after_commit d = record d { tx = none; trail = with_commit d.tx d.trail }

abbrev pub commit_error : Driver → Option ℕ → Option Error
commit_error sql none = none
commit_error sql (some n) = sql.commit n

pub rollback_lem : (sql : Driver) (d : DotDb) → (rollback sql d).0 ≡ after_rollback d
unfolding rollback
rollback_lem sql d = elim (Option-cases d.tx) [
  | inl closed ↦ rw (rollback, closed) (ap (λ t. record d { tx = t }) closed)
  | inr (n, open_) ↦ rw (rollback, open_) refl
]

pub commit_lem : (sql : Driver) (d : DotDb) → (commit sql d).0 ≡ after_commit d
unfolding commit
commit_lem sql d = elim (Option-cases d.tx) [
  | inl closed ↦ rw (commit, closed) (ap (λ t. record d { tx = t }) closed)
  | inr (n, open_) ↦ rw (commit, open_) refl
]

abbrev pub status_of : Option Error → Option ℕ
status_of none = none
status_of (some e) = as_status e

pub record IsSound (d : DotDb) : Type 0 where
  pub legal : IsLegal d.trail
  pub pointer : open_tx d.trail ≡ d.tx

module _ (sql : Driver) where
  exec-IsSound : (q : Text) (d : DotDb) → IsSound d → IsSound (exec sql q d).0
  unfolding exec
  exec-IsSound q d s = ground (arith, s.legal, s.pointer)

  query_rows-IsSound : (q : Text) (d : DotDb) → IsSound d → IsSound (query_rows sql q d).0
  unfolding query_rows
  query_rows-IsSound q d s = ground (arith, s.legal, s.pointer)

  commit-IsSound : (d : DotDb) → IsSound d → IsSound (commit sql d).0
  unfolding commit
  commit-IsSound d s = ground (arith, s.legal, s.pointer)

  rollback-IsSound : (d : DotDb) → IsSound d → IsSound (rollback sql d).0
  unfolding rollback
  rollback-IsSound d s = ground (arith, s.legal, s.pointer)

  query_row-0 : (q : Text) (d : DotDb) → (query_row sql q d).0 ≡ (query_rows sql q d).0
  unfolding query_row
  query_row-0 q d = refl

  query_val-0 : (q : Text) (d : DotDb) → (query_val sql q d).0 ≡ (query_rows sql q d).0
  unfolding query_val
  query_val-0 q d = refl

  call-IsSound : (c : Call sql) (d : DotDb) → IsSound d → IsSound (call sql c d)
  unfolding call
  call-IsSound (call_exec q) d s = exec-IsSound q d s
  call-IsSound (call_query_rows q) d s = query_rows-IsSound q d s
  call-IsSound (call_query_row q) d s = rw query_row-0 (query_rows-IsSound q d s)
  call-IsSound (call_query_val q) d s = rw query_val-0 (query_rows-IsSound q d s)
  call-IsSound call_commit d s = commit-IsSound d s
  call-IsSound call_rollback d s = rollback-IsSound d s

  calls-IsSound : (cs : List (Call sql)) (d : DotDb) → IsSound d → IsSound (calls sql cs d)
  unfolding calls
  calls-IsSound [] d s = s
  calls-IsSound (c ∷ cs) d s = calls-IsSound cs (call sql c d) (call-IsSound c d s)

  cleanup-IsSound :
      (d : DotDb) (e : Option Error)
      → IsSound d
      → IsSound (cleanup sql d e).0 × ((cleanup sql d e).0.tx ≡ none)
  unfolding cleanup
  cleanup-IsSound d none s = ground (arith, s.legal, s.pointer)
  cleanup-IsSound d (some e) s = ground (arith, s.legal, s.pointer)

  -- Whatever a template calls on a new field and however it ends, after `Cleanup` no transaction
  -- is open, and what the database was asked is legal: one transaction at a time, each statement
  -- in the open one, and each transaction ended once.
  pub cleanup-calls :
      (cs : List (Call sql)) (e : Option Error)
      → IsLegal (cleanup sql (calls sql cs new_dot_db) e).0.trail
        × (open_tx (cleanup sql (calls sql cs new_dot_db) e).0.trail ≡ none)
  cleanup-calls cs e =
      let new : IsSound new_dot_db = record { legal = tt; pointer = refl } in
      let (s, gone) =
        cleanup-IsSound (calls sql cs new_dot_db) e (calls-IsSound cs new_dot_db new) in
      (s.legal, s.pointer ∙ gone)

  -- `Cleanup` after an error commits nothing: it rolls back the open transaction, if there is one,
  -- and does nothing else. The error stays an error, with the status that it had.
  cleanup_failed :
      (d : DotDb) (e : Error) (n : ℕ)
      → as_status e ≡ some n
      → ((cleanup sql d (some e)).0.trail ≡ with_rollback d.tx d.trail)
        × (status_of (cleanup sql d (some e)).1 ≡ some n)
  unfolding cleanup as_status errors_join
  cleanup_failed d e n h = ground (arith)

  -- `Cleanup` after a template without an error commits the open transaction, if there is one, and
  -- its error is that of the commit: so it returns none exactly if nothing was left to commit or
  -- the commit went through.
  cleanup_succeeded :
      (d : DotDb)
      → ((cleanup sql d none).0.trail ≡ with_commit d.tx d.trail)
        × ((cleanup sql d none).1 ≡ commit_error sql d.tx)
  unfolding cleanup errors_join
  cleanup_succeeded d = ground arith

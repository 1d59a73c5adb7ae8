-- ===== src/Storage/Migrations/Mysql.antt =====
-- migrate of internal/storage/mysql.go: the statements of a migration run one by one, without a
-- transaction, and its number is recorded after the last; where one fails from outside, the next
-- start runs the migration again, statements that have run included (CREATE TABLE IF NOT EXISTS).
pub mod Restart
use open_sync_crdt.Prelude.{
  ℕ, zero, suc, ◌+◌, ◌≤◌, String, Bool, true, false, List, [], ◌∷◌, ◌++◌, length, length-append,
  leb, if◌then◌else◌, ◌≡◌, refl, sym, ap, ◌∙◌, arith, Result, ok, err, subst, inl, inr, ◌⊎◌, ◌==◌,
  ◌||◌, eq_refl, Bool-cases,
}
use mathlib.Core.List.{append_assoc, append-nil}
use open_sync_crdt.Storage.{StoreError, failed}
use open_sync_crdt.Storage.Migrations.{
  Schema, Step, one_fails, max_version, go_on, up_to, max_version-up_to,
}

unfoldable pub has_run : String → List String → Bool
has_run stmt [] = false
has_run stmt (s ∷ ran) = (s == stmt) || has_run stmt ran

-- A table that exists stays as it is.
unfoldable pub run_once : String → List String → List String
unfolding has_run
run_once stmt ran = if has_run stmt ran then ran else ran ++ stmt ∷ []

executed : String → Schema → Bool × List Bool → Result StoreError Unit × Schema × List Bool
unfolding run_once
executed stmt s (true, rest) = (err (failed "apply migration"), s, rest)
executed stmt s (false, rest) = (ok tt, record s { ran = run_once stmt s.ran }, rest)

unfoldable pub exec_all : List String → Step
unfolding one_fails executed go_on
exec_all [] s fs = (ok tt, s, fs)
exec_all (stmt ∷ more) s fs = go_on (executed stmt s (one_fails 1 fs)) (exec_all more)

recorded : ℕ → Schema → Bool × List Bool → Result StoreError Unit × Schema × List Bool
recorded version s (true, rest) = (err (failed "record migration"), s, rest)
recorded version s (false, rest) = (ok tt, record s { versions = s.versions ++ version ∷ [] }, rest)

unfoldable pub record_version : ℕ → Step
unfolding one_fails recorded
record_version version s fs = recorded version s (one_fails 1 fs)

unfoldable pub mysql_migrations : ℕ → ℕ → List (List String) → Step
unfolding exec_all record_version go_on
mysql_migrations done current [] s fs = (ok tt, s, fs)
mysql_migrations done current (stmts ∷ more) s fs =
    let skipped = mysql_migrations (done + 1) current more s fs in
    let applied =
      go_on (go_on (exec_all stmts s fs) (record_version (done + 1)))
        (mysql_migrations (done + 1) current more) in
    if leb (done + 1) current then skipped else applied

begun : List (List String) → Schema → Bool × List Bool → Result StoreError Unit × Schema × List Bool
unfolding max_version mysql_migrations
begun all s (true, rest) = (err (failed "schema version"), s, rest)
begun all s (false, rest) = mysql_migrations 0 (max_version s.versions) all s rest

unfoldable pub mysql_migrate : List (List String) → Step
unfolding one_fails begun
mysql_migrate all s fs = begun all s (one_fails 2 fs)

-- Every statement of these migrations has run.
unfoldable pub HaveRun : List String → List String → Type 0
HaveRun [] ran = Unit
HaveRun (stmt ∷ stmts) ran = (has_run stmt ran ≡ true) × HaveRun stmts ran

unfoldable pub AllRun : List (List String) → List String → Type 0
AllRun [] ran = Unit
AllRun (stmts ∷ more) ran = HaveRun stmts ran × AllRun more ran

-- The first migrations are recorded, and every statement of theirs has run.
pub record IsBuilt (all : List (List String)) (s : Schema) : Type 0 where
  pub applied : List (List String)
  pub left : List (List String)
  pub whole : applied ++ left ≡ all
  pub versions : s.versions ≡ up_to (length applied)
  pub ran : AllRun applied s.ran

abbrev pub AllBuilt : List (List String) → Schema → Type 0
AllBuilt all s = AllRun all s.ran × (s.versions ≡ up_to (length all))

abbrev pub Builds : List (List String) → Result StoreError Unit × Schema × List Bool → Type 0
Builds all (r, s, fs) =
    IsBuilt all s × (((r ≡ ok tt) × AllBuilt all s) ⊎ ((e : StoreError) × (r ≡ err e)))

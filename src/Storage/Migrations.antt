-- ===== src/Storage/Migrations.antt =====
-- migrate and applyMigration of internal/storage/postgres.go: the schema is brought up to date, and
-- where a statement fails from outside, the next start goes on from there.
pub mod Mysql
use open_sync_crdt.Prelude.{
  ℕ, zero, suc, ◌+◌, ◌≤◌, String, Bool, true, false, List, [], ◌∷◌, ◌++◌, length, length-append,
  leb, if◌then◌else◌, ◌≡◌, refl, sym, ap, ◌∙◌, arith, Result, ok, err, subst, inl, inr, ◌⊎◌,
}
use mathlib.Core.List.{append_assoc}
use open_sync_crdt.Storage.{StoreError, failed}

-- The rows of schema_migrations, and the migrations that have run.
pub record Schema : Type 0 where
  pub versions : List ℕ
  pub ran : List String

-- With, for each statement to come, whether it fails from outside (none are left at the end).
abbrev pub Step : Type 0
Step = Schema → List Bool → Result StoreError Unit × Schema × List Bool

-- Whether one of the next statements fails; the first that does ends the matter.
unfoldable pub one_fails : ℕ → List Bool → Bool × List Bool
one_fails zero fs = (false, fs)
one_fails (suc n) [] = (false, [])
one_fails (suc n) (true ∷ fs) = (true, fs)
one_fails (suc n) (false ∷ fs) = one_fails n fs

-- COALESCE(MAX(version), 0)
unfoldable pub max_version : List ℕ → ℕ
max_version [] = 0
max_version (v ∷ vs) = let m = max_version vs in if leb m v then v else m

recorded_unless :
    ℕ → String → Schema → Bool × List Bool → Result StoreError Unit × Schema × List Bool
recorded_unless version stmt s (true, rest) = (err (failed "apply migration"), s, rest)
recorded_unless version stmt s (false, rest) =
    (ok tt, record { versions = s.versions ++ version ∷ []; ran = s.ran ++ stmt ∷ [] }, rest)

-- `applyMigration`: BEGIN, the migration, the row and COMMIT, all or none.
unfoldable pub apply_migration : ℕ → String → Step
unfolding one_fails recorded_unless
apply_migration version stmt s fs = recorded_unless version stmt s (one_fails 4 fs)

pub go_on :
    Result StoreError Unit × Schema × List Bool → Step → Result StoreError Unit × Schema × List Bool
go_on (err e, s, fs) f = (err e, s, fs)
go_on (ok u, s, fs) f = f s fs

unfoldable pub run_migrations : ℕ → ℕ → List String → Step
unfolding go_on apply_migration
run_migrations done current [] s fs = (ok tt, s, fs)
run_migrations done current (stmt ∷ more) s fs =
    let skipped = run_migrations (done + 1) current more s fs in
    let applied =
      go_on (apply_migration (done + 1) stmt s fs) (run_migrations (done + 1) current more) in
    if leb (done + 1) current then skipped else applied

started : List String → Schema → Bool × List Bool → Result StoreError Unit × Schema × List Bool
unfolding max_version run_migrations
started all s (true, rest) = (err (failed "schema version"), s, rest)
started all s (false, rest) = run_migrations 0 (max_version s.versions) all s rest

-- `migrate`: CREATE TABLE, the version, and the migrations above it.
unfoldable pub migrate : List String → Step
unfolding one_fails started
migrate all s fs = started all s (one_fails 2 fs)

-- The numbers from 1 to `k`.
unfoldable pub up_to : ℕ → List ℕ
up_to zero = []
up_to (suc k) = up_to k ++ suc k ∷ []

-- The first migrations have each run once, in order, and their numbers are recorded; the rest is
-- left.
pub record IsMigrated (all : List String) (s : Schema) : Type 0 where
  pub left : List String
  pub whole : s.ran ++ left ≡ all
  pub recorded : s.versions ≡ up_to (length s.ran)

max_version-append : (vs : List ℕ) (v : ℕ) → max_version vs ≤ v → max_version (vs ++ v ∷ []) ≡ v
unfolding max_version
max_version-append [] v h = ground arith
max_version-append (w ∷ vs) v h = ground (arith, max_version-append vs v)

pub max_version-up_to : (k : ℕ) → max_version (up_to k) ≡ k
unfolding up_to max_version
max_version-up_to zero = refl
max_version-up_to (suc k) =
    max_version-append (up_to k) (suc k) (omega (arith, max_version-up_to k))

run_one :
    (done current : ℕ) (m : String) (more : List String) (s : Schema) (fs : List Bool)
    → leb (done + 1) current ≡ true
    → run_migrations done current (m ∷ more) s fs ≡ run_migrations (done + 1) current more s fs
unfolding run_migrations
run_one done current m more s fs e = rw e refl

-- What has run is skipped.
run_migrations-skip :
    (ran left : List String) (done current : ℕ) (s : Schema) (fs : List Bool)
    → done + length ran ≤ current
    → run_migrations done current (ran ++ left) s fs
      ≡ run_migrations (done + length ran) current left s fs
run_migrations-skip [] left done current s fs h =
    let e : done ≡ done + 0 = omega arith in ap (λ d. run_migrations d current left s fs) e
run_migrations-skip (m ∷ ran) left done current s fs h =
    let e : leb (done + 1) current ≡ true = ground arith in
    let d : done + 1 + length ran ≡ done + suc (length ran) = omega arith in
    run_one done current m (ran ++ left) s fs e
    ∙ run_migrations-skip ran left (done + 1) current s fs (omega arith)
    ∙ ap (λ n. run_migrations n current left s fs) d

append_nil : (xs : List String) → xs ++ [] ≡ xs
append_nil [] = refl
append_nil (x ∷ xs) = ap (◌∷◌ x) (append_nil xs)

-- The schema is in order; and there is an error, or all has run.
abbrev pub Ends : List String → Result StoreError Unit × Schema × List Bool → Type 0
Ends all (r, s, fs) =
    IsMigrated all s × (((r ≡ ok tt) × (s.ran ≡ all)) ⊎ ((e : StoreError) × (r ≡ err e)))

abbrev recorded_too : ℕ → String → Schema → Schema
recorded_too version stmt s = record {
  versions = s.versions ++ version ∷ [];
  ran = s.ran ++ stmt ∷ [];
}

step-Ends :
    (all more : List String) (version current : ℕ) (m : String) (s : Schema) (x : Bool × List Bool)
    → IsMigrated all s
    → ((rest : List Bool)
        → Ends all (run_migrations version current more (recorded_too version m s) rest))
    → Ends all (go_on (recorded_unless version m s x) (run_migrations version current more))
unfolding go_on recorded_unless
step-Ends all more version current m s (true, rest) h next = (h, inr (_, refl))
step-Ends all more version current m s (false, rest) h next = next rest

run_migrations-Ends :
    (all left : List String) (done current : ℕ) (s : Schema) (fs : List Bool)
    → s.ran ++ left ≡ all
    → s.versions ≡ up_to (length s.ran)
    → done ≡ length s.ran
    → current ≤ done
    → Ends all (run_migrations done current left s fs)
unfolding run_migrations apply_migration up_to
run_migrations-Ends all [] done current s fs w v d c =
    (record { left = []; whole = w; recorded = v }, inl (refl, sym (append_nil s.ran) ∙ w))
run_migrations-Ends all (m ∷ more) done current s fs w v d c =
    let e : leb (done + 1) current ≡ false = ground arith in
    let one_more : length (s.ran ++ m ∷ []) ≡ done + 1 =
      omega (arith, d, length-append s.ran (m ∷ [])) in
    let grown : suc (length s.ran) ≡ length (s.ran ++ m ∷ []) =
      omega (arith, length-append s.ran (m ∷ [])) in
    let number : done + 1 ≡ suc (length s.ran) = omega (arith, d) in
    rw e (
      step-Ends all more (done + 1) current m s (one_fails 4 fs)
        (record { left = m ∷ more; whole = w; recorded = v })
        (λ rest.
          run_migrations-Ends all more (done + 1) current _ rest
            (append_assoc s.ran (m ∷ []) more ∙ w)
            (ap (λ vs. vs ++ (done + 1) ∷ []) v
              ∙ ap (λ n. up_to (length s.ran) ++ n ∷ []) number
              ∙ ap up_to grown)
            (sym one_more) (omega arith)))

started-Ends :
    (all : List String) (s : Schema) (x : Bool × List Bool)
    → IsMigrated all s
    → Ends all (started all s x)
unfolding started
started-Ends all s (true, rest) h = (h, inr (_, refl))
started-Ends all s (false, rest) h =
    let current : max_version s.versions ≡ length s.ran =
      ap max_version h.recorded ∙ max_version-up_to (length s.ran) in
    let skip =
      run_migrations-skip s.ran h.left 0 (max_version s.versions) s rest (omega (arith, current)) in
    subst (λ a. Ends all (run_migrations 0 (max_version s.versions) a s rest)) h.whole
      (subst (Ends all) (sym skip) (
        run_migrations-Ends all h.left (0 + length s.ran) (max_version s.versions) s rest h.whole
          h.recorded (omega arith) (omega (arith, current))))

-- From a schema on which the first migrations have run, an empty one included: whatever statements
-- fail, after migrate still the first migrations, maybe more of them, have run, each once and in order,
-- and their numbers are recorded; and it returned an error, or all have run.
pub migrate-Ends :
    (all : List String) (s : Schema) (fs : List Bool)
    → IsMigrated all s
    → Ends all (migrate all s fs)
unfolding migrate
migrate-Ends all s fs h = started-Ends all s (one_fails 2 fs) h

-- ===== src/Storage/Migrations/Mysql/Restart.antt =====
-- A start on the schema that an earlier start of internal/storage/mysql.go has left.
use open_sync_crdt.Prelude.{
  ℕ, suc, ◌+◌, ◌≤◌, String, Bool, true, false, List, [], ◌∷◌, ◌++◌, length, length-append, leb, ◌≡◌,
  refl, sym, ap, ◌∙◌, arith, Result, ok, err, subst, inl, inr, ◌⊎◌, ◌==◌, ◌||◌, eq_refl,
}
use mathlib.Core.List.{append_assoc, append-nil}
use open_sync_crdt.Storage.{StoreError}
use open_sync_crdt.Storage.Migrations.{
  Schema, Step, one_fails, max_version, go_on, up_to, max_version-up_to,
}
use open_sync_crdt.Storage.Migrations.Mysql.{
  has_run, run_once, executed, exec_all, recorded, record_version, mysql_migrations, begun,
  mysql_migrate, HaveRun, AllRun, IsBuilt, Builds,
}

has_run-append :
    (t : String) (ran : List String) (u : String)
    → has_run t (ran ++ u ∷ []) ≡ (has_run t ran || (u == t))
unfolding has_run
has_run-append t [] u = ground arith
has_run-append t (s ∷ ran) u = ground (arith, has_run-append t ran u)

run_once-keeps :
    (u t : String) (ran : List String) → has_run t ran ≡ true → has_run t (run_once u ran) ≡ true
unfolding run_once
run_once-keeps u t ran h = ground (arith, h, has_run-append t ran u)

pub run_once-runs : (u : String) (ran : List String) → has_run u (run_once u ran) ≡ true
unfolding run_once
run_once-runs u ran = ground (arith, has_run-append u ran u, eq_refl u)

-- What has run stays.
abbrev Grows : List String → List String → Type 0
Grows ran ran' = (t : String) → has_run t ran ≡ true → has_run t ran' ≡ true

HaveRun-Grows :
    (stmts ran ran' : List String) → Grows ran ran' → HaveRun stmts ran → HaveRun stmts ran'
unfolding HaveRun
HaveRun-Grows [] ran ran' g h = tt
HaveRun-Grows (t ∷ stmts) ran ran' g (h, k) = (g t h, HaveRun-Grows stmts ran ran' g k)

AllRun-Grows :
    (ms : List (List String)) (ran ran' : List String)
    → Grows ran ran'
    → AllRun ms ran
    → AllRun ms ran'
unfolding AllRun
AllRun-Grows [] ran ran' g h = tt
AllRun-Grows (m ∷ ms) ran ran' g (h, k) =
    (HaveRun-Grows m ran ran' g h, AllRun-Grows ms ran ran' g k)

AllRun-append :
    (ms : List (List String)) (m ran : List String)
    → AllRun ms ran
    → HaveRun m ran
    → AllRun (ms ++ m ∷ []) ran
unfolding AllRun
AllRun-append [] m ran h k = (k, tt)
AllRun-append (l ∷ ms) m ran (h, g) k = (h, AllRun-append ms m ran g k)

-- What the statements of one migration leave.
abbrev Ran : List String → Schema → Result StoreError Unit × Schema × List Bool → Type 0
Ran stmts s (r, s', fs) =
    (s'.versions ≡ s.versions)
    × Grows s.ran s'.ran
    × (((r ≡ ok tt) × HaveRun stmts s'.ran) ⊎ ((e : StoreError) × (r ≡ err e)))

Ran-cons :
    (stmt : String) (more : List String) (s s' : Schema)
    (x : Result StoreError Unit × Schema × List Bool)
    → s'.versions ≡ s.versions
    → Grows s.ran s'.ran
    → has_run stmt s'.ran ≡ true
    → Ran more s' x
    → Ran (stmt ∷ more) s x
unfolding HaveRun
Ran-cons stmt more s s' (r, s2, fs) v g h (w, k, inl (p, a)) =
    (w ∙ v, λ t q. k t (g t q), inl (p, (k stmt h, a)))
Ran-cons stmt more s s' (r, s2, fs) v g h (w, k, inr z) = (w ∙ v, λ t q. k t (g t q), inr z)

executed-Ran :
    (stmt : String) (more : List String) (s : Schema) (x : Bool × List Bool)
    → ((s' : Schema) (rest : List Bool) → Ran more s' (exec_all more s' rest))
    → Ran (stmt ∷ more) s (go_on (executed stmt s x) (exec_all more))
unfolding exec_all
executed-Ran stmt more s (true, rest) next = (refl, λ t h. h, inr (_, refl))
executed-Ran stmt more s (false, rest) next =
    let s' : Schema = record s { ran = run_once stmt s.ran } in
    Ran-cons stmt more s s' (exec_all more s' rest) refl (λ t h. run_once-keeps stmt t s.ran h)
      (run_once-runs stmt s.ran) (next s' rest)

exec_all-Ran :
    (stmts : List String) (s : Schema) (fs : List Bool) → Ran stmts s (exec_all stmts s fs)
unfolding exec_all HaveRun
exec_all-Ran [] s fs = (refl, λ t h. h, inl (refl, tt))
exec_all-Ran (stmt ∷ more) s fs =
    executed-Ran stmt more s (one_fails 1 fs) (λ s' rest. exec_all-Ran more s' rest)

module _ (all applied left : List (List String)) (whole : applied ++ left ≡ all) where
  kept :
      (s s' : Schema)
      → s.versions ≡ up_to (length applied)
      → AllRun applied s.ran
      → s'.versions ≡ s.versions
      → Grows s.ran s'.ran
      → IsBuilt all s'
  kept s s' v a w g = record {
    applied = applied;
    left = left;
    whole = whole;
    versions = w ∙ v;
    ran = AllRun-Grows applied s.ran s'.ran g a;
  }

  recorded-Builds :
      (m : List String) (next : Step) (done : ℕ) (s : Schema) (x : Bool × List Bool)
      → IsBuilt all s
      → ((rest : List Bool)
          → Builds all (next (record s { versions = s.versions ++ done ∷ [] }) rest))
      → Builds all (go_on (recorded done s x) next)
  unfolding record_version go_on
  recorded-Builds m next done s (true, rest) h k = (h, inr (_, refl))
  recorded-Builds m next done s (false, rest) h k = k rest

  after_exec :
      (m : List String) (next : Step) (done : ℕ) (s : Schema)
      (x : Result StoreError Unit × Schema × List Bool)
      → s.versions ≡ up_to (length applied)
      → AllRun applied s.ran
      → Ran m s x
      → ((s' : Schema) (rest : List Bool)
          → s'.versions ≡ s.versions ++ done ∷ []
          → AllRun (applied ++ m ∷ []) s'.ran
          → Builds all (next s' rest))
      → Builds all (go_on (go_on x (record_version done)) next)
  unfolding record_version go_on
  after_exec m next done s (err e, s', fs) v a (w, g, o) k = (kept s s' v a w g, inr (e, refl))
  after_exec m next done s (ok u, s', fs) v a (w, g, inr (e, q)) k = cc
  after_exec m next done s (ok u, s', fs) v a (w, g, inl (q, h)) k =
      recorded-Builds m next done s' (one_fails 1 fs) (kept s s' v a w g) (λ rest.
        k _ rest (ap (λ vs. vs ++ done ∷ []) w)
          (AllRun-append applied m s'.ran (AllRun-Grows applied s.ran s'.ran g a) h))

mysql_migrations-Builds :
    (all applied left : List (List String)) (done current : ℕ) (s : Schema) (fs : List Bool)
    → applied ++ left ≡ all
    → s.versions ≡ up_to (length applied)
    → AllRun applied s.ran
    → done ≡ length applied
    → current ≤ done
    → Builds all (mysql_migrations done current left s fs)
unfolding mysql_migrations up_to
mysql_migrations-Builds all applied [] done current s fs whole v a d c =
    let e : applied ≡ all = sym (append-nil applied) ∙ whole in
    (
      kept all applied [] whole s s v a refl (λ t h. h),
      inl (refl, (subst (λ l. AllRun l s.ran) e a, v ∙ ap (λ l. up_to (length l)) e)),
    )
mysql_migrations-Builds all applied (m ∷ left) done current s fs whole v a d c =
    let e : leb (done + 1) current ≡ false = ground arith in
    let grown : suc (length applied) ≡ length (applied ++ m ∷ []) =
      omega (arith, length-append applied (m ∷ [])) in
    let number : done + 1 ≡ suc (length applied) = omega (arith, d) in
    rw e (
      after_exec all applied (m ∷ left) whole m _ (done + 1) s (exec_all m s fs) v a
        (exec_all-Ran m s fs)
        (λ s' rest w b.
          mysql_migrations-Builds all (applied ++ m ∷ []) left (done + 1) current s' rest
            (append_assoc applied (m ∷ []) left ∙ whole)
            (w
              ∙ ap (λ vs. vs ++ (done + 1) ∷ []) v
              ∙ ap (λ n. up_to (length applied) ++ n ∷ []) number
              ∙ ap up_to grown)
            b (omega (arith, grown, number)) (omega arith)))

-- What is recorded is skipped.
mysql_migrations-skip :
    (applied left : List (List String)) (done current : ℕ) (s : Schema) (fs : List Bool)
    → done + length applied ≤ current
    → mysql_migrations done current (applied ++ left) s fs
      ≡ mysql_migrations (done + length applied) current left s fs
unfolding mysql_migrations
mysql_migrations-skip [] left done current s fs h =
    let e : done ≡ done + 0 = omega arith in ap (λ d. mysql_migrations d current left s fs) e
mysql_migrations-skip (m ∷ applied) left done current s fs h =
    let e : leb (done + 1) current ≡ true = ground arith in
    let d : done + 1 + length applied ≡ done + suc (length applied) = omega arith in
    rw e (mysql_migrations-skip applied left (done + 1) current s fs (omega arith))
    ∙ ap (λ n. mysql_migrations n current left s fs) d

begun-Builds :
    (all : List (List String)) (s : Schema) (x : Bool × List Bool)
    → IsBuilt all s
    → Builds all (begun all s x)
unfolding mysql_migrate
begun-Builds all s (true, rest) h = (h, inr (_, refl))
begun-Builds all s (false, rest) h =
    let current : max_version s.versions ≡ length h.applied =
      ap max_version h.versions ∙ max_version-up_to (length h.applied) in
    let skip =
      mysql_migrations-skip h.applied h.left 0 (max_version s.versions) s rest
        (omega (arith, current)) in
    subst (λ a. Builds all (mysql_migrations 0 (max_version s.versions) a s rest)) h.whole
      (subst (Builds all) (sym skip) (
        mysql_migrations-Builds all h.applied h.left (0 + length h.applied) (max_version s.versions)
          s rest h.whole h.versions h.ran (omega arith) (omega (arith, current))))

-- From a schema on which the first migrations are recorded and have run, an empty one included, and
-- statements of later ones may have run: whatever fails, after migrate this still holds, maybe of
-- more migrations; and it returned an error, or every migration is recorded, once and in order,
-- and every statement has run.
pub mysql_migrate-Builds :
    (all : List (List String)) (s : Schema) (fs : List Bool)
    → IsBuilt all s
    → Builds all (mysql_migrate all s fs)
unfolding mysql_migrate
mysql_migrate-Builds all s fs h = begun-Builds all s (one_fails 2 fs) h

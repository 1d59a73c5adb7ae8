-- ===== src/Storage/Sql.antt =====
-- How a backend talks to its database: each statement may fail for a reason that is not in the
-- program, and a transaction is undone unless it commits (`defer tx.Rollback()`).
pub mod Laws
use open_sync_crdt.Prelude.{
  String, Bool, true, false, List, [], ◌∷◌, ◌≡◌, refl, Result, ok, err, arith, ℕ,
}
use open_sync_crdt.Storage.{StoreError, failed}
use open_sync_crdt.Storage.Db.{Db, SqlError, io, Statement}

-- The database, the clock that `time.Now` reads, and for each statement to come whether it meets
-- an outside failure (none are left when the list is empty).
pub record Session : Type 0 where
  pub db : Db
  pub clock : ℕ
  pub faults : List Bool

abbrev pub Action : Type 0 → Type 0
Action A = Session → Result StoreError A × Session

abbrev pub pure : {A : Type 0} → A → Action A
pure a s = (ok a, s)

abbrev pub raise : {A : Type 0} → StoreError → Action A
raise e s = (err e, s)

abbrev pub continue : {A B : Type 0} → Result StoreError A → (A → Action B) → Action B
continue (ok a) f s = f a s
continue (err e) f s = (err e, s)

infixl 10 ◌>>=◌ ◌>>◌
abbrev pub ◌>>=◌ : {A B : Type 0} → Action A → (A → Action B) → Action B
◌>>=◌ m f s = let (r, s') = m s in continue r f s'

abbrev pub ◌>>◌ : {A B : Type 0} → Action A → Action B → Action B
m >> n = m >>= λ _. n

-- A statement that fails from outside changes nothing.
unfoldable pub issue :
    {A : Type 0} → Statement A → List Bool → Session → Result SqlError A × Session
issue q [] s = let (r, db') = q s.db in (r, record s { db = db' })
issue q (true ∷ fs) s = (err io, record s { faults = fs })
issue q (false ∷ fs) s = let (r, db') = q s.db in (r, record s { db = db'; faults = fs })

-- Send a statement and look at its `(value, error)`.
unfoldable pub exec :
    {A B : Type 0} → Statement A → (Result SqlError A → Result StoreError B) → Action B
unfolding issue
exec q k s = let (r, s') = issue q s.faults s in (k r, s')

-- `if err != nil { return fmt.Errorf("what: %w", err) }`
abbrev pub wrap : {A : Type 0} → String → Result SqlError A → Result StoreError A
wrap what (ok a) = ok a
wrap what (err e) = err (failed what)

abbrev pub nothing : Statement Unit
nothing db = (ok tt, db)

unfoldable pub undo_on_error :
    {A : Type 0} → Db → Result StoreError A → Session → Result StoreError A × Session
undo_on_error old (ok a) s = (ok a, s)
undo_on_error old (err e) s = (err e, record s { db = old })

-- Begin, the body, Commit; Rollback on every path but a successful Commit.
unfoldable pub transaction : {A : Type 0} → Action A → Action A
unfolding exec undo_on_error
transaction body s =
    let all = do
      exec nothing (wrap "begin append tx")
      a ← body
      exec nothing (wrap "commit append tx")
      pure a
    in let (r, s') = all s in undo_on_error s.db r s'

pub undo_on_error-atomic :
    {A : Type 0} (old : Db) (r : Result StoreError A) (s : Session) {e : StoreError}
    → (undo_on_error old r s).0 ≡ err e
    → (undo_on_error old r s).1.db ≡ old
unfolding undo_on_error
undo_on_error-atomic old (ok a) s h = cc
undo_on_error-atomic old (err e) s h = refl

-- A transaction that returns an error has changed nothing.
pub transaction-atomic :
    {A : Type 0} (body : Action A) (s : Session) {e : StoreError}
    → (transaction body s).0 ≡ err e
    → (transaction body s).1.db ≡ s.db
unfolding transaction
transaction-atomic body s h = undo_on_error-atomic s.db _ _ h

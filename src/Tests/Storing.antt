-- ===== src/Tests/Storing.antt =====
-- Runs of the storage backends.
use open_sync_crdt.Prelude.{String, true, false, List, [], ◌∷◌, refl}
use open_sync_crdt.Storage.Contract.{Contract}
use open_sync_crdt.Storage.Migrations.{Schema, IsMigrated, up_to}
use open_sync_crdt.Storage.History.{Call, append, save, delete, Belief}
use open_sync_crdt.Storage.Sql.{Session}
use open_sync_crdt.Storage.Sqlite as Sqlite
use open_sync_crdt.Storage.Postgres as Postgres
use open_sync_crdt.Storage.Mysql as Mysql
use open_sync_crdt.Tests.Samples.{session_of}

abbrev no_belief : Belief
no_belief j = []

abbrev calls : List Call
calls =
    append "d" (1 ∷ []) "s" ∷ save "d" (7 ∷ 1 ∷ []) 1 ∷ append "e" (2 ∷ []) "t" ∷ delete "d" ∷ []

-- The third statement, the INSERT of the operation, fails.
abbrev failing : Session
failing = session_of (false ∷ false ∷ true ∷ [])

abbrev migrations : List String
migrations = "a" ∷ "b" ∷ []

abbrev fresh : Schema
fresh = record { versions = []; ran = [] }

fresh-IsMigrated : IsMigrated migrations fresh
unfolding up_to
fresh-IsMigrated = record { left = migrations; whole = refl; recorded = refl }

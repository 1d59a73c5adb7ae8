-- ===== src/Tests/Syncing.antt =====
-- Runs of the engine and of a replay.
use open_sync_crdt.Prelude.{
  Bytes, Bool, true, List, [], ◌∷◌, ◌++◌, ◌≡◌, refl, ok, length, drop, map, ◌<◌, arith,
}
use open_sync_crdt.Prelude.Int.{pos}
use open_sync_crdt.Prelude.Map.{lookup, insert}
use open_sync_crdt.Protocol.{Replay}
use open_sync_crdt.Storage.{StoredOp}
use open_sync_crdt.Storage.Contract.{since}
use open_sync_crdt.Storage.Backends.{sqlite}
use open_sync_crdt.Storage.Backends.Conform.{sqlite-Contract}
use open_sync_crdt.Storage.Db.Consistent.{IsConsistent, IsConsistent-empty}
use open_sync_crdt.Storage.Sqlite as Sqlite
use open_sync_crdt.Storage.Db.{
  find_doc, select_latest_seq, select_snapshot, select_ops_since, insert_document, insert_operation,
  update_latest_seq, newest, ops_of,
}
use open_sync_crdt.Storage.Sql.{Session}
use open_sync_crdt.Storage.Sql.Laws.{session_views}
use open_sync_crdt.Sync.{Engine, submit, state, apply_change, export}
use open_sync_crdt.Sync.Submit.{Outcome, submit-Outcome}
use open_sync_crdt.Sync.Coherent.{IsCoherent, Builds, export-Builds}
use open_sync_crdt.Sync.Restart.{submit-Coherent, export-restart}
use open_sync_crdt.Sync.Replay.{replay, total_batches, to_replay_op}
use open_sync_crdt.Sync.Replay.Batches.{Batches, messages, received, all_ops, replay_complete}
use open_sync_crdt.Storage.History.{Call, append, Belief, run, run-Agrees}
use open_sync_crdt.Tests.Samples.{
  json, automerge, automerge-IsAutomerge, options, engine, engine_of, engine-IsCoherent, calm,
}

abbrev after_submit : Engine (sqlite json) automerge
after_submit = (submit (sqlite json) automerge options "d" "s" "u" (3 ∷ 4 ∷ []) engine).1

submit-Outcome_example :
    Outcome
      (sqlite json)
      automerge
      session_views
      (sqlite-Contract json)
      options
      "d"
      "s"
      (3 ∷ 4 ∷ [])
      engine
      (submit (sqlite json) automerge options "d" "s" "u" (3 ∷ 4 ∷ []) engine)
submit-Outcome_example =
    submit-Outcome (sqlite json) automerge session_views (sqlite-Contract json) options "d" "s" "u"
      (3 ∷ 4 ∷ []) engine IsConsistent-empty

after_submit-IsCoherent :
    IsCoherent
      (sqlite json)
      automerge
      session_views
      (sqlite-Contract json)
      automerge-IsAutomerge
      after_submit
unfolding submit state lookup Sqlite.get_snapshot select_snapshot Sqlite.get_ops_since
    select_ops_since apply_change Sqlite.append_op select_latest_seq find_doc insert_document
    insert_operation update_latest_seq
after_submit-IsCoherent =
    submit-Coherent (sqlite json) automerge session_views (sqlite-Contract json)
      automerge-IsAutomerge options refl "d" "s" "u" (3 ∷ 4 ∷ []) engine engine-IsCoherent (λ x. x)

abbrev saved_doc : Bytes
saved_doc = 7 ∷ 3 ∷ 4 ∷ []

export-restart_example : saved_doc ≡ saved_doc
unfolding submit state lookup Sqlite.get_snapshot select_snapshot Sqlite.get_ops_since
    select_ops_since apply_change Sqlite.append_op select_latest_seq find_doc insert_document
    insert_operation update_latest_seq export newest ops_of insert
export-restart_example =
    export-restart (sqlite json) automerge session_views (sqlite-Contract json)
      automerge-IsAutomerge options "d" after_submit saved_doc saved_doc after_submit-IsCoherent
      refl refl

export-Builds_example :
    (d : Bytes) × Builds
      (sqlite json)
      automerge
      session_views
      (sqlite-Contract json)
      automerge-IsAutomerge
      "d"
      engine.store
      d
    × ((7 ∷ []) ≡ (7 ∷ d))
unfolding submit state lookup Sqlite.get_snapshot select_snapshot Sqlite.get_ops_since
    select_ops_since apply_change Sqlite.append_op select_latest_seq find_doc insert_document
    insert_operation update_latest_seq export newest ops_of
export-Builds_example =
    export-Builds (sqlite json) automerge session_views (sqlite-Contract json) automerge-IsAutomerge
      options "d" engine (7 ∷ []) engine-IsCoherent refl

-- A cached document, and a store that fails at its next statement.
abbrev ahead : Engine (sqlite json) automerge
ahead = record (engine_of (true ∷ [])) { docs = ("d", 3 ∷ []) ∷ [] }

abbrev appends : List Call
appends =
    append "d" (1 ∷ []) "s"
    ∷ append "d" (2 ∷ []) "t"
    ∷ append "d" (3 ∷ []) "s"
    ∷ append "d" (4 ∷ []) "s"
    ∷ []

abbrev no_belief : Belief
no_belief j = []

abbrev four : Session
four = (run (sqlite json) appends (calm, no_belief)).0

four-valid : IsConsistent four.db
unfolding ops_of
four-valid =
    (run-Agrees (sqlite json) session_views (sqlite-Contract json) appends calm no_belief
      (record { valid = IsConsistent-empty; right = λ j. refl })).valid

abbrev collect : Replay → List Replay → Bool × List Replay
collect m ms = (true, ms ++ m ∷ [])

abbrev tail_ops : List StoredOp
tail_ops = drop 1 (ops_of "d" four.db)

replay_complete_example :
    let os = tail_ops in
    let total = total_batches 2 (length os) in
    let ms = messages "d" 2 os total total 0 in
    ((replay (sqlite json) 2 collect "d" (pos 1) four []).0 ≡ ok tt)
    × ((replay (sqlite json) 2 collect "d" (pos 1) four []).2 ≡ received "d" 2 os collect ms [])
    × (all_ops "d" 2 os ms ≡ map to_replay_op (since (pos 1) (ops_of "d" four.db)))
    × Batches "d" 2 os total 0 ms
    × (length ms ≡ total)
    × (0 < total)
unfolding lookup Sqlite.append_op Sqlite.get_ops_since select_ops_since select_latest_seq find_doc
    insert_document insert_operation update_latest_seq ops_of run
replay_complete_example =
    replay_complete (sqlite json) session_views (sqlite-Contract json) 2 collect "d" (pos 1) four []
      tail_ops (omega arith) (λ m x. refl) four-valid refl

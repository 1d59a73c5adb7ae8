-- ===== src/Tests/Joining.antt =====
-- A subscriber that joins between an append and its broadcast.
use open_sync_crdt.Prelude.{false, none, [], ◌∷◌, refl}
use open_sync_crdt.Prelude.Map.{lookup, insert}
use open_sync_crdt.Storage.Backends.{sqlite}
use open_sync_crdt.Storage.Db.{
  select_ops_since, select_latest_seq, find_doc, insert_document, insert_operation,
  update_latest_seq,
}
use open_sync_crdt.Storage.Sqlite as Sqlite
use open_sync_crdt.Server.{new_hub, members, subscribe}
use open_sync_crdt.Server.Connection.Joining.{
  Joining, Joins, begins, then_, on_commit, on_announce, on_join, on_replay,
}
use open_sync_crdt.Tests.Samples.{json, calm}

abbrev before : Joining (sqlite json)
before = record { store = calm; hub = new_hub; pending = none; numbers = []; has_replay = false }

-- The operation is in the replay and is broadcast, too.
joins : (w : Joining (sqlite json)) × Joins (sqlite json) 1 "d" 0 before w
unfolding members lookup subscribe insert Sqlite.append_op select_latest_seq find_doc
    insert_document insert_operation update_latest_seq Sqlite.get_ops_since select_ops_since
joins = (
  _,
  then_
      (then_ (then_ (then_ begins (on_commit "s" (3 ∷ 4 ∷ []) 1 refl refl)) (on_join 1))
        (on_replay _ refl refl))
      (on_announce 1 refl),
)

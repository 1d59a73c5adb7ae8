-- ===== src/Storage/Backends.antt =====
-- The three backends as stores, and the contract that each of them keeps.
pub mod Conform
use open_sync_crdt.Prelude.{◌≡◌, refl}
use open_sync_crdt.Storage.Sql.{Session}
use open_sync_crdt.Storage.Contract.{Store}
use open_sync_crdt.Storage.Metadata.{Json}
use open_sync_crdt.Storage.Sqlite
use open_sync_crdt.Storage.Postgres
use open_sync_crdt.Storage.Mysql

module _ (json : Json) where
  abbrev pub sqlite : Store
  sqlite = record {
    State = Session;
    append_op = Sqlite.append_op;
    get_ops_since = Sqlite.get_ops_since;
    get_ops_in_range = Sqlite.get_ops_in_range;
    save_snapshot = Sqlite.save_snapshot;
    get_snapshot = Sqlite.get_snapshot;
    get_latest_seq = Sqlite.get_latest_seq;
    create_document = Sqlite.create_document json;
    get_document = Sqlite.get_document json;
    list_documents = Sqlite.list_documents json;
    delete_document = Sqlite.delete_document;
  }

  abbrev pub postgres : Store
  postgres = record {
    State = Session;
    append_op = Postgres.append_op;
    get_ops_since = Postgres.get_ops_since;
    get_ops_in_range = Postgres.get_ops_in_range;
    save_snapshot = Postgres.save_snapshot;
    get_snapshot = Postgres.get_snapshot;
    get_latest_seq = Postgres.get_latest_seq;
    create_document = Postgres.create_document json;
    get_document = Postgres.get_document json;
    list_documents = Postgres.list_documents json;
    delete_document = Postgres.delete_document;
  }

  abbrev pub mysql : Store
  mysql = record {
    State = Session;
    append_op = Mysql.append_op;
    get_ops_since = Mysql.get_ops_since;
    get_ops_in_range = Mysql.get_ops_in_range;
    save_snapshot = Mysql.save_snapshot;
    get_snapshot = Mysql.get_snapshot;
    get_latest_seq = Mysql.get_latest_seq;
    create_document = Mysql.create_document json;
    get_document = Mysql.get_document json;
    list_documents = Mysql.list_documents json;
    delete_document = Mysql.delete_document;
  }

  -- The MySQL backend behaves as the PostgreSQL backend does, in every method.
  pub mysql-eq-postgres : mysql ≡ postgres
  unfolding Mysql.append_op Postgres.append_op Mysql.get_ops_since Postgres.get_ops_since
      Mysql.get_ops_in_range Postgres.get_ops_in_range Mysql.save_snapshot Postgres.save_snapshot
      Mysql.get_snapshot Postgres.get_snapshot Mysql.get_latest_seq Postgres.get_latest_seq
      Mysql.create_document Postgres.create_document Mysql.get_document Postgres.get_document
      Mysql.list_documents Postgres.list_documents Mysql.delete_document Postgres.delete_document
  mysql-eq-postgres = refl

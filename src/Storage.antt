-- ===== src/Storage.antt =====
-- internal/storage/interface.go: the data that the store hands back, and its sentinel errors.
-- The SQL tables and statements are in Db and Sql, the three backends in Sqlite, Postgres and
-- Mysql, and what they all keep in the modules named for it.
pub mod Db
pub mod Sql
pub mod Metadata
pub mod Contract
pub mod Migrations
pub mod Opening
pub mod Sqlite
pub mod Postgres
pub mod Mysql
pub mod Backends
pub mod History
use open_sync_crdt.Prelude.{ℕ, String, Bytes, Option}
use open_sync_crdt.Prelude.Int.{ℤ}
use open_sync_crdt.Prelude.Map.{Map}

-- The sentinels, and an error that `fmt.Errorf` wraps under a text.
pub data StoreError : Type 0 where
  document_not_found document_exists no_snapshot : StoreError
  failed : String → StoreError

pub record StoredOp : Type 0 where
  pub seq : ℕ
  pub doc_id : String
  pub session_id : String
  pub payload : Bytes
  pub created_at : ℕ

pub record Document : Type 0 where
  pub id : String
  pub metadata : Map String
  pub latest_seq : ℕ
  pub created_at : ℕ
  pub updated_at : ℕ

-- `updated_since` is `none` for Go's zero time; the other two are 0 when the caller sets none.
pub record DocumentFilter : Type 0 where
  pub updated_since : Option ℕ
  pub limit : ℤ
  pub offset : ℤ

-- ===== src/Tests/Samples.antt =====
-- Small values for the runs: a JSON coder, an Automerge of byte strings, an empty server.
use open_sync_crdt.Prelude.{
  zero, suc, String, Bytes, Bool, true, false, Option, none, some, List, [], ◌∷◌, ◌++◌, ◌==◌, ◌||◌,
  ◌≡◌, ◌≢◌, refl, arith,
}
use open_sync_crdt.Prelude.Int.{pos}
use open_sync_crdt.Prelude.Map.{Map, lookup}
use open_sync_crdt.Storage.Backends.{sqlite}
use open_sync_crdt.Storage.Backends.Conform.{sqlite-Contract}
use open_sync_crdt.Storage.Db.{empty, newest}
use open_sync_crdt.Storage.Db.Consistent.{IsConsistent-empty}
use open_sync_crdt.Storage.Metadata.{Json, IsJson}
use open_sync_crdt.Storage.Sql.{Session}
use open_sync_crdt.Storage.Sql.Laws.{session_views}
use open_sync_crdt.Crdt.{Automerge, IsAutomerge}
use open_sync_crdt.Sync.{Engine, Options}
use open_sync_crdt.Sync.Coherent.{IsCoherent}

-- A coder that knows one map.
abbrev pub json : Json
json = record { marshal = λ m. elim m [ [] ↦ some "{}" | e ∷ es ↦ none ]; unmarshal = λ s. some [] }

json-round_trip :
    (m : Map String) (s : String) → json.marshal m ≡ some s → json.unmarshal s ≡ some m
json-round_trip [] s h = refl
json-round_trip (e ∷ es) s h = cc

json-visible :
    (m : Map String) (s : String)
    → m ≢ []
    → json.marshal m ≡ some s
    → ((s == "") || (s == "{}")) ≡ false
json-visible [] s full h = absurd (full refl)
json-visible (e ∷ es) s full h = cc

pub json-IsJson : IsJson json
json-IsJson = record { round_trip = json-round_trip; visible = json-visible }

-- A document is a byte string. A change set is appended to it, and refused where it starts with
-- the byte 0.
abbrev pub add_bytes : Bytes → Bytes → Bytes × Bool
add_bytes d [] = (d, true)
add_bytes d (zero ∷ change) = (d, false)
add_bytes d (suc b ∷ change) = (d ++ suc b ∷ change, true)

abbrev pub read_bytes : Bytes → Option Bytes
read_bytes [] = none
read_bytes (b ∷ d) = some d

abbrev pub automerge : Automerge
automerge = record {
  Doc = Bytes;
  new = [];
  load = read_bytes;
  load_incremental = add_bytes;
  save = λ d. 7 ∷ d;
  heads = λ d. [];
}

refused_bytes : (d change : Bytes) → (add_bytes d change).1 ≡ false → (add_bytes d change).0 ≡ d
refused_bytes d [] h = refl
refused_bytes d (zero ∷ change) h = refl
refused_bytes d (suc b ∷ change) h = ground (arith, h)

pub automerge-IsAutomerge : IsAutomerge automerge
automerge-IsAutomerge = record {
  load-save = λ d. refl;
  save_nonempty = λ d p. ground (arith, p);
  refused = refused_bytes;
}

abbrev pub session_of : List Bool → Session
session_of faults = record { db = empty; clock = 5; faults = faults }

abbrev pub calm : Session
calm = session_of []

-- A snapshot every second operation, no resolver.
abbrev pub options : Options
options = record {
  snapshot_interval = pos 2;
  replay_batch_size = pos 2;
  resolver = none;
  has_emitter = true;
}

abbrev pub engine_of : List Bool → Engine (sqlite json) automerge
engine_of faults = record { store = session_of faults; docs = []; effects = [] }

abbrev pub engine : Engine (sqlite json) automerge
engine = engine_of []

pub engine-IsCoherent :
    IsCoherent
      (sqlite json)
      automerge
      session_views
      (sqlite-Contract json)
      automerge-IsAutomerge
      engine
unfolding lookup newest
engine-IsCoherent = record {
  sound = record { valid = IsConsistent-empty; snapshots = λ id b n h. cc };
  cached = λ id d h. cc;
}

-- ===== src/Cluster/Membership.antt =====
-- How a node joins and leaves the cluster: New, register, heartbeatLoop and Close of
-- internal/cluster/node.go, dialRedis and close of redis.go. Redis with its expiring keys is a
-- parameter.
pub mod Alive
pub mod Balance
use open_sync_crdt.Prelude.{
  ℕ, ◌+◌, ◌-◌, ◌*◌, ◌<◌, ◌≤◌, String, Bytes, Bool, true, false, Option, none, some, List, [], ◌∷◌,
  ◌≡◌, length, if◌then◌else◌, Result, ok, err, ◌==◌,
}
use open_sync_crdt.Cluster.Channels.{node_key}
use open_sync_crdt.Cluster.Registry.{Got, value, expired, NodeInfo, InfoJson, SetKey, register}

-- Redis as the registry uses it: SET with EX, GET and DEL, at a time in seconds.
pub record Redis : Type 1 where
  pub State : Type 0
  pub set : SetKey → ℕ → State → State
  pub get : String → ℕ → State → Got
  pub del : String → ℕ → State → State

-- What Redis documents of an expiring key.
pub record IsExpiring (redis : Redis) : Type 0 where
  pub fresh :
      (k : SetKey) (now t : ℕ) (s : redis.State)
      → now ≤ t
      → t < now + k.ttl
      → redis.get k.key t (redis.set k now s) ≡ value k.value
  pub stale :
      (k : SetKey) (now t : ℕ) (s : redis.State)
      → now + k.ttl ≤ t
      → redis.get k.key t (redis.set k now s) ≡ expired
  pub deleted :
      (key : String) (now t : ℕ) (s : redis.State)
      → now ≤ t
      → redis.get key t (redis.del key now s) ≡ expired

-- `heartbeatInterval`, in seconds.
unfoldable pub heartbeat_interval : ℕ
heartbeat_interval = 10

module _ (redis : Redis) (entry : SetKey) (start : ℕ) where
  -- The time of the n-th tick of heartbeatLoop.
  unfoldable pub tick_time : ℕ → ℕ
  unfolding heartbeat_interval
  tick_time n = start + n * heartbeat_interval

  -- One round: a register that fails is only logged.
  unfoldable pub heartbeat : Bool → ℕ → redis.State → redis.State
  unfolding tick_time
  heartbeat fine n s = if fine then redis.set entry (tick_time n) s else s

  -- The registry after New and the ticks so far, the latest first: whether each register succeeded.
  unfoldable pub heartbeats : List Bool → redis.State → redis.State
  unfolding heartbeat
  heartbeats [] s = redis.set entry start s
  heartbeats (fine ∷ before) s = heartbeat fine (length before + 1) (heartbeats before s)

-- How many of the latest ticks failed.
unfoldable pub missed : List Bool → ℕ
missed [] = 0
missed (true ∷ before) = 0
missed (false ∷ before) = missed before + 1

-- What of a node is live: Redis clients, subscriptions, contexts and goroutines.
pub record Live : Type 0 where
  pub clients : ℕ
  pub pubsubs : ℕ
  pub contexts : ℕ
  pub loops : ℕ

pub data JoinError : Type 0 where
  parse_redis_url : JoinError
  ping_redis : JoinError
  register_node : JoinError

-- What the outside answers: whether the URL parses, Redis answers the ping and takes the entry.
pub record Answers : Type 0 where
  pub parses : Bool
  pub pings : Bool
  pub sets : Bool
  pub deletes : Bool
  pub closes : Bool

abbrev pub open_bus : Live → Live
open_bus l = record l { clients = l.clients + 1; pubsubs = l.pubsubs + 1 }

-- `redisBus.close`
abbrev pub close_bus : Live → Live
close_bus l = record l { clients = l.clients - 1; pubsubs = l.pubsubs - 1 }

abbrev pub close_client : Live → Live
close_client l = record l { clients = l.clients - 1 }

module _ (out : Answers) where
  -- `dialRedis`
  unfoldable pub dial_redis : Live → Result JoinError Unit × Live
  dial_redis l =
      if out.parses
      then if out.pings
        then (ok tt, open_bus l)
        else (err ping_redis, close_client (record l { clients = l.clients + 1 }))
      else (err parse_redis_url, l)

  registered : Option SetKey → Live → Result JoinError (Option SetKey) × Live
  registered none l = (err register_node, close_bus (record l { contexts = l.contexts - 1 }))
  registered (some k) l =
      if out.sets
      then (ok (some k), record l { loops = l.loops + 2 })
      else (err register_node, close_bus (record l { contexts = l.contexts - 1 }))

  dialled : Option SetKey → Result JoinError Unit × Live → Result JoinError (Option SetKey) × Live
  unfolding registered
  dialled k (err e, l) = (err e, l)
  dialled k (ok u, l) = registered k (record l { contexts = l.contexts + 1 })

  -- `New`: the entry that it has set, and the goroutines of the heartbeat and of the receive loop.
  unfoldable pub new_node : InfoJson → NodeInfo → Live → Result JoinError (Option SetKey) × Live
  unfolding dial_redis dialled register
  new_node json info l = dialled (register json info) (dial_redis l)

  -- `Close`: the loops end with the context; an entry that is not deleted is only logged.
  unfoldable pub close_node : Live → Bool × Live
  close_node l =
      (out.closes, close_bus (record l { contexts = l.contexts - 1; loops = l.loops - 2 }))

  -- What Close does to the registry.
  unfoldable pub deregister_node : (redis : Redis) → String → ℕ → redis.State → redis.State
  unfolding node_key
  deregister_node redis id now s = if out.deletes then redis.del (node_key id) now s else s

-- ===== src/Cluster/Membership/Alive.antt =====
-- How long a node that beats stays in the registry of internal/cluster.
use open_sync_crdt.Prelude.{
  ℕ, ◌+◌, ◌-◌, ◌*◌, ◌<◌, ◌≤◌, Bool, true, false, List, [], ◌∷◌, ◌≡◌, arith, length, some,
  Option-cases, inl, inr,
}
use open_sync_crdt.Cluster.Registry.{value, expired, NodeInfo, InfoJson, SetKey, register}
use open_sync_crdt.Cluster.Membership.{
  Redis, IsExpiring, heartbeat_interval, tick_time, heartbeats, missed,
}

missed_le : (ticks : List Bool) → missed ticks ≤ length ticks
unfolding missed
missed_le [] = omega arith
missed_le (true ∷ ticks) = omega arith
missed_le (false ∷ ticks) = omega (arith, missed_le ticks)

module _ (redis : Redis) (law : IsExpiring redis) (entry : SetKey) (start : ℕ)
    (thirty : entry.ttl ≡ 30) where
  -- Until thirty seconds after the last register that succeeded, the registry has the entry.
  answer-fresh :
      (ticks : List Bool) (s : redis.State) (t : ℕ)
      → start + (length ticks - missed ticks) * 10 ≤ t
      → t < start + (length ticks - missed ticks) * 10 + 30
      → redis.get entry.key t (heartbeats redis entry start ticks s) ≡ value entry.value
  unfolding heartbeats missed heartbeat_interval
  answer-fresh [] s t h k = law.fresh entry start t s (omega arith) (omega (arith, thirty))
  answer-fresh (true ∷ ticks) s t h k =
      law.fresh entry (start + (length ticks + 1) * 10) t (heartbeats redis entry start ticks s)
        (omega arith) (omega (arith, thirty))
  answer-fresh (false ∷ ticks) s t h k =
      answer-fresh ticks s t (omega (arith, missed_le ticks)) (omega (arith, missed_le ticks))

  -- From then on it has not.
  answer-stale :
      (ticks : List Bool) (s : redis.State) (t : ℕ)
      → start + (length ticks - missed ticks) * 10 + 30 ≤ t
      → redis.get entry.key t (heartbeats redis entry start ticks s) ≡ expired
  unfolding heartbeats missed heartbeat_interval
  answer-stale [] s t h = law.stale entry start t s (omega (arith, thirty))
  answer-stale (true ∷ ticks) s t h =
      law.stale entry (start + (length ticks + 1) * 10) t (heartbeats redis entry start ticks s)
        (omega (arith, thirty))
  answer-stale (false ∷ ticks) s t h = answer-stale ticks s t (omega (arith, missed_le ticks))

-- The entry lives thirty seconds.
register-ttl :
    (json : InfoJson) (info : NodeInfo) (set : SetKey)
    → register json info ≡ some set
    → set.ttl ≡ 30
unfolding register
register-ttl json info set h = elim (Option-cases (json.marshal info)) [
  | inl e ↦ absurd (ground (arith, e, h))
  | inr (b, e) ↦ ground (arith, e, h)
]

module _ (redis : Redis) (law : IsExpiring redis) (json : InfoJson) (info : NodeInfo)
    (entry : SetKey) (set : register json info ≡ some entry) (start : ℕ) where
  -- Over a Redis whose keys live as long as it documents, of a node that has registered: from one
  -- tick to the next, as long as no more than the two latest refreshes failed, the registry has the
  -- node's entry, however many ticks there have been.
  pub heartbeats-alive :
      (ticks : List Bool) (s : redis.State) (t : ℕ)
      → missed ticks ≤ 2
      → tick_time redis entry start (length ticks) ≤ t
      → t < tick_time redis entry start (length ticks + 1)
      → redis.get entry.key t (heartbeats redis entry start ticks s) ≡ value entry.value
  unfolding heartbeat_interval tick_time
  heartbeats-alive ticks s t few h k =
      answer-fresh redis law entry start (register-ttl json info entry set) ticks s t (omega arith)
        (omega (arith, missed_le ticks))

  -- Of a node that has registered, whose three latest refreshes or more failed, or that is dead since
  -- then: the registry has the node's entry no more.
  pub heartbeats-expired :
      (ticks : List Bool) (s : redis.State) (t : ℕ)
      → 3 ≤ missed ticks
      → tick_time redis entry start (length ticks) ≤ t
      → redis.get entry.key t (heartbeats redis entry start ticks s) ≡ expired
  unfolding heartbeat_interval tick_time
  heartbeats-expired ticks s t many h =
      answer-stale redis law entry start (register-ttl json info entry set) ticks s t
        (omega (arith, missed_le ticks))

-- ===== src/Metrics.antt =====
-- internal/metrics/metrics.go: the counters of the registry.
pub mod Order
pub mod Render
use open_sync_crdt.Prelude.{ℕ, zero, suc, ◌+◌, ◌-◌, ◌%◌, ◌^◌, String, Option, none, some, []}
use open_sync_crdt.Prelude.Int.{ℤ, pos, negsuc}
use open_sync_crdt.Prelude.Map.{Map, lookup, insert}

pub record Registry : Type 0 where
  pub connections_total : ℕ
  pub connections_active : ℤ
  pub operations_errors : ℕ
  pub replay_operations : ℕ
  pub storage_query_count : ℕ
  pub storage_query_sum : ℕ
  pub operations : Map ℕ
  pub webhook_calls : Map ℕ
  pub webhook_errors : Map ℕ

-- `New`
abbrev pub new_registry : Registry
new_registry = record {
  connections_total = 0;
  connections_active = pos 0;
  operations_errors = 0;
  replay_operations = 0;
  storage_query_count = 0;
  storage_query_sum = 0;
  operations = [];
  webhook_calls = [];
  webhook_errors = [];
}

unfoldable pub count_of : Option ℕ → ℕ
count_of none = 0
count_of (some n) = n

-- `m[k]++`
unfoldable pub increment : String → Map ℕ → Map ℕ
unfolding count_of
increment k m = insert k (count_of (lookup k m) + 1) m

unfoldable pub next_ℤ : ℤ → ℤ
next_ℤ (pos n) = pos (n + 1)
next_ℤ (negsuc zero) = pos 0
next_ℤ (negsuc (suc n)) = negsuc n

unfoldable pub pred_ℤ : ℤ → ℤ
pred_ℤ (pos zero) = negsuc 0
pred_ℤ (pos (suc n)) = pos n
pred_ℤ (negsuc n) = negsuc (n + 1)

unfoldable pub connection_opened : Registry → Registry
unfolding next_ℤ
connection_opened r = record r {
  connections_total = r.connections_total + 1;
  connections_active = next_ℤ r.connections_active;
}

unfoldable pub connection_closed : Registry → Registry
unfolding pred_ℤ
connection_closed r = record r { connections_active = pred_ℤ r.connections_active }

unfoldable pub operation : String → Registry → Registry
unfolding increment
operation doc_id r = record r { operations = increment doc_id r.operations }

unfoldable pub operation_error : Registry → Registry
operation_error r = record r { operations_errors = r.operations_errors + 1 }

unfoldable pub replay_ops : ℕ → Registry → Registry
replay_ops n r = record r { replay_operations = r.replay_operations + n }

unfoldable pub webhook_call : String → Registry → Registry
unfolding increment
webhook_call event r = record r { webhook_calls = increment event r.webhook_calls }

unfoldable pub webhook_error : String → Registry → Registry
unfolding increment
webhook_error event r = record r { webhook_errors = increment event r.webhook_errors }

-- `uint64(n)`
unfoldable pub uint64 : ℤ → ℕ
uint64 (pos n) = n % 2 ^ 64
uint64 (negsuc n) = 2 ^ 64 - 1 - n % 2 ^ 64

-- The sum is an atomic.Uint64: it wraps around.
unfoldable pub storage_query : ℤ → Registry → Registry
unfolding uint64
storage_query nanoseconds r = record r {
  storage_query_count = r.storage_query_count + 1;
  storage_query_sum = (r.storage_query_sum + uint64 nanoseconds) % 2 ^ 64;
}

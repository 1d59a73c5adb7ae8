-- ===== src/Storage/Opening/Pool.antt =====
-- The size of the connection pool of openPostgres in internal/storage/postgres.go.
use open_sync_crdt.Prelude.{ℕ, ◌+◌, ◌≤◌, ◌<◌, ◌≡◌, refl, arith, ltb, Bool-cases, inl, inr}
use open_sync_crdt.Prelude.Int.{ℤ, pos, negsuc}
use open_sync_crdt.Storage.Opening.{int32, signed_32, at_least_min, max_conns}

-- A size that the driver takes: at least two, and an int32.
pub record IsSize (n : ℤ) (m : ℕ) : Type 0 where
  pub size : max_conns n ≡ pos m
  pub at_least : 2 ≤ m
  pub below : m < 2147483648

signed_32-below : (m k : ℕ) → signed_32 m ≡ pos k → k < 2147483648
unfolding int32
signed_32-below m k h = ground (arith, h)

int32-below : (n : ℤ) (k : ℕ) → int32 n ≡ pos k → k < 2147483648
unfolding int32
int32-below (pos n) k h = signed_32-below _ k h
int32-below (negsuc n) k h = signed_32-below _ k h

sized : (w : ℤ) (k : ℕ) → at_least_min w ≡ pos k → 2 ≤ k
unfolding at_least_min
sized (pos n) k h = ground (arith, h)
sized (negsuc n) k h = ground (arith, h)

size_of :
    (w : ℤ)
    → ((k : ℕ) → w ≡ pos k → k < 2147483648)
    → (m : ℕ) × (at_least_min w ≡ pos m) × (m < 2147483648)
unfolding at_least_min
size_of (negsuc k) h = (2, ground arith, omega arith)
size_of (pos k) h = elim (Bool-cases (ltb k 2)) [
  | inl t ↦ (2, ground (arith, t), omega arith)
  | inr f ↦ (k, ground (arith, f), h k refl)
]

-- Whatever number is configured, negative or beyond 32 bits, the pool gets a size of at least two
-- connections that is an int32.
pub max_conns-IsSize : (n : ℤ) → (m : ℕ) × IsSize n m
unfolding max_conns
max_conns-IsSize n =
    let (m, size, below) = size_of (int32 n) (int32-below n) in
    (m, record { size = size; at_least = sized (int32 n) m size; below = below })

-- A number from two to the largest int32 is the size of the pool as it is configured; 2 ^ 32 more is
-- the same size.
pub max_conns-configured :
    (n : ℕ)
    → 2 ≤ n
    → n < 2147483648
    → (max_conns (pos n) ≡ pos n) × (max_conns (pos (n + 4294967296)) ≡ pos n)
unfolding max_conns at_least_min int32
max_conns-configured n h k = (ground arith, ground arith)

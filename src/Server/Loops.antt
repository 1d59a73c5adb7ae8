-- ===== src/Server/Loops.antt =====
-- One round of the write loop and of the keep-alive loop in internal/server/connection.go. The
-- WebSocket is a parameter: whether a write or a ping fails.
use open_sync_crdt.Prelude.{zero, suc, Bool, [], ◌∷◌, if◌then◌else◌, arith}
use open_sync_crdt.Prelude.Int.{ℤ, pos, negsuc}
use open_sync_crdt.Server.{Conn, close}
use open_sync_crdt.Server.Safe.{Kept}

close_if : Bool → Conn → Conn
unfolding close
close_if fails c = if fails then close "write error" c else c

-- `writeLoop`: the oldest frame leaves the queue; a write that fails closes the connection.
unfoldable pub write_round : Bool → Conn → Conn
unfolding close_if
write_round fails c = elim c.queue [
  | [] ↦ c
  | frame ∷ rest ↦ close_if fails (record c { queue = rest })
]

-- `keepAlive`: no pings where the interval is not positive; a missed pong closes.
unfoldable pub ping_round : ℤ → Bool → Conn → Conn
unfolding close
ping_round (pos zero) missed c = c
ping_round (pos (suc interval)) missed c = if missed then close "ping timeout" c else c
ping_round (negsuc n) missed c = c

pub write_round-Kept : (fails : Bool) (c : Conn) → Kept c (write_round fails c)
unfolding write_round close
write_round-Kept fails c = record { subs = ground arith; bound = λ b. ground (arith, b) }

pub ping_round-Kept :
    (interval : ℤ) (missed : Bool) (c : Conn) → Kept c (ping_round interval missed c)
unfolding ping_round close
ping_round-Kept interval missed c = record { subs = ground arith; bound = λ b. ground (arith, b) }

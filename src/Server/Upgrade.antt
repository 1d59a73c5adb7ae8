-- ===== src/Server/Upgrade.antt =====
-- `HandleSync` in internal/server/server.go: the slot of a connection, from the limit to the end of
-- the connection. The WebSocket handshake is a parameter.
use open_sync_crdt.Prelude.{zero, suc, ◌≤◌, Bool, if◌then◌else◌, Result, ok, err, arith}
use open_sync_crdt.Prelude.Int.{ℤ, pos, negsuc}
use open_sync_crdt.Auth.{AuthError, unauthorized, failed, Identity}
use open_sync_crdt.Server.{Hub, try_register, release, at_limit}

-- How a request ends: a 503, 401 or 500 reply, a failed handshake, or a connection that was served.
pub data Ending : Type 0 where
  limit_reached not_authorized authorization_failed not_accepted served : Ending

module _ (accepts : Bool) (serve : Identity → Hub → Hub) where
  -- What follows the reservation, by the reply of the authenticator. `serve` is the whole life of
  -- the connection, with the deregistration at its end.
  unfoldable pub admit : Result AuthError Identity → Hub → Ending × Hub
  admit (err unauthorized) h = (not_authorized, release h)
  admit (err (failed what)) h = (authorization_failed, release h)
  admit (ok id) h = if accepts then (served, serve id h) else (not_accepted, release h)

  unfoldable pub upgrade : ℤ → Result AuthError Identity → Hub → Ending × Hub
  unfolding admit
  upgrade max auth h =
      let (reserved, h') = try_register max h in
      if reserved then admit auth h' else (limit_reached, h')

-- The limit on connections; a limit of 0 or below is none.
unfoldable pub IsWithin : ℤ → Hub → Type 0
IsWithin (pos zero) h = Unit
IsWithin (pos (suc m)) h = h.active ≤ suc m
IsWithin (negsuc m) h = Unit

-- A reservation keeps the connections within the limit.
pub try_register-IsWithin :
    (max : ℤ) (h : Hub) → IsWithin max h → IsWithin max (try_register max h).1
unfolding IsWithin try_register at_limit
try_register-IsWithin (pos zero) h within = tt
try_register-IsWithin (pos (suc m)) h within = ground (arith, within)
try_register-IsWithin (negsuc m) h within = tt

pub IsWithin-le : (max : ℤ) (g h : Hub) → g.active ≤ h.active → IsWithin max h → IsWithin max g
unfolding IsWithin
IsWithin-le (pos zero) g h fewer within = tt
IsWithin-le (pos (suc m)) g h fewer within = omega arith
IsWithin-le (negsuc m) g h fewer within = tt

pub release-active : (max : ℤ) (h : Hub) → (release (try_register max h).1).active ≤ h.active
unfolding release try_register
release-active max h = ground arith

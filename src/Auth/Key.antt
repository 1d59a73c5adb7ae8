-- ===== src/Auth/Key.antt =====
-- The cache key of the webhook mode in internal/auth/webhook.go.
use Prim.Native.String.{String, ◌++◌}

-- `token + "\x00" + docID`
unfoldable pub cache_key : String → String → String
cache_key token doc_id = token ++ ("\0" ++ doc_id)

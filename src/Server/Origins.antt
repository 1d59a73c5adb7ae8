-- ===== src/Server/Origins.antt =====
-- originPatterns, stripScheme and subprotocols of internal/server/server.go: the allowed origins as
-- the patterns that the WebSocket library checks.
use open_sync_crdt.Prelude.{
  Bool, List, [], ◌∷◌, ◌++◌, map, any_of, length, drop, if◌then◌else◌, ◌≡◌, refl,
}
use open_sync_crdt.Prelude.Text.{Text, codes, has_prefix, is_word}

abbrev schemes : List Text
schemes = codes "https://" ∷ codes "http://" ∷ codes "wss://" ∷ codes "ws://" ∷ []

strip_first : List Text → Text → Text
unfolding has_prefix
strip_first [] o = o
strip_first (p ∷ more) o =
    let rest = strip_first more o in if has_prefix o p then drop (length p) o else rest

unfoldable pub strip_scheme : Text → Text
unfolding strip_first
strip_scheme = strip_first schemes

abbrev is_star : Text → Bool
is_star o = is_word o "*"

unfoldable pub origin_patterns : List Text → List Text
unfolding is_word strip_scheme
origin_patterns allowed =
    if any_of is_star allowed then codes "*" ∷ [] else map strip_scheme allowed

unfoldable pub subprotocols : Text → List Text
subprotocols [] = []
subprotocols (c ∷ negotiated) = (c ∷ negotiated) ∷ []

-- A host, or a pattern of hosts, with any of the four schemes before it becomes the pattern; a scheme
-- that stands inside of it stays.
pub strip_scheme-host :
    (host : Text)
    → (strip_scheme (codes "https://" ++ host) ≡ host)
      × (strip_scheme (codes "http://" ++ host) ≡ host)
      × (strip_scheme (codes "wss://" ++ host) ≡ host)
      × (strip_scheme (codes "ws://" ++ host) ≡ host)
unfolding strip_scheme strip_first has_prefix
strip_scheme-host host = (refl, refl, refl, refl)

-- ===== src/Config/Validate/Usable/Exact.antt =====
-- Config.Validate of internal/config/config.go as a whole.
use open_sync_crdt.Prelude.{◌&&◌, [], ◌∷◌, ok, ◌≡◌, ◌↔◌}
use open_sync_crdt.Prelude.Int.{pos, ltb_ℤ}
use open_sync_crdt.Prelude.Text.{is_word}
use open_sync_crdt.Config.{Config}
use open_sync_crdt.Config.Validate.{
  refuse, snapshot_interval_low, max_retries_negative, cluster_on_sqlite, max_connections_low,
  max_message_size_low, port_fault, tls_fault, storage_fault, auth_fault, cluster_fault,
  level_fault, format_fault, validate,
}
use open_sync_crdt.Config.Validate.Usable.{IsUsable}
use open_sync_crdt.Config.Validate.Usable.Words.{first_fault-ok}
use open_sync_crdt.Config.Validate.Usable.Sections.{
  port_ok, tls_ok, storage_ok, auth_ok, cluster_ok, level_ok, format_ok, AtLeast-ok, shared_ok,
}

-- Validate accepts exactly the configurations that the server can run on: a port that exists, files
-- where TLS is on, a known storage with its directory or its URL, a known mode of authentication
-- with what it needs, a cluster only with a shared database and a Redis, limits of at least one, and
-- a known level and form of the log.
pub validate-IsUsable : (c : Config) → (validate c ≡ ok tt) ↔ IsUsable c
unfolding validate
validate-IsUsable c =
    let faults = first_fault-ok (
      port_fault c.server
      ∷ tls_fault c.tls
      ∷ storage_fault c.storage
      ∷ refuse (ltb_ℤ c.storage.snapshot_interval (pos 1)) snapshot_interval_low
      ∷ auth_fault c.auth
      ∷ refuse (ltb_ℤ c.webhooks.max_retries (pos 0)) max_retries_negative
      ∷ refuse (c.cluster.mode && is_word c.storage.backend "sqlite") cluster_on_sqlite
      ∷ cluster_fault c.cluster
      ∷ refuse (ltb_ℤ c.limits.max_connections (pos 1)) max_connections_low
      ∷ refuse (ltb_ℤ c.limits.max_message_size_bytes (pos 1)) max_message_size_low
      ∷ level_fault c.log
      ∷ format_fault c.log
      ∷ []) in
    let a = port_ok c.server in
    let b = tls_ok c.tls in
    let d = storage_ok c.storage in
    let e = AtLeast-ok 1 c.storage.snapshot_interval snapshot_interval_low in
    let f = auth_ok c.auth in
    let g = AtLeast-ok 0 c.webhooks.max_retries max_retries_negative in
    let i = shared_ok c.cluster.mode c.storage.backend in
    let j = cluster_ok c.cluster in
    let k = AtLeast-ok 1 c.limits.max_connections max_connections_low in
    let l = AtLeast-ok 1 c.limits.max_message_size_bytes max_message_size_low in
    let m = level_ok c.log in
    let n = format_ok c.log in
    (
      λ h.
          let r = faults.0 h in
          record {
            port = a.0 r.0;
            tls = b.0 r.1.0;
            storage = d.0 r.1.1.0;
            interval = e.0 r.1.1.1.0;
            auth = f.0 r.1.1.1.1.0;
            retries = g.0 r.1.1.1.1.1.0;
            shared = i.0 r.1.1.1.1.1.1.0;
            cluster = j.0 r.1.1.1.1.1.1.1.0;
            connections = k.0 r.1.1.1.1.1.1.1.1.0;
            message_size = l.0 r.1.1.1.1.1.1.1.1.1.0;
            level = m.0 r.1.1.1.1.1.1.1.1.1.1.0;
            format = n.0 r.1.1.1.1.1.1.1.1.1.1.1.0;
          },
      λ r. faults.1 (
          (
            a.1 r.port,
            (
              b.1 r.tls,
              (
                d.1 r.storage,
                (
                  e.1 r.interval,
                  (
                    f.1 r.auth,
                    (
                      g.1 r.retries,
                      (
                        i.1 r.shared,
                        (
                          j.1 r.cluster,
                          (
                            k.1 r.connections,
                            (l.1 r.message_size, (m.1 r.level, (n.1 r.format, tt))),
                          ),
                        ),
                      ),
                    ),
                  ),
                ),
              ),
            ),
          )),
    )

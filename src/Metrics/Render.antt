-- ===== src/Metrics/Render.antt =====
-- Render of internal/metrics/metrics.go: the registry in the Prometheus text format. `%q` of fmt and
-- `%g` of the seconds are parameters; the range over a map gives its keys in some order.
use mathlib.Core.List.{Permᴰ}
use open_sync_crdt.Prelude.{ℕ, String, List, [], ◌∷◌, ◌++◌, ◌≡◌, refl, ap}
use open_sync_crdt.Prelude.Int.{ℤ, pos}
use open_sync_crdt.Prelude.Map.{Map, lookup}
use open_sync_crdt.Prelude.Text.{Text, codes}
use open_sync_crdt.Prelude.Text.Decimal.{decimal}
use open_sync_crdt.Metrics.{Registry, count_of}
use open_sync_crdt.Metrics.Order.{sort_strings, sort_strings-Permᴰ}

-- The line feed.
abbrev line_end : Text
line_end = 10 ∷ []

-- `%q` of a string, and `%g` of `float64(n) / 1e9`.
pub record Format : Type 0 where
  pub quoted : String → Text
  pub as_seconds : ℕ → Text

unfoldable pub head_lines : String → String → String → Text
head_lines name help kind =
    codes "# HELP "
    ++ (codes name
        ++ (codes " "
            ++ (codes help
                ++ (line_end
                    ++ (codes "# TYPE "
                        ++ (codes name ++ (codes " " ++ (codes kind ++ line_end))))))))

unfoldable pub sample : Text → Text → Text
sample name v = name ++ (codes " " ++ (v ++ line_end))

unfoldable pub write_counter : String → String → ℕ → Text
unfolding head_lines sample decimal
write_counter name help v = head_lines name help "counter" ++ sample (codes name) (decimal (pos v))

unfoldable pub write_gauge : String → String → ℤ → Text
unfolding head_lines sample decimal
write_gauge name help v = head_lines name help "gauge" ++ sample (codes name) (decimal v)

-- The orders in which the three ranges give the keys.
pub record Orders : Type 0 where
  pub operations : List String
  pub calls : List String
  pub errors : List String

module _ (fmt : Format) where
  unfoldable pub write_rows : String → String → Map ℕ → List String → Text
  unfolding sample decimal count_of
  write_rows name label values [] = []
  write_rows name label values (k ∷ keys) =
      sample
        (codes name ++ (codes "{" ++ (codes label ++ (codes "=" ++ (fmt.quoted k ++ codes "}")))))
        (decimal (pos (count_of (lookup k values))))
      ++ write_rows name label values keys

  -- `writeLabeledCounter`, for the order in which the range gives the keys.
  unfoldable pub write_labeled_counter : String → String → String → Map ℕ → List String → Text
  unfolding head_lines write_rows sort_strings
  write_labeled_counter name help label [] order = head_lines name help "counter"
  write_labeled_counter name help label (kv ∷ values) order =
      head_lines name help "counter" ++ write_rows name label (kv ∷ values) (sort_strings order)

  unfoldable pub write_summary : ℕ → ℕ → Text
  unfolding head_lines sample decimal
  write_summary count sum =
      head_lines "opensynccrdt_storage_query_duration_seconds" "Storage query duration." "summary"
      ++ (sample (codes "opensynccrdt_storage_query_duration_seconds_count") (decimal (pos count))
          ++ sample (codes "opensynccrdt_storage_query_duration_seconds_sum") (fmt.as_seconds sum))

  -- `Render`
  unfoldable pub render : Registry → Orders → Text
  unfolding write_counter write_gauge write_labeled_counter write_summary
  render r o =
      write_counter "opensynccrdt_connections_total" "Total WebSocket connections opened."
        r.connections_total
      ++ (write_gauge "opensynccrdt_connections_active" "WebSocket connections currently open."
            r.connections_active
          ++ (write_labeled_counter "opensynccrdt_operations_total" "Total committed operations."
                "doc_id" r.operations o.operations
              ++ (write_counter "opensynccrdt_operations_errors_total"
                    "Total operations that failed to apply." r.operations_errors
                  ++ (write_labeled_counter "opensynccrdt_webhook_calls_total"
                        "Total webhook delivery attempts." "event" r.webhook_calls o.calls
                      ++ (write_labeled_counter "opensynccrdt_webhook_errors_total"
                            "Total webhook deliveries that failed after retries." "event"
                            r.webhook_errors o.errors
                          ++ (write_summary r.storage_query_count r.storage_query_sum
                              ++ write_counter "opensynccrdt_replay_operations_total"
                                  "Total operations delivered during replay."
                                  r.replay_operations))))))

  write_labeled_counter-same :
      (name help label : String) (values : Map ℕ) {ks ls : List String}
      → Permᴰ ks ls
      → write_labeled_counter name help label values ks
        ≡ write_labeled_counter name help label values ls
  unfolding write_labeled_counter
  write_labeled_counter-same name help label [] d = refl
  write_labeled_counter-same name help label (kv ∷ values) d =
      ap (λ ks. head_lines name help "counter" ++ write_rows name label (kv ∷ values) ks)
        (sort_strings-Permᴰ d)

  -- The text of a registry does not depend on the orders in which Go ranges over its maps: two
  -- renderings, with the keys of each map in any two orders, are the same.
  pub render-order :
      (r : Registry) (o o' : Orders)
      → Permᴰ o.operations o'.operations
      → Permᴰ o.calls o'.calls
      → Permᴰ o.errors o'.errors
      → render r o ≡ render r o'
  unfolding render
  render-order r o o' p q s = simp (
    write_labeled_counter-same _ _ _ r.operations p,
    write_labeled_counter-same _ _ _ r.webhook_calls q,
    write_labeled_counter-same _ _ _ r.webhook_errors s,
  )

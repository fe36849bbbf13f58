-- ===== src/Store/Metrics/System.antt =====
-- internal/store/metrics_store.go: the table system_metrics, and the latest values of a node.
use klever_node_hub.Prelude.{
  ℕ, ◌-◌, String, Bool, true, false, ◌&&◌, List, [], ◌∷◌, ◌++◌, Option, none, some, Map, insert,
  ◌==◌, string_eq, if◌then◌else◌, keep, ltb, leb,
}
use klever_node_hub.Store.Metrics.{RawRow, MetricsStore, sort_raw, purge_old_rows}

pub record SystemMetricsRow (F : Type 0) : Type 0 where
  pub server_id : String
  pub cpu_percent : F
  pub mem_percent : F
  pub mem_total : ℕ
  pub mem_used : ℕ
  pub disk_percent : F
  pub disk_total : ℕ
  pub disk_used : ℕ
  pub load_avg_1 : F
  pub collected_at : ℕ

module _ {F : Type 0} where
  -- InsertSystemMetrics
  unfoldable pub insert_system_metrics :
      Bool
      → String
      → SystemMetricsRow F
      → List (SystemMetricsRow F)
      → List (SystemMetricsRow F) × Bool
  insert_system_metrics io server m rows =
      if io then (rows ++ (record m { server_id = server } ∷ []), true) else (rows, false)

  -- ORDER BY collected_at
  unfoldable pub insert_system :
      SystemMetricsRow F → List (SystemMetricsRow F) → List (SystemMetricsRow F)
  insert_system r [] = r ∷ []
  insert_system r (q ∷ qs) =
      let rest = insert_system r qs in
      if leb r.collected_at q.collected_at then r ∷ q ∷ qs else q ∷ rest

  unfoldable pub sort_system : List (SystemMetricsRow F) → List (SystemMetricsRow F)
  sort_system [] = []
  sort_system (r ∷ rows) = insert_system r (sort_system rows)

  -- QuerySystemMetrics, oldest first; `none` for an error.
  unfoldable pub query_system_metrics :
      Bool → String → ℕ → ℕ → List (SystemMetricsRow F) → Option (List (SystemMetricsRow F))
  query_system_metrics io server from to rows =
      if io
      then some (
          sort_system (
            keep (λ r. r.server_id == server && leb from r.collected_at && leb r.collected_at to)
              rows))
      else none

  -- PurgeSystemMetrics
  unfoldable pub purge_system_metrics :
      (ℕ → Bool) → ℕ → ℕ → List (SystemMetricsRow F) → List (SystemMetricsRow F) × ℕ × Option Bool
  purge_system_metrics io now older_than rows =
      purge_old_rows (λ r. ltb r.collected_at (now - older_than)) io rows

  -- The value of the last row.
  abbrev pub last_value : List (RawRow F) → Option F
  last_value [] = none
  last_value (r ∷ []) = some r.metric_value
  last_value (r ∷ q ∷ rows) = last_value (q ∷ rows)

  abbrev pub add_latest : String → Option F → Map String F → Map String F
  add_latest name none result = result
  add_latest name (some value) result = insert name value result

  -- The loop of LatestNodeMetrics; `io` says for each name whether its query succeeds.
  unfoldable pub latest_node_metrics :
      (String → Bool) → String → List String → MetricsStore F → Map String F → Map String F
  latest_node_metrics io node [] s result = result
  latest_node_metrics io node (name ∷ names) s result =
      let rows = keep (λ r. r.node_id == node && r.metric_name == name) s.recent in
      let found = if io name then last_value (sort_raw rows) else none in
      latest_node_metrics io node names s (add_latest name found result)

-- ===== src/Alerting/Evaluate/Round.antt =====
-- internal/dashboard/alerting/evaluator.go: the rules on the metrics of servers, and one round over all
-- rules, `evaluate`. The answers of the stores are arguments, `none` for an error.
use klever_node_hub.Prelude.{
  ℕ, ◌-◌, String, Bool, List, [], ◌∷◌, Option, none, some, ◌==◌, string_eq, if◌then◌else◌, ◌||◌,
}
use klever_node_hub.Alerting.Rules.{Numbers, AlertRule, check_condition}
use klever_node_hub.Alerting.Process.{
  Io, Evaluator, process_result, mark_normal, resolve_stale_alerts, unix,
}
use klever_node_hub.Store.Metrics.System.{SystemMetricsRow}
use klever_node_hub.Alerting.Evaluate.{
  Node, Server, Point, server_key, server_sample, evaluate_node_rule, evaluate_node_status_rule,
  evaluate_heartbeat_rule,
}

abbrev pub system_metrics : String → Bool
system_metrics name = name == "cpu_percent" || name == "mem_percent" || name == "disk_percent"

-- What a round reads: QueryRecent, QuerySystemMetrics, the connections of the hub, and the limit of
-- the heartbeat rule.
pub record Sources (F : Type 0) : Type 0 where
  pub query : String → String → ℕ → ℕ → Option (List (Point F))
  pub query_system : String → ℕ → ℕ → Option (List (SystemMetricsRow F))
  pub connected : String → Bool
  pub heartbeat_limit : AlertRule F → F

module _ {F : Type 0} (n : Numbers F) where
  -- The last row of the answer.
  abbrev pub last_row : List (SystemMetricsRow F) → Option (SystemMetricsRow F)
  last_row [] = none
  last_row (r ∷ []) = some r
  last_row (r ∷ q ∷ rows) = last_row (q ∷ rows)

  abbrev pub last_of : Option (List (SystemMetricsRow F)) → Option (SystemMetricsRow F)
  last_of none = none
  last_of (some rows) = last_row rows

  -- The switch of evaluateSystemRule; `none` is its default.
  abbrev pub system_value : String → SystemMetricsRow F → Option F
  system_value name row =
      if name == "cpu_percent"
      then some row.cpu_percent
      else if name == "mem_percent"
      then some row.mem_percent
      else if name == "disk_percent"
      then some row.disk_percent
      else none

  abbrev pub judge_value : Io → AlertRule F → Server → Option F → Evaluator F → Evaluator F
  judge_value io rule srv none e = e
  judge_value io rule srv (some value) e =
      let breached = check_condition n rule.condition value rule.threshold in
      process_result n io (server_sample n rule srv value breached) e

  abbrev pub judge_system :
      Io → AlertRule F → Server → Option (SystemMetricsRow F) → Evaluator F → Evaluator F
  judge_system io rule srv none e = mark_normal n io (server_key rule srv) e
  judge_system io rule srv (some row) e =
      judge_value io rule srv (system_value rule.metric_name row) e

  -- evaluateSystemRule
  unfoldable pub evaluate_system_rule :
      Sources F → Io → AlertRule F → ℕ → ℕ → List Server → Evaluator F → Evaluator F
  evaluate_system_rule s io rule from to [] e = e
  evaluate_system_rule s io rule from to (srv ∷ srvs) e =
      evaluate_system_rule s io rule from to srvs
        (judge_system io rule srv (last_of (s.query_system srv.id from to)) e)

  -- The loop body of evaluate; the lookback is two minutes.
  unfoldable pub evaluate_rule :
      Sources F → Io → List Node → List Server → AlertRule F → Evaluator F → Evaluator F
  evaluate_rule s io nodes servers rule e =
      let to = unix io.now in
      let from = to - 120 in
      if system_metrics rule.metric_name
      then evaluate_system_rule s io rule from to servers e
      else if rule.metric_name == "agent.heartbeat"
      then evaluate_heartbeat_rule n s.connected (s.heartbeat_limit rule) io rule servers e
      else if rule.metric_name == "node.status"
      then evaluate_node_status_rule n io rule nodes e
      else evaluate_node_rule n s.query io rule from to nodes e

  unfoldable pub evaluate_rules :
      Sources F → Io → List Node → List Server → List (AlertRule F) → Evaluator F → Evaluator F
  evaluate_rules s io nodes servers [] e = e
  evaluate_rules s io nodes servers (rule ∷ rules) e =
      evaluate_rules s io nodes servers rules (evaluate_rule s io nodes servers rule e)

  -- evaluate, from the answers of ListEnabledRules, ListAll and List.
  unfoldable pub evaluate :
      Sources F
      → Io
      → Option (List (AlertRule F))
      → Option (List Node)
      → Option (List Server)
      → Evaluator F
      → Evaluator F
  evaluate s io (some (rule ∷ rules)) (some nodes) (some servers) e =
      resolve_stale_alerts n io (evaluate_rules s io nodes servers (rule ∷ rules) e)
  evaluate s io _ _ _ e = e

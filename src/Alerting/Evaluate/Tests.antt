-- ===== src/Alerting/Evaluate/Tests.antt =====
-- A nonce that stood still, and a node that is down for maintenance.
use klever_node_hub.Prelude.{ℕ, ◌≡◌, String, Bool, true, false, [], ◌∷◌, keep, string_eq}
use klever_node_hub.Alerting.Rules.{AlertRule, eq}
use klever_node_hub.Alerting.Process.{Io, Evaluator}
use klever_node_hub.Alerting.Defaults.Tests.{whole_numbers}
use klever_node_hub.Alerting.Evaluate.{Node, Point, evaluate_node_status_rule}
use klever_node_hub.Alerting.Evaluate.Stall.{evaluate_node_status_rule-keep}

abbrev point : ℕ → ℕ → Point ℕ
point v at = record { value = v; collected_at = at }

abbrev rule : AlertRule ℕ
rule = record {
  id = "r";
  name = "Node Offline";
  enabled = true;
  metric_name = "node.status";
  condition = eq;
  threshold = 1;
  duration_sec = 30;
  severity = "critical";
  node_filter = "*";
  cooldown_min = 5;
  builtin = true;
}

abbrev node : String → Bool → Node
node id maintenance = record {
  id = id;
  server_id = "s";
  container_name = id;
  status = "exited";
  maintenance = maintenance;
}

abbrev io : Io
io = record { now = 100; query_ok = true; create_ok = true; update_ok = true }

abbrev idle : Evaluator ℕ
idle = record { states = []; db = []; sent = []; id_counter = 0 }

evaluate_node_status_rule-keep_example :
    evaluate_node_status_rule whole_numbers io rule (node "a" true ∷ node "b" false ∷ []) idle
    ≡ evaluate_node_status_rule whole_numbers io rule (node "b" false ∷ []) idle
unfolding keep
evaluate_node_status_rule-keep_example =
    evaluate_node_status_rule-keep whole_numbers io rule (node "a" true ∷ node "b" false ∷ []) idle
